-- ===== src/Evm/Segment.antt =====
-- Whole segments on the canonical line: what the loops of both trackers leave in the two maps, and
-- that a segment which passes the checks keeps the line.
use mathlib.Core.Path.{subst}
use mathlib.Core.List.{reverse-append}
use multichain_rs.Prelude.{
  ℕ, suc, ◌<◌, ◌≡◌, refl, sym, ap, ◌∙◌, true, false, some, List, [], ◌∷◌, ◌++◌, reverse, arith,
  ◌==◌, nat_beq_iff, nat_eq, string_eq, option_eq, any, all, last?, All,
}
use multichain_rs.Dict
use multichain_rs.Dict.{get-insert, get-remove}
use multichain_rs.Evm.Block.{
  B256, ExecutionBlock, Blocks, Heights, is_contiguous, is_canonical_at, hash_of,
}
use multichain_rs.Evm.Line.{Headers, IsSealed, IsLine, push-IsLine, pop-IsLine}

-- The maps after a segment has been put on top, and the heights after blocks have been taken away.
unfoldable pub blocks_after : Blocks → List ExecutionBlock → Blocks
blocks_after blocks [] = blocks
blocks_after blocks (b ∷ bs) = blocks_after (Dict.insert blocks b.hash b) bs

unfoldable pub heights_after : Heights → List ExecutionBlock → Heights
heights_after canonical [] = canonical
heights_after canonical (b ∷ bs) = heights_after (Dict.insert canonical b.number b.hash) bs

unfoldable pub heights_without : Heights → List ExecutionBlock → Heights
heights_without canonical [] = canonical
heights_without canonical (b ∷ bs) = heights_without (Dict.remove canonical b.number) bs

heights_without-append :
    (canonical : Heights) (xs ys : List ExecutionBlock)
    → heights_without canonical (xs ++ ys) ≡ heights_without (heights_without canonical xs) ys
unfolding heights_without
heights_without-append canonical [] ys = refl
heights_without-append canonical (x ∷ xs) ys =
    heights_without-append (Dict.remove canonical x.number) xs ys

heights_without-reverse :
    (canonical : Heights) (b : ExecutionBlock) (bs : List ExecutionBlock)
    → Dict.remove (heights_without canonical (reverse bs)) b.number
      ≡ heights_without canonical (reverse (b ∷ bs))
unfolding heights_without
heights_without-reverse canonical b bs = sym (
    ap (heights_without canonical) (reverse-append (b ∷ []) bs)
    ∙ heights_without-append canonical (reverse bs) (b ∷ []))

-- The blocks have the numbers from `top` on, and each names the one before it as its parent.
abbrev pub Ascends : ℕ → B256 → List ExecutionBlock → Type 0
Ascends top parent [] = Unit
Ascends top parent (b ∷ bs) =
    (b.number ≡ top) × (b.parent_hash ≡ parent) × Ascends (suc top) b.hash bs

-- The block below `top`, if there is one, is `parent`.
abbrev pub Under : Heights → ℕ → B256 → Type 0
Under canonical top parent =
    (n : ℕ) (g : B256) → suc n ≡ top → Dict.get canonical n ≡ some g → parent ≡ g

-- The number after the last block of a segment that begins at `top`.
abbrev pub top_after : ℕ → List ExecutionBlock → ℕ
top_after top [] = top
top_after top (b ∷ bs) = top_after (suc top) bs

module _ (net : Headers) where
  open net use {header, bounded}

  pub Ascends-is_contiguous :
      (b : ExecutionBlock) (bs : List ExecutionBlock)
      → All (IsSealed net) (b ∷ bs)
      → is_contiguous (b ∷ bs) ≡ true
      → Ascends (suc b.number) b.hash bs
  unfolding is_contiguous
  Ascends-is_contiguous b [] seals h = tt
  Ascends-is_contiguous b (c ∷ bs) (sb, rest) h =
      let next : c.number ≡ suc b.number =
        ground (arith, bounded b.hash, nat_beq_iff c.number (suc b.number)) in
      let above = Ascends-is_contiguous c bs rest (ground arith) in
      (
        next,
        ground (arith, nat_beq_iff c.parent_hash b.hash),
        subst (λ n. Ascends (suc n) c.hash bs) next above,
      )

  pub segment-IsLine :
      (blocks : Blocks) (canonical : Heights) (top : ℕ) (parent : B256) (bs : List ExecutionBlock)
      → IsLine net blocks canonical top
      → Under canonical top parent
      → All (IsSealed net) bs
      → Ascends top parent bs
      → IsLine net (blocks_after blocks bs) (heights_after canonical bs) (top_after top bs)
  unfolding blocks_after heights_after
  segment-IsLine blocks canonical top parent [] v under seals up = v
  segment-IsLine blocks canonical top parent (b ∷ bs) v under seals up =
      segment-IsLine (Dict.insert blocks b.hash b) (Dict.insert canonical b.number b.hash) (suc top)
        b.hash bs
        (push-IsLine net blocks canonical top b v seals.0 up.0
          (λ n g e f. ground (arith, under n g e f)))
        (λ n g e f. ground (arith, get-insert canonical b.number n b.hash)) seals.1 up.2

  -- Entries below the segment stay.
  pub heights_after-below :
      (canonical : Heights) (top : ℕ) (parent : B256) (bs : List ExecutionBlock) (n : ℕ)
      → Ascends top parent bs
      → n < top
      → Dict.get (heights_after canonical bs) n ≡ Dict.get canonical n
  unfolding heights_after
  heights_after-below canonical top parent [] n up lt = refl
  heights_after-below canonical top parent (b ∷ bs) n up lt = ground (
    arith,
    heights_after-below (Dict.insert canonical b.number b.hash) (suc top) b.hash bs n up.2,
    get-insert canonical b.number n b.hash,
  )

  -- The last block of the segment ends up at its number, the one below the new top.
  pub heights_after-last :
      (canonical : Heights) (top : ℕ) (parent : B256) (b : ExecutionBlock)
      (bs : List ExecutionBlock)
      → Ascends top parent (b ∷ bs)
      → All (IsSealed net) (b ∷ bs)
      → (h : B256) × (hash_of (last? (b ∷ bs)) ≡ some h)
        × (suc (header h).number ≡ top_after top (b ∷ bs))
        × (Dict.get (heights_after canonical (b ∷ bs)) (header h).number ≡ some h)
  unfolding heights_after
  heights_after-last canonical top parent b [] up seals =
      (b.hash, refl, ground arith, ground (arith, get-insert canonical b.number b.number b.hash))
  heights_after-last canonical top parent b (c ∷ bs) up seals =
      heights_after-last (Dict.insert canonical b.number b.hash) (suc top) b.hash c bs up.2 seals.1

  -- Taking a segment away from the top, last block first: the line ends where the segment began,
  -- and what is below stays.
  pub without-IsLine :
      (blocks : Blocks) (canonical : Heights) (top : ℕ) (parent : B256) (bs : List ExecutionBlock)
      → IsLine net blocks canonical (top_after top bs)
      → Ascends top parent bs
      → IsLine net blocks (heights_without canonical (reverse bs)) top
        × ((n : ℕ)
            → n < top
            → Dict.get (heights_without canonical (reverse bs)) n ≡ Dict.get canonical n)
  unfolding heights_without
  without-IsLine blocks canonical top parent [] v up = (v, λ n lt. refl)
  without-IsLine blocks canonical top parent (b ∷ bs) v up =
      let (line, same) = without-IsLine blocks canonical (suc top) b.hash bs v up.2 in
      let b_top : b.number ≡ top = up.0 in
      let popped = pop-IsLine net blocks (heights_without canonical (reverse bs)) top line in
      subst
        (λ c. IsLine net blocks c top × ((n : ℕ) → n < top → Dict.get c n ≡ Dict.get canonical n))
        (ap (Dict.remove (heights_without canonical (reverse bs))) (sym b_top)
          ∙ heights_without-reverse canonical b bs)
        (
          popped,
          λ n lt. ground (arith, same n, get-remove (heights_without canonical (reverse bs)) top n),
        )

  -- A canonical block that is no block of the segment is below it.
  pub lt_segment :
      (canonical : Heights) (top : ℕ) (parent : B256) (bs : List ExecutionBlock) (n : ℕ) (f : B256)
      → Ascends top parent bs
      → all (is_canonical_at canonical) bs ≡ true
      → Dict.get canonical n ≡ some f
      → n < top_after top bs
      → any (λ b. b.hash == f) bs ≡ false
      → n < top
  unfolding is_canonical_at
  lt_segment canonical top parent [] n f up canon e lt none_of = lt
  lt_segment canonical top parent (b ∷ bs) n f up canon e lt none_of =
      ground (arith, lt_segment canonical (suc top) b.hash bs n f up.2, nat_beq_iff b.hash f)
