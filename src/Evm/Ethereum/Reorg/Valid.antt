-- ===== src/Evm/Ethereum/Reorg/Valid.antt =====
-- A reorg keeps the invariant of the Ethereum tracker.
use mathlib.Core.Path.{subst}
use multichain_rs.Prelude.{
  ℕ, suc, ◌+◌, ◌≤◌, ◌≡◌, refl, sym, ap, ◌∙◌, inl, inr, true, Option, none, some, List, ◌∷◌, reverse,
  arith, ◌==◌, nat_beq_iff, nat_eq, string_eq, option_eq, Bool-cases, Option-cases, u64_max, length,
  All,
}
use multichain_rs.Dict
use multichain_rs.Exec.{ok}
use multichain_rs.Evm.Block.{B256, ExecutionBlock, Blocks, Heights, is_canonical_at}
use multichain_rs.Evm.Line.{Headers, IsSealed, IsLine}
use multichain_rs.Evm.Segment.{
  Ascends, Ascends-is_contiguous, Under, top_after, segment-IsLine, blocks_after, heights_after,
  heights_after-below, heights_after-last, heights_without, without-IsLine, lt_segment,
}
use multichain_rs.Evm.Ethereum.{EthereumCanonicality, EthereumRevision, reorg, kept_safe}
use multichain_rs.Evm.Ethereum.Valid.{IsValid, next_number}
use multichain_rs.Evm.Ethereum.Reorg.{Reorgs, reorganized, reorg-ok}

kept_safe-some :
    (canonical : Heights) (safe : Option B256) (h : B256)
    → kept_safe canonical safe ≡ some h
    → (safe ≡ some h) × ((n : ℕ) × (Dict.get canonical n ≡ some h))
unfolding kept_safe
kept_safe-some canonical none h e = absurd (cc e)
kept_safe-some canonical (some c) h e = elim (Bool-cases (Dict.any_value (λ x. x == c) canonical)) [
  | inl hit ↦
      let (n, v, found, good) = Dict.any_value_sound (λ x. x == c) canonical hit in
      (ground arith, (n, ground (arith, nat_beq_iff v c)))
  | inr miss ↦ absurd (ground arith)
]

canonical-at :
    (b : ExecutionBlock) (canonical : Heights)
    → is_canonical_at canonical b ≡ true
    → Dict.get canonical b.number ≡ some b.hash
unfolding is_canonical_at
canonical-at b canonical h = elim (Option-cases (Dict.get canonical b.number)) [
  | inl missing ↦ absurd (ground arith)
  | inr (g, e) ↦ ground (arith, nat_beq_iff g b.hash)
]

module _ (net : Headers) where
  open net use {header, bounded}

  -- The first removed block is canonical, so its parent is what lies below it.
  Under-old :
      (o : ExecutionBlock) (blocks : Blocks) (canonical : Heights) (top : ℕ)
      → IsLine net blocks canonical top
      → IsSealed net o
      → is_canonical_at canonical o ≡ true
      → Under canonical o.number o.parent_hash
  unfolding is_canonical_at
  Under-old o blocks canonical top v seal at m g e f =
      let here : Dict.get canonical (suc m) ≡ some o.hash =
        ap (Dict.get canonical) e ∙ canonical-at o canonical at in
      ground (arith, v.linked m g o.hash f here)

  reorganized-IsValid :
      (o : ExecutionBlock) (os : List ExecutionBlock) (n : ExecutionBlock)
      (ns : List ExecutionBlock) (s : EthereumCanonicality)
      → IsValid net s
      → All (IsSealed net) (o ∷ os)
      → All (IsSealed net) (n ∷ ns)
      → Reorgs o (o ∷ os) n (n ∷ ns) s
      → s.revision + length (reverse (o ∷ os)) + length (n ∷ ns) ≤ u64_max
      → IsValid net (reorganized s (o ∷ os) (n ∷ ns))
  reorganized-IsValid o os n ns s v old_seals new_seals r room =
      let up_old : Ascends o.number o.parent_hash (o ∷ os) =
        (refl, refl, Ascends-is_contiguous net o os old_seals r.old_row) in
      let up_new : Ascends n.number n.parent_hash (n ∷ ns) =
        (refl, refl, Ascends-is_contiguous net n ns new_seals r.new_row) in
      let (h, last, n_h, _) =
        heights_after-last net s.canonical o.number o.parent_hash o os up_old old_seals in
      let head : s.head ≡ some h = sym r.suffix ∙ last in
      let full : IsLine net s.blocks s.canonical (top_after o.number (o ∷ os)) =
        subst (IsLine net s.blocks s.canonical) (ap (next_number net) head ∙ n_h) v.line in
      let (cut, same) =
        without-IsLine net s.blocks s.canonical o.number o.parent_hash (o ∷ os) full up_old in
      let under =
        Under-old o s.blocks s.canonical (next_number net s.head) v.line old_seals.0
          (ground (arith, r.old_canonical)) in
      let middle = heights_without s.canonical (reverse (o ∷ os)) in
      let cut_n : IsLine net s.blocks middle n.number =
        subst (IsLine net s.blocks middle) r.same_number cut in
      let grown =
        segment-IsLine net s.blocks middle n.number n.parent_hash (n ∷ ns) cut_n
          (λ m g e f.
            sym r.same_parent
            ∙ under m g (e ∙ sym r.same_number) (sym (same m (omega (arith, r.same_number))) ∙ f))
          new_seals up_new in
      let (t, last_n, n_t, at_t) =
        heights_after-last net middle n.number n.parent_hash n ns up_new new_seals in
      let canonical = heights_after middle (n ∷ ns) in
      record {
        line =
            subst (IsLine net (blocks_after s.blocks (n ∷ ns)) canonical)
              (sym n_t ∙ ap (next_number net) (sym last_n)) grown;
        tip = λ c e. ground arith;
        safe_canonical = λ c e.
            let (_, (m, found)) = kept_safe-some canonical s.safe c e in
            let st = grown.stored m c found in ground arith;
        finalized_canonical = λ f e.
            let at = v.finalized_canonical f e in
            let below =
              lt_segment net s.canonical o.number o.parent_hash (o ∷ os) (header f).number f up_old
                r.old_canonical at (full.below (header f).number f at) (r.spared f e) in
            heights_after-below net middle n.number n.parent_hash (n ∷ ns) (header f).number up_new
              (omega (arith, r.same_number))
            ∙ same (header f).number below
            ∙ at;
        ordered = λ f c e g. v.ordered f c e (kept_safe-some canonical s.safe c g).0;
        revision_fits = room;
      }

  pub reorg-IsValid :
      (old news : List ExecutionBlock) (s s' : EthereumCanonicality) (rs : List EthereumRevision)
      → IsValid net s
      → All (IsSealed net) old
      → All (IsSealed net) news
      → reorg old news s ≡ (ok rs, s')
      → IsValid net s'
  unfolding reorg
  reorg-IsValid List.[] news s s' rs v so sn h = absurd (ground arith)
  reorg-IsValid (o ∷ os) List.[] s s' rs v so sn h = absurd (ground arith)
  reorg-IsValid (o ∷ os) (n ∷ ns) s s' rs v so sn h =
      let (r, room, after, _) = reorg-ok o os n ns s s' rs v.revision_fits h in
      subst (IsValid net) (sym after) (reorganized-IsValid o os n ns s v so sn r room)
