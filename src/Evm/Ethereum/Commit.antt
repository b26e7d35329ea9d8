-- ===== src/Evm/Ethereum/Commit.antt =====
-- `commit_segment` of the Ethereum tracker.
use native.Mathlib.Decide.{dec_le}
use mathlib.Core.Path.{subst}
use multichain_rs.Prelude.{
  ℕ, suc, ◌+◌, ◌≤◌, ◌≡◌, refl, sym, ap, ◌∙◌, ◌≢◌, ◌⊎◌, inl, inr, true, some, List, [], ◌∷◌, arith,
  nat_beq_iff, nat_eq, string_eq, option_eq, Option-cases, u64_max, length, All,
}
use multichain_rs.Dict
use multichain_rs.Exec.{ok, err, panic, diverge}
use multichain_rs.Evm.Block.{B256, ExecutionBlock, is_contiguous}
use multichain_rs.Evm.Line.{bare-IsLine, Headers, IsSealed, IsLine}
use multichain_rs.Evm.Segment.{
  Ascends, Ascends-is_contiguous, Under, segment-IsLine, blocks_after, heights_after,
  heights_after-below, heights_after-last,
}
use multichain_rs.Evm.Ethereum.{
  EthereumCanonicality, EthereumRevision, EthereumError, commit_segment, commit_blocks, block,
  commit_block, next_revision, validate_segment, extends_head,
}
use multichain_rs.Evm.Status.{EthereumStatus}
use multichain_rs.Evm.Ethereum.Loops.{
  numbered, commit_blocks_lem, commit_blocks_panics, committed, head_after, head_after-last,
}
use multichain_rs.Evm.Ethereum.Valid.{IsValid, next_number}

-- How a call that returns revisions went: a replay changes nothing, otherwise the loop ran.
pub commit_segment-ok :
    (b : ExecutionBlock) (bs : List ExecutionBlock) (s s' : EthereumCanonicality)
    (rs : List EthereumRevision)
    → commit_segment (b ∷ bs) s ≡ (ok rs, s')
    → ((s' ≡ s) × (rs ≡ []))
      ⊎ ((is_contiguous (b ∷ bs) ≡ true)
          × (extends_head b s ≡ ok tt)
          × (commit_blocks (b ∷ bs) s ≡ (ok rs, s')))
unfolding commit_segment validate_segment
commit_segment-ok b bs s s' rs h = ground arith

pub commit_blocks-ok :
    (bs : List ExecutionBlock) (s s' : EthereumCanonicality) (rs : List EthereumRevision)
    → s.revision ≤ u64_max
    → commit_blocks bs s ≡ (ok rs, s')
    → (s.revision + length bs ≤ u64_max)
      × (s' ≡ committed s bs)
      × (rs ≡ numbered EthereumStatus.canonical_head s.revision bs)
commit_blocks-ok bs s s' rs fits h = elim (dec_le (s.revision + length bs) u64_max) [
  | yes room ↦
      let same = sym h ∙ commit_blocks_lem bs s room in (room, ap (λ r. r.1) same, ground arith)
  | no short ↦ absurd (ground (arith, commit_blocks_panics bs s))
]

module _ (net : Headers) where
  open net use {header, bounded}

  -- A block that passes the check of `extends_head` fits on the line.
  extends_head-fits :
      (b : ExecutionBlock) (s : EthereumCanonicality)
      → IsValid net s
      → IsSealed net b
      → extends_head b s ≡ ok tt
      → IsLine net s.blocks s.canonical b.number × Under s.canonical b.number b.parent_hash
  unfolding extends_head block
  extends_head-fits b s v seal h = elim (Option-cases s.head) [
    | inl fresh ↦
        let bare : IsLine net s.blocks s.canonical 0 =
          subst (λ o. IsLine net s.blocks s.canonical (next_number net o)) fresh v.line in
        (
          bare-IsLine net s.blocks s.canonical b.number bare,
          λ n g e f. absurd (omega (arith, bare.below n g f)),
        )
    | inr (t, e) ↦
        let up = v.tip t e in
        let st = v.line.stored (header t).number t up in
        let kn = v.line.known t (header t) st.0 in
        let fits : (b.number ≡ suc (header t).number) × (b.parent_hash ≡ t) = ground (
          arith,
          bounded t,
          nat_beq_iff b.number (suc (header t).number),
          nat_beq_iff b.parent_hash t,
        ) in
        let line : IsLine net s.blocks s.canonical (suc (header t).number) =
          subst (λ o. IsLine net s.blocks s.canonical (next_number net o)) e v.line in
        (subst (IsLine net s.blocks s.canonical) (sym fits.0) line, λ n g en f. ground arith)
  ]

  -- The state after a segment that fits: the head moves to its last block.
  committed-IsValid :
      (s : EthereumCanonicality) (b : ExecutionBlock) (bs : List ExecutionBlock)
      → IsValid net s
      → All (IsSealed net) (b ∷ bs)
      → is_contiguous (b ∷ bs) ≡ true
      → extends_head b s ≡ ok tt
      → s.revision + length (b ∷ bs) ≤ u64_max
      → IsValid net (committed s (b ∷ bs))
  committed-IsValid s b bs v seals row ext room =
      let (line, under) = extends_head-fits b s v seals.0 ext in
      let up : Ascends b.number b.parent_hash (b ∷ bs) =
        (refl, refl, Ascends-is_contiguous net b bs seals row) in
      let (h, last, n, at) =
        heights_after-last net s.canonical b.number b.parent_hash b bs up seals in
      let head : head_after s.head (b ∷ bs) ≡ some h = head_after-last s.head b bs ∙ last in
      let lifted =
        segment-IsLine net s.blocks s.canonical b.number b.parent_hash (b ∷ bs) line under seals
          up in
      let kept : (m : ℕ) (c : B256)
          → Dict.get s.canonical m ≡ some c
          → Dict.get (heights_after s.canonical (b ∷ bs)) m ≡ some c =
        λ m c e.
          heights_after-below net s.canonical b.number b.parent_hash (b ∷ bs) m up
            (line.below m c e)
          ∙ e in
      record {
        line =
            subst (IsLine net (blocks_after s.blocks (b ∷ bs)) (heights_after s.canonical (b ∷ bs)))
              (sym n ∙ ap (next_number net) (sym head)) lifted;
        tip = λ c e. ground arith;
        safe_canonical = λ c e. kept (header c).number c (v.safe_canonical c e);
        finalized_canonical = λ c e. kept (header c).number c (v.finalized_canonical c e);
        ordered = v.ordered;
        revision_fits = room;
      }

  pub commit_segment-IsValid :
      (bs : List ExecutionBlock) (s s' : EthereumCanonicality) (rs : List EthereumRevision)
      → IsValid net s
      → All (IsSealed net) bs
      → commit_segment bs s ≡ (ok rs, s')
      → IsValid net s'
  unfolding commit_segment
  commit_segment-IsValid [] s s' rs v seals h = subst (IsValid net) (ap (λ p. p.1) h) v
  commit_segment-IsValid (b ∷ bs) s s' rs v seals h = elim (commit_segment-ok b bs s s' rs h) [
    | inl (same, _) ↦ subst (IsValid net) (sym same) v
    | inr (row, ext, ran) ↦
        let (room, after, _) = commit_blocks-ok (b ∷ bs) s s' rs v.revision_fits ran in
        subst (IsValid net) (sym after) (committed-IsValid s b bs v seals row ext room)
  ]

-- The loop returns or panics.
commit_blocks-ne-err :
    (bs : List ExecutionBlock) (s s' : EthereumCanonicality) (e : EthereumError)
    → commit_blocks bs s ≢ (err e, s')
unfolding commit_blocks commit_block next_revision
commit_blocks-ne-err [] s s' e h = ground arith
commit_blocks-ne-err (b ∷ bs) s s' e h =
    let u : EthereumCanonicality = record s {
      blocks = Dict.insert s.blocks b.hash b;
      canonical = Dict.insert s.canonical b.number b.hash;
      head = some b.hash;
      revision = s.revision + 1;
    } in
    ground (arith, commit_blocks-ne-err bs u s' e)

pub commit_segment-err :
    (bs : List ExecutionBlock) (s s' : EthereumCanonicality) (e : EthereumError)
    → commit_segment bs s ≡ (err e, s')
    → s' ≡ s
unfolding commit_segment validate_segment
commit_segment-err [] s s' e h = ground arith
commit_segment-err (b ∷ bs) s s' e h = ground (arith, commit_blocks-ne-err (b ∷ bs) s s' e)

-- With revision numbers for its blocks, the call neither panics nor runs on.
pub commit_segment_returns :
    (bs : List ExecutionBlock) (s : EthereumCanonicality)
    → s.revision + length bs ≤ u64_max
    → ((commit_segment bs s).0 ≢ panic) × ((commit_segment bs s).0 ≢ diverge)
unfolding commit_segment validate_segment extends_head block
commit_segment_returns [] s room = ground arith
commit_segment_returns (b ∷ bs) s room = ground (arith, commit_blocks_lem (b ∷ bs) s)
