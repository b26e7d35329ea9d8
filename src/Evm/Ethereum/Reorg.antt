-- ===== src/Evm/Ethereum/Reorg.antt =====
-- `reorg` of the Ethereum tracker.
pub mod Valid
use native.Mathlib.Decide.{dec_le}
use mathlib.Core.Path.{subst}
use multichain_rs.Prelude.{
  ℕ, zero, suc, ◌+◌, ◌-◌, ◌*◌, ◌/◌, ◌%◌, ◌^◌, ◌≤◌, ◌<◌, min, String, ◌≡◌, refl, sym, ap, ◌∙◌,
  fun_ext, ◌≢◌, ◌↔◌, ◌⊎◌, inl, inr, Bool, true, false, ◌&&◌, ◌||◌, not, Option, none, some, List,
  [], ◌∷◌, ◌++◌, map, reverse, arith, ltb, leb, nat_beq, if◌then◌else◌, Eq, ◌==◌, nat_beq_iff,
  nat_eq, string_eq, option_beq, option_beq_iff, option_eq, Bool-cases, Option-cases, u64_max,
  saturating_add, checked_add, length, length-append, length-reverse, any, all, last?, All,
  All-append, is_whitespace, is_blank, is_ascii,
}
use multichain_rs.Dict
use multichain_rs.Exec.{
  Outcome, ok, err, panic, diverge, Exec, pure, raise, reads, current, modify, ok_or, ensure,
  and_then, or_else, negated, continue, ◌>>=◌, ◌>>◌,
}
use multichain_rs.Evm.Status.{EthereumStatus}
use multichain_rs.Evm.Block.{
  B256, ExecutionBlock, Blocks, Heights, is_contiguous, is_canonical_at, hash_of,
}
use multichain_rs.Evm.Line.{Headers, IsSealed, IsLine}
use multichain_rs.Evm.Segment.{
  Ascends, Ascends-is_contiguous, Under, top_after, segment-IsLine, blocks_after, heights_after,
  heights_after-below, heights_after-last, heights_without, without-IsLine, lt_segment,
}
use multichain_rs.Evm.Ethereum.{
  EthereumCanonicality, EthereumRevision, EthereumError, reorg, check_reorg, check_finalized_kept,
  validate_segment, kept_safe, connect_blocks, connect_block, disconnect_blocks, disconnect_block,
  next_revision,
}
use multichain_rs.Evm.Ethereum.Loops.{
  numbered, connect_blocks_lem, connect_blocks_panics, connected, disconnect_blocks_lem,
  disconnect_blocks_panics, disconnected,
}
use multichain_rs.Evm.Ethereum.Valid.{IsValid, next_number}

module _ (o : ExecutionBlock) (old : List ExecutionBlock) (n : ExecutionBlock)
    (news : List ExecutionBlock) where
  -- What the checks of a reorg have established.
  pub record Reorgs (s : EthereumCanonicality) : Type 0 where
    pub old_row : is_contiguous old ≡ true
    pub new_row : is_contiguous news ≡ true
    pub same_number : o.number ≡ n.number
    pub same_parent : o.parent_hash ≡ n.parent_hash
    pub suffix : hash_of (last? old) ≡ s.head
    pub old_canonical : all (is_canonical_at s.canonical) old ≡ true
    pub spared : (f : B256) → s.finalized ≡ some f → any (λ b. b.hash == f) old ≡ false
    pub fresh : any (is_canonical_at s.canonical) news ≡ false

  check_finalized_kept-spared :
      (s : EthereumCanonicality) (f : B256)
      → check_finalized_kept old s ≡ ok tt
      → s.finalized ≡ some f
      → any (λ b. b.hash == f) old ≡ false
  unfolding check_finalized_kept
  check_finalized_kept-spared s f h e = elim (Bool-cases (any (λ b. b.hash == f) old)) [
    | inl hit ↦ absurd (cc (rw (e, check_finalized_kept, hit) at h))
    | inr miss ↦ miss
  ]

  suffix_eq :
      (a : Option B256) (head : Option B256) (t : B256)
      → head ≡ some t
      → (a == some t) ≡ true
      → a ≡ head
  suffix_eq a head t e h = (option_beq_iff a (some t)).0 h ∙ sym e

  pub check_reorg-Reorgs :
      (s : EthereumCanonicality) → check_reorg o old n news s ≡ ok tt → Reorgs s
  unfolding check_reorg validate_segment
  check_reorg-Reorgs s h = elim (Option-cases s.head) [
    | inl missing ↦ absurd (ground arith)
    | inr (t, e) ↦ record {
      old_row = ground arith;
      new_row = ground arith;
      same_number = ground (arith, nat_beq_iff o.number n.number);
      same_parent = ground (arith, nat_beq_iff o.parent_hash n.parent_hash);
      suffix = suffix_eq (hash_of (last? old)) s.head t e (ground arith);
      old_canonical = ground arith;
      spared = λ f e. check_finalized_kept-spared s f (ground arith) e;
      fresh = ground arith;
    }
  ]

abbrev pub reorganized :
    EthereumCanonicality → List ExecutionBlock → List ExecutionBlock → EthereumCanonicality
reorganized s old news =
    let u = connected (disconnected s (reverse old)) news in
    record u { head = hash_of (last? news); safe = kept_safe u.canonical u.safe }

-- The revisions of a reorg: the old tip goes first, and the numbers run through.
abbrev pub reorg_revisions : ℕ → List ExecutionBlock → List ExecutionBlock → List EthereumRevision
reorg_revisions rev old news =
    numbered EthereumStatus.reorged rev (reverse old)
    ++ numbered EthereumStatus.canonical_head (rev + length (reverse old)) news

-- A reorg that passes the checks, while revision numbers last, as one equation.
pub reorg_lem :
    (o : ExecutionBlock) (os : List ExecutionBlock) (n : ExecutionBlock) (ns : List ExecutionBlock)
    (s : EthereumCanonicality)
    → check_reorg o (o ∷ os) n (n ∷ ns) s ≡ ok tt
    → s.revision + length (reverse (o ∷ os)) + length (n ∷ ns) ≤ u64_max
    → reorg (o ∷ os) (n ∷ ns) s
      ≡ (ok (reorg_revisions s.revision (o ∷ os) (n ∷ ns)), reorganized s (o ∷ os) (n ∷ ns))
unfolding reorg
reorg_lem o os n ns s check room = rw (
  check,
  disconnect_blocks_lem (reverse (o ∷ os)) s (omega arith),
  connect_blocks_lem (n ∷ ns) (disconnected s (reverse (o ∷ os))) room,
)

reorg_panics :
    (o : ExecutionBlock) (os : List ExecutionBlock) (n : ExecutionBlock) (ns : List ExecutionBlock)
    (s : EthereumCanonicality)
    → check_reorg o (o ∷ os) n (n ∷ ns) s ≡ ok tt
    → s.revision ≤ u64_max
    → u64_max < s.revision + length (reverse (o ∷ os)) + length (n ∷ ns)
    → (reorg (o ∷ os) (n ∷ ns) s).0 ≡ panic
unfolding reorg
reorg_panics o os n ns s check fits short =
    elim (dec_le (s.revision + length (reverse (o ∷ os))) u64_max) [
      | yes half ↦ ground (
        arith,
        disconnect_blocks_lem (reverse (o ∷ os)) s,
        connect_blocks_panics (n ∷ ns) (disconnected s (reverse (o ∷ os))),
      )
      | no none_left ↦ ground (arith, disconnect_blocks_panics (reverse (o ∷ os)) s)
    ]

reorg-checked :
    (o : ExecutionBlock) (os : List ExecutionBlock) (n : ExecutionBlock) (ns : List ExecutionBlock)
    (s s' : EthereumCanonicality) (rs : List EthereumRevision)
    → reorg (o ∷ os) (n ∷ ns) s ≡ (ok rs, s')
    → check_reorg o (o ∷ os) n (n ∷ ns) s ≡ ok tt
unfolding reorg
reorg-checked o os n ns s s' rs h = ground arith

pub reorg-ok :
    (o : ExecutionBlock) (os : List ExecutionBlock) (n : ExecutionBlock) (ns : List ExecutionBlock)
    (s s' : EthereumCanonicality) (rs : List EthereumRevision)
    → s.revision ≤ u64_max
    → reorg (o ∷ os) (n ∷ ns) s ≡ (ok rs, s')
    → Reorgs o (o ∷ os) n (n ∷ ns) s
      × (s.revision + length (reverse (o ∷ os)) + length (n ∷ ns) ≤ u64_max)
      × (s' ≡ reorganized s (o ∷ os) (n ∷ ns))
      × (rs ≡ reorg_revisions s.revision (o ∷ os) (n ∷ ns))
reorg-ok o os n ns s s' rs fits h =
    let check = reorg-checked o os n ns s s' rs h in
    elim (dec_le (s.revision + length (reverse (o ∷ os)) + length (n ∷ ns)) u64_max) [
      | yes room ↦
          let same = sym h ∙ reorg_lem o os n ns s check room in
          (check_reorg-Reorgs o (o ∷ os) n (n ∷ ns) s check, room, ap (λ r. r.1) same, ground arith)
      | no short ↦ absurd (ground (arith, reorg_panics o os n ns s check fits))
    ]

-- No step of the loops ends in an error value.
connect_blocks-ne-err :
    (bs : List ExecutionBlock) (s s' : EthereumCanonicality) (e : EthereumError)
    → connect_blocks bs s ≢ (err e, s')
unfolding connect_blocks connect_block next_revision
connect_blocks-ne-err [] s s' e h = ground arith
connect_blocks-ne-err (b ∷ bs) s s' e h =
    let u : EthereumCanonicality = record s {
      blocks = Dict.insert s.blocks b.hash b;
      canonical = Dict.insert s.canonical b.number b.hash;
      revision = s.revision + 1;
    } in
    ground (arith, connect_blocks-ne-err bs u s' e)

disconnect_blocks-ne-err :
    (bs : List ExecutionBlock) (s s' : EthereumCanonicality) (e : EthereumError)
    → disconnect_blocks bs s ≢ (err e, s')
unfolding disconnect_blocks disconnect_block next_revision
disconnect_blocks-ne-err [] s s' e h = ground arith
disconnect_blocks-ne-err (b ∷ bs) s s' e h =
    let u : EthereumCanonicality = record s {
      canonical = Dict.remove s.canonical b.number;
      revision = s.revision + 1;
    } in
    ground (arith, disconnect_blocks-ne-err bs u s' e)

-- A reorg that is refused has changed nothing.
pub reorg-err :
    (old news : List ExecutionBlock) (s s' : EthereumCanonicality) (e : EthereumError)
    → reorg old news s ≡ (err e, s')
    → s' ≡ s
unfolding reorg
reorg-err [] news s s' e h = ground arith
reorg-err (o ∷ os) [] s s' e h = ground arith
reorg-err (o ∷ os) (n ∷ ns) s s' e h =
    let u = (disconnect_blocks (reverse (o ∷ os)) s).1 in
    ground (
      arith,
      disconnect_blocks-ne-err (reverse (o ∷ os)) s u e,
      connect_blocks-ne-err (n ∷ ns) u (connect_blocks (n ∷ ns) u).1 e,
    )

-- With revision numbers for both segments, the call neither panics nor runs on.
pub reorg_returns :
    (old news : List ExecutionBlock) (s : EthereumCanonicality)
    → s.revision + length old + length news ≤ u64_max
    → ((reorg old news s).0 ≢ panic) × ((reorg old news s).0 ≢ diverge)
unfolding reorg check_reorg validate_segment check_finalized_kept
reorg_returns [] news s room = ground arith
reorg_returns (o ∷ os) [] s room = ground arith
reorg_returns (o ∷ os) (n ∷ ns) s room =
    let size : length (reverse (o ∷ os)) ≡ length (o ∷ os) = length-reverse (o ∷ os) in
    ground (
      arith,
      disconnect_blocks_lem (reverse (o ∷ os)) s,
      connect_blocks_lem (n ∷ ns) (disconnected s (reverse (o ∷ os))),
    )
