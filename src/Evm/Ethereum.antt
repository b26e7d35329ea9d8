-- ===== src/Evm/Ethereum.antt =====
-- The Ethereum tracker: execution ancestry with safe and finalized checkpoints
-- (`EthereumCanonicality` of processors/evm-canonicality/src/lib.rs).
pub mod Loops
pub mod Valid
pub mod Commit
pub mod Reorg
pub mod Checkpoint
pub mod Calls
pub mod History
mod Tests
use multichain_rs.Prelude.{
  ℕ, zero, suc, ◌+◌, ◌-◌, ◌*◌, ◌/◌, ◌%◌, ◌^◌, ◌≤◌, ◌<◌, min, String, ◌≡◌, refl, sym, ap, ◌∙◌,
  fun_ext, ◌≢◌, ◌↔◌, ◌⊎◌, inl, inr, Bool, true, false, ◌&&◌, ◌||◌, not, Option, none, some, List,
  [], ◌∷◌, ◌++◌, map, reverse, arith, ltb, leb, nat_beq, if◌then◌else◌, Eq, ◌==◌, nat_beq_iff,
  nat_eq, string_eq, option_beq, option_beq_iff, option_eq, Bool-cases, Option-cases, u64_max,
  saturating_add, checked_add, length, length-append, length-reverse, any, all, last?, All,
  All-append, is_whitespace, is_blank, is_ascii,
}
use multichain_rs.Dict
use multichain_rs.Dict.{Dict}
use multichain_rs.Exec.{
  Outcome, ok, err, panic, diverge, Exec, pure, raise, reads, current, modify, ok_or, ensure,
  and_then, or_else, negated, continue, ◌>>=◌, ◌>>◌,
}
use multichain_rs.Evm.Status.{EthereumStatus}
use multichain_rs.Evm.Block.{
  B256, ExecutionBlock, Blocks, Heights, is_ancestor, is_contiguous, is_canonical_at, hash_of,
}

pub data EthereumError : Type 0 where
  empty_source_id discontinuous_segment segment_does_not_extend_head : EthereumError
  empty_reorg_segment reorg_ancestor_mismatch missing_canonical_head : EthereumError
  reorg_does_not_match_canonical_suffix replacement_already_canonical : EthereumError
  unknown_execution_payload : B256 → EthereumError
  execution_payload_not_canonical : B256 → EthereumError
  invalid_checkpoint_ancestry safe_checkpoint_regression : EthereumError
  finalized_reversal_critical : B256 → EthereumError

pub record EthereumCheckpoint : Type 0 where
  pub head : B256
  pub safe : B256
  pub finalized : B256
  pub source_id : String

-- `EthereumCheckpoint::new`
pub new_checkpoint : B256 → B256 → B256 → String → Outcome EthereumError EthereumCheckpoint
new_checkpoint head safe finalized source_id =
    if is_blank source_id
    then err empty_source_id
    else ok (record { head = head; safe = safe; finalized = finalized; source_id = source_id })

pub record EthereumRevision : Type 0 where
  pub block : ExecutionBlock
  pub status : EthereumStatus
  pub revision : ℕ
  pub source_id : Option String

pub record EthereumCanonicality : Type 0 where
  pub blocks : Blocks
  pub canonical : Heights
  pub head : Option B256
  pub safe : Option B256
  pub finalized : Option B256
  pub revision : ℕ

-- `EthereumCanonicality::new`
abbrev pub new_ethereum : EthereumCanonicality
new_ethereum = record {
  blocks = Dict.empty;
  canonical = Dict.empty;
  head = none;
  safe = none;
  finalized = none;
  revision = 0;
}

abbrev pub Run : Type 0 → Type 0
Run A = Exec EthereumError EthereumCanonicality A

pub validate_segment : List ExecutionBlock → Outcome EthereumError Unit
validate_segment blocks = ensure (is_contiguous blocks) discontinuous_segment

-- `self.block(hash)`
pub block : B256 → EthereumCanonicality → Outcome EthereumError ExecutionBlock
block hash s = ok_or (unknown_execution_payload hash) (Dict.get s.blocks hash)

pub canonical_block : B256 → EthereumCanonicality → Outcome EthereumError ExecutionBlock
unfolding block
canonical_block hash s = and_then (block hash s) λ b.
    if Dict.get s.canonical b.number == some hash
    then ok b
    else err (execution_payload_not_canonical hash)

-- `self.is_ancestor(ancestor, descendant)`
pub has_ancestor : B256 → B256 → EthereumCanonicality → Outcome EthereumError Bool
has_ancestor ancestor descendant s = elim (is_ancestor s.blocks ancestor descendant) [
  | none ↦ diverge
  | some b ↦ ok b
]

-- `checked_add(1).expect(…)`
pub next_revision : ExecutionBlock → EthereumStatus → Option String → Run EthereumRevision
next_revision b status source_id s = elim (checked_add s.revision 1) [
  | none ↦ (panic, s)
  | some n ↦ (
    ok (record { block = b; status = status; revision = n; source_id = source_id }),
    record s { revision = n },
  )
]

-- One turn of the loop of `commit_segment`.
pub commit_block : ExecutionBlock → Run EthereumRevision
commit_block b = do
  modify λ s. record s {
    blocks = Dict.insert s.blocks b.hash b;
    canonical = Dict.insert s.canonical b.number b.hash;
    head = some b.hash;
  }
  next_revision b EthereumStatus.canonical_head none

pub commit_blocks : List ExecutionBlock → Run (List EthereumRevision)
commit_blocks [] = pure []
commit_blocks (b ∷ bs) = do r ← commit_block b; rs ← commit_blocks bs; pure (r ∷ rs)

-- The first block has the number after the head's and the head as its parent.
pub extends_head : ExecutionBlock → EthereumCanonicality → Outcome EthereumError Unit
extends_head first s = elim s.head [
  | none ↦ ok tt
  | some head_hash ↦ and_then (block head_hash s) λ head.
      if not (first.number == saturating_add head.number 1) || not (first.parent_hash == head.hash)
      then err segment_does_not_extend_head
      else ok tt
]

pub commit_segment : List ExecutionBlock → Run (List EthereumRevision)
commit_segment [] = pure []
commit_segment (first ∷ rest) = do
  reads λ s. validate_segment (first ∷ rest)
  s ← current
  if all (is_canonical_at s.canonical) (first ∷ rest)
      then pure []
      else do reads (extends_head first); commit_blocks (first ∷ rest)

-- The finalized block is not among the blocks that a reorg removes.
pub check_finalized_kept : List ExecutionBlock → EthereumCanonicality → Outcome EthereumError Unit
check_finalized_kept old s = elim s.finalized [
  | none ↦ ok tt
  | some finalized ↦
      if any (λ b. b.hash == finalized) old
      then err (finalized_reversal_critical finalized)
      else ok tt
]

-- The checks of `reorg` for segments that are not empty, in their order.
pub check_reorg :
    (old_first : ExecutionBlock) (old : List ExecutionBlock) (new_first : ExecutionBlock)
    (new_blocks : List ExecutionBlock)
    → EthereumCanonicality
    → Outcome EthereumError Unit
check_reorg old_first old new_first new_blocks s = and_then (validate_segment old) λ _.
    and_then (validate_segment new_blocks) λ _.
      and_then
        (ensure
          (old_first.number == new_first.number && old_first.parent_hash == new_first.parent_hash)
          reorg_ancestor_mismatch)
        λ _. and_then (ok_or missing_canonical_head s.head) λ current_head.
          and_then
            (ensure
              (hash_of (last? old) == some current_head && all (is_canonical_at s.canonical) old)
              reorg_does_not_match_canonical_suffix)
            λ _. and_then (check_finalized_kept old s) λ _.
              ensure (not (any (is_canonical_at s.canonical) new_blocks))
                replacement_already_canonical

-- One turn of the loop over the removed blocks.
pub disconnect_block : ExecutionBlock → Run EthereumRevision
disconnect_block b = do
  modify λ s. record s { canonical = Dict.remove s.canonical b.number }
  next_revision b EthereumStatus.reorged none

pub disconnect_blocks : List ExecutionBlock → Run (List EthereumRevision)
disconnect_blocks [] = pure []
disconnect_blocks (b ∷ bs) = do r ← disconnect_block b; rs ← disconnect_blocks bs; pure (r ∷ rs)

-- One turn of the loop over the new blocks of a reorg.
pub connect_block : ExecutionBlock → Run EthereumRevision
connect_block b = do
  modify λ s. record s {
    blocks = Dict.insert s.blocks b.hash b;
    canonical = Dict.insert s.canonical b.number b.hash;
  }
  next_revision b EthereumStatus.canonical_head none

pub connect_blocks : List ExecutionBlock → Run (List EthereumRevision)
connect_blocks [] = pure []
connect_blocks (b ∷ bs) = do r ← connect_block b; rs ← connect_blocks bs; pure (r ∷ rs)

-- A safe checkpoint that is no longer canonical is forgotten.
pub kept_safe : Heights → Option B256 → Option B256
kept_safe canonical none = none
kept_safe canonical (some safe) =
    if not (Dict.any_value (λ hash. hash == safe) canonical) then none else some safe

pub reorg : List ExecutionBlock → List ExecutionBlock → Run (List EthereumRevision)
reorg [] _ = raise empty_reorg_segment
reorg (old_first ∷ olds) [] = raise empty_reorg_segment
reorg (old_first ∷ olds) (new_first ∷ news) = do
  reads (check_reorg old_first (old_first ∷ olds) new_first (new_first ∷ news))
  removed ← disconnect_blocks (reverse (old_first ∷ olds))
  added ← connect_blocks (new_first ∷ news)
  modify λ s. record s {
    head = hash_of (last? (new_first ∷ news));
    safe = kept_safe s.canonical s.safe;
  }
  pure (removed ++ added)

-- The previous checkpoint is not the new one, and not a strict ancestor of it.
pub regresses : Option B256 → ExecutionBlock → EthereumCanonicality → Outcome EthereumError Bool
regresses none next s = ok false
regresses (some previous) next s =
    if previous == next.hash
    then ok false
    else or_else (negated (has_ancestor previous next.hash s))
        (and_then (block previous s) λ b. ok (leb next.number b.number))

-- The head, safe and finalized payloads are not in one line that ends in the current head.
pub misses_ancestry :
    ExecutionBlock
    → ExecutionBlock
    → ExecutionBlock
    → EthereumCanonicality
    → Outcome EthereumError Bool
misses_ancestry head safe finalized s =
    or_else (negated (has_ancestor finalized.hash safe.hash s))
      (or_else (negated (has_ancestor safe.hash head.hash s)) (ok (not (s.head == some head.hash))))

abbrev pub previous_hash : Option B256 → B256
previous_hash none = 0
previous_hash (some h) = h

-- The checks of `observe_checkpoint`; the safe and the finalized block, if they pass.
pub check_checkpoint :
    EthereumCheckpoint
    → EthereumCanonicality
    → Outcome EthereumError (ExecutionBlock × ExecutionBlock)
check_checkpoint c s = and_then (canonical_block c.head s) λ head.
    and_then (canonical_block c.safe s) λ safe.
      and_then (canonical_block c.finalized s) λ finalized.
        and_then (misses_ancestry head safe finalized s) λ misses.
          and_then (ensure (not misses) invalid_checkpoint_ancestry) λ _.
            and_then (regresses s.finalized finalized s) λ reversal.
              and_then
                (ensure (not reversal) (finalized_reversal_critical (previous_hash s.finalized)))
                λ _. and_then (regresses s.safe safe s) λ regression.
                  and_then (ensure (not regression) safe_checkpoint_regression)
                    λ _. ok (safe, finalized)

pub mark_safe : ExecutionBlock → String → Run (List EthereumRevision)
mark_safe b source_id = do
  s ← current
  if s.safe == some b.hash then pure [] else do
    modify λ s. record s { safe = some b.hash }
    r ← next_revision b EthereumStatus.safe (some source_id)
    pure (r ∷ [])

pub mark_finalized : ExecutionBlock → String → Run (List EthereumRevision)
mark_finalized b source_id = do
  s ← current
  if s.finalized == some b.hash then pure [] else do
    modify λ s. record s { finalized = some b.hash }
    r ← next_revision b EthereumStatus.finalized (some source_id)
    pure (r ∷ [])

pub observe_checkpoint : EthereumCheckpoint → Run (List EthereumRevision)
observe_checkpoint c = do
  joined ← reads (check_checkpoint c)
  rs ← mark_safe joined.0 c.source_id
  fs ← mark_finalized joined.1 c.source_id
  pure (rs ++ fs)
