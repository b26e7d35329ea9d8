-- ===== src/Evm/Bsc.antt =====
-- The BSC tracker: execution ancestry with a separate fast-finality tag (`BscCanonicality` of
-- processors/evm-canonicality/src/lib.rs).
pub mod Loops
pub mod Valid
pub mod Commit
pub mod Reorg
pub mod Observe
pub mod Health
pub mod Calls
mod Tests
use multichain_rs.Prelude.{
  ℕ, zero, suc, ◌+◌, ◌-◌, ◌*◌, ◌/◌, ◌%◌, ◌^◌, ◌≤◌, ◌<◌, min, String, ◌≡◌, refl, sym, ap, ◌∙◌,
  fun_ext, ◌≢◌, ◌↔◌, ◌⊎◌, inl, inr, Bool, true, false, ◌&&◌, ◌||◌, not, Option, none, some, List,
  [], ◌∷◌, ◌++◌, map, reverse, arith, ltb, leb, nat_beq, if◌then◌else◌, Eq, ◌==◌, nat_beq_iff,
  nat_eq, string_eq, option_beq, option_beq_iff, option_eq, Bool-cases, Option-cases, u64_max,
  saturating_add, checked_add, length, length-append, length-reverse, any, all, last?, All,
  All-append, is_whitespace, is_blank, is_ascii,
}
use multichain_rs.Dict
use multichain_rs.Dict.{Dict}
use multichain_rs.Exec.{
  Outcome, ok, err, panic, diverge, Exec, pure, raise, reads, current, modify, ok_or, ensure,
  and_then, or_else, negated, continue, ◌>>=◌, ◌>>◌,
}
use multichain_rs.Evm.Status.{BscStatus}
use multichain_rs.Evm.Block.{
  B256, ExecutionBlock, Blocks, Heights, is_ancestor, is_contiguous, is_canonical_at, hash_of,
}

pub data BscError : Type 0 where
  empty_source_id invalid_observation_time observation_time_regression : BscError
  discontinuous_segment segment_does_not_extend_head : BscError
  unknown_block : B256 → BscError
  block_not_canonical : B256 → BscError
  invalid_finalized_ancestry : BscError
  finalized_regression : B256 → B256 → BscError
  empty_reorg_segment reorg_ancestor_mismatch reorg_does_not_match_canonical_suffix : BscError
  finalized_reversal_critical : B256 → BscError

pub record BscFinalityObservation : Type 0 where
  pub finalized : B256
  pub head : B256
  pub source_id : String
  pub observed_at_unix_ms : ℕ

-- `BscFinalityObservation::new`
pub new_observation : B256 → B256 → String → ℕ → Outcome BscError BscFinalityObservation
new_observation finalized head source_id observed_at_unix_ms =
    if is_blank source_id || not (is_ascii source_id)
    then err empty_source_id
    else if observed_at_unix_ms == 0
    then err invalid_observation_time
    else ok (record {
      finalized = finalized;
      head = head;
      source_id = source_id;
      observed_at_unix_ms = observed_at_unix_ms;
    })

pub data BscFinalityStatus : Type 0 where
  unknown healthy stalled : BscFinalityStatus

pub record BscRevision : Type 0 where
  pub block : ExecutionBlock
  pub status : BscStatus
  pub revision : ℕ
  pub source_id : Option String

pub record BscCanonicality : Type 0 where
  pub blocks : Blocks
  pub canonical : Heights
  pub head : Option B256
  pub finalized : Option B256
  pub revision : ℕ
  pub last_observed_at_unix_ms : Option ℕ
  pub last_finality_change_at_unix_ms : Option ℕ

-- `BscCanonicality::new`
abbrev pub new_bsc : BscCanonicality
new_bsc = record {
  blocks = Dict.empty;
  canonical = Dict.empty;
  head = none;
  finalized = none;
  revision = 0;
  last_observed_at_unix_ms = none;
  last_finality_change_at_unix_ms = none;
}

abbrev pub Run : Type 0 → Type 0
Run A = Exec BscError BscCanonicality A

pub validate_segment : List ExecutionBlock → Outcome BscError Unit
validate_segment blocks = ensure (is_contiguous blocks) discontinuous_segment

-- `self.block(hash)`
pub block : B256 → BscCanonicality → Outcome BscError ExecutionBlock
block hash s = ok_or (unknown_block hash) (Dict.get s.blocks hash)

pub canonical_block : B256 → BscCanonicality → Outcome BscError ExecutionBlock
unfolding block
canonical_block hash s =
    and_then (block hash s) λ b.
      if Dict.get s.canonical b.number == some hash then ok b else err (block_not_canonical hash)

-- `self.is_ancestor(ancestor, descendant)`
pub has_ancestor : B256 → B256 → BscCanonicality → Outcome BscError Bool
has_ancestor ancestor descendant s = elim (is_ancestor s.blocks ancestor descendant) [
  | none ↦ diverge
  | some b ↦ ok b
]

-- `checked_add(1).expect(…)`
pub next_revision : ExecutionBlock → BscStatus → Option String → Run BscRevision
next_revision b status source_id s = elim (checked_add s.revision 1) [
  | none ↦ (panic, s)
  | some n ↦ (
    ok (record { block = b; status = status; revision = n; source_id = source_id }),
    record s { revision = n },
  )
]

-- One turn of the loop of `commit_segment`.
pub commit_block : ExecutionBlock → Run BscRevision
commit_block b = do
  modify λ s. record s {
    blocks = Dict.insert s.blocks b.hash b;
    canonical = Dict.insert s.canonical b.number b.hash;
    head = some b.hash;
  }
  next_revision b BscStatus.canonical_head none

pub commit_blocks : List ExecutionBlock → Run (List BscRevision)
commit_blocks [] = pure []
commit_blocks (b ∷ bs) = do r ← commit_block b; rs ← commit_blocks bs; pure (r ∷ rs)

-- The first block has the number after the head's and the head as its parent.
pub extends_head : ExecutionBlock → BscCanonicality → Outcome BscError Unit
extends_head first s = elim s.head [
  | none ↦ ok tt
  | some head_hash ↦ and_then (block head_hash s) λ head.
      if not (first.number == saturating_add head.number 1) || not (first.parent_hash == head.hash)
      then err segment_does_not_extend_head
      else ok tt
]

pub commit_segment : List ExecutionBlock → Run (List BscRevision)
commit_segment [] = pure []
commit_segment (first ∷ rest) = do
  reads λ s. validate_segment (first ∷ rest)
  s ← current
  if all (is_canonical_at s.canonical) (first ∷ rest)
      then pure []
      else do reads (extends_head first); commit_blocks (first ∷ rest)

-- The finalized block is not among the blocks that a reorg removes.
pub check_finalized_kept : List ExecutionBlock → BscCanonicality → Outcome BscError Unit
check_finalized_kept old s = elim s.finalized [
  | none ↦ ok tt
  | some finalized ↦
      if any (λ b. b.hash == finalized) old
      then err (finalized_reversal_critical finalized)
      else ok tt
]

-- The checks of `reorg` for segments that are not empty, in their order.
pub check_reorg :
    (old_first : ExecutionBlock) (old : List ExecutionBlock) (new_first : ExecutionBlock)
    (new_blocks : List ExecutionBlock)
    → BscCanonicality
    → Outcome BscError Unit
check_reorg old_first old new_first new_blocks s = and_then (validate_segment old) λ _.
    and_then (validate_segment new_blocks) λ _.
      and_then
        (ensure
          (old_first.number == new_first.number && old_first.parent_hash == new_first.parent_hash)
          reorg_ancestor_mismatch)
        λ _.
          and_then
            (ensure (hash_of (last? old) == s.head && all (is_canonical_at s.canonical) old)
              reorg_does_not_match_canonical_suffix)
            λ _. check_finalized_kept old s

-- One turn of the loop over the removed blocks.
pub disconnect_block : ExecutionBlock → Run BscRevision
disconnect_block b = do
  modify λ s. record s { canonical = Dict.remove s.canonical b.number }
  next_revision b BscStatus.reorged none

pub disconnect_blocks : List ExecutionBlock → Run (List BscRevision)
disconnect_blocks [] = pure []
disconnect_blocks (b ∷ bs) = do r ← disconnect_block b; rs ← disconnect_blocks bs; pure (r ∷ rs)

-- One turn of the loop over the new blocks of a reorg.
pub connect_block : ExecutionBlock → Run BscRevision
connect_block b = do
  modify λ s. record s {
    blocks = Dict.insert s.blocks b.hash b;
    canonical = Dict.insert s.canonical b.number b.hash;
  }
  next_revision b BscStatus.canonical_head none

pub connect_blocks : List ExecutionBlock → Run (List BscRevision)
connect_blocks [] = pure []
connect_blocks (b ∷ bs) = do r ← connect_block b; rs ← connect_blocks bs; pure (r ∷ rs)

pub reorg : List ExecutionBlock → List ExecutionBlock → Run (List BscRevision)
reorg [] _ = raise empty_reorg_segment
reorg (old_first ∷ olds) [] = raise empty_reorg_segment
reorg (old_first ∷ olds) (new_first ∷ news) = do
  reads (check_reorg old_first (old_first ∷ olds) new_first (new_first ∷ news))
  removed ← disconnect_blocks (reverse (old_first ∷ olds))
  added ← connect_blocks (new_first ∷ news)
  modify λ s. record s { head = hash_of (last? (new_first ∷ news)) }
  pure (removed ++ added)

-- The finalized block of an observation, if its time and its place pass the checks.
pub check_time : ℕ → Option ℕ → Outcome BscError Unit
check_time observed none = ok tt
check_time observed (some previous) =
    if leb observed previous then err observation_time_regression else ok tt

-- The head is the tracker's head, and the finalized block is an ancestor of it.
pub check_ancestry : ExecutionBlock → ExecutionBlock → BscCanonicality → Outcome BscError Unit
check_ancestry head finalized s =
    if not (s.head == some head.hash)
    then err invalid_finalized_ancestry
    else and_then (has_ancestor finalized.hash head.hash s)
        λ below. ensure below invalid_finalized_ancestry

-- The finalized block is the previous one, or a higher block that has it as an ancestor.
pub check_advance : Option B256 → ExecutionBlock → BscCanonicality → Outcome BscError Unit
check_advance none finalized s = ok tt
check_advance (some previous_hash) finalized s =
    if previous_hash == finalized.hash
    then ok tt
    else and_then (block previous_hash s) λ previous.
      if leb finalized.number previous.number
      then err (finalized_regression previous.hash finalized.hash)
      else and_then (has_ancestor previous.hash finalized.hash s)
          λ below. ensure below (finalized_regression previous.hash finalized.hash)

pub check_observation : BscFinalityObservation → BscCanonicality → Outcome BscError ExecutionBlock
check_observation o s = and_then (check_time o.observed_at_unix_ms s.last_observed_at_unix_ms) λ _.
    and_then (canonical_block o.head s) λ head.
      and_then (canonical_block o.finalized s) λ finalized.
        and_then (check_ancestry head finalized s)
          λ _. and_then (check_advance s.finalized finalized s) λ _. ok finalized

-- The writes of `observe_finalized`.
pub observed : ExecutionBlock → ℕ → BscCanonicality → BscCanonicality
observed b time s =
    if s.finalized == some b.hash
    then record s { last_observed_at_unix_ms = some time }
    else record s {
      last_observed_at_unix_ms = some time;
      finalized = some b.hash;
      last_finality_change_at_unix_ms = some time;
    }

pub observe_finalized : BscFinalityObservation → Run BscRevision
observe_finalized o = do
  b ← reads (check_observation o)
  modify (observed b o.observed_at_unix_ms)
  next_revision b BscStatus.fast_finalized (some o.source_id)

-- `saturating_sub` is the subtraction of ℕ.
pub finality_health : BscCanonicality → ℕ → ℕ → BscFinalityStatus
finality_health s now_unix_ms maximum_stall_ms = elim s.last_finality_change_at_unix_ms [
  | none ↦ unknown
  | some changed_at ↦ if ltb maximum_stall_ms (now_unix_ms - changed_at) then stalled else healthy
]
