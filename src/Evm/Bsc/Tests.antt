-- ===== src/Evm/Bsc/Tests.antt =====
-- Runs of the BSC tracker on a small network, and the theorems at them.
use multichain_rs.Prelude.{
  ℕ, ◌+◌, ◌-◌, ◌≤◌, ◌≡◌, refl, some, List, [], ◌∷◌, arith, ltb, if◌then◌else◌, ◌==◌, nat_eq,
  string_eq, option_eq, u64_max, list_eq,
}
use multichain_rs.Dict.{empty, get, insert, remove}
use multichain_rs.Dict
use multichain_rs.Exec.{Outcome, ok, err}
use multichain_rs.Exec.Rules.{Settles}
use multichain_rs.Evm.Block.{
  ExecutionBlock, climb, climb_from, is_ancestor, is_contiguous, is_canonical_at,
}
use multichain_rs.Evm.Small.{small, segment}
use multichain_rs.Evm.Bsc.{
  BscCanonicality, BscRevision, BscError, BscFinalityObservation, new_bsc, commit_segment,
  commit_blocks, commit_block, reorg, observe_finalized, observed, validate_segment, extends_head,
  block, next_revision, check_reorg, check_finalized_kept, connect_blocks, connect_block,
  disconnect_blocks, disconnect_block, canonical_block, has_ancestor, check_observation, check_time,
  check_ancestry, check_advance, finality_health, stalled, healthy, observation_time_regression,
}
use multichain_rs.Evm.Bsc.Valid.{IsValid, new_bsc-IsValid}
use multichain_rs.Evm.Bsc.Health.{health-observe_finalized}
use multichain_rs.Evm.Bsc.Observe.Valid.{Finalizes}
use multichain_rs.Evm.Bsc.Calls.{
  Call, commit, replace, finality, handle_bsc, handle_bsc-IsValid, handle_bsc-err,
  handle_bsc_returns, handle_bsc-Finalizes,
}

abbrev revisions : Outcome BscError (List BscRevision) → List BscRevision
revisions (ok rs) = rs
revisions _ = []

-- Every definition that a run computes with.
runs : Call → BscCanonicality → Outcome BscError (List BscRevision) × BscCanonicality
unfolding handle_bsc commit_segment commit_blocks commit_block reorg observe_finalized observed
    validate_segment extends_head block next_revision check_reorg check_finalized_kept
    connect_blocks connect_block disconnect_blocks disconnect_block canonical_block has_ancestor
    check_observation check_time check_ancestry check_advance finality_health climb climb_from
    is_ancestor is_contiguous is_canonical_at empty get insert remove
runs c s = handle_bsc c s

abbrev first : Call
first = commit (segment (10 ∷ 20 ∷ 30 ∷ []))

abbrev three : BscCanonicality
three = (handle_bsc first new_bsc).1

three_runs : handle_bsc first new_bsc ≡ (ok (revisions (handle_bsc first new_bsc).0), three)
unfolding runs
three_runs = refl

abbrev tag : ℕ → ℕ → BscFinalityObservation
tag hash time = record {
  finalized = hash;
  head = 30;
  source_id = "node";
  observed_at_unix_ms = time;
}

abbrev tagged : BscCanonicality
tagged = (handle_bsc (finality (tag 10 1000)) three).1

tagged_runs :
    handle_bsc (finality (tag 10 1000)) three
    ≡ (ok (revisions (handle_bsc (finality (tag 10 1000)) three).0), tagged)
unfolding runs
tagged_runs = refl

tagged_state : (tagged.finalized ≡ some 10) × (tagged.last_observed_at_unix_ms ≡ some 1000)
unfolding runs
tagged_state = (refl, refl)

-- The same tag again does not restart the clock of the stall.
stalls : finality_health (handle_bsc (finality (tag 10 5000)) tagged).1 5500 3000 ≡ stalled
unfolding runs
stalls = refl

abbrev returned : Outcome BscError BscRevision → BscRevision → BscRevision
returned (ok r) other = r
returned _ other = other

abbrev some_revision : BscRevision
some_revision = record {
  block = record { number = 1; hash = 10; parent_hash = 0 };
  status = multichain_rs.Evm.Status.BscStatus.fast_finalized;
  revision = 5;
  source_id = some "node";
}

abbrev again : BscCanonicality
again = (observe_finalized (tag 10 5000) tagged).1

again_runs :
    observe_finalized (tag 10 5000) tagged
    ≡ (ok (returned (observe_finalized (tag 10 5000) tagged).0 some_revision), again)
unfolding runs
again_runs = refl

late_runs : handle_bsc (finality (tag 20 900)) tagged ≡ (err observation_time_regression, tagged)
unfolding runs
late_runs = refl

abbrev third : Call
third = replace (segment (20 ∷ 30 ∷ [])) (segment (21 ∷ []))

abbrev forked : BscCanonicality
forked = (handle_bsc third tagged).1

forked_runs : handle_bsc third tagged ≡ (ok (revisions (handle_bsc third tagged).0), forked)
unfolding runs
forked_runs = refl

three-IsValid : IsValid small three
three-IsValid =
    handle_bsc-IsValid small first new_bsc three (revisions (handle_bsc first new_bsc).0)
      (new_bsc-IsValid small) (refl, (refl, (refl, tt))) three_runs

tagged-IsValid : IsValid small tagged
tagged-IsValid =
    handle_bsc-IsValid small (finality (tag 10 1000)) three tagged
      (revisions (handle_bsc (finality (tag 10 1000)) three).0) three-IsValid tt tagged_runs

handle_bsc-IsValid_example : IsValid small forked
handle_bsc-IsValid_example =
    handle_bsc-IsValid small third tagged forked (revisions (handle_bsc third tagged).0)
      tagged-IsValid ((refl, (refl, tt)), (refl, tt)) forked_runs

handle_bsc-err_example : tagged ≡ tagged
handle_bsc-err_example =
    handle_bsc-err (finality (tag 20 900)) tagged tagged observation_time_regression late_runs

tagged_room : tagged.revision + 3 ≤ u64_max
unfolding runs
tagged_room = omega arith

handle_bsc_returns_example : Settles (handle_bsc third tagged).0
handle_bsc_returns_example = handle_bsc_returns small third tagged tagged-IsValid tagged_room

handle_bsc-Finalizes_example : Finalizes small tagged forked 10
handle_bsc-Finalizes_example =
    handle_bsc-Finalizes small third tagged forked (revisions (handle_bsc third tagged).0) 10
      tagged-IsValid ((refl, (refl, tt)), (refl, tt)) forked_runs tagged_state.0

health-observe_finalized_example :
    (b : ExecutionBlock) × (Dict.get tagged.blocks (tag 10 5000).finalized ≡ some b)
    × (Dict.get tagged.canonical b.number ≡ some (tag 10 5000).finalized)
    × (again.finalized ≡ some b.hash)
    × ((now bound : ℕ)
        → finality_health again now bound ≡ (
            if tagged.finalized == some b.hash
            then finality_health tagged now bound
            else if ltb bound (now - 5000)
            then stalled
            else healthy))
health-observe_finalized_example =
    health-observe_finalized (tag 10 5000) tagged again
      (returned (observe_finalized (tag 10 5000) tagged).0 some_revision) again_runs
