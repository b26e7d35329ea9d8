-- ===== src/Mempool/Observer/Tests.antt =====
-- The theorems about a mempool observer at concrete calls. The hash is the length of its input.
use multichain_rs.Prelude.{
  ℕ, ◌≡◌, refl, none, some, List, [], ◌∷◌, arith, nat_eq, string_eq, option_eq, length, list_eq,
}
use multichain_rs.Dict
use multichain_rs.Exec.{ok}
use multichain_rs.Mempool.Membership.{
  pos, Txid, EpochId, MembershipState, MembershipCause, RemovalCause, MembershipRevision,
}
use multichain_rs.Mempool.Sets.{elem, to_set}
use multichain_rs.Mempool.Observer.{ObserverMempool, empty_observer, contains, apply_snapshot}
use multichain_rs.Mempool.Observer.Calls.{
  Call, run_calls, contains-apply_snapshot, stale-apply_snapshot, run_calls-Tells,
}
use multichain_rs.Mempool.Observer.History.{Tells}
use multichain_rs.Mempool.Observer.Report.{IsReport, apply_snapshot-IsReport}

abbrev digest : List ℕ → EpochId
digest bytes = length bytes

-- An observer that holds the transactions 3 and 8, by the snapshot with the sequence 5.
abbrev holding : ObserverMempool
holding = record (empty_observer "alice") {
  members =
      Dict.insert
        (Dict.insert Dict.empty 8 (record { epoch_id = 11; first_seen_at_unix_ns = some (pos 4) }))
        3 (record { epoch_id = 12; first_seen_at_unix_ns = none });
  snapshot_sequence = some 5;
  last_snapshot_members = some (3 ∷ 8 ∷ []);
}

contains-apply_snapshot_example :
    (revisions : List MembershipRevision) × ((apply_snapshot digest 7
        (8 ∷ 2 ∷ [])
        (pos 9)
        holding).0
      ≡ ok revisions)
    × ((q : Txid)
        → contains (apply_snapshot digest 7 (8 ∷ 2 ∷ []) (pos 9) holding).1 q ≡ elem q (8 ∷ 2 ∷ []))
contains-apply_snapshot_example =
    contains-apply_snapshot digest 7 (8 ∷ 2 ∷ []) (pos 9) holding (λ current e. ground arith)

stale-apply_snapshot_example :
    ((apply_snapshot digest 5 (8 ∷ 3 ∷ []) (pos 9) holding).1 ≡ holding)
    × ((revisions : List MembershipRevision)
        → (apply_snapshot digest 5 (8 ∷ 3 ∷ []) (pos 9) holding).0 ≡ ok revisions
        → (revisions ≡ [])
          × (◌≡◌ {A = ℕ} 5 5)
          × (holding.last_snapshot_members ≡ some (to_set (8 ∷ 3 ∷ []))))
stale-apply_snapshot_example =
    stale-apply_snapshot digest 5 (8 ∷ 3 ∷ []) (pos 9) holding 5 refl (omega arith)

abbrev day : List Call
day =
    Call.adds 3 (pos 1)
    ∷ Call.snapshot 5 (3 ∷ 8 ∷ []) (pos 2)
    ∷ Call.removes 3 (pos 3) RemovalCause.mined
    ∷ Call.reaccepts 3 (pos 4)
    ∷ Call.snapshot 4 (8 ∷ []) (pos 5)
    ∷ []

run_calls-Tells_example : Tells digest "alice" (run_calls digest day (empty_observer "alice"))
run_calls-Tells_example = run_calls-Tells digest "alice" day

abbrev reported : List MembershipRevision
reported =
    (record {
      txid = 3;
      epoch_id = 12;
      epoch_revision = 2;
      state = MembershipState.absent;
      cause = MembershipCause.reconciled_snapshot;
      source_observed_at_unix_ns = none;
      recorded_at_unix_ns = pos 9;
    })
    ∷ (record {
      txid = 2;
      epoch_id = 88;
      epoch_revision = 1;
      state = MembershipState.present;
      cause = MembershipCause.reconciled_snapshot;
      source_observed_at_unix_ns = none;
      recorded_at_unix_ns = pos 9;
    })
    ∷ []

snapshot_reports : (apply_snapshot digest 7 (8 ∷ 2 ∷ []) (pos 9) holding).0 ≡ ok reported
unfolding apply_snapshot Dict.get Dict.insert Dict.remove Dict.keys Dict.empty
snapshot_reports = refl

apply_snapshot-IsReport_example :
    IsReport holding (reported, (apply_snapshot digest 7 (8 ∷ 2 ∷ []) (pos 9) holding).1)
apply_snapshot-IsReport_example =
    apply_snapshot-IsReport digest 7 (8 ∷ 2 ∷ []) (pos 9) holding reported snapshot_reports
