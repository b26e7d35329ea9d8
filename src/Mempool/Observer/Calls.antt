-- ===== src/Mempool/Observer/Calls.antt =====
-- All the calls of a mempool observer together, and what any run of them leaves
-- (processors/bitcoin-mempool/src/state.rs).
use multichain_rs.Prelude.{
  ℕ, ◌≤◌, ◌<◌, String, ◌≡◌, refl, ◌∙◌, inl, inr, Bool, true, false, some, List, [], ◌∷◌, ◌++◌,
  arith, ltb, ◌==◌, nat_eq, string_eq, option_beq_iff, option_eq, Bool-cases, Option-cases, list_eq,
}
use multichain_rs.Dict
use multichain_rs.Dict.{Dict, get-empty}
use multichain_rs.Exec.{Outcome, ok, err, panic, diverge, current}
use multichain_rs.Mempool.Membership.{
  ℤ, Txid, EpochId, MembershipCause, RemovalCause, MembershipRevision, MempoolError, into,
}
use multichain_rs.Mempool.Sets.{elem, to_set, difference, elem-to_set}
use multichain_rs.Mempool.Observer.{
  ObserverHealth, ObserverMempool, empty_observer, contains, add_all, remove_all, check_sequence,
  converge, apply_snapshot, observe_add, observe_remove, reaccept_after_disconnect, set_health,
}
use multichain_rs.Mempool.Observer.Members.{contains-converge}
use multichain_rs.Mempool.Observer.History.{
  Tells, add-Tells, remove-Tells, add_all-Tells, remove_all-Tells, empty-Tells,
}

pub data Call : Type 0 where
  adds reaccepts : Txid → ℤ → Call
  removes : Txid → ℤ → RemovalCause → Call
  snapshot : ℕ → List Txid → ℤ → Call
  measures : ObserverHealth → ℤ → Call

-- The sequence of a snapshot is above that of the last one.
abbrev pub IsFresh : ℕ → ObserverMempool → Type 0
IsFresh n s = (current : ℕ) → s.snapshot_sequence ≡ some current → current < n

check_sequence-IsFresh :
    (n : ℕ) (l : List Txid) (s : ObserverMempool) → IsFresh n s → check_sequence n l s ≡ ok false
unfolding check_sequence
check_sequence-IsFresh n l s fresh = elim (Option-cases s.snapshot_sequence) [
  | inl first ↦ rw (check_sequence, first) refl
  | inr (current, last) ↦ rw (check_sequence, last) (ground (arith, fresh current last))
]

module _ (sha256 : List ℕ → EpochId) where
  pub handle : Call → ObserverMempool → ObserverMempool
  unfolding observe_add observe_remove reaccept_after_disconnect apply_snapshot set_health
  handle (Call.adds txid at) s = (observe_add sha256 txid at s).1
  handle (Call.reaccepts txid at) s = (reaccept_after_disconnect sha256 txid at s).1
  handle (Call.removes txid at cause) s = (observe_remove txid at cause s).1
  handle (Call.snapshot n l w) s = (apply_snapshot sha256 n l w s).1
  handle (Call.measures level offset) s = set_health level offset s

  pub run_calls : List Call → ObserverMempool → ObserverMempool
  unfolding handle
  run_calls [] s = s
  run_calls (call ∷ more) s = run_calls more (handle call s)

  -- A snapshot with a sequence above the last one's is applied, and the observer then holds the
  -- snapshot's transactions and no others.
  pub contains-apply_snapshot :
      (n : ℕ) (l : List Txid) (w : ℤ) (s : ObserverMempool)
      → IsFresh n s
      → (revisions : List MembershipRevision) × ((apply_snapshot sha256 n l w s).0 ≡ ok revisions)
        × ((q : Txid) → contains (apply_snapshot sha256 n l w s).1 q ≡ elem q l)
  unfolding apply_snapshot converge
  contains-apply_snapshot n l w s fresh =
      let current = to_set (Dict.keys s.members) in
      let removed = remove_all (difference current (to_set l)) w s in
      let added = add_all sha256 (difference (to_set l) current) w removed.1 in
      (
        removed.0 ++ added.0,
        rw (apply_snapshot, check_sequence-IsFresh n (to_set l) s fresh) refl,
        λ q.
            rw (apply_snapshot, check_sequence-IsFresh n (to_set l) s fresh)
              (contains-converge sha256 n (to_set l) w q s ∙ elem-to_set q l),
      )

  -- A snapshot whose sequence is not above the last one's leaves the observer as it is; it is
  -- accepted only if the sequence and the set of transactions are the last one's, and then without a
  -- revision.
  pub stale-apply_snapshot :
      (n : ℕ) (l : List Txid) (w : ℤ) (s : ObserverMempool) (current : ℕ)
      → s.snapshot_sequence ≡ some current
      → n ≤ current
      → ((apply_snapshot sha256 n l w s).1 ≡ s)
        × ((revisions : List MembershipRevision)
            → (apply_snapshot sha256 n l w s).0 ≡ ok revisions
            → (revisions ≡ []) × (n ≡ current) × (s.last_snapshot_members ≡ some (to_set l)))
  unfolding apply_snapshot check_sequence
  stale-apply_snapshot n l w s current last old = elim (Bool-cases (ltb n current)) [
    | inl lower ↦
        let rejected : check_sequence n (to_set l) s
            ≡ err (MempoolError.snapshot_sequence_regression current n) =
          rw (check_sequence, last) (ground arith) in
        rw (apply_snapshot, rejected) (refl, λ revisions e. absurd (ground arith))
    | inr same ↦ elim (Bool-cases (s.last_snapshot_members == some (to_set l))) [
      | inl replayed ↦
          let seen : check_sequence n (to_set l) s ≡ ok true =
            rw (check_sequence, last) (ground arith) in
          rw (apply_snapshot, seen)
            (
              refl,
              λ revisions e. (
                ground arith,
                ground arith,
                (option_beq_iff s.last_snapshot_members (some (to_set l))).0 replayed,
              ),
            )
      | inr other ↦
          let rejected : check_sequence n (to_set l) s
              ≡ err (MempoolError.snapshot_sequence_conflict n) =
            rw (check_sequence, last) (ground arith) in
          rw (apply_snapshot, rejected) (refl, λ revisions e. absurd (ground arith))
    ]
  ]

  module _ (source_id : String) where
    converge-Tells :
        (n : ℕ) (l : List Txid) (w : ℤ) (s : ObserverMempool)
        → Tells sha256 source_id s
        → Tells sha256 source_id (converge sha256 n l w s).1
    unfolding converge
    converge-Tells n l w s v =
        let current = to_set (Dict.keys s.members) in
        let removed = remove_all-Tells sha256 source_id (difference current l) w s v in
        let added =
          add_all-Tells sha256 source_id (difference l current) w
            (remove_all (difference current l) w s).1 removed in
        record {
          source = added.source;
          membership = added.membership;
          counts = added.counts;
          named = added.named;
        }

    apply_snapshot-Tells :
        (n : ℕ) (l : List Txid) (w : ℤ) (s : ObserverMempool) (o : Outcome MempoolError Bool)
        → check_sequence n (to_set l) s ≡ o
        → Tells sha256 source_id s
        → Tells sha256 source_id (apply_snapshot sha256 n l w s).1
    unfolding apply_snapshot
    apply_snapshot-Tells n l w s (ok true) e v = rw (apply_snapshot, e) v
    apply_snapshot-Tells n l w s (ok false) e v =
        rw (apply_snapshot, e) (converge-Tells n (to_set l) w s v)
    apply_snapshot-Tells n l w s (err x) e v = rw (apply_snapshot, e) v
    apply_snapshot-Tells n l w s panic e v = rw (apply_snapshot, e) v
    apply_snapshot-Tells n l w s diverge e v = rw (apply_snapshot, e) v

    handle-Tells :
        (call : Call) (s : ObserverMempool)
        → Tells sha256 source_id s
        → Tells sha256 source_id (handle call s)
    unfolding handle observe_add observe_remove reaccept_after_disconnect apply_snapshot set_health
    handle-Tells (Call.adds txid at) s v =
        add-Tells sha256 source_id txid MembershipCause.observed (some at) at s v
    handle-Tells (Call.reaccepts txid at) s v =
        add-Tells sha256 source_id txid MembershipCause.disconnected (some at) at s v
    handle-Tells (Call.removes txid at cause) s v =
        remove-Tells sha256 source_id txid (into cause) (some at) at s v
    handle-Tells (Call.snapshot n l w) s v =
        apply_snapshot-Tells n l w s (check_sequence n (to_set l) s) refl v
    handle-Tells (Call.measures level offset) s v = record {
      source = v.source;
      membership = v.membership;
      counts = v.counts;
      named = v.named;
    }

    run_calls_from-Tells :
        (calls : List Call) (s : ObserverMempool)
        → Tells sha256 source_id s
        → Tells sha256 source_id (run_calls calls s)
    unfolding run_calls
    run_calls_from-Tells [] s v = v
    run_calls_from-Tells (call ∷ more) s v =
        run_calls_from-Tells more (handle call s) (handle-Tells call s v)

    -- After any calls of a new observer, failed ones among them, its revisions replayed give its
    -- members and their epochs, its count of a transaction's epochs is the number that the revisions
    -- start, up to the end of `u64`, and an open epoch has the name that the code hashes from that count (ADR 0003
    -- describes another name).
    pub run_calls-Tells :
        (calls : List Call) → Tells sha256 source_id (run_calls calls (empty_observer source_id))
    run_calls-Tells calls =
        run_calls_from-Tells calls (empty_observer source_id) (empty-Tells sha256 source_id)
