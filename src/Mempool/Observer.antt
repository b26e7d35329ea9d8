-- ===== src/Mempool/Observer.antt =====
-- One observer's mempool (`ObserverMempool` of processors/bitcoin-mempool/src/state.rs). SHA-256 is
-- a parameter.
pub mod Members
pub mod History
pub mod Calls
pub mod Report
mod Tests
use multichain_rs.Prelude.{
  ℕ, ◌+◌, String, Bool, true, false, not, Option, none, some, List, [], ◌∷◌, ◌++◌, ltb,
  if◌then◌else◌, ◌==◌, nat_eq, string_eq, option_eq, saturating_add, is_blank, list_eq,
}
use multichain_rs.Dict
use multichain_rs.Dict.{Dict}
use multichain_rs.Exec.{Outcome, ok, err, Exec, pure, reads, current, ◌>>=◌, ◌>>◌}
use multichain_rs.Mempool.Membership.{
  ℤ, pos, Txid, EpochId, MembershipState, MembershipCause, RemovalCause, MembershipRevision,
  MempoolError, into,
}
use multichain_rs.Mempool.Sets.{to_set, difference}
use multichain_rs.Mempool.Epoch.{epoch_id}

pub data ObserverHealth : Type 0 where
  healthy gapped offline : ObserverHealth

pub record ActiveEpoch : Type 0 where
  pub epoch_id : EpochId
  pub first_seen_at_unix_ns : Option ℤ

pub record ObserverMempool : Type 0 where
  pub source_id : String
  pub snapshot_sequence : Option ℕ
  pub last_snapshot_members : Option (List Txid)
  pub members : Dict Txid ActiveEpoch
  pub epoch_counts : Dict Txid ℕ
  pub revisions : List MembershipRevision
  pub health : ObserverHealth
  pub clock_offset_ns : ℤ

-- `ObserverMempool::new` with a source that is not blank
abbrev pub empty_observer : String → ObserverMempool
empty_observer source_id = record {
  source_id = source_id;
  snapshot_sequence = none;
  last_snapshot_members = none;
  members = Dict.empty;
  epoch_counts = Dict.empty;
  revisions = [];
  health = offline;
  clock_offset_ns = pos 0;
}

-- `ObserverMempool::new`
pub new_observer : String → Outcome MempoolError ObserverMempool
new_observer source_id =
    if is_blank source_id then err MempoolError.empty_source_id else ok (empty_observer source_id)

-- `contains`
abbrev pub contains : ObserverMempool → Txid → Bool
contains s txid = Dict.contains_key s.members txid

-- `first_seen_at_unix_ns`
unfoldable pub first_seen_at : ObserverMempool → Txid → Option ℤ
first_seen_at s txid = elim (Dict.get s.members txid) [
  | none ↦ none
  | some epoch ↦ epoch.first_seen_at_unix_ns
]

-- What an addition or a removal gives back: the revision, if there is one, and the state.
abbrev pub Recorded : Type 0
Recorded = Option MembershipRevision × ObserverMempool

-- `self.record(revision)`, behind `Some`
pub record_revision : MembershipRevision → ObserverMempool → Recorded
record_revision revision s = (some revision, record s { revisions = s.revisions ++ revision ∷ [] })

-- `entry(txid).and_modify(…).or_insert(1)`
pub next_epoch : Dict Txid ℕ → Txid → ℕ
next_epoch counts txid = elim (Dict.get counts txid) [
  | none ↦ 1
  | some count ↦ saturating_add count 1
]

-- `self.remove(…)`
pub remove : Txid → MembershipCause → Option ℤ → ℤ → ObserverMempool → Recorded
unfolding record_revision
remove txid cause source_observed recorded s = elim (Dict.get s.members txid) [
  | none ↦ (none, s)
  | some epoch ↦
      record_revision
        (record {
          txid = txid;
          epoch_id = epoch.epoch_id;
          epoch_revision = 2;
          state = MembershipState.absent;
          cause = cause;
          source_observed_at_unix_ns = source_observed;
          recorded_at_unix_ns = recorded;
        })
        (record s { members = Dict.remove s.members txid })
]

-- `observe_remove`
pub observe_remove : Txid → ℤ → RemovalCause → ObserverMempool → Recorded
unfolding remove into
observe_remove txid observed_at cause = remove txid (into cause) (some observed_at) observed_at

-- The revisions of the additions or removals that made one.
pub kept : Recorded → List MembershipRevision → List MembershipRevision
kept (none, s) revisions = revisions
kept (some revision, s) revisions = revision ∷ revisions

-- The loop over `removals`
pub remove_all : List Txid → ℤ → ObserverMempool → List MembershipRevision × ObserverMempool
unfolding remove kept
remove_all [] recorded s = ([], s)
remove_all (txid ∷ more) recorded s =
    let first = remove txid MembershipCause.reconciled_snapshot none recorded s in
    let rest = remove_all more recorded first.1 in (kept first rest.0, rest.1)

-- Whether the snapshot was seen before; a sequence that may not be applied is an error.
pub check_sequence : ℕ → List Txid → ObserverMempool → Outcome MempoolError Bool
check_sequence sequence snapshot s = elim s.snapshot_sequence [
  | none ↦ ok false
  | some current ↦
      if ltb sequence current
      then err (MempoolError.snapshot_sequence_regression current sequence)
      else if sequence == current
      then (if s.last_snapshot_members == some snapshot
          then ok true
          else err (MempoolError.snapshot_sequence_conflict sequence))
      else ok false
]

-- `set_health`
pub set_health : ObserverHealth → ℤ → ObserverMempool → ObserverMempool
set_health health clock_offset s = record s { health = health; clock_offset_ns = clock_offset }

module _ (sha256 : List ℕ → EpochId) where
  -- `self.add(…)` of a transaction that is not there
  pub start_epoch : Txid → MembershipCause → Option ℤ → ℤ → ObserverMempool → Recorded
  unfolding next_epoch record_revision epoch_id
  start_epoch txid cause source_observed recorded s =
      let number = next_epoch s.epoch_counts txid in
      let id = epoch_id sha256 s.source_id txid number in
      record_revision
        (record {
          txid = txid;
          epoch_id = id;
          epoch_revision = 1;
          state = MembershipState.present;
          cause = cause;
          source_observed_at_unix_ns = source_observed;
          recorded_at_unix_ns = recorded;
        })
        (record s {
          epoch_counts = Dict.insert s.epoch_counts txid number;
          members =
              Dict.insert s.members txid
                (record { epoch_id = id; first_seen_at_unix_ns = source_observed });
        })

  -- `self.add(…)`
  pub add : Txid → MembershipCause → Option ℤ → ℤ → ObserverMempool → Recorded
  unfolding start_epoch
  add txid cause source_observed recorded s =
      if contains s txid then (none, s) else start_epoch txid cause source_observed recorded s

  -- `observe_add`
  pub observe_add : Txid → ℤ → ObserverMempool → Recorded
  unfolding add
  observe_add txid observed_at = add txid MembershipCause.observed (some observed_at) observed_at

  -- `reaccept_after_disconnect`
  pub reaccept_after_disconnect : Txid → ℤ → ObserverMempool → Recorded
  unfolding add
  reaccept_after_disconnect txid observed_at =
      add txid MembershipCause.disconnected (some observed_at) observed_at

  -- The loop over `additions`
  pub add_all : List Txid → ℤ → ObserverMempool → List MembershipRevision × ObserverMempool
  unfolding add kept
  add_all [] recorded s = ([], s)
  add_all (txid ∷ more) recorded s =
      let first = add txid MembershipCause.reconciled_snapshot none recorded s in
      let rest = add_all more recorded first.1 in (kept first rest.0, rest.1)

  -- `apply_snapshot` from the differences on
  pub converge : ℕ → List Txid → ℤ → Exec MempoolError ObserverMempool (List MembershipRevision)
  unfolding remove_all add_all difference to_set
  converge sequence snapshot recorded s =
      let current = to_set (Dict.keys s.members) in
      let removed = remove_all (difference current snapshot) recorded s in
      let added = add_all (difference snapshot current) recorded removed.1 in
      (
        ok (removed.0 ++ added.0),
        record added.1 { snapshot_sequence = some sequence; last_snapshot_members = some snapshot },
      )

  -- `apply_snapshot`
  pub apply_snapshot :
      ℕ → List Txid → ℤ → Exec MempoolError ObserverMempool (List MembershipRevision)
  unfolding check_sequence converge to_set
  apply_snapshot sequence members recorded = do
    let snapshot = to_set members
    replayed ← reads (check_sequence sequence snapshot)
    if replayed then pure [] else converge sequence snapshot recorded
