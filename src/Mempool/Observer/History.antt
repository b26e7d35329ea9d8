-- ===== src/Mempool/Observer/History.antt =====
-- The history of a mempool observer (`revisions` of `ObserverMempool`,
-- processors/bitcoin-mempool/src/state.rs): replayed, it gives the membership back, and it counts
-- the epochs. The calls of an observer come in any order, and those that fail are among them.
use multichain_rs.Prelude.{
  ℕ, ◌+◌, min, String, ◌≡◌, refl, sym, ap, ◌∙◌, inl, inr, Option, none, some, List, [], ◌∷◌, ◌++◌,
  arith, if◌then◌else◌, ◌==◌, nat_beq_iff, nat_eq, string_eq, option_eq, Bool-cases, Option-cases,
  u64_max, list_eq,
}
use multichain_rs.Dict
use multichain_rs.Dict.{Dict, get-insert, get-remove, get-empty}
use multichain_rs.Mempool.Membership.{
  ℤ, Txid, EpochId, MembershipState, MembershipCause, MembershipRevision,
}
use multichain_rs.Mempool.Epoch.{epoch_id}
use multichain_rs.Mempool.Observer.{
  ActiveEpoch, ObserverMempool, empty_observer, record_revision, start_epoch, next_epoch, add,
  remove, add_all, remove_all,
}

-- One revision, and a history from the first revision on, read as the open epoch of a transaction.
pub after : MembershipRevision → Txid → Option EpochId → Option EpochId
after r q open_epoch =
    if r.txid == q
    then elim r.state [ MembershipState.present ↦ some r.epoch_id | MembershipState.absent ↦ none ]
    else open_epoch

pub replay : List MembershipRevision → Txid → Option EpochId → Option EpochId
unfolding after
replay [] q open_epoch = open_epoch
replay (r ∷ more) q open_epoch = replay more q (after r q open_epoch)

pub starts_epoch : MembershipRevision → Txid → ℕ
starts_epoch r q =
    if r.txid == q
    then elim r.state [ MembershipState.present ↦ 1 | MembershipState.absent ↦ 0 ]
    else 0

-- How many epochs of a transaction a history starts.
pub epochs_started : List MembershipRevision → Txid → ℕ
unfolding starts_epoch
epochs_started [] q = 0
epochs_started (r ∷ more) q = starts_epoch r q + epochs_started more q

-- The epoch that an observer has open for a transaction, and the number of those it counted.
abbrev pub open_epoch : ObserverMempool → Txid → Option EpochId
open_epoch s q = elim (Dict.get s.members q) [ none ↦ none | some epoch ↦ some epoch.epoch_id ]

abbrev pub epoch_count : ObserverMempool → Txid → ℕ
epoch_count s q = elim (Dict.get s.epoch_counts q) [ none ↦ 0 | some count ↦ count ]

replay-append :
    (l : List MembershipRevision) (r : MembershipRevision) (q : Txid) (e : Option EpochId)
    → replay (l ++ r ∷ []) q e ≡ after r q (replay l q e)
unfolding replay
replay-append [] r q e = refl
replay-append (x ∷ l) r q e = replay-append l r q (after x q e)

epochs_started-append :
    (l : List MembershipRevision) (r : MembershipRevision) (q : Txid)
    → epochs_started (l ++ r ∷ []) q ≡ epochs_started l q + starts_epoch r q
unfolding epochs_started
epochs_started-append [] r q = omega arith
epochs_started-append (x ∷ l) r q = omega (arith, epochs_started-append l r q)

some-injective : {a b : EpochId} → some a ≡ some b → a ≡ b
some-injective e = ground arith

module _ (sha256 : List ℕ → EpochId) (source_id : String) where
  -- The history of the observer tells its membership, its count of epochs, which stops at the end
  -- of `u64`, and by the count the name of an open epoch.
  pub record Tells (s : ObserverMempool) : Type 0 where
    pub source : s.source_id ≡ source_id
    pub membership : (q : Txid) → replay s.revisions q none ≡ open_epoch s q
    pub counts : (q : Txid) → epoch_count s q ≡ min (epochs_started s.revisions q) u64_max
    pub named :
        (q : Txid) (e : EpochId)
        → open_epoch s q ≡ some e
        → e ≡ epoch_id sha256 source_id q (epoch_count s q)

  next_epoch_lem :
      (s : ObserverMempool) (q : Txid)
      → next_epoch s.epoch_counts q ≡ min (epoch_count s q + 1) u64_max
  unfolding next_epoch
  next_epoch_lem s q = ground arith

  module _ (t : Txid) (c : MembershipCause) (o : Option ℤ) (w : ℤ) (s : ObserverMempool)
      (v : Tells s) where
    started : ObserverMempool
    unfolding start_epoch record_revision
    started = (start_epoch sha256 t c o w s).1

    started_id : EpochId
    started_id = epoch_id sha256 s.source_id t (next_epoch s.epoch_counts t)

    open_epoch-started :
        (q : Txid) → open_epoch started q ≡ (if t == q then some started_id else open_epoch s q)
    unfolding started started_id start_epoch record_revision
    open_epoch-started q = ground (
      arith,
      get-insert s.members t q (record { epoch_id = started_id; first_seen_at_unix_ns = o }),
    )

    epoch_count-started :
        (q : Txid)
        → epoch_count started q ≡ (if t == q then next_epoch s.epoch_counts t else epoch_count s q)
    unfolding started start_epoch record_revision
    epoch_count-started q =
        ground (arith, get-insert s.epoch_counts t q (next_epoch s.epoch_counts t))

    started-named :
        (q : Txid) (e : EpochId)
        → open_epoch started q ≡ some e
        → e ≡ epoch_id sha256 source_id q (epoch_count started q)
    unfolding started_id
    started-named q e h = elim (Bool-cases (t == q)) [
      | inl same ↦
          let at : t ≡ q = ground (arith, nat_beq_iff t q) in
          let opened : open_epoch started q ≡ some started_id =
            open_epoch-started q ∙ rw same refl in
          let counted : epoch_count started q ≡ next_epoch s.epoch_counts t =
            epoch_count-started q ∙ rw same refl in
          let name : epoch_id sha256 s.source_id t (next_epoch s.epoch_counts t) ≡ e =
            some-injective (sym opened ∙ h) in
          let source : s.source_id ≡ source_id = v.source in
          sym name ∙ (λ i. epoch_id sha256 (source i) (at i) (sym counted i))
      | inr other ↦
          let opened : open_epoch started q ≡ open_epoch s q =
            open_epoch-started q ∙ rw other refl in
          let counted : epoch_count started q ≡ epoch_count s q =
            epoch_count-started q ∙ rw other refl in
          v.named q e (sym opened ∙ h) ∙ ap (epoch_id sha256 source_id q) (sym counted)
    ]

    start_epoch-Tells : Tells (start_epoch sha256 t c o w s).1
    unfolding start_epoch record_revision after starts_epoch started
    start_epoch-Tells =
        let n = next_epoch s.epoch_counts t in
        let id = epoch_id sha256 s.source_id t n in
        let r : MembershipRevision = record {
          txid = t;
          epoch_id = id;
          epoch_revision = 1;
          state = MembershipState.present;
          cause = c;
          source_observed_at_unix_ns = o;
          recorded_at_unix_ns = w;
        } in
        let epoch : ActiveEpoch = record { epoch_id = id; first_seen_at_unix_ns = o } in
        record {
          source = v.source;
          membership = λ q. ground (
            arith,
            replay-append s.revisions r q none,
            v.membership q,
            get-insert s.members t q epoch,
          );
          counts = λ q. ground (
            arith,
            epochs_started-append s.revisions r q,
            v.counts q,
            get-insert s.epoch_counts t q n,
            next_epoch_lem s t,
          );
          named = started-named;
        }

    remove_open-Tells :
        (epoch : ActiveEpoch) → Dict.get s.members t ≡ some epoch → Tells (remove t c o w s).1
    unfolding remove record_revision after starts_epoch
    remove_open-Tells epoch there =
        let r : MembershipRevision = record {
          txid = t;
          epoch_id = epoch.epoch_id;
          epoch_revision = 2;
          state = MembershipState.absent;
          cause = c;
          source_observed_at_unix_ns = o;
          recorded_at_unix_ns = w;
        } in
        rw (remove, there)
          (record {
            source = v.source;
            membership = λ q. ground (
              arith,
              replay-append s.revisions r q none,
              v.membership q,
              get-remove s.members t q,
            );
            counts = λ q. ground (arith, epochs_started-append s.revisions r q, v.counts q);
            named = λ q e h. ground (arith, get-remove s.members t q, v.named q e);
          })

    pub remove-Tells : Tells (remove t c o w s).1
    unfolding remove
    remove-Tells = elim (Option-cases (Dict.get s.members t)) [
      | inl gone ↦ rw (remove, gone) v
      | inr (epoch, there) ↦ remove_open-Tells epoch there
    ]

    pub add-Tells : Tells (add sha256 t c o w s).1
    unfolding add
    add-Tells = elim (Bool-cases (Dict.contains_key s.members t)) [
      | inl there ↦ rw (add, there) v
      | inr gone ↦ rw (add, gone) start_epoch-Tells
    ]

  pub remove_all-Tells :
      (l : List Txid) (w : ℤ) (s : ObserverMempool) → Tells s → Tells (remove_all l w s).1
  unfolding remove_all
  remove_all-Tells [] w s v = v
  remove_all-Tells (t ∷ l) w s v =
      remove_all-Tells l w (remove t MembershipCause.reconciled_snapshot none w s).1
        (remove-Tells t MembershipCause.reconciled_snapshot none w s v)

  pub add_all-Tells :
      (l : List Txid) (w : ℤ) (s : ObserverMempool) → Tells s → Tells (add_all sha256 l w s).1
  unfolding add_all
  add_all-Tells [] w s v = v
  add_all-Tells (t ∷ l) w s v =
      add_all-Tells l w (add sha256 t MembershipCause.reconciled_snapshot none w s).1
        (add-Tells t MembershipCause.reconciled_snapshot none w s v)

  pub empty-Tells : Tells (empty_observer source_id)
  unfolding replay epochs_started
  empty-Tells = record {
    source = refl;
    membership = λ q. ground (arith, get-empty {V = ActiveEpoch} q);
    counts = λ q. ground (arith, get-empty {V = ℕ} q);
    named = λ q e h. absurd (ground (arith, get-empty {V = ActiveEpoch} q));
  }
