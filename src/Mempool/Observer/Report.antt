-- ===== src/Mempool/Observer/Report.antt =====
-- What a snapshot reports: the revisions that `apply_snapshot` of
-- processors/bitcoin-mempool/src/state.rs gives back.
use multichain_rs.Prelude.{
  ℕ, ◌≡◌, refl, sym, ap, ◌∙◌, inl, inr, Bool, true, false, none, some, List, [], ◌∷◌, ◌++◌, nat_eq,
  string_eq, option_eq, Bool-cases, Option-cases, All, All-append, list_eq,
}
use mathlib.Core.List.{append_assoc, append-nil}
use mathlib.Core.Path.{subst}
use multichain_rs.Dict
use multichain_rs.Exec.{Outcome, ok, err, panic, diverge}
use multichain_rs.Mempool.Membership.{
  ℤ, Txid, EpochId, MembershipCause, MembershipRevision, MempoolError,
}
use multichain_rs.Mempool.Sets.{to_set, difference}
use multichain_rs.Mempool.Observer.{
  Recorded, ObserverMempool, record_revision, start_epoch, add, remove, kept, add_all, remove_all,
  check_sequence, converge, apply_snapshot,
}

-- The revisions stand at the end of the history, the new ones in the order of the report, and none
-- names a time at which the source saw the change.
pub IsReport : ObserverMempool → List MembershipRevision × ObserverMempool → Type 0
IsReport s (revisions, after) =
    (after.revisions ≡ s.revisions ++ revisions)
    × All
        (λ r.
          (r.source_observed_at_unix_ns ≡ none) × (r.cause ≡ MembershipCause.reconciled_snapshot))
        revisions

nothing-IsReport : (s : ObserverMempool) → IsReport s ([], s)
unfolding IsReport
nothing-IsReport s = (sym (append-nil s.revisions), tt)

IsReport-trans :
    (s m e : ObserverMempool) (xs ys : List MembershipRevision)
    → IsReport s (xs, m)
    → IsReport m (ys, e)
    → IsReport s (xs ++ ys, e)
unfolding IsReport
IsReport-trans s m e xs ys (a, p) (b, q) =
    (b ∙ ap (λ l. l ++ ys) a ∙ append_assoc s.revisions xs ys, All-append _ xs ys p q)

kept-append :
    (change : Recorded) (revisions : List MembershipRevision)
    → kept change [] ++ revisions ≡ kept change revisions
unfolding kept
kept-append (none, s) revisions = refl
kept-append (some r, s) revisions = refl

ok-injective :
    {xs ys : List MembershipRevision}
    → ◌≡◌ {A = Outcome MempoolError (List MembershipRevision)} (ok xs) (ok ys)
    → xs ≡ ys
ok-injective e = cc e

-- One change that names no time, as a report.
abbrev one : Recorded → List MembershipRevision × ObserverMempool
unfolding kept
one change = (kept change [], change.1)

remove-IsReport :
    (t : Txid) (w : ℤ) (s : ObserverMempool)
    → IsReport s (one (remove t MembershipCause.reconciled_snapshot none w s))
unfolding IsReport remove record_revision kept
remove-IsReport t w s = elim (Option-cases (Dict.get s.members t)) [
  | inl gone ↦ rw (remove, gone) (sym (append-nil s.revisions), tt)
  | inr (epoch, there) ↦ rw (remove, there) (refl, ((refl, refl), tt))
]

remove_all-IsReport : (l : List Txid) (w : ℤ) (s : ObserverMempool) → IsReport s (remove_all l w s)
unfolding remove_all
remove_all-IsReport [] w s = nothing-IsReport s
remove_all-IsReport (t ∷ l) w s =
    let first = remove t MembershipCause.reconciled_snapshot none w s in
    let rest = remove_all l w first.1 in
    subst (λ xs. IsReport s (xs, rest.1)) (kept-append first rest.0)
      (IsReport-trans s first.1 rest.1 (kept first []) rest.0 (remove-IsReport t w s)
        (remove_all-IsReport l w first.1))

module _ (sha256 : List ℕ → EpochId) where
  add-IsReport :
      (t : Txid) (w : ℤ) (s : ObserverMempool)
      → IsReport s (one (add sha256 t MembershipCause.reconciled_snapshot none w s))
  unfolding IsReport add start_epoch record_revision kept
  add-IsReport t w s = elim (Bool-cases (Dict.contains_key s.members t)) [
    | inl there ↦ rw (add, there) (sym (append-nil s.revisions), tt)
    | inr gone ↦ rw (add, gone) (refl, ((refl, refl), tt))
  ]

  add_all-IsReport :
      (l : List Txid) (w : ℤ) (s : ObserverMempool) → IsReport s (add_all sha256 l w s)
  unfolding add_all
  add_all-IsReport [] w s = nothing-IsReport s
  add_all-IsReport (t ∷ l) w s =
      let first = add sha256 t MembershipCause.reconciled_snapshot none w s in
      let rest = add_all sha256 l w first.1 in
      subst (λ xs. IsReport s (xs, rest.1)) (kept-append first rest.0)
        (IsReport-trans s first.1 rest.1 (kept first []) rest.0 (add-IsReport t w s)
          (add_all-IsReport l w first.1))

  converge-IsReport :
      (n : ℕ) (l : List Txid) (w : ℤ) (s : ObserverMempool) (revisions : List MembershipRevision)
      → (converge sha256 n l w s).0 ≡ ok revisions
      → IsReport s (revisions, (converge sha256 n l w s).1)
  unfolding converge IsReport
  converge-IsReport n l w s revisions e =
      let current = to_set (Dict.keys s.members) in
      let gone = difference current l in
      let removed = remove_all gone w s in
      let added = add_all sha256 (difference l current) w removed.1 in
      let same : removed.0 ++ added.0 ≡ revisions = ok-injective e in
      let both =
        IsReport-trans s removed.1 added.1 removed.0 added.0 (remove_all-IsReport gone w s)
          (add_all-IsReport (difference l current) w removed.1) in
      subst (λ xs. IsReport s (xs, added.1)) same both

  apply_snapshot_with-IsReport :
      (n : ℕ) (l : List Txid) (w : ℤ) (s : ObserverMempool) (revisions : List MembershipRevision)
      (o : Outcome MempoolError Bool)
      → check_sequence n (to_set l) s ≡ o
      → (apply_snapshot sha256 n l w s).0 ≡ ok revisions
      → IsReport s (revisions, (apply_snapshot sha256 n l w s).1)
  unfolding apply_snapshot
  apply_snapshot_with-IsReport n l w s revisions (ok true) e =
      rw (apply_snapshot, e)
        (λ r. subst (λ xs. IsReport s (xs, s)) (ok-injective r) (nothing-IsReport s))
  apply_snapshot_with-IsReport n l w s revisions (ok false) e =
      rw (apply_snapshot, e) (λ r. converge-IsReport n (to_set l) w s revisions r)
  apply_snapshot_with-IsReport n l w s revisions (err x) e =
      rw (apply_snapshot, e) (λ r. absurd (cc r))
  apply_snapshot_with-IsReport n l w s revisions panic e =
      rw (apply_snapshot, e) (λ r. absurd (cc r))
  apply_snapshot_with-IsReport n l w s revisions diverge e =
      rw (apply_snapshot, e) (λ r. absurd (cc r))

  -- What an accepted snapshot gives back are the revisions that it put at the end of the history, in
  -- their order; their cause is the snapshot, and they name no time at which the source saw the change.
  pub apply_snapshot-IsReport :
      (n : ℕ) (l : List Txid) (w : ℤ) (s : ObserverMempool) (revisions : List MembershipRevision)
      → (apply_snapshot sha256 n l w s).0 ≡ ok revisions
      → IsReport s (revisions, (apply_snapshot sha256 n l w s).1)
  apply_snapshot-IsReport n l w s revisions =
      apply_snapshot_with-IsReport n l w s revisions (check_sequence n (to_set l) s) refl
