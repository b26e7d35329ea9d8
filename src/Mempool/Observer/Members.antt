-- ===== src/Mempool/Observer/Members.antt =====
-- What a mempool observer holds after each operation, and that a snapshot makes it the snapshot's
-- set (`apply_snapshot` of processors/bitcoin-mempool/src/state.rs).
use multichain_rs.Prelude.{
  ℕ, ◌≡◌, refl, inl, inr, ◌&&◌, ◌||◌, not, Option, none, List, [], ◌∷◌, arith, nat_beq, ◌==◌,
  nat_eq, string_eq, option_eq, Bool-cases, Option-cases, any, list_eq,
}
use multichain_rs.Dict
use multichain_rs.Dict.{Dict, get-insert, get-remove, any-keys}
use multichain_rs.Mempool.Membership.{ℤ, Txid, EpochId, MembershipCause}
use multichain_rs.Mempool.Sets.{elem, to_set, difference, elem-to_set, elem-difference}
use multichain_rs.Mempool.Epoch.{epoch_id}
use multichain_rs.Mempool.Observer.{
  ObserverMempool, contains, record_revision, start_epoch, next_epoch, add, remove, add_all,
  remove_all, converge,
}

elem-any : (q : ℕ) (l : List ℕ) → any (λ k. k == q) l ≡ elem q l
elem-any q [] = refl
elem-any q (x ∷ xs) = ground (arith, elem-any q xs)

contains-remove :
    (t q : Txid) (c : MembershipCause) (o : Option ℤ) (w : ℤ) (s : ObserverMempool)
    → contains (remove t c o w s).1 q ≡ (contains s q && not (nat_beq t q))
unfolding remove record_revision
contains-remove t q c o w s = elim (Option-cases (Dict.get s.members t)) [
  | inl gone ↦ rw (remove, gone) (ground arith)
  | inr (epoch, there) ↦ rw (remove, there) (ground (arith, get-remove s.members t q))
]

contains-remove_all :
    (q : Txid) (l : List Txid) (w : ℤ) (s : ObserverMempool)
    → contains (remove_all l w s).1 q ≡ (contains s q && not (elem q l))
unfolding remove_all
contains-remove_all q [] w s = ground arith
contains-remove_all q (t ∷ l) w s = ground (
  arith,
  contains-remove t q MembershipCause.reconciled_snapshot none w s,
  contains-remove_all q l w (remove t MembershipCause.reconciled_snapshot none w s).1,
)

module _ (sha256 : List ℕ → EpochId) where
  contains-add :
      (t q : Txid) (c : MembershipCause) (o : Option ℤ) (w : ℤ) (s : ObserverMempool)
      → contains (add sha256 t c o w s).1 q ≡ (nat_beq t q || contains s q)
  unfolding add start_epoch record_revision
  contains-add t q c o w s = elim (Bool-cases (contains s t)) [
    | inl there ↦ rw (add, there) (ground arith)
    | inr gone ↦
        let id = epoch_id sha256 s.source_id t (next_epoch s.epoch_counts t) in
        rw (add, gone)
          (ground
            (arith, get-insert s.members t q (record { epoch_id = id; first_seen_at_unix_ns = o })))
  ]

  contains-add_all :
      (q : Txid) (l : List Txid) (w : ℤ) (s : ObserverMempool)
      → contains (add_all sha256 l w s).1 q ≡ (elem q l || contains s q)
  unfolding add_all
  contains-add_all q [] w s = refl
  contains-add_all q (t ∷ l) w s = ground (
    arith,
    contains-add t q MembershipCause.reconciled_snapshot none w s,
    contains-add_all q l w (add sha256 t MembershipCause.reconciled_snapshot none w s).1,
  )

  pub contains-converge :
      (n : ℕ) (snapshot : List Txid) (w : ℤ) (q : Txid) (s : ObserverMempool)
      → contains (converge sha256 n snapshot w s).1 q ≡ elem q snapshot
  unfolding converge
  contains-converge n snapshot w q s =
      let now = to_set (Dict.keys s.members) in
      let gone = difference now snapshot in
      let removed = remove_all gone w s in
      ground (
        arith,
        contains-add_all q (difference snapshot now) w removed.1,
        contains-remove_all q gone w s,
        elem-difference q now snapshot,
        elem-difference q snapshot now,
        elem-to_set q (Dict.keys s.members),
        elem-any q (Dict.keys s.members),
        any-keys s.members q,
      )
