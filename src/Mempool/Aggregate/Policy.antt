-- ===== src/Mempool/Aggregate/Policy.antt =====
-- What the policies of processors/bitcoin-mempool/src/aggregate.rs decide, in terms of the observers.
use multichain_rs.Prelude.{
  ℕ, suc, ◌≤◌, String, ◌≡◌, refl, sym, ◌∙◌, inl, inr, Bool, false, ◌&&◌, ◌||◌, not, List, [], ◌∷◌,
  map, arith, ltb, leb, nat_beq, if◌then◌else◌, ◌==◌, nat_eq, string_eq, option_eq, Bool-cases,
  length, any, all, list_eq,
}
use multichain_rs.Mempool.Membership.{Txid}
use multichain_rs.Mempool.Observer.{ObserverMempool, contains}
use multichain_rs.Mempool.Aggregate.{
  MempoolViewPolicy, CoverageQuality, is_healthy, bounded_count, u16_max, filter, sort_insert,
  sort_unstable, first_seen, coverage, satisfies, aggregate_membership,
}

-- The observers that are healthy and hold the transaction, one by one.
pub holders : Txid → List ObserverMempool → ℕ
holders txid [] = 0
holders txid (s ∷ more) =
    let rest = holders txid more in if is_healthy s && contains s txid then suc rest else rest

-- What a policy promises: the named observer is healthy and holds the transaction; some healthy
-- observer does; there is a healthy observer and all of them do; at least so many of them do, and
-- that is not none.
pub holds : MempoolViewPolicy → Txid → List ObserverMempool → Bool
unfolding holders
holds (MempoolViewPolicy.source source_id) txid observers =
    any (λ s. is_healthy s && (s.source_id == source_id && contains s txid)) observers
holds MempoolViewPolicy.union txid observers = any (λ s. is_healthy s && contains s txid) observers
holds MempoolViewPolicy.intersection txid observers =
    any is_healthy observers && all (λ s. not (is_healthy s) || contains s txid) observers
holds (MempoolViewPolicy.quorum required) txid observers =
    ltb 0 required && leb required (holders txid observers)

length-sort_insert : (x : String) (l : List String) → length (sort_insert x l) ≡ suc (length l)
unfolding sort_insert
length-sort_insert x [] = refl
length-sort_insert x (y ∷ l) = ground (arith, length-sort_insert x l)

length-sort_unstable : (l : List String) → length (sort_unstable l) ≡ length l
unfolding sort_unstable
length-sort_unstable [] = refl
length-sort_unstable (x ∷ l) =
    ground (arith, length-sort_insert x (sort_unstable l), length-sort_unstable l)

length-map : (l : List ObserverMempool) → length (map (λ s. s.source_id) l) ≡ length l
length-map [] = refl
length-map (s ∷ l) = ground (arith, length-map l)

length-holders :
    (txid : Txid) (l : List ObserverMempool)
    → length (filter (λ s. contains s txid) (filter is_healthy l)) ≡ holders txid l
unfolding filter holders
length-holders txid [] = refl
length-holders txid (s ∷ l) = elim (Bool-cases (is_healthy s)) [
  | inl up ↦ rw up (ground (arith, length-holders txid l))
  | inr down ↦ rw down (length-holders txid l)
]

healthy-any : (l : List ObserverMempool) → ltb 0 (length (filter is_healthy l)) ≡ any is_healthy l
unfolding filter
healthy-any [] = refl
healthy-any (s ∷ l) = ground (arith, healthy-any l)

any-filter :
    (p : ObserverMempool → Bool) (l : List ObserverMempool)
    → any p (filter is_healthy l) ≡ any (λ s. is_healthy s && p s) l
unfolding filter
any-filter p [] = refl
any-filter p (s ∷ l) = ground (arith, any-filter p l)

holders-any :
    (txid : Txid) (l : List ObserverMempool)
    → ltb 0 (holders txid l) ≡ any (λ s. is_healthy s && contains s txid) l
unfolding holders
holders-any txid [] = refl
holders-any txid (s ∷ l) = ground (arith, holders-any txid l)

holders_le :
    (txid : Txid) (l : List ObserverMempool) → holders txid l ≤ length (filter is_healthy l)
unfolding holders filter
holders_le txid [] = omega arith
holders_le txid (s ∷ l) = ground (arith, holders_le txid l)

holders-all :
    (txid : Txid) (l : List ObserverMempool)
    → nat_beq (holders txid l) (length (filter is_healthy l))
      ≡ all (λ s. not (is_healthy s) || contains s txid) l
unfolding holders filter
holders-all txid [] = refl
holders-all txid (s ∷ l) = ground (arith, holders-all txid l, holders_le txid l)

length-filter : (l : List ObserverMempool) → length (filter is_healthy l) ≤ length l
unfolding filter
length-filter [] = omega arith
length-filter (s ∷ l) = ground (arith, length-filter l)

satisfies-holds :
    (policy : MempoolViewPolicy) (txid : Txid) (l : List ObserverMempool)
    → satisfies policy txid (filter is_healthy l) (holders txid l) (length (filter is_healthy l))
      ≡ holds policy txid l
unfolding satisfies holds
satisfies-holds (MempoolViewPolicy.source source_id) txid l =
    any-filter (λ s. s.source_id == source_id && contains s txid) l
satisfies-holds MempoolViewPolicy.union txid l = holders-any txid l
satisfies-holds MempoolViewPolicy.intersection txid l =
    ground (arith, holders-all txid l, healthy-any l)
satisfies-holds (MempoolViewPolicy.quorum required) txid l = refl

unhealthy-any :
    (p : ObserverMempool → Bool) (l : List ObserverMempool)
    → any is_healthy l ≡ false
    → any (λ s. is_healthy s && p s) l ≡ false
unhealthy-any p [] h = refl
unhealthy-any p (s ∷ l) h = ground (arith, unhealthy-any p l)

unhealthy-holds :
    (policy : MempoolViewPolicy) (txid : Txid) (l : List ObserverMempool)
    → any is_healthy l ≡ false
    → holds policy txid l ≡ false
unfolding holds
unhealthy-holds (MempoolViewPolicy.source source_id) txid l h =
    unhealthy-any (λ s. s.source_id == source_id && contains s txid) l h
unhealthy-holds MempoolViewPolicy.union txid l h = unhealthy-any (λ s. contains s txid) l h
unhealthy-holds MempoolViewPolicy.intersection txid l h = ground (arith, h)
unhealthy-holds (MempoolViewPolicy.quorum required) txid l h =
    ground (arith, h, holders_le txid l, healthy-any l)

bounded_count_lem : (n : ℕ) → n ≤ u16_max → bounded_count n ≡ n
unfolding bounded_count
bounded_count_lem n le = ground arith

coverage-unavailable :
    (l : List ObserverMempool) (skewed : Bool)
    → coverage (filter is_healthy l) l skewed ≡ CoverageQuality.unavailable
    → any is_healthy l ≡ false
unfolding coverage
coverage-unavailable l skewed e = ground (arith, healthy-any l)

verdict_lem :
    (quality : CoverageQuality) (decided held : Bool)
    → decided ≡ held
    → (quality ≡ CoverageQuality.unavailable → held ≡ false)
    → (elim quality [
      | CoverageQuality.unavailable ↦ false
      | CoverageQuality.complete ↦ decided
      | CoverageQuality.degraded ↦ decided
    ])
      ≡ held
verdict_lem CoverageQuality.unavailable decided held same none_up = sym (none_up refl)
verdict_lem CoverageQuality.complete decided held same none_up = same
verdict_lem CoverageQuality.degraded decided held same none_up = same

-- With at most 65535 observers, an aggregate decision says that the policy is satisfied exactly when
-- the observers are as the policy promises, whatever the clocks say.
pub policy_satisfied-holds :
    (txid : Txid) (observers : List ObserverMempool) (policy : MempoolViewPolicy) (offset : ℕ)
    → length observers ≤ u16_max
    → (aggregate_membership txid observers policy offset).policy_satisfied
      ≡ holds policy txid observers
unfolding aggregate_membership coverage
policy_satisfied-holds txid observers policy offset small =
    let healthy = filter is_healthy observers in
    let sources = map (λ s. s.source_id) (filter (λ s. contains s txid) healthy) in
    let present : length (sort_unstable sources) ≡ holders txid observers =
      length-sort_unstable sources
      ∙ length-map (filter (λ s. contains s txid) healthy)
      ∙ length-holders txid observers in
    let healthy_count : bounded_count (length healthy) ≡ length healthy =
      bounded_count_lem (length healthy) (omega (arith, length-filter observers)) in
    let present_count : bounded_count (length (sort_unstable sources)) ≡ holders txid observers =
      bounded_count_lem (length (sort_unstable sources))
        (omega (arith, present, holders_le txid observers, length-filter observers))
      ∙ present in
    let decided : satisfies policy txid healthy (bounded_count (length (sort_unstable sources)))
          (bounded_count (length healthy))
        ≡ holds policy txid observers =
      (λ i. satisfies policy txid healthy (present_count i) (healthy_count i))
      ∙ satisfies-holds policy txid observers in
    verdict_lem (coverage healthy observers (first_seen txid offset observers).1) _
      (holds policy txid observers) decided
      (λ e.
        unhealthy-holds policy txid observers
          (coverage-unavailable observers (first_seen txid offset observers).1 e))
