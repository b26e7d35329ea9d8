-- ===== src/Mempool/Aggregate/Time.antt =====
-- The time of first sight that the aggregate of processors/bitcoin-mempool/src/aggregate.rs gives.
use multichain_rs.Prelude.{
  ℕ, ◌≡◌, refl, sym, ◌∙◌, ◌⊎◌, inl, inr, Bool, true, false, Option, none, some, List, [], ◌∷◌,
  arith, nat_eq, string_eq, option_eq, Bool-cases, Option-cases, any, All, list_eq,
}
use mathlib.Core.Path.{subst}
use multichain_rs.Mempool.Membership.{ℤ, pos, negsuc, Txid}
use multichain_rs.Mempool.Observer.{ObserverMempool, first_seen_at}
use multichain_rs.Mempool.Aggregate.{
  MempoolViewPolicy, leb_ℤ, earlier, is_skewed, trusted_time, first_seen, aggregate_membership,
}

-- The observer saw the transaction at the time `a`, and its clock is trusted.
abbrev pub IsTrusted : Txid → ℕ → ObserverMempool → ℤ → Type 0
IsTrusted txid offset s a = (first_seen_at s txid ≡ some a) × (is_skewed offset s ≡ false)

abbrev pub Attained : Txid → ℕ → ℤ → List ObserverMempool → Type 0
Attained txid offset a [] = ⊥
Attained txid offset a (s ∷ more) = IsTrusted txid offset s a ⊎ Attained txid offset a more

-- No observer has a trusted time, or the time is one of theirs and none of theirs is before it.
abbrev pub IsEarliest : Txid → ℕ → List ObserverMempool → Option ℤ → Type 0
IsEarliest txid offset l none = All (λ s. (a : ℤ) → IsTrusted txid offset s a → ⊥) l
IsEarliest txid offset l (some m) =
    Attained txid offset m l × All (λ s. (a : ℤ) → IsTrusted txid offset s a → leb_ℤ m a ≡ true) l

-- The observer saw the transaction by a clock that is not trusted.
abbrev pub is_untrusted : Txid → ℕ → ObserverMempool → Bool
is_untrusted txid offset s = elim (first_seen_at s txid) [
  | none ↦ false
  | some _ ↦ is_skewed offset s
]

leb_ℤ_refl : (a : ℤ) → leb_ℤ a a ≡ true
unfolding leb_ℤ
leb_ℤ_refl (pos a) = ground arith
leb_ℤ_refl (negsuc a) = ground arith

leb_ℤ_trans : (a b c : ℤ) → leb_ℤ a b ≡ true → leb_ℤ b c ≡ true → leb_ℤ a c ≡ true
unfolding leb_ℤ
leb_ℤ_trans (pos a) (pos b) (pos c) h k = ground arith
leb_ℤ_trans (pos a) (pos b) (negsuc c) h k = absurd (cc k)
leb_ℤ_trans (pos a) (negsuc b) c h k = absurd (cc h)
leb_ℤ_trans (negsuc a) (pos b) (pos c) h k = refl
leb_ℤ_trans (negsuc a) (pos b) (negsuc c) h k = absurd (cc k)
leb_ℤ_trans (negsuc a) (negsuc b) (pos c) h k = refl
leb_ℤ_trans (negsuc a) (negsuc b) (negsuc c) h k = ground arith

leb_ℤ_total : (a b : ℤ) → leb_ℤ a b ≡ false → leb_ℤ b a ≡ true
unfolding leb_ℤ
leb_ℤ_total (pos a) (pos b) h = ground arith
leb_ℤ_total (pos a) (negsuc b) h = refl
leb_ℤ_total (negsuc a) (pos b) h = absurd (cc h)
leb_ℤ_total (negsuc a) (negsuc b) h = ground arith

some-injective : {a b : ℤ} → some a ≡ some b → a ≡ b
some-injective e = cc e

All-map {ℓ} :
    {A : Type ℓ} (P Q : A → Type 0) (l : List A) → ((x : A) → P x → Q x) → All P l → All Q l
All-map P Q [] f h = tt
All-map P Q (x ∷ l) f h = (f x h.0, All-map P Q l f h.1)

module _ (txid : Txid) (offset : ℕ) (s : ObserverMempool) (more : List ObserverMempool) where
  -- An observer without a trusted time in front of others.
  skip-IsEarliest :
      (rest : Option ℤ)
      → ((a : ℤ) → IsTrusted txid offset s a → ⊥)
      → IsEarliest txid offset more rest
      → IsEarliest txid offset (s ∷ more) rest
  skip-IsEarliest none silent h = (silent, h)
  skip-IsEarliest (some m) silent h = (inr h.0, (λ a t. absurd (silent a t), h.1))

  -- An observer with a trusted time in front of others.
  earlier-IsEarliest :
      (b : ℤ) (rest : Option ℤ)
      → IsTrusted txid offset s b
      → IsEarliest txid offset more rest
      → IsEarliest txid offset (s ∷ more) (some (earlier b rest))
  unfolding earlier
  earlier-IsEarliest b none trusted h = (
    inl trusted,
    (
      λ a t. subst (λ x. leb_ℤ b x ≡ true) (some-injective (sym trusted.0 ∙ t.0)) (leb_ℤ_refl b),
      All-map _ _ more (λ x never a t. absurd (never a t)) h,
    ),
  )
  earlier-IsEarliest b (some m) trusted h = elim (Bool-cases (leb_ℤ b m)) [
    | inl first ↦
        subst (λ x. IsEarliest txid offset (s ∷ more) (some x)) (rw first refl)
          (
            inl trusted,
            (
              λ a t.
                  subst (λ x. leb_ℤ b x ≡ true) (some-injective (sym trusted.0 ∙ t.0))
                    (leb_ℤ_refl b),
              All-map _ _ more (λ x bound a t. leb_ℤ_trans b m a first (bound a t)) h.1,
            ),
          )
    | inr later ↦
        subst (λ x. IsEarliest txid offset (s ∷ more) (some x)) (rw later refl)
          (
            inr h.0,
            (
              λ a t.
                  subst (λ x. leb_ℤ m x ≡ true) (some-injective (sym trusted.0 ∙ t.0))
                    (leb_ℤ_total b m later),
              h.1,
            ),
          )
  ]

first_seen-IsEarliest :
    (txid : Txid) (offset : ℕ) (l : List ObserverMempool)
    → IsEarliest txid offset l (first_seen txid offset l).0
unfolding first_seen trusted_time
first_seen-IsEarliest txid offset [] = tt
first_seen-IsEarliest txid offset (s ∷ more) =
    let rest = first_seen-IsEarliest txid offset more in
    elim (Option-cases (first_seen_at s txid)) [
      | inl unseen ↦
          rw (first_seen, trusted_time, unseen)
            (skip-IsEarliest txid offset s more _ (λ a t. absurd (ground (arith, unseen, t.0)))
              rest)
      | inr (b, seen) ↦ elim (Bool-cases (is_skewed offset s)) [
        | inl skewed ↦
            rw (first_seen, trusted_time, seen, skewed)
              (skip-IsEarliest txid offset s more _ (λ a t. absurd (cc (skewed, t.1))) rest)
        | inr trusted ↦
            rw (first_seen, trusted_time, seen, trusted)
              (earlier-IsEarliest txid offset s more b _ (seen, trusted) rest)
      ]
    ]

first_seen-untrusted :
    (txid : Txid) (offset : ℕ) (l : List ObserverMempool)
    → (first_seen txid offset l).1 ≡ any (is_untrusted txid offset) l
unfolding first_seen trusted_time
first_seen-untrusted txid offset [] = refl
first_seen-untrusted txid offset (s ∷ more) = ground (arith, first_seen-untrusted txid offset more)

-- The time of first sight that the aggregate gives is the earliest of the observers' times by
-- trusted clocks, and there is none if none of them has one; and the clock is called untrusted
-- exactly if some observer saw the transaction by a clock that is further off than is allowed.
pub aggregate_membership-IsEarliest :
    (txid : Txid) (observers : List ObserverMempool) (policy : MempoolViewPolicy) (offset : ℕ)
    → IsEarliest txid offset observers
        (aggregate_membership txid observers policy offset).platform_first_seen_at_unix_ns
      × ((aggregate_membership txid observers policy offset).clock_untrusted
          ≡ any (is_untrusted txid offset) observers)
unfolding aggregate_membership
aggregate_membership-IsEarliest txid observers policy offset =
    (first_seen-IsEarliest txid offset observers, first_seen-untrusted txid offset observers)
