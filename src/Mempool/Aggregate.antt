-- ===== src/Mempool/Aggregate.antt =====
-- The aggregate membership of a transaction over all observers, with the policies that decide it
-- (processors/bitcoin-mempool/src/aggregate.rs).
use Prim.Native.Char.{code}
pub mod Policy
pub mod Time
mod Tests
use multichain_rs.Prelude.{
  ℕ, zero, suc, ◌+◌, ◌-◌, ◌*◌, ◌/◌, ◌%◌, ◌^◌, ◌≤◌, ◌<◌, min, String, ◌≡◌, refl, sym, ap, ◌∙◌,
  fun_ext, ◌≢◌, ◌↔◌, ◌⊎◌, inl, inr, Bool, true, false, ◌&&◌, ◌||◌, not, Option, none, some, List,
  [], ◌∷◌, ◌++◌, map, reverse, arith, ltb, leb, nat_beq, if◌then◌else◌, Eq, ◌==◌, nat_beq_iff,
  nat_eq, string_eq, option_beq, option_beq_iff, option_eq, Bool-cases, Option-cases, u64_max,
  saturating_add, checked_add, length, length-append, length-reverse, any, all, last?, All,
  All-append, is_whitespace, is_blank, is_ascii, list_eq, list_beq, list_beq_iff,
}
use multichain_rs.Mempool.Membership.{ℤ, pos, negsuc, Txid}
use multichain_rs.Mempool.Observer.{ObserverHealth, ObserverMempool, contains, first_seen_at}

pub data MempoolViewPolicy : Type 0 where
  source : String → MempoolViewPolicy
  union intersection : MempoolViewPolicy
  quorum : ℕ → MempoolViewPolicy

pub data CoverageQuality : Type 0 where
  complete degraded unavailable : CoverageQuality

pub record AggregateMembership : Type 0 where
  pub txid : Txid
  pub healthy_source_count : ℕ
  pub present_source_count : ℕ
  pub present_sources : List String
  pub policy_satisfied : Bool
  pub platform_first_seen_at_unix_ns : Option ℤ
  pub clock_untrusted : Bool
  pub quality : CoverageQuality

abbrev pub u16_max : ℕ
u16_max = 2 ^ 16 - 1

-- `bounded_count`
pub bounded_count : ℕ → ℕ
bounded_count count = if leb count u16_max then count else u16_max

-- `health() == Healthy`
abbrev pub is_healthy : ObserverMempool → Bool
is_healthy s = elim s.health [
  | ObserverHealth.healthy ↦ true
  | ObserverHealth.gapped ↦ false
  | ObserverHealth.offline ↦ false
]

-- `Iterator::filter`
pub filter {ℓ} : {A : Type ℓ} → (A → Bool) → List A → List A
filter p [] = []
filter p (x ∷ xs) = let rest = filter p xs in if p x then x ∷ rest else rest

-- The order of `String`, which on UTF-8 bytes is the order of the code points.
pub string_leb : String → String → Bool
string_leb String.[] t = true
string_leb (String.◌∷◌ a s) String.[] = false
string_leb (String.◌∷◌ a s) (String.◌∷◌ b t) =
    ltb (code a) (code b) || nat_beq (code a) (code b) && string_leb s t

sort_insert : String → List String → List String
unfolding string_leb
sort_insert x [] = x ∷ []
sort_insert x (y ∷ ys) =
    let rest = sort_insert x ys in if string_leb x y then x ∷ y ∷ ys else y ∷ rest

-- `sort_unstable`, whose result for texts is the sorted list
pub sort_unstable : List String → List String
unfolding sort_insert
sort_unstable [] = []
sort_unstable (x ∷ xs) = sort_insert x (sort_unstable xs)

-- `i64::unsigned_abs`
pub unsigned_abs : ℤ → ℕ
unsigned_abs (pos n) = n
unsigned_abs (negsuc n) = suc n

-- `a <= b` of `i64`
pub leb_ℤ : ℤ → ℤ → Bool
leb_ℤ (pos a) (pos b) = leb a b
leb_ℤ (pos a) (negsuc b) = false
leb_ℤ (negsuc a) (pos b) = true
leb_ℤ (negsuc a) (negsuc b) = leb b a

-- `Iterator::min`, one more element at a time from the end
pub earlier : ℤ → Option ℤ → ℤ
unfolding leb_ℤ
earlier a none = a
earlier a (some b) = if leb_ℤ a b then a else b

-- The observer's clock is further off than is trusted.
abbrev pub is_skewed : ℕ → ObserverMempool → Bool
unfolding unsigned_abs
is_skewed maximum_clock_offset_ns s = ltb maximum_clock_offset_ns (unsigned_abs s.clock_offset_ns)

-- The closure of `filter_map`: the time it gives, and whether it sets `clock_untrusted`.
pub trusted_time : Txid → ℕ → ObserverMempool → Option ℤ × Bool
unfolding first_seen_at
trusted_time txid maximum_clock_offset_ns s = elim (first_seen_at s txid) [
  | none ↦ (none, false)
  | some first_seen ↦
      if is_skewed maximum_clock_offset_ns s then (none, true) else (some first_seen, false)
]

-- `filter_map(…).min()` with what the closure did to `clock_untrusted`
pub first_seen : Txid → ℕ → List ObserverMempool → Option ℤ × Bool
unfolding trusted_time earlier
first_seen txid maximum_clock_offset_ns [] = (none, false)
first_seen txid maximum_clock_offset_ns (s ∷ more) =
    let here = trusted_time txid maximum_clock_offset_ns s in
    let rest = first_seen txid maximum_clock_offset_ns more in
    (elim here.0 [ none ↦ rest.0 | some a ↦ some (earlier a rest.0) ], here.1 || rest.1)

pub coverage : List ObserverMempool → List ObserverMempool → Bool → CoverageQuality
coverage healthy observers clock_untrusted =
    if nat_beq (length healthy) 0
    then unavailable
    else if not (nat_beq (length healthy) (length observers)) || clock_untrusted
    then degraded
    else complete

-- The `match` on the policy
pub satisfies : MempoolViewPolicy → Txid → List ObserverMempool → ℕ → ℕ → Bool
satisfies (MempoolViewPolicy.source source_id) txid healthy present_count healthy_count =
    any (λ s. s.source_id == source_id && contains s txid) healthy
satisfies MempoolViewPolicy.union txid healthy present_count healthy_count = ltb 0 present_count
satisfies MempoolViewPolicy.intersection txid healthy present_count healthy_count =
    nat_beq present_count healthy_count && ltb 0 healthy_count
satisfies (MempoolViewPolicy.quorum required) txid healthy present_count healthy_count =
    ltb 0 required && leb required present_count

-- `aggregate_membership`
pub aggregate_membership : Txid → List ObserverMempool → MempoolViewPolicy → ℕ → AggregateMembership
unfolding filter sort_unstable bounded_count first_seen coverage satisfies
aggregate_membership txid observers policy maximum_clock_offset_ns =
    let healthy = filter is_healthy observers in
    let present_sources =
      sort_unstable (map (λ s. s.source_id) (filter (λ s. contains s txid) healthy)) in
    let healthy_source_count = bounded_count (length healthy) in
    let present_source_count = bounded_count (length present_sources) in
    let seen = first_seen txid maximum_clock_offset_ns observers in
    let quality = coverage healthy observers seen.1 in
    record {
      txid = txid;
      healthy_source_count = healthy_source_count;
      present_source_count = present_source_count;
      present_sources = present_sources;
      policy_satisfied = elim quality [
        | unavailable ↦ false
        | complete ↦ satisfies policy txid healthy present_source_count healthy_source_count
        | degraded ↦ satisfies policy txid healthy present_source_count healthy_source_count
      ];
      platform_first_seen_at_unix_ns = seen.0;
      clock_untrusted = seen.1;
      quality = quality;
    }
