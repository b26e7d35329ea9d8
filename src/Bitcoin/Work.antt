-- ===== src/Bitcoin/Work.antt =====
-- Accumulated proof of work as the source adds and compares it, byte by byte (`BlockWork` of
-- crates/bitcoin-domain/src/block.rs), against numbers.
use multichain_rs.Prelude.{
  ℕ, zero, suc, ◌+◌, ◌*◌, ◌/◌, ◌%◌, ◌^◌, ◌≤◌, ◌<◌, ◌≡◌, refl, sym, ap, ◌∙◌, ◌≢◌, inl, inr, Bool,
  false, ◌&&◌, ◌||◌, Option, none, some, List, [], ◌∷◌, arith, ltb, nat_beq, if◌then◌else◌, nat_eq,
  string_eq, option_eq, Bool-cases, length, All, list_eq,
}
use native.Mathlib.Nat.{div-add-mod, mul-le-mul_right, pow-suc}
use mathlib.Core.Option

-- The bytes of a `[u8; n]`, the highest first.
abbrev pub IsBytes : List ℕ → Type 0
IsBytes l = All (λ b. b < 256) l

-- 256 to the power of the length.
pub byte_range : List ℕ → ℕ
byte_range [] = 1
byte_range (b ∷ more) = 256 * byte_range more

-- The number that the bytes stand for.
pub work_value : List ℕ → ℕ
unfolding byte_range
work_value [] = 0
work_value (b ∷ more) = b * byte_range more + work_value more

-- The loop of `checked_add` from the last byte up: the bytes of the sum, and what is carried.
pub add_bytes : List ℕ → List ℕ → List ℕ × ℕ
add_bytes [] bs = ([], 0)
add_bytes (a ∷ more) [] = ([], 0)
add_bytes (a ∷ more) (b ∷ bs) =
    let low = add_bytes more bs in let total = a + b + low.1 in (total % 256 ∷ low.0, total / 256)

-- `BlockWork::checked_add`
pub checked_add : List ℕ → List ℕ → Option (List ℕ)
unfolding add_bytes
checked_add a b = let sum = add_bytes a b in if nat_beq sum.1 0 then some sum.0 else none

-- The derived order of two `[u8; n]`
pub bytes_ltb : List ℕ → List ℕ → Bool
bytes_ltb [] bs = false
bytes_ltb (a ∷ more) [] = false
bytes_ltb (a ∷ more) (b ∷ bs) = ltb a b || nat_beq a b && bytes_ltb more bs

-- `checked_add` of works that are numbers below 2 ^ 256
pub add_work : ℕ → ℕ → Option ℕ
add_work a b = if ltb (a + b) (2 ^ 256) then some (a + b) else none

pub add_work_sum : (a b c : ℕ) → add_work a b ≡ some c → c ≡ a + b
unfolding add_work
add_work_sum a b c h = ground arith

-- One step of the loop, with R the weight of the byte above.
carry_step :
    (t R low va vb a b c : ℕ)
    → t ≡ a + b + c
    → low + R * c ≡ va + vb
    → t % 256 * R + low + 256 * R * (t / 256) ≡ a * R + va + (b * R + vb)
carry_step t R low va vb a b c e h =
    omega (arith, h, ap (λ (x : ℕ). x * R) (div-add-mod t 256), ap (λ (x : ℕ). x * R) e)

add_bytes-range : (a b : List ℕ) → length a ≡ length b → byte_range (add_bytes a b).0 ≡ byte_range a
unfolding add_bytes byte_range
add_bytes-range [] [] h = refl
add_bytes-range [] (b ∷ bs) h = absurd (omega (arith, h))
add_bytes-range (a ∷ more) [] h = absurd (omega (arith, h))
add_bytes-range (a ∷ more) (b ∷ bs) h =
    ap (λ r. 256 * r) (add_bytes-range more bs (omega (arith, h)))

byte_range-length : (a b : List ℕ) → length a ≡ length b → byte_range a ≡ byte_range b
unfolding byte_range
byte_range-length [] [] h = refl
byte_range-length [] (b ∷ bs) h = absurd (omega (arith, h))
byte_range-length (a ∷ more) [] h = absurd (omega (arith, h))
byte_range-length (a ∷ more) (b ∷ bs) h =
    ap (λ r. 256 * r) (byte_range-length more bs (omega (arith, h)))

-- The carry is what the sum exceeds the range by.
add_bytes-value :
    (a b : List ℕ)
    → length a ≡ length b
    → work_value (add_bytes a b).0 + byte_range a * (add_bytes a b).1 ≡ work_value a + work_value b
unfolding add_bytes work_value byte_range
add_bytes-value [] [] h = refl
add_bytes-value [] (b ∷ bs) h = absurd (omega (arith, h))
add_bytes-value (a ∷ more) [] h = absurd (omega (arith, h))
add_bytes-value (a ∷ more) (b ∷ bs) h =
    let e : length more ≡ length bs = omega (arith, h) in
    rw (sym (byte_range-length more bs e), add_bytes-range more bs e)
      (carry_step (a + b + (add_bytes more bs).1) (byte_range more)
        (work_value (add_bytes more bs).0) (work_value more) (work_value bs) a b
        (add_bytes more bs).1 refl (add_bytes-value more bs e))

add_bytes-IsBytes : (a b : List ℕ) → length a ≡ length b → IsBytes (add_bytes a b).0
unfolding add_bytes
add_bytes-IsBytes [] bs h = tt
add_bytes-IsBytes (a ∷ more) [] h = tt
add_bytes-IsBytes (a ∷ more) (b ∷ bs) h =
    (omega arith, add_bytes-IsBytes more bs (omega (arith, h)))

length-add_bytes : (a b : List ℕ) → length a ≡ length b → length (add_bytes a b).0 ≡ length a
unfolding add_bytes
length-add_bytes [] bs h = refl
length-add_bytes (a ∷ more) [] h = absurd (omega (arith, h))
length-add_bytes (a ∷ more) (b ∷ bs) h = ap suc (length-add_bytes more bs (omega (arith, h)))

byte_range_positive : (a : List ℕ) → 0 < byte_range a
unfolding byte_range
byte_range_positive [] = omega arith
byte_range_positive (a ∷ more) = omega (arith, byte_range_positive more)

mul_lt : (a r v : ℕ) → a < 256 → v < r → a * r + v < 256 * r
mul_lt a r v h k = omega (arith, mul-le-mul_right r h)

mul_step : (a b r : ℕ) → a < b → a * r + r ≤ b * r
mul_step a b r h = omega (arith, mul-le-mul_right r h)

work_value_bound : (a : List ℕ) → IsBytes a → work_value a < byte_range a
unfolding work_value byte_range
work_value_bound [] h = omega arith
work_value_bound (a ∷ more) h =
    mul_lt a (byte_range more) (work_value more) h.0 (work_value_bound more h.1)

byte_range_pow : (a : List ℕ) → byte_range a ≡ 256 ^ length a
unfolding byte_range
byte_range_pow [] = refl
byte_range_pow (b ∷ more) = omega (arith, byte_range_pow more, pow-suc 256 (length more))

sum_bound : (a b : List ℕ) → length a ≡ length b → work_value (add_bytes a b).0 < byte_range a
sum_bound a b e =
    rw (sym (add_bytes-range a b e)) (work_value_bound (add_bytes a b).0 (add_bytes-IsBytes a b e))

carried_out : (v R carry : ℕ) → carry ≢ 0 → R ≤ v + R * carry
carried_out v R zero h = absurd (h refl)
carried_out v R (suc carry) h = omega arith

-- The sum is in range exactly where nothing is carried out of the highest byte.
sum_in_range :
    (a b : List ℕ)
    → length a ≡ length b
    → nat_beq (add_bytes a b).1 0 ≡ ltb (work_value a + work_value b) (byte_range a)
sum_in_range a b e = ground (
  arith,
  add_bytes-value a b e,
  sum_bound a b e,
  carried_out (work_value (add_bytes a b).0) (byte_range a) (add_bytes a b).1,
)

checked_add-work_value :
    (a b : List ℕ)
    → length a ≡ 32
    → length b ≡ 32
    → Option.map work_value (checked_add a b) ≡ add_work (work_value a) (work_value b)
unfolding checked_add add_work
checked_add-work_value a b ha hb =
    let same : length a ≡ length b = omega (arith, ha, hb) in
    let range : byte_range a ≡ 2 ^ 256 = byte_range_pow a ∙ ap (λ n. 256 ^ n) ha in
    elim (Bool-cases (nat_beq (add_bytes a b).1 0)) [
      | inl e ↦ rw e (ground (arith, range, sum_in_range a b same, add_bytes-value a b same))
      | inr e ↦ rw e (ground (arith, range, sum_in_range a b same))
    ]

bytes_ltb-work_value :
    (a b : List ℕ)
    → length a ≡ length b
    → IsBytes a
    → IsBytes b
    → bytes_ltb a b ≡ ltb (work_value a) (work_value b)
unfolding bytes_ltb work_value
bytes_ltb-work_value [] [] h ka kb = refl
bytes_ltb-work_value [] (b ∷ bs) h ka kb = absurd (omega (arith, h))
bytes_ltb-work_value (a ∷ more) [] h ka kb = absurd (omega (arith, h))
bytes_ltb-work_value (a ∷ more) (b ∷ bs) h ka kb =
    let e : length more ≡ length bs = omega (arith, h) in
    ground (
      arith,
      bytes_ltb-work_value more bs e ka.1 kb.1,
      byte_range-length more bs e,
      work_value_bound more ka.1,
      work_value_bound bs kb.1,
      ap (λ (x : ℕ). b * x) (byte_range-length more bs e),
      mul_step a b (byte_range more),
      mul_step b a (byte_range more),
    )

-- For two works of 32 bytes, adding them byte by byte gives the bytes of their sum and fails exactly where the sum
-- does not fit in 256 bits, and comparing them byte by byte compares their numbers.
pub checked_add-bytes_ltb :
    (a b : List ℕ)
    → length a ≡ 32
    → length b ≡ 32
    → IsBytes a
    → IsBytes b
    → (Option.map work_value (checked_add a b) ≡ add_work (work_value a) (work_value b))
      × (bytes_ltb a b ≡ ltb (work_value a) (work_value b))
checked_add-bytes_ltb a b la lb ka kb =
    (checked_add-work_value a b la lb, bytes_ltb-work_value a b (la ∙ sym lb) ka kb)
