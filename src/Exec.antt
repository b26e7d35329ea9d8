-- ===== src/Exec.antt =====
-- Methods that change an object and may fail. What was written before a failure stays written, so
-- the state comes back beside every outcome.
pub mod Rules
use multichain_rs.Prelude.{
  Bool, true, false, not, Option, none, some, nat_eq, string_eq, option_eq, list_eq,
}

-- How a call ends: with a value, with an error value, by a panic, or, where the model's fuel for a
-- loop runs out, not at all.
pub data Outcome {ℓ} (E : Type ℓ) (A : Type ℓ) : Type ℓ where
  ok : A → Outcome E A
  err : E → Outcome E A
  panic : Outcome E A
  diverge : Outcome E A

abbrev pub Exec {ℓ} : Type ℓ → Type ℓ → Type ℓ → Type ℓ
Exec E S A = S → Outcome E A × S

module _ {ℓ} {E S A : Type ℓ} where
  abbrev pub pure : A → Exec E S A
  pure a s = (ok a, s)

  abbrev pub raise : E → Exec E S A
  raise e s = (err e, s)

  -- a call of a method that only reads, with `?` behind it
  abbrev pub reads : (S → Outcome E A) → Exec E S A
  reads f s = (f s, s)

-- the state itself, for the reads that cannot fail
abbrev pub current {ℓ} : {E S : Type ℓ} → Exec E S S
current s = (ok s, s)

abbrev pub modify {ℓ} : {E S : Type ℓ} → (S → S) → Exec E S Unit
modify f s = (ok tt, f s)

abbrev pub ok_or {ℓ} : {E A : Type ℓ} → E → Option A → Outcome E A
ok_or e none = err e
ok_or e (some a) = ok a

abbrev pub ensure {ℓ} : {E : Type ℓ} → Bool → E → Outcome E Unit
ensure true e = ok tt
ensure false e = err e

-- the `?` between two reading calls
abbrev pub and_then {ℓ} : {E A B : Type ℓ} → Outcome E A → (A → Outcome E B) → Outcome E B
and_then (ok a) f = f a
and_then (err e) f = err e
and_then panic f = panic
and_then diverge f = diverge

-- `||` of tests that may fail: the second is made only if the first is false.
abbrev pub or_else : {E : Type 0} → Outcome E Bool → Outcome E Bool → Outcome E Bool
or_else (ok true) second = ok true
or_else (ok false) second = second
or_else (err e) second = err e
or_else panic second = panic
or_else diverge second = diverge

abbrev pub negated : {E : Type 0} → Outcome E Bool → Outcome E Bool
negated (ok b) = ok (not b)
negated (err e) = err e
negated panic = panic
negated diverge = diverge

module _ {ℓ} {E S A B : Type ℓ} where
  abbrev pub continue : Outcome E A → (A → Exec E S B) → Exec E S B
  continue (ok a) f s = f a s
  continue (err e) f s = (err e, s)
  continue panic f s = (panic, s)
  continue diverge f s = (diverge, s)

  infixl 10 ◌>>=◌
  abbrev pub ◌>>=◌ : Exec E S A → (A → Exec E S B) → Exec E S B
  ◌>>=◌ m f s = continue (m s).0 f (m s).1

infixl 10 ◌>>◌
abbrev pub ◌>>◌ {ℓ} : {E S B : Type ℓ} → Exec E S Unit → Exec E S B → Exec E S B
m >> n = m >>= λ _. n
