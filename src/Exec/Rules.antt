-- ===== src/Exec/Rules.antt =====
-- Inversion of a bind whose outcome is known.
use multichain_rs.Prelude.{
  ◌≡◌, refl, ap, ◌⊎◌, inl, inr, Bool, true, false, Option, none, some, arith, if◌then◌else◌, nat_eq,
  string_eq, option_eq, list_eq,
}
use multichain_rs.Exec.{
  Outcome, ok, err, panic, diverge, Exec, ◌>>=◌, continue, and_then, ensure, ok_or, or_else,
  negated,
}

module _ {ℓ} {E S A B : Type ℓ} where
  -- A block that returns has a first step that returned.
  pub bind-ok :
      (m : Exec E S A) (f : A → Exec E S B) (s : S) {b : B} {t : S}
      → (m >>= f) s ≡ (ok b, t)
      → (a : A) × (u : S) × (m s ≡ (ok a, u)) × (f a u ≡ (ok b, t))
  bind-ok m f s {b} {t} h = split (m s) refl
    where
      split :
          (r : Outcome E A × S)
          → m s ≡ r
          → (a : A) × (u : S) × (m s ≡ (ok a, u)) × (f a u ≡ (ok b, t))
      split (ok a, u) e = (a, u, e, ground arith)
      split (err x, u) e = absurd (ground arith)
      split (panic, u) e = absurd (ground arith)
      split (diverge, u) e = absurd (ground arith)

-- A block that fails has a first step that failed, or a rest that did.
module _ {ℓ} {E S A B : Type ℓ} where
  pub bind-err :
      (m : Exec E S A) (f : A → Exec E S B) (s : S) {x : E} {t : S}
      → (m >>= f) s ≡ (err x, t)
      → (m s ≡ (err x, t)) ⊎ ((a : A) × (u : S) × (m s ≡ (ok a, u)) × (f a u ≡ (err x, t)))
  bind-err m f s {x} {t} h = split (m s) refl
    where
      split :
          (r : Outcome E A × S)
          → m s ≡ r
          → (m s ≡ (err x, t)) ⊎ ((a : A) × (u : S) × (m s ≡ (ok a, u)) × (f a u ≡ (err x, t)))
      split (ok a, u) e = inr (a, u, e, ground arith)
      split (err y, u) e = inl (ground arith)
      split (panic, u) e = absurd (ground arith)
      split (diverge, u) e = absurd (ground arith)

-- A chain of reads that succeeds has a first read that succeeded.
pub and_then-ok {ℓ} :
    {E A B : Type ℓ} (m : Outcome E A) (f : A → Outcome E B) {b : B}
    → and_then m f ≡ ok b
    → (a : A) × (m ≡ ok a) × (f a ≡ ok b)
and_then-ok (ok a) f h = (a, refl, h)
and_then-ok (err e) f h = absurd (ground arith)
and_then-ok panic f h = absurd (ground arith)
and_then-ok diverge f h = absurd (ground arith)

pub ok-injective {ℓ} : {E A : Type ℓ} {a b : A} → ◌≡◌ {A = Outcome E A} (ok a) (ok b) → a ≡ b
ok-injective {a = a} h = ap (λ r. elim r [ ok x ↦ x | err e ↦ a | panic ↦ a | diverge ↦ a ]) h

-- A `?` before the value itself.
pub and_then_ok {ℓ} : {E A : Type ℓ} (m : Outcome E A) → and_then m (λ a. ok a) ≡ m
and_then_ok (ok a) = refl
and_then_ok (err e) = refl
and_then_ok panic = refl
and_then_ok diverge = refl

pub ensure-ok {ℓ} : {E : Type ℓ} (b : Bool) (e : E) {u : Unit} → ensure b e ≡ ok u → b ≡ true
ensure-ok true e h = refl
ensure-ok false e h = absurd (ground arith)

-- The call ends with a value or an error value.
abbrev pub Settles {ℓ} : {E A : Type ℓ} → Outcome E A → Type 0
Settles (ok a) = Unit
Settles (err e) = Unit
Settles panic = ⊥
Settles diverge = ⊥

pub and_then-Settles {ℓ} :
    {E A B : Type ℓ} (m : Outcome E A) (f : A → Outcome E B)
    → Settles m
    → ((a : A) → Settles (f a))
    → Settles (and_then m f)
and_then-Settles (ok a) f h k = k a
and_then-Settles (err e) f h k = tt
and_then-Settles panic f h k = h
and_then-Settles diverge f h k = h

pub ensure-Settles {ℓ} : {E : Type ℓ} (b : Bool) (e : E) → Settles (ensure b e)
ensure-Settles true e = tt
ensure-Settles false e = tt

pub ok_or-Settles {ℓ} : {E A : Type ℓ} (e : E) (o : Option A) → Settles (ok_or e o)
ok_or-Settles e none = tt
ok_or-Settles e (some a) = tt

pub or_else-Settles :
    {E : Type 0} (m n : Outcome E Bool) → Settles m → Settles n → Settles (or_else m n)
or_else-Settles (ok true) n h k = tt
or_else-Settles (ok false) n h k = k
or_else-Settles (err e) n h k = tt
or_else-Settles panic n h k = h
or_else-Settles diverge n h k = h

pub negated-Settles : {E : Type 0} (m : Outcome E Bool) → Settles m → Settles (negated m)
negated-Settles (ok b) h = tt
negated-Settles (err e) h = tt
negated-Settles panic h = h
negated-Settles diverge h = h

pub if-Settles {ℓ} :
    {E A : Type ℓ} (b : Bool) (m n : Outcome E A)
    → Settles m
    → Settles n
    → Settles (if b then m else n)
if-Settles true m n h k = h
if-Settles false m n h k = k

pub ruleset settle_rules =
    (if-Settles, and_then-Settles, ensure-Settles, ok_or-Settles, or_else-Settles, negated-Settles)

pub continue-Settles {ℓ} :
    {E S A B : Type ℓ} (r : Outcome E A) (f : A → Exec E S B) (s : S)
    → Settles r
    → ((a : A) → Settles (f a s).0)
    → Settles (continue r f s).0
continue-Settles (ok a) f s h k = k a
continue-Settles (err e) f s h k = tt
continue-Settles panic f s h k = h
continue-Settles diverge f s h k = h

-- What holds of both branches holds of the whole.
pub if-cases {ℓ κ} :
    {A : Type ℓ} (P : A → Type κ) (b : Bool) (x y : A)
    → (b ≡ true → P x)
    → (b ≡ false → P y)
    → P (if b then x else y)
if-cases P true x y h k = h refl
if-cases P false x y h k = k refl
