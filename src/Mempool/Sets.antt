-- ===== src/Mempool/Sets.antt =====
-- `BTreeSet` of numbers as an ascending list without repetition: collecting a list into a set, the
-- difference of two sets, and what they hold.
use multichain_rs.Prelude.{
  ℕ, ◌≡◌, refl, inl, inr, Bool, false, ◌&&◌, ◌||◌, not, List, [], ◌∷◌, arith, ltb, nat_beq,
  if◌then◌else◌, nat_eq, string_eq, option_eq, Bool-cases, list_eq,
}

-- `contains`
abbrev pub elem : ℕ → List ℕ → Bool
elem x [] = false
elem x (y ∷ ys) = nat_beq y x || elem x ys

-- `BTreeSet::insert`
unfoldable pub set_insert : ℕ → List ℕ → List ℕ
set_insert x [] = x ∷ []
set_insert x (y ∷ ys) =
    let rest = set_insert x ys in
    if nat_beq x y then y ∷ ys else if ltb x y then x ∷ y ∷ ys else y ∷ rest

-- `collect::<BTreeSet<_>>()`
unfoldable pub to_set : List ℕ → List ℕ
unfolding set_insert
to_set [] = []
to_set (x ∷ xs) = set_insert x (to_set xs)

-- `BTreeSet::difference`
unfoldable pub difference : List ℕ → List ℕ → List ℕ
difference [] ys = []
difference (x ∷ xs) ys = let rest = difference xs ys in if elem x ys then rest else x ∷ rest

pub elem-set_insert :
    (q x : ℕ) (ys : List ℕ) → elem q (set_insert x ys) ≡ (nat_beq x q || elem q ys)
unfolding set_insert
elem-set_insert q x [] = ground arith
elem-set_insert q x (y ∷ ys) = ground (arith, elem-set_insert q x ys)

pub elem-to_set : (q : ℕ) (xs : List ℕ) → elem q (to_set xs) ≡ elem q xs
unfolding to_set
elem-to_set q [] = refl
elem-to_set q (x ∷ xs) = ground (arith, elem-set_insert q x (to_set xs), elem-to_set q xs)

pub elem-difference :
    (q : ℕ) (xs ys : List ℕ) → elem q (difference xs ys) ≡ (elem q xs && not (elem q ys))
unfolding difference
elem-difference q [] ys = refl
elem-difference q (x ∷ xs) ys = elim (Bool-cases (nat_beq x q)) [
  | inl same ↦
      let at : x ≡ q = ground arith in
      elim (Bool-cases (elem x ys)) [
        | inl here ↦ ground (arith, elem-difference q xs ys)
        | inr gone ↦ ground (arith, elem-difference q xs ys)
      ]
  | inr other ↦ ground (arith, elem-difference q xs ys)
]
