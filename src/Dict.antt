-- ===== src/Dict.antt =====
-- `HashMap` and `BTreeMap` with keys that can be compared: a sealed type that its users know by
-- the laws of `map_laws`. None of the modelled programs depends on the order of its entries.
use multichain_rs.Prelude.{
  any, map, ◌≡◌, refl, inl, inr, Bool, true, false, ◌||◌, Option, none, some, List, [], ◌∷◌, arith,
  if◌then◌else◌, Eq, ◌==◌, nat_eq, string_eq, option_eq, Bool-cases,
}

pub record Dict {ℓ κ} (K : Type ℓ) (V : Type κ) : Type (ℓ ⊔ κ) where
  slots : List (K × V)

-- `HashMap::new`
unfoldable pub empty {ℓ κ} : {K : Type ℓ} {V : Type κ} → Dict K V
empty = record { slots = [] }

passes {κ} : {V : Type κ} → (V → Bool) → Option V → Bool
passes test none = false
passes test (some v) = test v

passes_sound {κ} :
    {V : Type κ} (test : V → Bool) (o : Option V)
    → passes test o ≡ true
    → (v : V) × (o ≡ some v) × (test v ≡ true)
unfolding passes
passes_sound test none h = absurd (cc h)
passes_sound test (some v) h = (v, refl, h)

module _ {ℓ κ} {K : Type ℓ} {V : Type κ} ⦃e : Eq K⦄ where
  search_slots : List (K × V) → K → Option V
  search_slots [] q = none
  search_slots (slot ∷ more) q = if slot.0 == q then some slot.1 else search_slots more q

  drop_slots : List (K × V) → K → List (K × V)
  drop_slots [] q = []
  drop_slots (slot ∷ more) q =
      let kept = drop_slots more q in elim (slot.0 == q) [ true ↦ kept | false ↦ slot ∷ kept ]

  search-drop :
      (l : List (K × V)) (q p : K)
      → search_slots (drop_slots l q) p ≡ (if q == p then none else search_slots l p)
  unfolding search_slots drop_slots
  search-drop [] q p = ground arith
  search-drop (slot ∷ more) q p =
      ground
        (arith, search-drop more q p, e.equal_iff slot.0 p, e.equal_iff q p, e.equal_iff slot.0 q)

  -- `HashMap::get`
  unfoldable pub get : Dict K V → K → Option V
  unfolding search_slots
  get d q = search_slots d.slots q

  -- `HashMap::remove`
  unfoldable pub remove : Dict K V → K → Dict K V
  unfolding drop_slots
  remove d q = record { slots = drop_slots d.slots q }

  -- `HashMap::insert`
  unfoldable pub insert : Dict K V → K → V → Dict K V
  unfolding drop_slots
  insert d q v = record { slots = (q, v) ∷ drop_slots d.slots q }

  -- `HashMap::contains_key`
  abbrev pub contains_key : Dict K V → K → Bool
  contains_key d q = elim (get d q) [ none ↦ false | some _ ↦ true ]

  -- `HashMap::keys`
  unfoldable pub keys : Dict K V → List K
  keys d = map (λ slot. slot.0) d.slots

  has_slot :
      (l : List (K × V)) (q : K)
      → any (λ k. k == q) (map (λ slot. slot.0) l)
        ≡ elim (search_slots l q) [ none ↦ false | some _ ↦ true ]
  unfolding search_slots
  has_slot [] q = refl
  has_slot (slot ∷ more) q = ground (arith, has_slot more q)

  pub any-keys : (d : Dict K V) (q : K) → any (λ k. k == q) (keys d) ≡ contains_key d q
  unfolding keys get
  any-keys d q = has_slot d.slots q

  pub get-empty : (p : K) → get (empty {V = V}) p ≡ none
  unfolding get empty search_slots
  get-empty p = refl

  pub get-remove :
      (d : Dict K V) (q p : K) → get (remove d q) p ≡ (if q == p then none else get d p)
  unfolding get remove
  get-remove d q p = search-drop d.slots q p

  pub get-insert :
      (d : Dict K V) (q p : K) (v : V) → get (insert d q v) p ≡ (if q == p then some v else get d p)
  unfolding get insert search_slots
  get-insert d q p v = rw search-drop (ground arith)

  any_key : (K → Bool) → List (K × V) → Bool
  any_key test [] = false
  any_key test (slot ∷ more) = test slot.0 || any_key test more

  -- `values().any(test)`: the value of some key passes.
  unfoldable pub any_value : (V → Bool) → Dict K V → Bool
  unfolding any_key passes search_slots
  any_value test d = any_key (λ q. passes test (search_slots d.slots q)) d.slots

  any_key_sound :
      (test : K → Bool) (l : List (K × V)) → any_key test l ≡ true → (q : K) × (test q ≡ true)
  unfolding any_key
  any_key_sound test [] h = absurd (cc h)
  any_key_sound test (slot ∷ more) h = elim (Bool-cases (test slot.0)) [
    | inl hit ↦ (slot.0, hit)
    | inr miss ↦ any_key_sound test more (ground arith)
  ]

  pub any_value_sound :
      (test : V → Bool) (d : Dict K V)
      → any_value test d ≡ true
      → (q : K) × (v : V) × (get d q ≡ some v) × (test v ≡ true)
  unfolding any_value get
  any_value_sound test d h =
      let (q, hit) = any_key_sound (λ k. passes test (search_slots d.slots k)) d.slots h in
      let (v, found, good) = passes_sound test (search_slots d.slots q) hit in (q, v, found, good)

pub ruleset map_laws = (get-empty, get-remove, get-insert)
