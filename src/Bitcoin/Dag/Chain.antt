-- ===== src/Bitcoin/Dag/Chain.antt =====
-- The chain of a block, and what the loops of processors/bitcoin-canonicality/src/dag.rs that walk
-- along it find.
use mathlib.Core.Path.{subst}
use multichain_rs.Prelude.{
  ℕ, zero, suc, ◌≤◌, ◌<◌, ◌≡◌, refl, sym, ap, ◌∙◌, inl, inr, true, ◌||◌, Option, none, some, List,
  [], ◌∷◌, map, arith, nat_beq, nat_beq_iff, nat_eq, string_eq, option_eq, Bool-cases, Option-cases,
  length, All, list_eq, cons_head, cons_tail,
}
use multichain_rs.Exec.{ok}
use multichain_rs.Dict.{get}
use multichain_rs.Mempool.Sets.{elem}
use multichain_rs.Bitcoin.Domain.{BlockHash}
use multichain_rs.Bitcoin.Dag.{DagNode, Nodes, ancestor_set}

-- Hashes with heights, from a cursor down to a block with no parent.
pub data Chain (nodes : Nodes) : Option BlockHash → List (BlockHash × ℕ) → Type 0 where
  root : Chain nodes none []
  link :
      {h : BlockHash} {found : DagNode} {parent : Option BlockHash} {older : List (BlockHash × ℕ)}
      → get nodes h ≡ some found
      → found.parent ≡ parent
      → Chain nodes parent older
      → Chain nodes (some h) ((h, found.height) ∷ older)

abbrev pub hashes : List (BlockHash × ℕ) → List BlockHash
hashes l = map (λ e. e.0) l

abbrev pub IsBelow : ℕ → List (BlockHash × ℕ) → Type 0
IsBelow k l = All (λ e. e.1 < k) l

-- The hash names a node from a height on.
abbrev pub IsAbove : Nodes → ℕ → BlockHash → Type 0
IsAbove nodes k h = (found : DagNode) × (get nodes h ≡ some found) × (k ≤ found.height)

pub some-injective : {A : Type 0} {a b : A} → some a ≡ some b → a ≡ b
some-injective {a = a} h = ap (λ o. elim o [ none ↦ a | some x ↦ x ]) h

pub elem-All : (P : ℕ → Type 0) (l : List ℕ) (x : ℕ) → All P l → elem x l ≡ true → P x
elem-All P [] x h e = absurd (cc e)
elem-All P (y ∷ ys) x h e = elim (Bool-cases (nat_beq y x)) [
  | inl same ↦ subst P ((nat_beq_iff y x).0 same) h.0
  | inr other ↦ elem-All P ys x h.1 (ground arith)
]

-- Every parent is known, one lower; a block with none is at the bottom.
pub record IsLinked (nodes : Nodes) : Type 0 where
  pub lower :
      (h : BlockHash) (found : DagNode) (p : BlockHash)
      → get nodes h ≡ some found
      → found.parent ≡ some p
      → (below : DagNode) × (get nodes p ≡ some below) × (found.height ≡ suc below.height)
  pub bottom :
      (h : BlockHash) (found : DagNode)
      → get nodes h ≡ some found
      → found.parent ≡ none
      → found.height ≡ 0

module _ (nodes : Nodes) where
  -- A node has one chain.
  pub Chain_unique :
      {c : Option BlockHash} {l m : List (BlockHash × ℕ)}
      → Chain nodes c l
      → Chain nodes c m
      → l ≡ m
  Chain_unique root root = refl
  Chain_unique (link {h = h} {found = found} g p below)
        (link {found = other} {older = older} f e more) =
      let same : found ≡ other = some-injective (sym g ∙ f) in
      let up = sym p ∙ ap (λ n. n.parent) same ∙ e in
      let rest = Chain_unique below (subst (λ c. Chain nodes c older) (sym up) more) in
      λ i. (h, (same i).height) ∷ rest i

  -- A node has a chain, with a block for each height.
  pub chain_of :
      IsLinked nodes
      → (n : ℕ) (h : BlockHash) (found : DagNode) → get nodes h ≡ some found
      → found.height ≡ n
      → (l : List (BlockHash × ℕ)) × Chain nodes (some h) l × (length l ≡ suc n)
  chain_of linked zero h found g e = elim (Option-cases found.parent) [
    | inl top ↦ ((h, found.height) ∷ [], link g top root, refl)
    | inr (p, up) ↦
        let (below, f, step) = linked.lower h found p g up in absurd (omega (arith, step, e))
  ]
  chain_of linked (suc n) h found g e = elim (Option-cases found.parent) [
    | inl top ↦ absurd (omega (arith, linked.bottom h found g top, e))
    | inr (p, up) ↦
        let (below, f, step) = linked.lower h found p g up in
        let (l, chain, long) = chain_of linked n p below f (omega (arith, step, e)) in
        ((h, found.height) ∷ l, link g up chain, ap suc long)
  ]

  IsAbove-weaken :
      (j k : ℕ) (l : List BlockHash) → j ≤ k → All (IsAbove nodes k) l → All (IsAbove nodes j) l
  IsAbove-weaken j k [] h a = tt
  IsAbove-weaken j k (x ∷ xs) h ((found, g, b), a) =
      ((found, g, omega (arith, h, b)), IsAbove-weaken j k xs h a)

  abbrev pub CursorBelow : ℕ → Option BlockHash → Type 0
  CursorBelow k none = Unit
  CursorBelow k (some h) = (found : DagNode) → get nodes h ≡ some found → found.height < k

  CursorBelow-parent :
      IsLinked nodes
      → (h : BlockHash) (found : DagNode) (parent : Option BlockHash) → get nodes h ≡ some found
      → found.parent ≡ parent
      → CursorBelow found.height parent
  CursorBelow-parent linked h found none g p = tt
  CursorBelow-parent linked h found (some up) g p = λ other f.
      let (below, e, step) = linked.lower h found up g p in
      let same : below ≡ other = some-injective (sym e ∙ f) in
      omega (arith, step, ap (λ n. n.height) same)

  -- The set of ancestors is the chain: no hash is met twice.
  pub ancestor_set-Chain :
      IsLinked nodes
      → (fuel k : ℕ) {c : Option BlockHash} {l : List (BlockHash × ℕ)} → Chain nodes c l
      → (seen : List BlockHash) → length l < fuel
      → All (IsAbove nodes k) seen
      → CursorBelow k c
      → (set : List BlockHash) × (ancestor_set fuel nodes c seen ≡ ok set)
        × ((p : BlockHash) → elem p set ≡ (elem p (hashes l) || elem p seen))
  unfolding ancestor_set
  ancestor_set-Chain linked zero k chain seen h a b = absurd (omega (arith, h))
  ancestor_set-Chain linked (suc fuel) k root seen h a b = (seen, refl, λ p. refl)
  ancestor_set-Chain linked (suc fuel) k (link {h = x} {found = found} {parent = parent} g up older)
        seen h a b =
      elim (Bool-cases (elem x seen)) [
        | inl met ↦
            let (other, f, high) = elem-All (IsAbove nodes k) seen x a met in
            absurd (omega (arith, high, b other f))
        | inr new ↦
            let low = b found g in
            let kept : All (IsAbove nodes found.height) (x ∷ seen) = (
              (found, g, omega arith),
              IsAbove-weaken found.height k seen (omega (arith, low)) a,
            ) in
            let (set, done, members) =
              ancestor_set-Chain linked fuel found.height older (x ∷ seen) (omega (arith, h)) kept
                (CursorBelow-parent linked x found parent g up) in
            (set, rw (ancestor_set, new, g, up) done, λ p. ground (arith, members p))
      ]

-- The head of a chain that is not empty.
Chain_head :
    (nodes : Nodes) {c : Option BlockHash} {m : List (BlockHash × ℕ)}
    → Chain nodes c m
    → (e : BlockHash × ℕ) (l : List (BlockHash × ℕ)) → m ≡ e ∷ l
    → (found : DagNode) × (c ≡ some e.0)
      × (get nodes e.0 ≡ some found)
      × (e.1 ≡ found.height)
      × Chain nodes found.parent l
Chain_head nodes root e l q = absurd (cc q)
Chain_head nodes (link {h = h} {found = found} {parent = parent} {older = older} g up chain) e l q =
    let at : (h, found.height) ≡ e = cons_head q in
    let tail : older ≡ l = cons_tail q in
    (
      found,
      ap (λ x. some x.0) at,
      ap (get nodes) (sym (ap (λ x. x.0) at)) ∙ g,
      sym (ap (λ x. x.1) at),
      subst (λ c. Chain nodes c l) (sym up) (subst (Chain nodes parent) tail chain),
    )

pub Chain-cons :
    (nodes : Nodes) {c : Option BlockHash} (e : BlockHash × ℕ) (l : List (BlockHash × ℕ))
    → Chain nodes c (e ∷ l)
    → (found : DagNode) × (c ≡ some e.0)
      × (get nodes e.0 ≡ some found)
      × (e.1 ≡ found.height)
      × Chain nodes found.parent l
Chain-cons nodes e l chain = Chain_head nodes chain e l refl
