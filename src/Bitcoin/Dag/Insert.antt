-- ===== src/Bitcoin/Dag/Insert.antt =====
-- A new node among the candidate blocks (processors/bitcoin-canonicality/src/dag.rs: observe_block)
-- leaves every other block's place and chain as they were.
use mathlib.Core.Path.{subst}
use multichain_rs.Prelude.{
  ℕ, ◌≤◌, ◌<◌, ◌≡◌, sym, ap, ◌∙◌, ◌⊎◌, inl, inr, Option, none, some, List, arith, nat_beq,
  if◌then◌else◌, nat_beq_iff, nat_eq, string_eq, option_eq, Bool-cases, list_eq,
}
use multichain_rs.Dict.{get, insert, get-insert}
use multichain_rs.Bitcoin.Domain.{BlockHash}
use multichain_rs.Bitcoin.Dag.{DagNode, Nodes}
use multichain_rs.Bitcoin.Dag.Chain.{Chain, root, link, some-injective}
use multichain_rs.Bitcoin.Dag.Placed.{Under, IsPlaced}

-- No node has more work than the tip's, and where there is no tip there is no node.
abbrev pub Heaviest : Nodes → Option BlockHash → Type 0
Heaviest nodes none = (h : BlockHash) → get nodes h ≡ none
Heaviest nodes (some t) =
    (tip : DagNode) × (get nodes t ≡ some tip)
    × ((h : BlockHash) (found : DagNode)
        → get nodes h ≡ some found
        → found.cumulative_work ≤ tip.cumulative_work)

module _ (nodes : Nodes) (h : BlockHash) (added : DagNode) (free : get nodes h ≡ none) where
  pub get-added : get (insert nodes h added) h ≡ some added
  get-added = ground (arith, get-insert nodes h h added)

  pub get-kept :
      (p : BlockHash) (found : DagNode)
      → get nodes p ≡ some found
      → get (insert nodes h added) p ≡ some found
  get-kept p found g = elim (Bool-cases (nat_beq h p)) [
    | inl same ↦ absurd (cc (sym free, ap (λ q. get nodes q) ((nat_beq_iff h p).0 same), g))
    | inr other ↦ rw (get-insert nodes h p added, other) g
  ]

  -- What is there afterwards is the new node or was there before.
  pub added-or-kept :
      (p : BlockHash) (found : DagNode)
      → get (insert nodes h added) p ≡ some found
      → ((h ≡ p) × (added ≡ found)) ⊎ (get nodes p ≡ some found)
  added-or-kept p found g = elim (Bool-cases (nat_beq h p)) [
    | inl same ↦ inl (
      (nat_beq_iff h p).0 same,
      some-injective (
          subst (λ b. (if b then some added else get nodes p) ≡ some found) same
            (sym (get-insert nodes h p added) ∙ g)),
    )
    | inr other ↦ inr (
        subst (λ b. (if b then some added else get nodes p) ≡ some found) other
          (sym (get-insert nodes h p added) ∙ g))
  ]

  pub Under-insert :
      (found : DagNode) (parent : Option BlockHash)
      → Under nodes found parent
      → Under (insert nodes h added) found parent
  Under-insert found none u = u
  Under-insert found (some p) (below, g, named, high, work) =
      (below, get-kept p below g, named, high, work)

  pub Chain-insert :
      {c : Option BlockHash} {l : List (BlockHash × ℕ)}
      → Chain nodes c l
      → Chain (insert nodes h added) c l
  Chain-insert root = root
  Chain-insert (link {h = x} {found = found} g up older) =
      link (get-kept x found g) up (Chain-insert older)

  pub IsPlaced-insert :
      IsPlaced nodes
      → added.block.block_hash ≡ h
      → Under nodes added added.parent
      → IsPlaced (insert nodes h added)
  IsPlaced-insert placed named u p found g = elim (added-or-kept p found g) [
    | inl (at, is) ↦
        subst (λ n. (n.block.block_hash ≡ p) × Under (insert nodes h added) n n.parent) is
          (named ∙ at, Under-insert added added.parent u)
    | inr old ↦ let (same, v) = placed p found old in (same, Under-insert found found.parent v)
  ]

  -- Where the new node has more work than the tip, it is the heaviest; otherwise the tip still is.
  pub Heaviest-added :
      (tip : DagNode) (t : BlockHash)
      → Heaviest nodes (some t)
      → get nodes t ≡ some tip
      → tip.cumulative_work < added.cumulative_work
      → Heaviest (insert nodes h added) (some h)
  Heaviest-added tip t (best, b, most) g more =
      let same : tip ≡ best = some-injective (sym g ∙ b) in
      (
        added,
        get-added,
        λ p found e. elim (added-or-kept p found e) [
          | inl (at, is) ↦ omega (arith, ap (λ n. n.cumulative_work) is)
          | inr old ↦ omega (arith, most p found old, ap (λ n. n.cumulative_work) same, more)
        ],
      )

  pub Heaviest-first : Heaviest nodes none → Heaviest (insert nodes h added) (some h)
  Heaviest-first no_node = (
    added,
    get-added,
    λ p found e. elim (added-or-kept p found e) [
      | inl (at, is) ↦ omega (arith, ap (λ n. n.cumulative_work) is)
      | inr old ↦ absurd (cc (no_node p, old))
    ],
  )

  pub Heaviest-kept :
      (tip : DagNode) (t : BlockHash)
      → Heaviest nodes (some t)
      → get nodes t ≡ some tip
      → added.cumulative_work ≤ tip.cumulative_work
      → Heaviest (insert nodes h added) (some t)
  Heaviest-kept tip t (best, b, most) g less =
      let same : tip ≡ best = some-injective (sym g ∙ b) in
      (
        best,
        get-kept t best b,
        λ p found e. elim (added-or-kept p found e) [
          | inl (at, is) ↦
              omega (arith, ap (λ n. n.cumulative_work) is, ap (λ n. n.cumulative_work) same, less)
          | inr old ↦ most p found old
        ],
      )
