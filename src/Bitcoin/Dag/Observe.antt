-- ===== src/Bitcoin/Dag/Observe.antt =====
-- What observing a block does to the candidate blocks and the canonical chain
-- (processors/bitcoin-canonicality/src/dag.rs: observe_block).
use mathlib.Core.Path.{subst}
use multichain_rs.Prelude.{
  ℕ, ◌<◌, ◌≡◌, refl, sym, ap, ◌∙◌, ◌⊎◌, inl, inr, Bool, true, false, Option, none, some, List, [],
  reverse, arith, ltb, if◌then◌else◌, nat_eq, string_eq, option_eq, Bool-cases, Option-cases,
  list_eq,
}
use multichain_rs.Exec.{Outcome, ok, err, panic, diverge, pure, continue}
use multichain_rs.Dict.{get, contains_key}
use multichain_rs.Bitcoin.Domain.{BlockHash, BitcoinBlock, Consensus}
use multichain_rs.Bitcoin.Error.{StateError, BlockTransition}
use multichain_rs.Bitcoin.Dag.{
  DagNode, CanonicalityState, should_reorganize, reorganize_to, insert_node, add_node, candidate,
  observe_block,
}
use multichain_rs.Bitcoin.Dag.Chain.{Chain, root, some-injective, chain_of}
use multichain_rs.Bitcoin.Dag.Placed.{Under, IsPlaced, IsPlaced-IsLinked, candidate-Under}
use multichain_rs.Bitcoin.Dag.Insert.{
  Heaviest, get-added, get-kept, Chain-insert, IsPlaced-insert, Heaviest-added, Heaviest-first,
  Heaviest-kept,
}
use multichain_rs.Bitcoin.Dag.Announces.{Announces, transitions_of-Announces}
use multichain_rs.Bitcoin.Dag.Reorganize.{Reorganizes, reorganize_to-Reorganizes}

-- Every node is placed under its parent, and the tip is a heaviest node.
pub record IsDag (s : CanonicalityState) : Type 0 where
  pub placed : IsPlaced s.nodes
  pub heaviest : Heaviest s.nodes s.canonical_tip

-- The tip was kept, or replaced by a node with more work.
abbrev pub Improves : CanonicalityState → CanonicalityState → Type 0
Improves s t =
    (t.canonical_tip ≡ s.canonical_tip)
    ⊎ ((new : DagNode) × (h : BlockHash) × (t.canonical_tip ≡ some h)
        × (get t.nodes h ≡ some new)
        × ((old : BlockHash) (tip : DagNode)
            → s.canonical_tip ≡ some old
            → get s.nodes old ≡ some tip
            → tip.cumulative_work < new.cumulative_work))

-- The transitions turn the chain of the one tip into the chain of the other: what leaves is taken off from the tip,
-- and what joins is put on from the lowest block up.
abbrev pub Moves : CanonicalityState → List BlockTransition → CanonicalityState → Type 0
Moves s transitions t =
    (before : List (BlockHash × ℕ)) × (after : List (BlockHash × ℕ)) × (off : List (BlockHash × ℕ))
    × (on : List (BlockHash × ℕ)) × (shared : List (BlockHash × ℕ)) × Chain s.nodes s.canonical_tip
        before
    × Chain t.nodes t.canonical_tip after
    × Reorganizes before after off on shared
    × Announces s.next_revision off (reverse on) transitions t.next_revision

pub chain_of_tip :
    (s : CanonicalityState) → IsDag s → (l : List (BlockHash × ℕ)) × Chain s.nodes s.canonical_tip l
chain_of_tip s dag = chain_from s.canonical_tip dag.heaviest
  where
    chain_from :
        (tip : Option BlockHash)
        → Heaviest s.nodes tip
        → (l : List (BlockHash × ℕ)) × Chain s.nodes tip l
    chain_from none h = ([], root)
    chain_from (some t) (found, g, most) =
        let (l, chain, long) =
          chain_of s.nodes (IsPlaced-IsLinked s.nodes dag.placed) found.height t found g refl in
        (l, chain)

-- What `add_node` comes to.
abbrev pub Added :
    CanonicalityState → Outcome StateError (List BlockTransition) × CanonicalityState → Type 0
Added s (ok transitions, t) = IsDag t × Moves s transitions t × Improves s t
Added s (err e, t) = ⊥
Added s (panic, t) = ⊥
Added s (diverge, t) = ⊥

module _ (s : CanonicalityState) (h : BlockHash) (added : DagNode) (dag : IsDag s)
    (free : get s.nodes h ≡ none) (named : added.block.block_hash ≡ h)
    (under : Under s.nodes added added.parent) where
  abbrev grown : CanonicalityState
  grown = insert_node h added s

  grown-IsPlaced : IsPlaced grown.nodes
  grown-IsPlaced = IsPlaced-insert s.nodes h added free dag.placed named under

  -- The new node becomes the tip.
  replaced :
      Heaviest grown.nodes (some h)
      → ((old : BlockHash) (tip : DagNode)
          → s.canonical_tip ≡ some old
          → get s.nodes old ≡ some tip
          → tip.cumulative_work < added.cumulative_work)
      → Added s (reorganize_to h grown)
  replaced best more =
      let (before, chain) = chain_of_tip s dag in
      let (after, off, on, shared, new, parts, done) =
        reorganize_to-Reorganizes grown h added before
          (IsPlaced-IsLinked grown.nodes grown-IsPlaced) (get-added s.nodes h added free)
          (Chain-insert s.nodes h added free chain) in
      subst (Added s) (sym done) (
        record { placed = grown-IsPlaced; heaviest = best },
        (
          before,
          after,
          off,
          on,
          shared,
          chain,
          new,
          parts,
          transitions_of-Announces off on s.next_revision,
        ),
        inr (added, h, refl, get-added s.nodes h added free, more),
      )

  -- The tip stays.
  retained : Heaviest grown.nodes s.canonical_tip → Added s (ok [], grown)
  retained best =
      let (before, chain) = chain_of_tip s dag in
      (
        record { placed = grown-IsPlaced; heaviest = best },
        (
          before,
          before,
          [],
          [],
          before,
          chain,
          Chain-insert s.nodes h added free chain,
          (refl, refl, tt),
          refl,
        ),
        inl refl,
      )

  decided :
      (b : Bool)
      → should_reorganize added.cumulative_work grown ≡ ok b
      → add_node h added s ≡ (if b then reorganize_to h else pure []) grown
  unfolding add_node
  decided b e = rw e refl

  heavier : (tip : DagNode) → Bool
  heavier tip = ltb tip.cumulative_work added.cumulative_work

  weighed :
      (t : BlockHash) (tip : DagNode)
      → s.canonical_tip ≡ some t
      → get s.nodes t ≡ some tip
      → should_reorganize added.cumulative_work grown
        ≡ ok (ltb tip.cumulative_work added.cumulative_work)
  unfolding should_reorganize
  weighed t tip e g = rw (e, get-kept s.nodes h added free t tip g) refl

  pub add_node-Added : Added s (add_node h added s)
  unfolding should_reorganize
  add_node-Added = elim (Option-cases s.canonical_tip) [
    | inl first ↦ subst (Added s) (sym (decided true (rw first refl))) (
        replaced (Heaviest-first s.nodes h added free (subst (Heaviest s.nodes) first dag.heaviest))
          (λ old tip e g. absurd (cc (first, e))))
    | inr (t, e) ↦
        let best = subst (Heaviest s.nodes) e dag.heaviest in
        let (tip, g, most) = best in
        elim (Bool-cases (ltb tip.cumulative_work added.cumulative_work)) [
          | inl more ↦ subst (Added s) (sym (decided true (weighed t tip e g ∙ ap ok more))) (
              replaced (Heaviest-added s.nodes h added free tip t best g (ground arith))
                (λ old other f k.
                  let at : old ≡ t = some-injective (sym f ∙ e) in
                  let same : other ≡ tip =
                    some-injective (sym k ∙ ap (λ q. get s.nodes q) at ∙ g) in
                  ground (arith, ap (λ n. n.cumulative_work) same)))
          | inr less ↦ subst (Added s) (sym (decided false (weighed t tip e g ∙ ap ok less))) (
              retained (
                subst (Heaviest grown.nodes) (sym e)
                  (Heaviest-kept s.nodes h added free tip t best g (ground arith))))
        ]
  ]

-- Observing a block, whatever comes of it.
abbrev pub Observed :
    CanonicalityState → Outcome StateError (List BlockTransition) × CanonicalityState → Type 0
Observed s (ok transitions, t) = IsDag t × Moves s transitions t × Improves s t
Observed s (err e, t) = t ≡ s
Observed s (panic, t) = t ≡ s
Observed s (diverge, t) = t ≡ s

module _ (consensus : Consensus) (block : BitcoinBlock) (s : CanonicalityState) where
  Added-Observed :
      (r : Outcome StateError (List BlockTransition) × CanonicalityState) → Added s r → Observed s r
  Added-Observed (ok transitions, t) a = a
  Added-Observed (err e, t) a = absurd a
  Added-Observed (panic, t) a = absurd a
  Added-Observed (diverge, t) a = absurd a

  pub observe_block_known :
      (known : DagNode)
      → get s.nodes block.block_hash ≡ some known
      → observe_block consensus block s ≡ (ok [], s)
  unfolding observe_block
  observe_block_known known g =
      let there : contains_key s.nodes block.block_hash ≡ true = rw (contains_key, g) refl in
      rw there refl

  pub observe_block_new :
      get s.nodes block.block_hash ≡ none
      → observe_block consensus block s
        ≡ continue (candidate consensus block s) (add_node block.block_hash) s
  unfolding observe_block
  observe_block_new free =
      let absent : contains_key s.nodes block.block_hash ≡ false = rw (contains_key, free) refl in
      rw absent refl

  -- Where every candidate is placed under its parent and the tip is a heaviest one, observing a block either fails and
  -- changes nothing, or keeps that so: the tip is kept or gives way to a block with more work, and the transitions take
  -- off the old chain from its tip down to what both chains share, and then put on the new chain from the lowest block
  -- up, each with its height, with consecutive revisions up to the end of `u64`, the next of which is kept; no block is
  -- both taken off and put on.
  pub observe_block-Observed : IsDag s → Observed s (observe_block consensus block s)
  observe_block-Observed dag = elim (Option-cases (get s.nodes block.block_hash)) [
    | inr (known, g) ↦
        let (before, chain) = chain_of_tip s dag in
        subst (Observed s) (sym (observe_block_known known g))
          (dag, (before, before, [], [], before, chain, chain, (refl, refl, tt), refl), inl refl)
    | inl free ↦
        subst (Observed s) (sym (observe_block_new free))
          (continued (candidate consensus block s) refl free)
  ]
    where
      continued :
          (r : Outcome StateError DagNode)
          → candidate consensus block s ≡ r
          → get s.nodes block.block_hash ≡ none
          → Observed s (continue r (add_node block.block_hash) s)
      continued (ok added) c free =
          let (same, under) = candidate-Under consensus block s added c in
          Added-Observed _
            (add_node-Added s block.block_hash added dag free (ap (λ b. b.block_hash) same) under)
      continued (err e) c free = refl
      continued panic c free = refl
      continued diverge c free = refl
