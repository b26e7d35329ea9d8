-- ===== src/Bitcoin/Dag/Rooted.antt =====
-- Only the genesis block stands without a parent among the candidate blocks, and the canonical chain ends in it
-- (processors/bitcoin-canonicality/src/dag.rs: observe_block).
use mathlib.Core.Path.{subst}
use multichain_rs.Prelude.{
  ℕ, ◌≡◌, refl, sym, ap, ◌∙◌, ◌⊎◌, inl, inr, Bool, true, false, Option, none, some, List, [], ◌∷◌,
  if◌then◌else◌, nat_eq, string_eq, option_eq, Option-cases, list_eq,
}
use multichain_rs.Exec.{Outcome, ok, err, panic, diverge, Exec, pure, and_then, continue}
use multichain_rs.Dict.{get, insert}
use multichain_rs.Bitcoin.Domain.{BlockHash, BitcoinBlock, Consensus}
use multichain_rs.Bitcoin.Error.{StateError, BlockTransition}
use multichain_rs.Bitcoin.Dag.{
  DagNode, CanonicalityState, candidate, should_reorganize, reorganize_to, insert_node, add_node,
  observe_block, ancestor_set, walk_fuel, disconnect_from, connect_from, transitions_of,
}
use multichain_rs.Bitcoin.Dag.Chain.{Chain, root, link}
use multichain_rs.Bitcoin.Dag.Placed.{IsPlaced, Under, candidate_genesis}
use multichain_rs.Bitcoin.Dag.Insert.{added-or-kept}
use multichain_rs.Bitcoin.Dag.Observe.{observe_block_known, observe_block_new}

-- A candidate block without a parent is the network's genesis block.
abbrev pub IsRooted : Consensus → CanonicalityState → Type 0
IsRooted consensus s =
    (h : BlockHash) (found : DagNode)
    → get s.nodes h ≡ some found
    → found.parent ≡ none
    → h ≡ consensus.genesis_hash s.network

-- A chain ends in a block, at height 0; there may be no block.
abbrev pub EndsAt : BlockHash → List (BlockHash × ℕ) → Type 0
EndsAt genesis [] = Unit
EndsAt genesis (e ∷ []) = (e.0 ≡ genesis) × (e.1 ≡ 0)
EndsAt genesis (e ∷ f ∷ l) = EndsAt genesis (f ∷ l)

pub Chain-EndsAt :
    (consensus : Consensus) (s : CanonicalityState)
    → IsPlaced s.nodes
    → IsRooted consensus s
    → {c : Option BlockHash} {l : List (BlockHash × ℕ)} → Chain s.nodes c l
    → EndsAt (consensus.genesis_hash s.network) l
Chain-EndsAt consensus s placed rooted root = tt
Chain-EndsAt consensus s placed rooted (link {h = h} {found = found} g up root) =
    (rooted h found g up, (subst (Under s.nodes found) up (placed h found g).1).0)
Chain-EndsAt consensus s placed rooted (link g up (link f over older)) =
    Chain-EndsAt consensus s placed rooted (link f over older)

-- The network is kept, and so are the nodes but for one that may be new.
abbrev pub Extends : Consensus → BitcoinBlock → CanonicalityState → CanonicalityState → Type 0
Extends consensus block s t =
    (t.network ≡ s.network)
    × ((t.nodes ≡ s.nodes)
        ⊎ ((added : DagNode) × (get s.nodes block.block_hash ≡ none)
            × (candidate consensus block s ≡ ok added)
            × (t.nodes ≡ insert s.nodes block.block_hash added)))

abbrev Same : CanonicalityState → CanonicalityState → Type 0
Same s t = (t.network ≡ s.network) × (t.nodes ≡ s.nodes)

module _ {A B : Type 0} where
  continue-Same :
      (m : Outcome StateError A) (f : A → Exec StateError CanonicalityState B)
      (s t : CanonicalityState)
      → Same s t
      → ((a : A) → Same s (f a t).1)
      → Same s (continue m f t).1
  continue-Same (ok a) f s t h k = k a
  continue-Same (err e) f s t h k = h
  continue-Same panic f s t h k = h
  continue-Same diverge f s t h k = h

reorganize_to-Same : (h : BlockHash) (s : CanonicalityState) → Same s (reorganize_to h s).1
unfolding reorganize_to
reorganize_to-Same h s =
    continue-Same {A = List BlockTransition × ℕ} {B = List BlockTransition}
      (and_then (ancestor_set (walk_fuel s.nodes (some h)) s.nodes (some h) []) (λ new_ancestors.
        and_then
          (disconnect_from (walk_fuel s.nodes s.canonical_tip) s.nodes new_ancestors
            s.canonical_tip)
          (λ off.
            and_then (connect_from (walk_fuel s.nodes (some h)) s.nodes h off.1 (some h))
              (λ on. ok (transitions_of off.0 on s.next_revision)))))
      (λ numbered_off t.
        (ok numbered_off.0, record t { canonical_tip = some h; next_revision = numbered_off.1 }))
      s s (refl, refl) (λ a. (refl, refl))

decided-Same :
    (b : Bool) (h : BlockHash) (s : CanonicalityState)
    → Same s ((if b then reorganize_to h else pure []) s).1
decided-Same true h s = reorganize_to-Same h s
decided-Same false h s = (refl, refl)

add_node-Same :
    (h : BlockHash) (added : DagNode) (s : CanonicalityState)
    → Same (insert_node h added s) (add_node h added s).1
unfolding add_node
add_node-Same h added s =
    let t = insert_node h added s in
    continue-Same (should_reorganize added.cumulative_work t)
      (λ b. if b then reorganize_to h else pure []) t t (refl, refl) (λ b. decided-Same b h t)

module _ (consensus : Consensus) (block : BitcoinBlock) (s : CanonicalityState) where
  continued :
      (r : Outcome StateError DagNode)
      → candidate consensus block s ≡ r
      → get s.nodes block.block_hash ≡ none
      → Extends consensus block s (continue r (add_node block.block_hash) s).1
  continued (ok added) c free =
      let (network, nodes) = add_node-Same block.block_hash added s in
      (network, inr (added, free, c, nodes))
  continued (err e) c free = (refl, inl refl)
  continued panic c free = (refl, inl refl)
  continued diverge c free = (refl, inl refl)

  pub observe_block-Extends : Extends consensus block s (observe_block consensus block s).1
  observe_block-Extends = elim (Option-cases (get s.nodes block.block_hash)) [
    | inr (known, g) ↦
        subst (λ r. Extends consensus block s r.1)
          (sym (observe_block_known consensus block s known g)) (refl, inl refl)
    | inl free ↦
        subst (λ r. Extends consensus block s r.1) (sym (observe_block_new consensus block s free))
          (continued (candidate consensus block s) refl free)
  ]

  pub Extends-IsRooted :
      (t : CanonicalityState)
      → Extends consensus block s t
      → IsRooted consensus s
      → IsRooted consensus t
  Extends-IsRooted t (network, inl same) rooted h found g top =
      rooted h found (sym (ap (λ n. get n h) same) ∙ g) top
      ∙ ap consensus.genesis_hash (sym network)
  Extends-IsRooted t (network, inr (added, free, c, grown)) rooted h found g top =
      let back = ap consensus.genesis_hash (sym network) in
      elim (added-or-kept s.nodes block.block_hash added free h found
        (sym (ap (λ n. get n h) grown) ∙ g)) [
          | inl (at, is) ↦
              sym at
              ∙ candidate_genesis consensus block s added c (ap (λ n. n.parent) is ∙ top)
              ∙ back
          | inr old ↦ rooted h found old top ∙ back
        ]
