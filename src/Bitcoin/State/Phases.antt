-- ===== src/Bitcoin/State/Phases.antt =====
-- The loop over a reorganisation's transitions (processors/bitcoin-canonicality/src/state.rs) first
-- reverts the blocks that leave the chain, then applies those that join it.
use mathlib.Core.Path.{subst}
use multichain_rs.Prelude.{
  ℕ, suc, ◌≡◌, refl, sym, ap, ◌∙◌, ◌≢◌, false, some, List, [], ◌∷◌, map, arith, ◌==◌, nat_eq,
  string_eq, option_eq, list_eq, cons_head, cons_tail,
}
use multichain_rs.Exec.{Outcome, ok, err, panic, diverge, continue}
use multichain_rs.Dict.{get}
use multichain_rs.Bitcoin.Domain.{BlockHash}
use multichain_rs.Bitcoin.Error.{StateError}
use multichain_rs.Bitcoin.Utxo.{
  UtxoEvent, UtxoState, AppliedBlock, apply_block, revert_block, utxo_tip,
}
use multichain_rs.Bitcoin.Utxo.Blocks.{Finishes, apply_block-Finishes}
use multichain_rs.Bitcoin.Utxo.Invariant.{
  IsRevertible, Revertible, apply_block-IsRevertible, revert_block-IsRevertible,
}
use multichain_rs.Bitcoin.Dag.{DagNode, Nodes}
use multichain_rs.Bitcoin.Dag.Chain.{Chain, Chain-cons, hashes, some-injective}
use multichain_rs.Bitcoin.Dag.Placed.{IsPlaced, IsPlaced-IsLinked}

-- The hashes of the applied blocks, the newest first.
abbrev pub applied_hashes : UtxoState → List BlockHash
applied_hashes u = map (λ b. b.hash) u.applied_blocks

-- The unspent outputs follow the chain, and can be reverted along it.
abbrev pub Mirrors : List (BlockHash × ℕ) → UtxoState → Type 0
Mirrors l u = IsRevertible u × (applied_hashes u ≡ hashes l)

-- A success leaves outputs that follow the chain; a failure's outputs are dropped.
abbrev pub Leaves : {A : Type 0} → List (BlockHash × ℕ) → Outcome StateError A × UtxoState → Type 0
Leaves l (ok a, u) = Mirrors l u
Leaves l (err e, u) = Unit
Leaves l (panic, u) = ⊥
Leaves l (diverge, u) = ⊥

pub continue-Leaves :
    {A B : Type 0} (l m : List (BlockHash × ℕ)) (r : Outcome StateError A × UtxoState)
    (f : A → UtxoState → Outcome StateError B × UtxoState)
    → Leaves l r
    → ((a : A) (u : UtxoState) → Mirrors l u → Leaves m (f a u))
    → Leaves m (continue r.0 f r.1)
continue-Leaves l m (ok a, u) f h k = k a u h
continue-Leaves l m (err e, u) f h k = tt
continue-Leaves l m (panic, u) f h k = h
continue-Leaves l m (diverge, u) f h k = h

-- A block that is reverted is the newest.
pub revert_newest :
    (u : UtxoState) (e : BlockHash × ℕ) (l : List (BlockHash × ℕ))
    → Mirrors (e ∷ l) u
    → Leaves l (revert_block e.0 u)
revert_newest u e l (r, named) = by_blocks u.applied_blocks u.entries r named
  where
    by_blocks :
        (blocks : List AppliedBlock) (entries : _)
        → Revertible blocks entries
        → map (λ b. b.hash) blocks ≡ e.0 ∷ hashes l
        → Leaves l (revert_block e.0 (record { entries = entries; applied_blocks = blocks }))
    by_blocks [] entries r named = absurd (cc named)
    by_blocks (newest ∷ older) entries r named =
        let (after, done, left, kept) = revert_block-IsRevertible newest older entries r in
        let same : newest.hash ≡ e.0 = cons_head named in
        subst
          (λ h.
            Leaves l
              (revert_block h (record { entries = entries; applied_blocks = newest ∷ older })))
          same (subst (Leaves l) (sym done) (kept, ap (map (λ b. b.hash)) left ∙ cons_tail named))

module _ (nodes : Nodes) (placed : IsPlaced nodes) where
  -- A block is not its own parent.
  parent_apart :
      (h : BlockHash) (found : DagNode) (l : List (BlockHash × ℕ)) (blocks : List AppliedBlock)
      → get nodes h ≡ some found
      → Chain nodes found.parent l
      → map (λ b. b.hash) blocks ≡ hashes l
      → (utxo_tip blocks == some h) ≡ false
  parent_apart h found l [] g chain named = refl
  parent_apart h found [] (newest ∷ older) g chain named = absurd (cc named)
  parent_apart h found (e ∷ l) (newest ∷ older) g chain named =
      let (other, up, f, high, rest) = Chain-cons nodes e l chain in
      let (below, k, step) = (IsPlaced-IsLinked nodes placed).lower h found e.0 g up in
      ground (arith, cons_head named, distinct h e.0 found below g k step)
    where
      distinct :
          (h p : BlockHash) (found below : DagNode)
          → get nodes h ≡ some found
          → get nodes p ≡ some below
          → found.height ≡ suc below.height
          → p ≢ h
      distinct h p found below g k step e =
          let same : found ≡ below = some-injective (sym g ∙ ap (get nodes) (sym e) ∙ k) in
          omega (arith, step, ap (λ n. n.height) same)

  -- Applying the block of the next node of a chain.
  pub apply_next :
      (h : BlockHash) (found : DagNode) (l : List (BlockHash × ℕ)) (u : UtxoState)
      → get nodes h ≡ some found
      → Chain nodes found.parent l
      → Mirrors l u
      → Leaves ((h, found.height) ∷ l) (apply_block found.block u)
  apply_next h found l u g chain (r, named) =
      let (at, under) = placed h found g in
      let new : (utxo_tip u.applied_blocks == some found.block.block_hash) ≡ false =
        ap (λ x. utxo_tip u.applied_blocks == some x) at
        ∙ parent_apart h found l u.applied_blocks g chain named in
      settle (apply_block found.block u) refl (apply_block-Finishes found.block u new)
    where
      settle :
          (q : Outcome StateError (List UtxoEvent) × UtxoState)
          → apply_block found.block u ≡ q
          → Finishes found.block.block_hash u q
          → Leaves ((h, found.height) ∷ l) q
      settle (ok events, t) e (undo, pushed, tracked) = (
        apply_block-IsRevertible found.block u events t e r,
        ap (map (λ b. b.hash)) pushed ∙ (λ i. (placed h found g).0 i ∷ named i),
      )
      settle (err x, t) e f = tt
      settle (panic, t) e f = f
      settle (diverge, t) e f = f
