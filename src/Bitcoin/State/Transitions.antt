-- ===== src/Bitcoin/State/Transitions.antt =====
-- Applying the transitions of a reorganisation turns the applied blocks of the old chain into those of the new one
-- (processors/bitcoin-canonicality/src/state.rs: observe_block).
use mathlib.Core.Path.{subst}
use mathlib.Core.List.{reverse_aux, reverse_aux-eq, reverse-reverse}
use multichain_rs.Prelude.{
  ℕ, ◌≡◌, refl, sym, ap, ◌∙◌, Option, some, List, [], ◌∷◌, ◌++◌, reverse, nat_eq, string_eq,
  option_eq, saturating_add, list_eq,
}
use multichain_rs.Dict.{get}
use multichain_rs.Bitcoin.Domain.{BlockHash}
use multichain_rs.Bitcoin.Error.{BlockTransition, connected, disconnected}
use multichain_rs.Bitcoin.Utxo.{UtxoState, apply_block}
use multichain_rs.Bitcoin.Dag.{DagNode, Nodes, CanonicalityState, numbered, transitions_of}
use multichain_rs.Bitcoin.Dag.Chain.{Chain, Chain-cons}
use multichain_rs.Bitcoin.Dag.Placed.{IsPlaced}
use multichain_rs.Bitcoin.State.{apply_transition, apply_transitions}
use multichain_rs.Bitcoin.State.Phases.{Mirrors, Leaves, continue-Leaves, revert_newest, apply_next}

module _ (dag : CanonicalityState) where
  -- Reverting the blocks that leave the chain.
  disconnect_phase :
      (m l : List (BlockHash × ℕ)) (more : List BlockTransition) (off : List (BlockHash × ℕ))
      (revision : ℕ) (u : UtxoState)
      → Mirrors (off ++ l) u
      → ((v : UtxoState) → Mirrors l v → Leaves m (apply_transitions dag more v))
      → Leaves m (apply_transitions dag ((numbered disconnected off revision).0 ++ more) u)
  unfolding apply_transitions apply_transition numbered
  disconnect_phase m l more [] revision u h k = k u h
  disconnect_phase m l more (e ∷ off) revision u h k =
      continue-Leaves (off ++ l) m _ _ (revert_newest u e (off ++ l) h) (λ events v g.
        continue-Leaves m m _ _ (disconnect_phase m l more off (saturating_add revision 1) v g k)
          (λ updates w f. f))

  suffix_chain :
      (nodes : Nodes) {c : Option BlockHash} (more l : List (BlockHash × ℕ))
      → Chain nodes c (reverse_aux more l)
      → (d : Option BlockHash) × Chain nodes d l
  suffix_chain nodes {c} [] l chain = (c, chain)
  suffix_chain nodes (e ∷ more) l chain =
      let (d, rest) = suffix_chain nodes more (e ∷ l) chain in
      let (found, at, g, high, below) = Chain-cons nodes e l rest in (found.parent, below)

  connect_one :
      IsPlaced dag.nodes
      → (e : BlockHash × ℕ) (l : List (BlockHash × ℕ)) (revision : ℕ) (found : DagNode)
        (u : UtxoState)
      → get dag.nodes e.0 ≡ some found
      → e.1 ≡ found.height
      → Chain dag.nodes found.parent l
      → Mirrors l u
      → Leaves (e ∷ l) (apply_transition dag (connected e.0 e.1 revision) u)
  unfolding apply_transition
  connect_one placed e l revision found u g high below h =
      let step : apply_transition dag (connected e.0 e.1 revision) u ≡ apply_block found.block u =
        rw g refl in
      subst (Leaves (e ∷ l)) (sym step) (
        subst (λ k. Leaves ((e.0, k) ∷ l) (apply_block found.block u)) (sym high)
          (apply_next dag.nodes placed e.0 found l u g below h))

  -- Applying the blocks that join it.
  connect_phase :
      IsPlaced dag.nodes
      → {c : Option BlockHash} (on l : List (BlockHash × ℕ)) (revision : ℕ) (u : UtxoState)
      → Chain dag.nodes c (reverse_aux on l)
      → Mirrors l u
      → Leaves (reverse_aux on l) (apply_transitions dag (numbered connected on revision).0 u)
  unfolding apply_transitions apply_transition numbered
  connect_phase placed [] l revision u chain h = h
  connect_phase placed (e ∷ on) l revision u chain h =
      let (d, rest) = suffix_chain dag.nodes on (e ∷ l) chain in
      let (found, at, g, high, below) = Chain-cons dag.nodes e l rest in
      continue-Leaves (e ∷ l) (reverse_aux on (e ∷ l)) _ _
        (connect_one placed e l revision found u g high below h)
        (λ events v f.
          continue-Leaves (reverse_aux on (e ∷ l)) (reverse_aux on (e ∷ l)) _ _
            (connect_phase placed on (e ∷ l) (saturating_add revision 1) v chain f)
            (λ updates w k. k))

  -- All the transitions of a reorganisation.
  pub all_phases :
      IsPlaced dag.nodes
      → {c : Option BlockHash} (off on shared : List (BlockHash × ℕ)) (revision : ℕ) (u : UtxoState)
      → Chain dag.nodes c (on ++ shared)
      → Mirrors (off ++ shared) u
      → Leaves (on ++ shared) (apply_transitions dag (transitions_of off on revision).0 u)
  unfolding transitions_of
  all_phases placed off on shared revision u chain h =
      let whole : reverse_aux (reverse on) shared ≡ on ++ shared =
        reverse_aux-eq (reverse on) shared ∙ ap (λ l. l ++ shared) (reverse-reverse on) in
      let next = (numbered disconnected off revision).1 in
      disconnect_phase (on ++ shared) shared (numbered connected (reverse on) next).0 off revision u
        h
        (λ v g.
          subst (λ l. Leaves l (apply_transitions dag (numbered connected (reverse on) next).0 v))
            whole
            (connect_phase placed (reverse on) shared next v
              (subst (Chain dag.nodes _) (sym whole) chain) g))
