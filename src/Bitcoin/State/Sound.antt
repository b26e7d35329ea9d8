-- ===== src/Bitcoin/State/Sound.antt =====
-- The unspent outputs are always those of the canonical chain
-- (processors/bitcoin-canonicality/src/state.rs).
use mathlib.Core.Path.{subst}
use multichain_rs.Prelude.{
  ℕ, ◌≡◌, refl, sym, ap, ◌∙◌, ◌⊎◌, inl, inr, none, some, List, [], ◌∷◌, ◌++◌, nat_eq, string_eq,
  option_eq, list_eq,
}
use multichain_rs.Exec.{Outcome, ok, err, panic, diverge}
use multichain_rs.Dict.{get, get-empty}
use multichain_rs.Bitcoin.Domain.{BlockHash, BitcoinBlock, BitcoinNetwork, Consensus}
use multichain_rs.Bitcoin.Error.{StateError, BlockTransition}
use multichain_rs.Bitcoin.Utxo.{UtxoState}
use multichain_rs.Bitcoin.Utxo.Invariant.{IsRevertible}
use multichain_rs.Bitcoin.Dag.{DagNode, Nodes, CanonicalityState, numbered, node, transitions_of}
use multichain_rs.Bitcoin.Dag
use multichain_rs.Bitcoin.Dag.Chain.{Chain, Chain_unique, hashes}
use multichain_rs.Bitcoin.Dag.Announces.{Announces-transitions_of}
use multichain_rs.Bitcoin.Dag.Rooted.{
  IsRooted, EndsAt, Chain-EndsAt, observe_block-Extends, Extends-IsRooted,
}
use multichain_rs.Bitcoin.Dag.Observe.{IsDag, Observed, observe_block-Observed}
use multichain_rs.Bitcoin.State.{
  StateUpdate, BitcoinState, create, apply_transitions, commit, observe_transitions, observe_block,
}
use multichain_rs.Bitcoin.State.Phases.{applied_hashes, Leaves}
use multichain_rs.Bitcoin.State.Transitions.{all_phases}

-- The candidate blocks are in order, the applied blocks can be reverted, and their hashes are those of the
-- canonical chain, from the tip down to the genesis block.
pub record IsSound (s : BitcoinState) : Type 0 where
  pub dag : IsDag s.dag
  pub revertible : IsRevertible s.utxos
  pub follows :
      (l : List (BlockHash × ℕ))
      → Chain s.dag.nodes s.dag.canonical_tip l
      → applied_hashes s.utxos ≡ hashes l

pub create-IsSound : (network : BitcoinNetwork) → IsSound (create network)
unfolding create Dag.create
create-IsSound network = record {
  dag = record { placed = λ h found g. absurd (cc (get-empty h, g)); heaviest = λ h. get-empty h };
  revertible = λ p. refl;
  follows = λ l chain. ap hashes (Chain_unique _ Chain.root chain);
}

-- What `observe_block` comes to: an error leaves the state as it was.
abbrev pub Outcomes : BitcoinState → Outcome StateError (List StateUpdate) × BitcoinState → Type 0
Outcomes s (ok updates, t) = IsSound t
Outcomes s (err e, t) = t ≡ s
Outcomes s (panic, t) = t ≡ s
Outcomes s (diverge, t) = t ≡ s

module _ (s : BitcoinState) (sound : IsSound s) where
  commit-Outcomes :
      (dag : CanonicalityState) (after : List (BlockHash × ℕ))
      (r : Outcome StateError (List StateUpdate) × UtxoState)
      → IsDag dag
      → Chain dag.nodes dag.canonical_tip after
      → Leaves after r
      → Outcomes s (commit s dag r)
  unfolding commit
  commit-Outcomes dag after (ok updates, u) d chain (r, named) = record {
    dag = d;
    revertible = r;
    follows = λ l other. named ∙ ap hashes (Chain_unique dag.nodes chain other);
  }
  commit-Outcomes dag after (err e, u) d chain h = refl
  commit-Outcomes dag after (panic, u) d chain h = refl
  commit-Outcomes dag after (diverge, u) d chain h = refl

  Observed-Outcomes :
      (r : Outcome StateError (List BlockTransition) × CanonicalityState)
      → Observed s.dag r
      → Outcomes s (observe_transitions s r)
  unfolding observe_transitions
  Observed-Outcomes (ok transitions, dag)
        (d, (before, after, off, on, shared, old, new, (parts, news, apart), listed), better) =
      commit-Outcomes dag after _ d new (
        subst (λ l. Leaves l (apply_transitions dag transitions s.utxos)) (sym news)
          (subst (λ ts. Leaves (on ++ shared) (apply_transitions dag ts s.utxos))
            (sym (
              Announces-transitions_of off on s.dag.next_revision transitions dag.next_revision
                listed))
            (all_phases dag d.placed off on shared s.dag.next_revision s.utxos
              (subst (Chain dag.nodes dag.canonical_tip) news new)
              (sound.revertible, sound.follows before old ∙ ap hashes parts))))
  Observed-Outcomes (err e, dag) h = refl
  Observed-Outcomes (panic, dag) h = refl
  Observed-Outcomes (diverge, dag) h = refl

  -- From a sound state, observing a block either succeeds and leads to a sound state, or leaves the state as it was.
  pub observe_block-Outcomes :
      (consensus : Consensus) (block : BitcoinBlock) → Outcomes s (observe_block consensus block s)
  unfolding observe_block
  observe_block-Outcomes consensus block =
      Observed-Outcomes (Dag.observe_block consensus block s.dag)
        (observe_block-Observed consensus block s.dag sound.dag)

-- The state after a list of blocks, whichever of them are refused.
pub observe_all : Consensus → List BitcoinBlock → BitcoinState → BitcoinState
unfolding observe_block
observe_all consensus [] s = s
observe_all consensus (block ∷ more) s =
    observe_all consensus more (observe_block consensus block s).1

Outcomes-IsSound :
    (s : BitcoinState) (r : Outcome StateError (List StateUpdate) × BitcoinState)
    → IsSound s
    → Outcomes s r
    → IsSound r.1
Outcomes-IsSound s (ok updates, t) sound h = h
Outcomes-IsSound s (err e, t) sound h = subst IsSound (sym h) sound
Outcomes-IsSound s (panic, t) sound h = subst IsSound (sym h) sound
Outcomes-IsSound s (diverge, t) sound h = subst IsSound (sym h) sound

observe_transitions_dag :
    (s : BitcoinState) (r : Outcome StateError (List BlockTransition) × CanonicalityState)
    → ((observe_transitions s r).1.dag ≡ r.1) ⊎ ((observe_transitions s r).1.dag ≡ s.dag)
unfolding observe_transitions commit
observe_transitions_dag s (ok transitions, dag) = kept (apply_transitions dag transitions s.utxos)
  where
    kept :
        (r : Outcome StateError (List StateUpdate) × UtxoState)
        → ((commit s dag r).1.dag ≡ dag) ⊎ ((commit s dag r).1.dag ≡ s.dag)
    kept (ok updates, u) = inl refl
    kept (err e, u) = inr refl
    kept (panic, u) = inr refl
    kept (diverge, u) = inr refl
observe_transitions_dag s (err e, dag) = inr refl
observe_transitions_dag s (panic, dag) = inr refl
observe_transitions_dag s (diverge, dag) = inr refl

-- Only the genesis block has no parent, whatever comes of a block.
observe_block-IsRooted :
    (consensus : Consensus) (block : BitcoinBlock) (s : BitcoinState)
    → IsRooted consensus s.dag
    → (IsRooted consensus (observe_block consensus block s).1.dag)
      × ((observe_block consensus block s).1.dag.network ≡ s.dag.network)
unfolding observe_block
observe_block-IsRooted consensus block s rooted =
    let r = Dag.observe_block consensus block s.dag in
    let more = observe_block-Extends consensus block s.dag in
    elim (observe_transitions_dag s r) [
      | inl new ↦ (
        subst (IsRooted consensus) (sym new)
            (Extends-IsRooted consensus block s.dag r.1 more rooted),
        ap (λ d. d.network) new ∙ more.0,
      )
      | inr old ↦ (subst (IsRooted consensus) (sym old) rooted, ap (λ d. d.network) old)
    ]

-- A sound state whose candidate blocks and canonical chain start at the genesis block of the network.
pub record StartsAt (consensus : Consensus) (network : BitcoinNetwork) (s : BitcoinState)
    : Type 0 where
  pub sound : IsSound s
  pub of_network : s.dag.network ≡ network
  pub genesis_only :
      (h : BlockHash) (found : DagNode)
      → get s.dag.nodes h ≡ some found
      → found.parent ≡ none
      → h ≡ consensus.genesis_hash network
  pub down_to_genesis :
      (l : List (BlockHash × ℕ))
      → Chain s.dag.nodes s.dag.canonical_tip l
      → EndsAt (consensus.genesis_hash network) l

observe_all_keeps :
    (consensus : Consensus) (network : BitcoinNetwork) (blocks : List BitcoinBlock)
    (s : BitcoinState)
    → IsSound s
    → IsRooted consensus s.dag
    → s.dag.network ≡ network
    → StartsAt consensus network (observe_all consensus blocks s)
unfolding observe_all
observe_all_keeps consensus network [] s sound rooted same = record {
  sound = sound;
  of_network = same;
  genesis_only = λ h found g top. rooted h found g top ∙ ap consensus.genesis_hash same;
  down_to_genesis = λ l chain.
      subst (λ n. EndsAt (consensus.genesis_hash n) l) same
        (Chain-EndsAt consensus s.dag (sound.dag).placed rooted chain);
}
observe_all_keeps consensus network (block ∷ more) s sound rooted same =
    let (roots, kept) = observe_block-IsRooted consensus block s rooted in
    observe_all_keeps consensus network more _
      (Outcomes-IsSound s (observe_block consensus block s) sound
        (observe_block-Outcomes s sound consensus block))
      roots (kept ∙ same)

-- Whatever blocks a new state observes, in whatever order and on whichever branches, refused ones among them: every
-- candidate block is the network's genesis block at height 0 or is placed under a known parent, which is the block it
-- names, with its height and accumulated work; the tip is a heaviest candidate, every applied block can be reverted,
-- and the hashes of the applied blocks are those of the chain of the tip, down to the genesis block.
pub observe_all-IsSound :
    (consensus : Consensus) (network : BitcoinNetwork) (blocks : List BitcoinBlock)
    → StartsAt consensus network (observe_all consensus blocks (create network))
unfolding create Dag.create
observe_all-IsSound consensus network blocks =
    observe_all_keeps consensus network blocks (create network) (create-IsSound network)
      (λ h found g. absurd (cc (get-empty h, g))) refl
