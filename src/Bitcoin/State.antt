-- ===== src/Bitcoin/State.antt =====
-- The candidate blocks and the unspent outputs together
-- (processors/bitcoin-canonicality/src/state.rs).
pub mod Phases
pub mod Sound
pub mod Transitions
use multichain_rs.Prelude.{List, [], ◌∷◌, nat_eq, string_eq, option_eq, list_eq}
use multichain_rs.Exec.{Outcome, ok, err, panic, diverge, Exec, pure, reads, ◌>>=◌, ◌>>◌}
use multichain_rs.Bitcoin.Domain.{BitcoinBlock, BitcoinNetwork, Consensus}
use multichain_rs.Bitcoin.Error.{StateError, BlockTransition, connected, disconnected}
use multichain_rs.Bitcoin.Utxo.{UtxoEvent, UtxoState, apply_block, revert_block}
use multichain_rs.Bitcoin.Dag.{CanonicalityState, node}
use multichain_rs.Bitcoin.Dag
use multichain_rs.Dict

pub record StateUpdate : Type 0 where
  pub transition : BlockTransition
  pub utxo_events : List UtxoEvent

pub record BitcoinState : Type 0 where
  pub dag : CanonicalityState
  pub utxos : UtxoState

-- `BitcoinState::new`
unfoldable pub create : BitcoinNetwork → BitcoinState
create network = record {
  dag = Dag.create network;
  utxos = record { entries = Dict.empty; applied_blocks = [] };
}

-- One turn of the loop of `observe_block`, on the next candidate blocks.
pub apply_transition :
    CanonicalityState → BlockTransition → Exec StateError UtxoState (List UtxoEvent)
apply_transition dag (connected h height revision) =
    reads (λ _. node dag.nodes h) >>= λ found. apply_block found.block
apply_transition dag (disconnected h height revision) = revert_block h

-- The loop of `observe_block`.
pub apply_transitions :
    CanonicalityState → List BlockTransition → Exec StateError UtxoState (List StateUpdate)
unfolding apply_transition
apply_transitions dag [] = pure []
apply_transitions dag (transition ∷ more) = do
  utxo_events ← apply_transition dag transition
  updates ← apply_transitions dag more
  pure (record { transition = transition; utxo_events = utxo_events } ∷ updates)

-- The end of `observe_block`: only a success is kept.
pub commit :
    BitcoinState
    → CanonicalityState
    → Outcome StateError (List StateUpdate) × UtxoState
    → Outcome StateError (List StateUpdate) × BitcoinState
commit s dag (ok updates, utxos) = (ok updates, record { dag = dag; utxos = utxos })
commit s dag (err e, utxos) = (err e, s)
commit s dag (panic, utxos) = (panic, s)
commit s dag (diverge, utxos) = (diverge, s)

-- `observe_block` from what the candidate blocks answer.
pub observe_transitions :
    BitcoinState
    → Outcome StateError (List BlockTransition) × CanonicalityState
    → Outcome StateError (List StateUpdate) × BitcoinState
unfolding apply_transitions commit
observe_transitions s (ok transitions, dag) =
    commit s dag (apply_transitions dag transitions s.utxos)
observe_transitions s (err e, dag) = (err e, s)
observe_transitions s (panic, dag) = (panic, s)
observe_transitions s (diverge, dag) = (diverge, s)

-- `observe_block`
unfoldable pub observe_block :
    Consensus → BitcoinBlock → Exec StateError BitcoinState (List StateUpdate)
unfolding observe_transitions
observe_block consensus block s = observe_transitions s (Dag.observe_block consensus block s.dag)
