-- ===== src/Bitcoin/Error.antt =====
-- How the canonicality state fails (processors/bitcoin-canonicality/src/error.rs), and the
-- transitions it reports (transition.rs).
use multichain_rs.Prelude.{ℕ, Option, nat_eq, string_eq, option_eq, list_eq}
use multichain_rs.Bitcoin.Domain.{Txid, BlockHash, OutPoint}

pub data StateError : Type 0 where
  invalid_genesis invalid_proof_of_work : BlockHash → StateError
  unknown_parent : BlockHash → BlockHash → StateError
  missing_difficulty_boundary : BlockHash → ℕ → StateError
  work_overflow inconsistent_dag : BlockHash → StateError
  unexpected_connect : BlockHash → BlockHash → Option BlockHash → StateError
  missing_prevout : BlockHash → Txid → ℕ → OutPoint → StateError
  duplicate_outpoint : BlockHash → Txid → ℕ → OutPoint → StateError
  negative_fee : BlockHash → Txid → ℕ → ℕ → StateError
  amount_overflow : BlockHash → Txid → StateError
  out_of_order_disconnect : BlockHash → Option BlockHash → StateError
  inconsistent_utxo : OutPoint → StateError

-- A block became canonical, or no longer is: its hash, its height and the revision.
pub data BlockTransition : Type 0 where
  connected disconnected : BlockHash → ℕ → ℕ → BlockTransition
