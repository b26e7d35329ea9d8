-- ===== src/Bitcoin.antt =====
-- Bitcoin's canonical chain and its unspent outputs (crates/bitcoin-domain/src and
-- processors/bitcoin-canonicality/src).
pub mod Dag
pub mod Domain
pub mod Error
pub mod Samples
pub mod State
mod Tests
pub mod Utxo
pub mod Work
