-- ===== src/Evm.antt =====
-- The Ethereum and BSC canonicality trackers (processors/evm-canonicality/src/lib.rs) and the
-- chain-native states that they report (crates/evm-domain/src/lib.rs).
pub mod Status
pub mod Block
pub mod Line
pub mod Ancestry
pub mod Segment
pub mod Small
pub mod Ethereum
pub mod Bsc
