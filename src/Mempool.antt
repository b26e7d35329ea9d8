-- ===== src/Mempool.antt =====
-- The Bitcoin mempool as separate observers see it (processors/bitcoin-mempool/src): each
-- observer's membership with its history, the aggregate view over all of them, and the graph of
-- conflicting spends.
pub mod Membership
pub mod Sets
pub mod Epoch
pub mod Observer
pub mod Aggregate
pub mod Graph
