-- ===== src/Evm/Status.antt =====
-- Chain-native states and their stable spellings (`EthereumStatus` and `BscStatus` of
-- crates/evm-domain/src/lib.rs).
use multichain_rs.Prelude.{nat_eq, string_eq, option_eq}

pub data EthereumStatus : Type 0 where
  pending included_candidate canonical_head safe finalized reorged : EthereumStatus

pub data BscStatus : Type 0 where
  pending included_candidate canonical_head fast_finalized reorged : BscStatus
