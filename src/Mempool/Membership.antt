-- ===== src/Mempool/Membership.antt =====
-- Membership revisions and the errors of the mempool observers
-- (processors/bitcoin-mempool/src/membership.rs and error.rs).
use multichain_rs.Prelude.{ℕ, Option, nat_eq, string_eq, option_eq, list_eq}
pub use multichain_rs.Bitcoin.Domain.{Txid}

-- `i64`, over the native numbers
pub data ℤ : Type 0 where
  pos : ℕ → ℤ
  negsuc : ℕ → ℤ

abbrev pub EpochId : Type 0
EpochId = ℕ

pub data MembershipState : Type 0 where
  present absent : MembershipState

pub data MembershipCause : Type 0 where
  observed mined replaced disconnected reconciled_snapshot : MembershipCause

pub data RemovalCause : Type 0 where
  observed mined replaced : RemovalCause

-- `From<RemovalCause> for MembershipCause`
unfoldable pub into : RemovalCause → MembershipCause
into RemovalCause.observed = MembershipCause.observed
into RemovalCause.mined = MembershipCause.mined
into RemovalCause.replaced = MembershipCause.replaced

pub record MembershipRevision : Type 0 where
  pub txid : Txid
  pub epoch_id : EpochId
  pub epoch_revision : ℕ
  pub state : MembershipState
  pub cause : MembershipCause
  pub source_observed_at_unix_ns : Option ℤ
  pub recorded_at_unix_ns : ℤ

pub data MempoolError : Type 0 where
  empty_source_id : MempoolError
  snapshot_sequence_regression : ℕ → ℕ → MempoolError
  snapshot_sequence_conflict : ℕ → MempoolError
  unknown_transaction invalid_replacement_evidence : Txid → MempoolError
  fee_overflow virtual_size_overflow : MempoolError
  transaction_too_large : Txid → MempoolError
  zero_virtual_size : MempoolError
