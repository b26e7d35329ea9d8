-- ===== src/Solana/Fork.antt =====
-- The values that the Solana tracker keeps: forks, commitments, account writes and its errors
-- (processors/solana-canonicality/src/lib.rs, crates/solana-domain/src/lib.rs).
use multichain_rs.Prelude.{
  ℕ, ◌≡◌, ap, ◌↔◌, Bool, true, false, ◌&&◌, Option, none, some, List, arith, nat_beq, Eq, nat_eq,
  string_eq, option_eq,
}

pub data Commitment : Type 0 where
  received processed confirmed finalized dead : Commitment

-- `Commitment::rank`
abbrev pub rank : Commitment → Option ℕ
rank received = some 0
rank processed = some 1
rank confirmed = some 2
rank finalized = some 3
rank dead = none

-- The derived `==` of `Commitment`
abbrev pub same_commitment : Commitment → Commitment → Bool
same_commitment received received = true
same_commitment processed processed = true
same_commitment confirmed confirmed = true
same_commitment finalized finalized = true
same_commitment dead dead = true
same_commitment _ _ = false

pub same_commitment_iff : (a b : Commitment) → (same_commitment a b ≡ true) ↔ (a ≡ b)
same_commitment_iff a b = ground arith

instance abbrev pub commitment_eq : Eq Commitment
commitment_eq = record { equal = same_commitment; equal_iff = same_commitment_iff }

-- The 32 bytes of a blockhash or a public key, and the 64 of a signature, as a number.
pub record ForkId : Type 0 where
  pub slot : ℕ
  pub blockhash : ℕ

abbrev pub same_fork : ForkId → ForkId → Bool
same_fork a b = nat_beq a.slot b.slot && nat_beq a.blockhash b.blockhash

fork_ext : (a b : ForkId) → a.slot ≡ b.slot → a.blockhash ≡ b.blockhash → a ≡ b
fork_ext a b p q = λ i. record { slot = p i; blockhash = q i }

pub same_fork_iff : (a b : ForkId) → (same_fork a b ≡ true) ↔ (a ≡ b)
same_fork_iff a b = (
  λ e. fork_ext a b (ground arith) (ground arith),
  λ e. ground (arith, ap (λ f. f.slot) e, ap (λ f. f.blockhash) e),
)

instance abbrev pub fork_eq : Eq ForkId
fork_eq = record { equal = same_fork; equal_iff = same_fork_iff }

pub record TransactionKey : Type 0 where
  pub signature : ℕ
  pub fork_id : ForkId

abbrev pub same_key : TransactionKey → TransactionKey → Bool
same_key a b = nat_beq a.signature b.signature && same_fork a.fork_id b.fork_id

pub record CommitmentRevision : Type 0 where
  pub revision : ℕ
  pub fork_id : ForkId
  pub from : Commitment
  pub to : Commitment

pub record AccountWrite : Type 0 where
  pub fork_id : ForkId
  pub pubkey : ℕ
  pub owner : ℕ
  pub lamports : ℕ
  pub account_data : List ℕ
  pub executable : Bool
  pub rent_epoch : ℕ
  pub write_version : ℕ

pub record AccountState : Type 0 where
  pub owner : ℕ
  pub lamports : ℕ
  pub account_data : List ℕ
  pub executable : Bool
  pub rent_epoch : ℕ
  pub write_version : ℕ

-- `AccountState::from_write`
abbrev pub from_write : AccountWrite → AccountState
from_write w = record {
  owner = w.owner;
  lamports = w.lamports;
  account_data = w.account_data;
  executable = w.executable;
  rent_epoch = w.rent_epoch;
  write_version = w.write_version;
}

pub record AccountUndo : Type 0 where
  pub pubkey : ℕ
  pub previous : Option AccountState

pub record ForkNode : Type 0 where
  pub parent : Option ForkId
  pub commitment : Commitment
  pub transactions : List TransactionKey
  pub writes : List AccountWrite
  pub last_write_version : Option ℕ
  pub applied_undo : List AccountUndo

pub data SolanaError : Type 0 where
  conflicting_fork_identity unknown_parent dead_parent non_increasing_slot : SolanaError
  multiple_roots unknown_fork commitment_regression dead_fork : SolanaError
  finalized_fork_would_die write_version_regression revision_overflow : SolanaError
  invalid_recovery_sources invalid_recovery_observation : SolanaError
  invalid_pre_execution_source invalid_observed_time : SolanaError
  execution_already_joined execution_signature_mismatch : SolanaError
