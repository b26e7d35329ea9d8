-- ===== src/Bitcoin/Domain.antt =====
-- Bitcoin's blocks, transactions and outpoints (crates/bitcoin-domain/src: block.rs,
-- transaction.rs, outpoint.rs). What the crate `bitcoin` reads from a block's bytes are its fields.
use multichain_rs.Prelude.{
  ℕ, zero, suc, ◌-◌, ◌%◌, ◌^◌, ◌≡◌, ap, ◌↔◌, Bool, true, ◌&&◌, ◌||◌, not, Option, none, some, List,
  arith, leb, nat_beq, if◌then◌else◌, Eq, nat_eq, string_eq, option_eq, list_eq,
}

-- A `[u8; 32]` of the Bitcoin crates is the number whose big-endian bytes it holds, so that the
-- derived order of `Txid` and of `BlockWork` is the order of the numbers.
abbrev pub Txid : Type 0
Txid = ℕ

abbrev pub BlockHash : Type 0
BlockHash = ℕ

pub record OutPoint : Type 0 where
  pub txid : Txid
  pub vout : ℕ

abbrev pub same_outpoint : OutPoint → OutPoint → Bool
same_outpoint a b = nat_beq a.txid b.txid && nat_beq a.vout b.vout

outpoint_ext : (a b : OutPoint) → a.txid ≡ b.txid → a.vout ≡ b.vout → a ≡ b
outpoint_ext a b p q = λ i. record { txid = p i; vout = q i }

pub same_outpoint_iff : (a b : OutPoint) → (same_outpoint a b ≡ true) ↔ (a ≡ b)
same_outpoint_iff a b = (
  λ e. outpoint_ext a b (ground arith) (ground arith),
  λ e. ground (arith, ap (λ o. o.txid) e, ap (λ o. o.vout) e),
)

instance abbrev pub outpoint_eq : Eq OutPoint
outpoint_eq = record { equal = same_outpoint; equal_iff = same_outpoint_iff }

-- An output with the digest of its script (`value_sats`, `script_pubkey_id`).
pub record BitcoinOutput : Type 0 where
  pub value : ℕ
  pub script_pubkey_id : ℕ

-- A transaction by what the processors read of it; of an input that is the spent outpoint.
pub record BitcoinTransaction : Type 0 where
  pub txid : Txid
  pub is_coinbase : Bool
  pub inputs : List OutPoint
  pub outputs : List BitcoinOutput
  pub virtual_size : ℕ

pub record BitcoinBlock : Type 0 where
  pub block_hash : BlockHash
  pub previous_block_hash : BlockHash
  pub compact_target : ℕ
  pub work : ℕ
  pub transactions : List BitcoinTransaction

pub data BitcoinNetwork : Type 0 where
  mainnet testnet signet regtest : BitcoinNetwork

-- What the crate `bitcoin` supplies: the hash of a network's genesis block, the test of a header
-- against a compact target, and the parameters and the rule of a network's retargeting.
pub record Consensus : Type 0 where
  pub genesis_hash : BitcoinNetwork → BlockHash
  pub validate_pow : BitcoinBlock → ℕ → Bool
  pub no_pow_retargeting : BitcoinNetwork → Bool
  pub adjustment_interval : BitcoinNetwork → ℕ
  pub adjust_target : BitcoinBlock → BitcoinBlock → BitcoinNetwork → ℕ

-- `u32::is_multiple_of`
abbrev pub is_multiple_of : ℕ → ℕ → Bool
is_multiple_of n zero = nat_beq n 0
is_multiple_of n (suc k) = nat_beq (n % suc k) 0

-- `next_required_target`
unfoldable pub next_required_target :
    Consensus → BitcoinBlock → BitcoinNetwork → ℕ → Option BitcoinBlock → Option ℕ
next_required_target consensus block network next_height epoch_start =
    let interval = consensus.adjustment_interval network in
    if not (leb interval (2 ^ 32 - 1))
    then none
    else if consensus.no_pow_retargeting network || not (is_multiple_of next_height interval)
    then some block.compact_target
    else elim epoch_start [
      | none ↦ none
      | some start ↦ some (consensus.adjust_target start block network)
    ]
