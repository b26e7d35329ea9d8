-- ===== src/Bitcoin/Samples.antt =====
-- Blocks for the tests: a genesis block, a block above it, and a branch of two.
use multichain_rs.Prelude.{
  ℕ, Bool, true, false, List, [], ◌∷◌, map, nat_eq, string_eq, option_eq, list_eq,
}
use multichain_rs.Bitcoin.Domain.{OutPoint, BitcoinTransaction, BitcoinBlock}

abbrev pub paying : ℕ → Bool → List OutPoint → List ℕ → BitcoinTransaction
paying txid coinbase inputs values = record {
  txid = txid;
  is_coinbase = coinbase;
  inputs = inputs;
  outputs = map (λ value. record { value = value; script_pubkey_id = 7 }) values;
  virtual_size = 100;
}

abbrev pub block_of : ℕ → ℕ → List BitcoinTransaction → BitcoinBlock
block_of h parent transactions = record {
  block_hash = h;
  previous_block_hash = parent;
  compact_target = 9;
  work = 2;
  transactions = transactions;
}

abbrev pub coin : ℕ → OutPoint
coin txid = record { txid = txid; vout = 0 }

abbrev pub genesis : BitcoinBlock
genesis = block_of 100 0 (paying 1 true [] (50 ∷ []) ∷ [])

-- It spends the genesis block's output.
abbrev pub above : BitcoinBlock
above =
    block_of 101 100 (paying 2 true [] (50 ∷ []) ∷ paying 3 false (coin 1 ∷ []) (20 ∷ 25 ∷ []) ∷ [])

abbrev pub branch : List BitcoinBlock
branch = block_of 201 100 (paying 4 true [] (50 ∷ []) ∷ []) ∷ block_of 202 201 [] ∷ []
