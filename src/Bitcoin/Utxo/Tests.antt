-- ===== src/Bitcoin/Utxo/Tests.antt =====
-- The theorems about the unspent outputs at concrete blocks.
use multichain_rs.Prelude.{
  ◌≡◌, refl, true, false, List, [], ◌∷◌, map, reverse, nat_eq, string_eq, option_eq, u64_max,
  list_eq,
}
use multichain_rs.Exec.{ok}
use multichain_rs.Dict
use multichain_rs.Bitcoin.Domain.{outpoint_eq, BitcoinBlock, BitcoinTransaction}
use multichain_rs.Bitcoin.Error.{missing_prevout}
use multichain_rs.Bitcoin.Utxo.{
  UtxoEvent, spent, created, UtxoState, apply_block, revert_block, apply_transactions,
  apply_transaction, spend_inputs, sum_outputs, create_outputs, finish_block, undo_partial,
  rollback_partial, undo_operation,
}
use multichain_rs.Bitcoin.Utxo.Undo.{Same}
use multichain_rs.Bitcoin.Utxo.Tracked.{mirror, follow_all}
use multichain_rs.Bitcoin.Utxo.Blocks.{
  Unchanged, revert_block-apply_block, apply_block-Unchanged, apply_block-follow_all,
}
use multichain_rs.Bitcoin.Samples.{genesis, above, block_of, paying, coin}

abbrev fresh : UtxoState
fresh = record { entries = Dict.empty; applied_blocks = [] }

abbrev started : UtxoState
started = (apply_block genesis fresh).1

abbrev above_events : List UtxoEvent
above_events =
    created (coin 2) 50 7
    ∷ spent (coin 1) 3 0
    ∷ created (coin 3) 20 7
    ∷ created (record { txid = 3; vout = 1 }) 25 7
    ∷ []

above_applies : apply_block above started ≡ (ok above_events, (apply_block above started).1)
unfolding apply_block apply_transactions apply_transaction spend_inputs sum_outputs create_outputs
    finish_block Dict.get Dict.insert Dict.remove Dict.empty
above_applies = refl

revert_block-apply_block_example :
    (u : UtxoState) × (revert_block 101 (apply_block above started).1
      ≡ (ok (map mirror (reverse above_events)), u))
    × Same u.entries started.entries
    × (u.applied_blocks ≡ started.applied_blocks)
unfolding apply_block apply_transactions apply_transaction spend_inputs sum_outputs create_outputs
    finish_block Dict.get Dict.insert Dict.remove Dict.empty
revert_block-apply_block_example =
    revert_block-apply_block above started above_events (apply_block above started).1 refl
      above_applies

apply_block-follow_all_example :
    Dict.get (apply_block above started).1.entries (coin 1)
    ≡ follow_all (reverse above_events) (Dict.get started.entries (coin 1)) (coin 1)
apply_block-follow_all_example =
    apply_block-follow_all above started above_events (apply_block above started).1 above_applies
      (coin 1)

-- The second transaction spends an output that nobody created.
abbrev stray : BitcoinBlock
stray = block_of 101 100 (paying 2 true [] (50 ∷ []) ∷ paying 3 false (coin 9 ∷ []) [] ∷ [])

apply_block-Unchanged_example : Unchanged started (apply_block stray started).1
unfolding apply_block apply_transactions apply_transaction spend_inputs sum_outputs create_outputs
    finish_block undo_partial rollback_partial undo_operation Dict.get Dict.insert Dict.remove
    Dict.empty
apply_block-Unchanged_example =
    apply_block-Unchanged stray started (missing_prevout 101 3 0 (coin 9))
      (apply_block stray started).1 refl refl

-- Two outputs that are worth more than 64 bits together.
abbrev rich : UtxoState
rich =
    (apply_block (block_of 100 0 (paying 1 true [] (u64_max ∷ []) ∷ paying 2 true [] (1 ∷ []) ∷ []))
      fresh).1

abbrev greedy : BitcoinTransaction
greedy = paying 3 false (coin 1 ∷ coin 2 ∷ []) []
