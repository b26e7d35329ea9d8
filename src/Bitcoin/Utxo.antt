-- ===== src/Bitcoin/Utxo.antt =====
-- The unspent outputs of the canonical chain, with what undoes each block
-- (processors/bitcoin-canonicality/src/utxo.rs).
mod Tests
pub mod Undo
pub mod Invariant
pub mod Blocks
pub mod Tracked
use multichain_rs.Prelude.{
  ℕ, ◌+◌, ◌-◌, ◌^◌, ◌||◌, not, Option, none, some, List, [], ◌∷◌, map, reverse, leb, nat_beq,
  if◌then◌else◌, ◌==◌, nat_eq, string_eq, option_eq, checked_add, all, list_eq,
}
use multichain_rs.Exec.{
  Outcome, ok, err, panic, diverge, Exec, pure, raise, reads, ensure, and_then, ◌>>◌, ◌>>=◌,
}
use multichain_rs.Dict.{Dict, get, insert, remove, contains_key}
use multichain_rs.Bitcoin.Domain.{
  Txid, BlockHash, OutPoint, outpoint_eq, BitcoinOutput, BitcoinTransaction, BitcoinBlock,
}
use multichain_rs.Bitcoin.Error.{
  StateError, unexpected_connect, missing_prevout, duplicate_outpoint, negative_fee,
  amount_overflow, out_of_order_disconnect, inconsistent_utxo,
}

pub data UtxoEvent : Type 0 where
  created : OutPoint → ℕ → ℕ → UtxoEvent
  spent spend_reverted : OutPoint → Txid → ℕ → UtxoEvent
  creation_reverted : OutPoint → UtxoEvent

-- `UtxoEntry` has the fields of an output: its value and the digest of its script.
abbrev pub UtxoEntry : Type 0
UtxoEntry = BitcoinOutput

pub data UndoOperation : Type 0 where
  undo_created : OutPoint → UndoOperation
  undo_spent : OutPoint → UtxoEntry → Txid → ℕ → UndoOperation

pub record AppliedBlock : Type 0 where
  pub hash : BlockHash
  pub undo : List UndoOperation

-- The newest block of `applied_blocks` is the first here, and so are an `undo` list's newest
-- operation and the newest event.
pub record UtxoState : Type 0 where
  pub entries : Dict OutPoint UtxoEntry
  pub applied_blocks : List AppliedBlock

-- What `apply_transactions` changes: the entries, `undo` and `events`.
pub record Applying : Type 0 where
  pub entries : Dict OutPoint UtxoEntry
  pub undo : List UndoOperation
  pub events : List UtxoEvent

module _ (block_hash : BlockHash) (txid : Txid) where
  -- The loop over a transaction's inputs, from an index and a sum: the sum of all.
  pub spend_inputs : List OutPoint → ℕ → ℕ → Exec StateError Applying ℕ
  unfolding get remove
  spend_inputs [] index input_sats s = pure input_sats s
  spend_inputs (previous ∷ more) index input_sats s =
      if not (leb index (2 ^ 32 - 1))
      then raise (amount_overflow block_hash txid) s
      else elim (get s.entries previous) [
        | none ↦ raise (missing_prevout block_hash txid index previous) s
        | some entry ↦
            let taken = record s { entries = remove s.entries previous } in
            elim (checked_add input_sats entry.value) [
              | none ↦ raise (amount_overflow block_hash txid) taken
              | some total ↦ spend_inputs more (index + 1) total (record taken {
                undo = undo_spent previous entry txid index ∷ s.undo;
                events = spent previous txid index ∷ s.events;
              })
            ]
      ]

  -- The sum of a transaction's outputs.
  pub sum_outputs : List BitcoinOutput → ℕ → Outcome StateError ℕ
  sum_outputs [] total = ok total
  sum_outputs (output ∷ more) total = elim (checked_add total output.value) [
    | none ↦ err (amount_overflow block_hash txid)
    | some sum ↦ sum_outputs more sum
  ]

  -- The loop over a transaction's outputs, from an index.
  pub create_outputs : List BitcoinOutput → ℕ → Exec StateError Applying Unit
  unfolding get insert
  create_outputs [] index s = pure tt s
  create_outputs (output ∷ more) index s =
      let outpoint : OutPoint = record { txid = txid; vout = index } in
      if not (leb index (2 ^ 32 - 1))
      then raise (amount_overflow block_hash txid) s
      else if contains_key s.entries outpoint
      then raise (duplicate_outpoint block_hash txid index outpoint) s
      else create_outputs more (index + 1) (record {
        entries = insert s.entries outpoint output;
        undo = undo_created outpoint ∷ s.undo;
        events = created outpoint output.value output.script_pubkey_id ∷ s.events;
      })

-- One transaction of the loop of `apply_transactions`.
pub apply_transaction : BlockHash → BitcoinTransaction → Exec StateError Applying Unit
unfolding spend_inputs sum_outputs create_outputs
apply_transaction block_hash transaction = do
  let txid = transaction.txid
  input_sats ←
      (if transaction.is_coinbase
        then pure 0
        else spend_inputs block_hash txid transaction.inputs 0 0)
  output_sats ← reads (λ _. sum_outputs block_hash txid transaction.outputs 0)
  reads (λ _.
      ensure (transaction.is_coinbase || leb output_sats input_sats)
        (negative_fee block_hash txid input_sats output_sats))
  create_outputs block_hash txid transaction.outputs 0

-- `apply_transactions`
pub apply_transactions : BlockHash → List BitcoinTransaction → Exec StateError Applying Unit
unfolding apply_transaction
apply_transactions block_hash [] = pure tt
apply_transactions block_hash (transaction ∷ more) =
    apply_transaction block_hash transaction >> apply_transactions block_hash more

-- Undoing one operation, as `revert_block` and `rollback_partial` both do.
pub undo_operation : UndoOperation → Exec StateError (Dict OutPoint UtxoEntry) Unit
unfolding get insert remove
undo_operation (undo_created outpoint) entries =
    (ensure (contains_key entries outpoint) (inconsistent_utxo outpoint), remove entries outpoint)
undo_operation (undo_spent outpoint entry spending_txid input_index) entries = (
  ensure (not (contains_key entries outpoint)) (inconsistent_utxo outpoint),
  insert entries outpoint entry,
)

-- `rollback_partial`: the operations from the newest.
pub rollback_partial : List UndoOperation → Exec StateError (Dict OutPoint UtxoEntry) Unit
unfolding undo_operation
rollback_partial [] = pure tt
rollback_partial (operation ∷ older) = undo_operation operation >> rollback_partial older

-- The event that `revert_block` reports for an operation.
pub reverted_event : UndoOperation → UtxoEvent
reverted_event (undo_created outpoint) = creation_reverted outpoint
reverted_event (undo_spent outpoint entry spending_txid input_index) =
    spend_reverted outpoint spending_txid input_index

-- The hash of the newest applied block.
abbrev pub utxo_tip : List AppliedBlock → Option BlockHash
utxo_tip [] = none
utxo_tip (tip ∷ older) = some tip.hash

-- Undoing what `apply_transactions` did before it failed; its own failure is reported instead.
pub undo_partial :
    StateError → Applying → List AppliedBlock → Outcome StateError (List UtxoEvent) × UtxoState
unfolding rollback_partial
undo_partial error done applied_blocks =
    let (rolled, entries) = rollback_partial done.undo done.entries in
    (
      and_then rolled (λ _. err error),
      record { entries = entries; applied_blocks = applied_blocks },
    )

-- The end of `apply_block`, after `apply_transactions`.
pub finish_block :
    BlockHash
    → List AppliedBlock
    → Outcome StateError Unit × Applying
    → Outcome StateError (List UtxoEvent) × UtxoState
unfolding undo_partial
finish_block hash applied (ok _, done) = (
  ok (reverse done.events),
  record {
    entries = done.entries;
    applied_blocks = record { hash = hash; undo = done.undo } ∷ applied;
  },
)
finish_block hash applied (err error, done) = undo_partial error done applied
finish_block hash applied (panic, done) =
    (panic, record { entries = done.entries; applied_blocks = applied })
finish_block hash applied (diverge, done) =
    (diverge, record { entries = done.entries; applied_blocks = applied })

-- `apply_block`
pub apply_block : BitcoinBlock → Exec StateError UtxoState (List UtxoEvent)
unfolding apply_transactions finish_block
apply_block block s =
    let tip = utxo_tip s.applied_blocks in
    if tip == some block.block_hash
    then pure [] s
    else if not (tip == none || tip == some block.previous_block_hash)
    then raise (unexpected_connect block.block_hash block.previous_block_hash tip) s
    else finish_block block.block_hash s.applied_blocks (
        apply_transactions block.block_hash block.transactions
          (record { entries = s.entries; undo = []; events = [] }))

-- The end of `revert_block`, with the newest block taken off.
pub revert_applied : AppliedBlock → List AppliedBlock → Exec StateError UtxoState (List UtxoEvent)
unfolding rollback_partial reverted_event
revert_applied applied older s =
    let (undone, entries) = rollback_partial applied.undo s.entries in
    (
      and_then undone (λ _. ok (map reverted_event applied.undo)),
      record { entries = entries; applied_blocks = older },
    )

-- `revert_block`
pub revert_block : BlockHash → Exec StateError UtxoState (List UtxoEvent)
unfolding revert_applied
revert_block hash s = elim s.applied_blocks [
  | [] ↦ raise (out_of_order_disconnect hash none) s
  | newest ∷ older ↦
      if nat_beq newest.hash hash
      then revert_applied newest older s
      else raise (out_of_order_disconnect hash (some newest.hash)) s
]
