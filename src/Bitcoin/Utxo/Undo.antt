-- ===== src/Bitcoin/Utxo/Undo.antt =====
-- What the undo lists of processors/bitcoin-canonicality/src/utxo.rs are worth: when undoing them
-- succeeds, and what it gives back.
use multichain_rs.Prelude.{
  ℕ, ◌≡◌, refl, sym, ◌∙◌, true, false, some, List, [], ◌∷◌, arith, nat_eq, string_eq, option_eq,
  list_eq,
}
use multichain_rs.Exec.{ok}
use multichain_rs.Dict.{Dict, get, insert, remove, contains_key, get-insert, get-remove}
use multichain_rs.Bitcoin.Domain.{Txid, OutPoint, outpoint_eq, same_outpoint_iff}
use multichain_rs.Bitcoin.Utxo.{
  UtxoEntry, UndoOperation, undo_created, undo_spent, undo_operation, rollback_partial,
}

abbrev pub Entries : Type 0
Entries = Dict OutPoint UtxoEntry

-- The same outputs are unspent, with the same values.
abbrev pub Same : Entries → Entries → Type 0
Same d e = (p : OutPoint) → get d p ≡ get e p

contains-Same : (d e : Entries) (o : OutPoint) → Same d e → contains_key d o ≡ contains_key e o
contains-Same d e o h = ground (arith, h o)

pub remove-Same : (d e : Entries) (o : OutPoint) → Same d e → Same (remove d o) (remove e o)
remove-Same d e o h p = rw (get-remove d o p, get-remove e o p, h p) refl

pub insert-Same :
    (d e : Entries) (o : OutPoint) (entry : UtxoEntry)
    → Same d e
    → Same (insert d o entry) (insert e o entry)
insert-Same d e o entry h p = rw (get-insert d o p entry, get-insert e o p entry, h p) refl

-- Undoing the operations from the newest meets each output as it left it, and ends at the base.
abbrev pub Undoable : List UndoOperation → Entries → Entries → Type 0
Undoable [] base entries = Same entries base
Undoable (undo_created o ∷ older) base entries =
    (contains_key entries o ≡ true) × Undoable older base (remove entries o)
Undoable (undo_spent o entry txid index ∷ older) base entries =
    (contains_key entries o ≡ false) × Undoable older base (insert entries o entry)

pub Undoable-Same :
    (undo : List UndoOperation) (base d e : Entries)
    → Same d e
    → Undoable undo base d
    → Undoable undo base e
Undoable-Same [] base d e h u = λ p. sym (h p) ∙ u p
Undoable-Same (undo_created o ∷ older) base d e h u = (
  sym (contains-Same d e o h) ∙ u.0,
  Undoable-Same older base (remove d o) (remove e o) (remove-Same d e o h) u.1,
)
Undoable-Same (undo_spent o entry txid index ∷ older) base d e h u = (
  sym (contains-Same d e o h) ∙ u.0,
  Undoable-Same older base (insert d o entry) (insert e o entry) (insert-Same d e o entry h) u.1,
)

-- The roll-back of an undoable list succeeds and restores the base.
pub Undoable-rollback_partial :
    (undo : List UndoOperation) (base entries : Entries)
    → Undoable undo base entries
    → ((rollback_partial undo entries).0 ≡ ok tt) × Same (rollback_partial undo entries).1 base
unfolding rollback_partial undo_operation
Undoable-rollback_partial [] base entries u = (refl, u)
Undoable-rollback_partial (undo_created o ∷ older) base entries u =
    rw (u.0) (Undoable-rollback_partial older base (remove entries o) u.1)
Undoable-rollback_partial (undo_spent o entry txid index ∷ older) base entries u =
    rw (u.0) (Undoable-rollback_partial older base (insert entries o entry) u.1)

-- Spending an output, or creating one that is not there, can be undone first.
pub spend-Undoable :
    (undo : List UndoOperation) (base entries : Entries) (o : OutPoint) (entry : UtxoEntry)
    (txid : Txid) (index : ℕ)
    → get entries o ≡ some entry
    → Undoable undo base entries
    → Undoable (undo_spent o entry txid index ∷ undo) base (remove entries o)
spend-Undoable undo base entries o entry txid index found u = (
  ground (arith, get-remove entries o o, same_outpoint_iff o o),
  Undoable-Same undo base entries (insert (remove entries o) o entry)
      (λ p. ground (
        arith,
        found,
        get-insert (remove entries o) o p entry,
        get-remove entries o p,
        same_outpoint_iff o p,
      ))
      u,
)

pub create-Undoable :
    (undo : List UndoOperation) (base entries : Entries) (o : OutPoint) (entry : UtxoEntry)
    → contains_key entries o ≡ false
    → Undoable undo base entries
    → Undoable (undo_created o ∷ undo) base (insert entries o entry)
create-Undoable undo base entries o entry free u = (
  ground (arith, get-insert entries o o entry, same_outpoint_iff o o),
  Undoable-Same undo base entries (remove (insert entries o entry) o)
      (λ p. ground (
        arith,
        free,
        get-insert entries o p entry,
        get-remove (insert entries o entry) o p,
        same_outpoint_iff o p,
      ))
      u,
)
