-- ===== src/Bitcoin/Utxo/Blocks.antt =====
-- What applying and reverting whole blocks amounts to
-- (processors/bitcoin-canonicality/src/utxo.rs: apply_block, revert_block).
use mathlib.Core.Path.{subst}
use mathlib.Core.List.{reverse-reverse}
use multichain_rs.Prelude.{
  ℕ, ◌≡◌, refl, sym, ◌∙◌, ◌⊎◌, inl, inr, true, false, ◌||◌, none, some, List, [], ◌∷◌, map, reverse,
  nat_beq, ◌==◌, nat_beq_iff, nat_eq, string_eq, option_eq, Bool-cases, list_eq,
}
use multichain_rs.Exec.{Outcome, ok, err, panic, diverge}
use multichain_rs.Dict.{get, insert, remove, contains_key}
use multichain_rs.Bitcoin.Domain.{BlockHash, BitcoinBlock, OutPoint, outpoint_eq}
use multichain_rs.Bitcoin.Error.{StateError, inconsistent_utxo}
use multichain_rs.Bitcoin.Utxo.{
  UtxoEvent, UtxoState, AppliedBlock, Applying, UndoOperation, finish_block, undo_partial,
  apply_block, revert_block, revert_applied, utxo_tip, rollback_partial, undo_operation,
  undo_created, undo_spent,
}
use multichain_rs.Bitcoin.Utxo.Undo.{Entries, Same, Undoable-rollback_partial}
use multichain_rs.Bitcoin.Utxo.Tracked.{
  mirror, follow_all, is_lossy, IsTracked, Tracks, apply_transactions-Tracks,
}

abbrev pub applied_block : BlockHash → List UndoOperation → AppliedBlock
applied_block h undo = record { hash = h; undo = undo }

-- What `apply_transactions` starts from.
abbrev pub starting : Entries → Applying
starting entries = record { entries = entries; undo = []; events = [] }

starting-IsTracked : (entries : Entries) → IsTracked entries (starting entries)
starting-IsTracked entries = record { undoable = λ p. refl; mirrored = refl; followed = λ p. refl }

-- The block was applied, on top of what was applied before, with undo data for just that block.
abbrev pub Extends : BlockHash → List UtxoEvent → UtxoState → UtxoState → Type 0
Extends h events s t =
    (undo : List UndoOperation) × (t.applied_blocks ≡ applied_block h undo ∷ s.applied_blocks)
    × IsTracked s.entries (record { entries = t.entries; undo = undo; events = reverse events })

-- Nothing visible changed.
abbrev pub Unchanged : UtxoState → UtxoState → Type 0
Unchanged s t = Same t.entries s.entries × (t.applied_blocks ≡ s.applied_blocks)

abbrev pub Finishes :
    BlockHash → UtxoState → Outcome StateError (List UtxoEvent) × UtxoState → Type 0
Finishes h s (ok events, t) = Extends h events s t
Finishes h s (err e, t) = is_lossy e ≡ false → Unchanged s t
Finishes h s (panic, t) = ⊥
Finishes h s (diverge, t) = ⊥

-- A roll-back succeeds or names an output.
rollback_partial-cases :
    (undo : List UndoOperation) (entries : Entries)
    → ((rollback_partial undo entries).0 ≡ ok tt)
      ⊎ ((o : OutPoint) × ((rollback_partial undo entries).0 ≡ err (inconsistent_utxo o)))
unfolding rollback_partial undo_operation
rollback_partial-cases [] entries = inl refl
rollback_partial-cases (undo_created o ∷ older) entries =
    elim (Bool-cases (contains_key entries o)) [
      | inl e ↦ rw e (rollback_partial-cases older (remove entries o))
      | inr e ↦ rw e (inr (o, refl))
    ]
rollback_partial-cases (undo_spent o entry txid index ∷ older) entries =
    elim (Bool-cases (contains_key entries o)) [
      | inl e ↦ rw e (inr (o, refl))
      | inr e ↦ rw e (rollback_partial-cases older (insert entries o entry))
    ]

undo_partial-Finishes :
    (h : BlockHash) (s : UtxoState) (e : StateError) (done : Applying)
    → (is_lossy e ≡ false → IsTracked s.entries done)
    → Finishes h s (undo_partial e done s.applied_blocks)
unfolding undo_partial
undo_partial-Finishes h s e done k = elim (Bool-cases (is_lossy e)) [
  | inl lossy ↦ elim (rollback_partial-cases done.undo done.entries) [
    | inl good ↦ rw (Finishes, good) (λ h. cc)
    | inr (o, bad) ↦ rw (Finishes, bad) (λ h. cc)
  ]
  | inr kept ↦
      let (good, same) =
        Undoable-rollback_partial done.undo s.entries done.entries (k kept).undoable in
      rw (Finishes, good) (λ h. (same, refl))
]

finish_block-Finishes :
    (h : BlockHash) (s : UtxoState) (r : Outcome StateError Unit × Applying)
    → Tracks s.entries r
    → Finishes h s (finish_block h s.applied_blocks r)
unfolding finish_block
finish_block-Finishes h s (ok u, done) k = (done.undo, refl, rw (reverse-reverse done.events) k)
finish_block-Finishes h s (err e, done) k = undo_partial-Finishes h s e done k
finish_block-Finishes h s (panic, done) k = k
finish_block-Finishes h s (diverge, done) k = k

pub apply_block-Finishes :
    (block : BitcoinBlock) (s : UtxoState)
    → (utxo_tip s.applied_blocks == some block.block_hash) ≡ false
    → Finishes block.block_hash s (apply_block block s)
unfolding apply_block
apply_block-Finishes block s new =
    let extends =
      utxo_tip s.applied_blocks == none
      || utxo_tip s.applied_blocks == some block.previous_block_hash in
    elim (Bool-cases extends) [
      | inl e ↦
          rw (new, e)
            (finish_block-Finishes block.block_hash s _ (
              apply_transactions-Tracks s.entries block.block_hash block.transactions _
                (starting-IsTracked s.entries)))
      | inr e ↦ rw (new, e) (λ h. (λ p. refl, refl))
    ]

-- The tip delivered again changes nothing.
pub apply_block-tip :
    (block : BitcoinBlock) (s : UtxoState)
    → (utxo_tip s.applied_blocks == some block.block_hash) ≡ true
    → apply_block block s ≡ (ok [], s)
unfolding apply_block
apply_block-tip block s tip = rw tip refl

-- The result agrees with its events on an output.
abbrev Follows : UtxoState → OutPoint → Outcome StateError (List UtxoEvent) × UtxoState → Type 0
Follows s p (ok events, t) = get t.entries p ≡ follow_all (reverse events) (get s.entries p) p
Follows s p (err e, t) = Unit
Follows s p (panic, t) = Unit
Follows s p (diverge, t) = Unit

nat_beq_refl : (n : ℕ) → nat_beq n n ≡ true
nat_beq_refl n = (nat_beq_iff n n).1 refl

-- A block that is applied, and is not the tip, is added to the applied ones.
pub apply_block-Extends :
    (block : BitcoinBlock) (s : UtxoState) (events : List UtxoEvent) (t : UtxoState)
    → (utxo_tip s.applied_blocks == some block.block_hash) ≡ false
    → apply_block block s ≡ (ok events, t)
    → Extends block.block_hash events s t
apply_block-Extends block s events t new h =
    subst (Finishes block.block_hash s) h (apply_block-Finishes block s new)

-- Applying a block that is not the tip and then reverting it gives back the outputs and the applied blocks
-- that were there before, and the events of the revert are those of the block, taken back from the newest.
pub revert_block-apply_block :
    (block : BitcoinBlock) (s : UtxoState) (events : List UtxoEvent) (t : UtxoState)
    → (utxo_tip s.applied_blocks == some block.block_hash) ≡ false
    → apply_block block s ≡ (ok events, t)
    → (u : UtxoState) × (revert_block block.block_hash t ≡ (ok (map mirror (reverse events)), u))
      × Same u.entries s.entries
      × (u.applied_blocks ≡ s.applied_blocks)
unfolding revert_block revert_applied
revert_block-apply_block block s events t new h =
    let (undo, pushed, tracked) = apply_block-Extends block s events t new h in
    let (good, same) = Undoable-rollback_partial undo s.entries t.entries tracked.undoable in
    (
      record { entries = (rollback_partial undo t.entries).1; applied_blocks = s.applied_blocks },
      rw (pushed, nat_beq_refl block.block_hash, good, tracked.mirrored) refl,
      same,
      refl,
    )

-- A block that is refused, with an error other than an overflow of amounts or an inconsistency, leaves the outputs
-- and the applied blocks as they were.
pub apply_block-Unchanged :
    (block : BitcoinBlock) (s : UtxoState) (e : StateError) (t : UtxoState)
    → apply_block block s ≡ (err e, t)
    → is_lossy e ≡ false
    → Unchanged s t
apply_block-Unchanged block s e t h kept =
    elim (Bool-cases (utxo_tip s.applied_blocks == some block.block_hash)) [
      | inl tip ↦ absurd (cc (sym (apply_block-tip block s tip) ∙ h))
      | inr new ↦ subst (Finishes block.block_hash s) h (apply_block-Finishes block s new) kept
    ]

-- Whoever follows the events of an applied block, in their order, knows of every output whether it is unspent
-- and with which value and script.
pub apply_block-follow_all :
    (block : BitcoinBlock) (s : UtxoState) (events : List UtxoEvent) (t : UtxoState)
    → apply_block block s ≡ (ok events, t)
    → (p : OutPoint) → get t.entries p ≡ follow_all (reverse events) (get s.entries p) p
apply_block-follow_all block s events t h p =
    elim (Bool-cases (utxo_tip s.applied_blocks == some block.block_hash)) [
      | inl tip ↦ subst (Follows s p) (sym (apply_block-tip block s tip) ∙ h) refl
      | inr new ↦ (apply_block-Extends block s events t new h).2.followed p
    ]
