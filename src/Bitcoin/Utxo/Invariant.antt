-- ===== src/Bitcoin/Utxo/Invariant.antt =====
-- All the applied blocks can be reverted (processors/bitcoin-canonicality/src/utxo.rs), and what
-- an overflow among the inputs does to the entries.
use mathlib.Core.Path.{subst}
use multichain_rs.Prelude.{
  ◌≡◌, refl, sym, ◌∙◌, inl, inr, some, List, [], ◌∷◌, map, ◌==◌, nat_beq_iff, nat_eq, string_eq,
  option_eq, Bool-cases, list_eq,
}
use multichain_rs.Exec.{ok}
use multichain_rs.Dict.{empty}
use multichain_rs.Bitcoin.Domain.{BitcoinBlock, outpoint_eq}
use multichain_rs.Bitcoin.Utxo.{
  UtxoEvent, UtxoState, AppliedBlock, apply_block, revert_block, revert_applied, utxo_tip,
  rollback_partial, reverted_event,
}
use multichain_rs.Bitcoin.Utxo.Undo.{
  Entries, Same, Undoable, Undoable-Same, Undoable-rollback_partial,
}
use multichain_rs.Bitcoin.Utxo.Blocks.{apply_block-Extends, apply_block-tip}

-- Undoing the newest block leads to entries from which the older ones can be undone, down to none.
abbrev pub Revertible : List AppliedBlock → Entries → Type 0
Revertible [] entries = Same entries empty
Revertible (newest ∷ older) entries =
    (base : Entries) × Undoable newest.undo base entries × Revertible older base

abbrev pub IsRevertible : UtxoState → Type 0
IsRevertible s = Revertible s.applied_blocks s.entries

Revertible-Same :
    (blocks : List AppliedBlock) (d e : Entries)
    → Same d e
    → Revertible blocks d
    → Revertible blocks e
Revertible-Same [] d e h r = λ p. sym (h p) ∙ r p
Revertible-Same (newest ∷ older) d e h (base, undoable, r) =
    (base, Undoable-Same newest.undo base d e h undoable, r)

pub apply_block-IsRevertible :
    (block : BitcoinBlock) (s : UtxoState) (events : List UtxoEvent) (t : UtxoState)
    → apply_block block s ≡ (ok events, t)
    → IsRevertible s
    → IsRevertible t
apply_block-IsRevertible block s events t h r =
    elim (Bool-cases (utxo_tip s.applied_blocks == some block.block_hash)) [
      | inl tip ↦ subst (λ q. IsRevertible q.1) (sym (apply_block-tip block s tip) ∙ h) r
      | inr new ↦
          let (undo, pushed, tracked) = apply_block-Extends block s events t new h in
          subst (λ l. Revertible l t.entries) (sym pushed) (s.entries, tracked.undoable, r)
    ]

-- The newest block can always be reverted.
pub revert_block-IsRevertible :
    (newest : AppliedBlock) (older : List AppliedBlock) (entries : Entries)
    → Revertible (newest ∷ older) entries
    → (u : UtxoState) × (revert_block newest.hash
          (record { entries = entries; applied_blocks = newest ∷ older })
        ≡ (ok (map reverted_event newest.undo), u))
      × (u.applied_blocks ≡ older)
      × IsRevertible u
unfolding revert_block revert_applied
revert_block-IsRevertible newest older entries (base, undoable, r) =
    let (good, same) = Undoable-rollback_partial newest.undo base entries undoable in
    (
      record { entries = (rollback_partial newest.undo entries).1; applied_blocks = older },
      rw ((nat_beq_iff newest.hash newest.hash).1 refl, good) refl,
      refl,
      Revertible-Same older base (rollback_partial newest.undo entries).1 (λ p. sym (same p)) r,
    )
