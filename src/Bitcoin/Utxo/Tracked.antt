-- ===== src/Bitcoin/Utxo/Tracked.antt =====
-- What holds all along `apply_transactions` (processors/bitcoin-canonicality/src/utxo.rs): the undo
-- list leads back to the entries before the block, and the events say what changed.
use multichain_rs.Prelude.{
  ℕ, ◌+◌, ◌-◌, ◌^◌, ◌≡◌, ap, inl, inr, Bool, true, false, Option, none, some, List, [], ◌∷◌, map,
  leb, if◌then◌else◌, ◌==◌, nat_eq, string_eq, option_eq, Bool-cases, Option-cases, checked_add,
  list_eq,
}
use multichain_rs.Exec.{Outcome, ok, err, panic, diverge, Exec, pure, ensure, continue}
use multichain_rs.Dict.{get, insert, remove, contains_key, get-insert, get-remove}
use multichain_rs.Bitcoin.Domain.{
  Txid, OutPoint, outpoint_eq, BitcoinTransaction, BlockHash, BitcoinOutput,
}
use multichain_rs.Bitcoin.Error.{StateError, amount_overflow, inconsistent_utxo}
use multichain_rs.Bitcoin.Utxo.{
  UtxoEvent, created, spent, spend_reverted, creation_reverted, UtxoEntry, undo_created, undo_spent,
  Applying, spend_inputs, sum_outputs, create_outputs, apply_transaction, apply_transactions,
  reverted_event,
}
use multichain_rs.Bitcoin.Utxo.Undo.{Entries, Undoable, spend-Undoable, create-Undoable}

-- The event that takes an event back.
abbrev pub mirror : UtxoEvent → UtxoEvent
mirror (created o value script) = creation_reverted o
mirror (spent o txid index) = spend_reverted o txid index
mirror (spend_reverted o txid index) = spent o txid index
mirror (creation_reverted o) = creation_reverted o

-- What a reader of the events of applied blocks knows of an output.
abbrev pub follow : UtxoEvent → Option UtxoEntry → OutPoint → Option UtxoEntry
follow (created o value script) before p =
    if o == p then some (record { value = value; script_pubkey_id = script }) else before
follow (spent o txid index) before p = if o == p then none else before
follow (spend_reverted o txid index) before p = before
follow (creation_reverted o) before p = if o == p then none else before

-- The newest event is the first.
abbrev pub follow_all : List UtxoEvent → Option UtxoEntry → OutPoint → Option UtxoEntry
follow_all [] before p = before
follow_all (event ∷ older) before p = follow event (follow_all older before p) p

-- The errors after which the roll-back may not have the whole of the block.
abbrev pub is_lossy : StateError → Bool
is_lossy (amount_overflow block_hash txid) = true
is_lossy (inconsistent_utxo o) = true
is_lossy other = false

pub record IsTracked (base : Entries) (s : Applying) : Type 0 where
  pub undoable : Undoable s.undo base s.entries
  pub mirrored : map reverted_event s.undo ≡ map mirror s.events
  pub followed : (p : OutPoint) → get s.entries p ≡ follow_all s.events (get base p) p

-- The calls keep track, except where an error is lossy.
abbrev pub Tracks : {A : Type 0} → Entries → Outcome StateError A × Applying → Type 0
Tracks base (ok a, s) = IsTracked base s
Tracks base (err e, s) = is_lossy e ≡ false → IsTracked base s
Tracks base (panic, s) = ⊥
Tracks base (diverge, s) = ⊥

continue-Tracks :
    {A B : Type 0} (base : Entries) (r : Outcome StateError A × Applying)
    (f : A → Exec StateError Applying B)
    → Tracks base r
    → ((a : A) (s : Applying) → IsTracked base s → Tracks base (f a s))
    → Tracks base (continue r.0 f r.1)
continue-Tracks base (ok a, s) f h k = k a s h
continue-Tracks base (err e, s) f h k = h
continue-Tracks base (panic, s) f h k = h
continue-Tracks base (diverge, s) f h k = h

module _ (base : Entries) (block_hash : BlockHash) (txid : Txid) where
  spend-IsTracked :
      (s : Applying) (o : OutPoint) (entry : UtxoEntry) (index : ℕ)
      → get s.entries o ≡ some entry
      → IsTracked base s
      → IsTracked base (record {
        entries = remove s.entries o;
        undo = undo_spent o entry txid index ∷ s.undo;
        events = spent o txid index ∷ s.events;
      })
  unfolding reverted_event
  spend-IsTracked s o entry index found t = record {
    undoable = spend-Undoable s.undo base s.entries o entry txid index found t.undoable;
    mirrored = ap (λ l. spend_reverted o txid index ∷ l) t.mirrored;
    followed =
        λ p. rw (get-remove s.entries o p) (ap (λ b. if o == p then none else b) (t.followed p));
  }

  create-IsTracked :
      (s : Applying) (o : OutPoint) (entry : UtxoEntry)
      → contains_key s.entries o ≡ false
      → IsTracked base s
      → IsTracked base (record {
        entries = insert s.entries o entry;
        undo = undo_created o ∷ s.undo;
        events = created o entry.value entry.script_pubkey_id ∷ s.events;
      })
  unfolding reverted_event
  create-IsTracked s o entry free t = record {
    undoable = create-Undoable s.undo base s.entries o entry free t.undoable;
    mirrored = ap (λ l. creation_reverted o ∷ l) t.mirrored;
    followed = λ p.
        rw (get-insert s.entries o p entry)
          (ap (λ b. if o == p then some entry else b) (t.followed p));
  }

  spend_inputs-Tracks :
      (inputs : List OutPoint) (index sats : ℕ) (s : Applying)
      → IsTracked base s
      → Tracks base (spend_inputs block_hash txid inputs index sats s)
  unfolding spend_inputs
  spend_inputs-Tracks [] index sats s t = t
  spend_inputs-Tracks (o ∷ more) index sats s t = elim (Bool-cases (leb index (2 ^ 32 - 1))) [
    | inr e ↦ rw e (λ h. t)
    | inl e ↦ elim (Option-cases (get s.entries o)) [
      | inl f ↦ rw (e, f) (λ h. t)
      | inr (entry, f) ↦ elim (Option-cases (checked_add sats entry.value)) [
        | inl g ↦ rw (e, f, g) (λ h. cc)
        | inr (total, g) ↦
            rw (e, f, g)
              (spend_inputs-Tracks more (index + 1) total _ (spend-IsTracked s o entry index f t))
      ]
    ]
  ]

  create_outputs-Tracks :
      (outputs : List BitcoinOutput) (index : ℕ) (s : Applying)
      → IsTracked base s
      → Tracks base (create_outputs block_hash txid outputs index s)
  unfolding create_outputs
  create_outputs-Tracks [] index s t = t
  create_outputs-Tracks (output ∷ more) index s t =
      let o : OutPoint = record { txid = txid; vout = index } in
      elim (Bool-cases (leb index (2 ^ 32 - 1))) [
        | inr e ↦ rw e (λ h. t)
        | inl e ↦ elim (Bool-cases (contains_key s.entries o)) [
          | inl f ↦ rw (e, f) (λ h. t)
          | inr f ↦
              rw (e, f) (create_outputs-Tracks more (index + 1) _ (create-IsTracked s o output f t))
        ]
      ]

  sum_outputs-Tracks :
      (outputs : List BitcoinOutput) (total : ℕ) (s : Applying)
      → IsTracked base s
      → Tracks base (sum_outputs block_hash txid outputs total, s)
  unfolding sum_outputs
  sum_outputs-Tracks [] total s t = t
  sum_outputs-Tracks (output ∷ more) total s t =
      elim (Option-cases (checked_add total output.value)) [
        | inl g ↦ rw (Tracks, g) (λ h. t)
        | inr (sum, g) ↦ rw (Tracks, g) (sum_outputs-Tracks more sum s t)
      ]

ensure-Tracks :
    (base : Entries) (b : Bool) (e : StateError) (s : Applying)
    → IsTracked base s
    → Tracks base (ensure b e, s)
ensure-Tracks base true e s t = t
ensure-Tracks base false e s t = λ h. t

inputs-Tracks :
    (base : Entries) (block_hash : BlockHash) (txid : Txid) (coinbase : Bool)
    (inputs : List OutPoint) (s : Applying)
    → IsTracked base s
    → Tracks base ((if coinbase then pure 0 else spend_inputs block_hash txid inputs 0 0) s)
inputs-Tracks base block_hash txid true inputs s t = t
inputs-Tracks base block_hash txid false inputs s t =
    spend_inputs-Tracks base block_hash txid inputs 0 0 s t

apply_transaction-Tracks :
    (base : Entries) (block_hash : BlockHash) (transaction : BitcoinTransaction) (s : Applying)
    → IsTracked base s
    → Tracks base (apply_transaction block_hash transaction s)
unfolding apply_transaction
apply_transaction-Tracks base block_hash transaction s t =
    let txid = transaction.txid in
    continue-Tracks base _ _
      (inputs-Tracks base block_hash txid transaction.is_coinbase transaction.inputs s t)
      (λ sats s₁ t₁.
        continue-Tracks base _ _
          (sum_outputs-Tracks base block_hash txid transaction.outputs 0 s₁ t₁)
          (λ sum s₂ t₂.
            continue-Tracks base _ _ (ensure-Tracks base _ _ s₂ t₂)
              (λ _ s₃ t₃. create_outputs-Tracks base block_hash txid transaction.outputs 0 s₃ t₃)))

pub apply_transactions-Tracks :
    (base : Entries) (block_hash : BlockHash) (transactions : List BitcoinTransaction)
    (s : Applying)
    → IsTracked base s
    → Tracks base (apply_transactions block_hash transactions s)
unfolding apply_transactions
apply_transactions-Tracks base block_hash [] s t = t
apply_transactions-Tracks base block_hash (transaction ∷ more) s t =
    continue-Tracks base _ _ (apply_transaction-Tracks base block_hash transaction s t)
      (λ _ s₁ t₁. apply_transactions-Tracks base block_hash more s₁ t₁)
