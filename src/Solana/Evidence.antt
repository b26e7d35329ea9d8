-- ===== src/Solana/Evidence.antt =====
-- Signals from before an execution, and evidence of a recovery from another source
-- (`PreExecutionObservation` and `ReconstructionEvidence`, processors/solana-canonicality/src/lib.rs).
mod Tests
use multichain_rs.Prelude.{
  ℕ, zero, suc, ◌+◌, ◌-◌, ◌*◌, ◌/◌, ◌%◌, ◌^◌, ◌≤◌, ◌<◌, min, String, ◌≡◌, refl, sym, ap, ◌∙◌,
  fun_ext, ◌≢◌, ◌↔◌, ◌⊎◌, inl, inr, Bool, true, false, ◌&&◌, ◌||◌, not, Option, none, some, List,
  [], ◌∷◌, ◌++◌, map, reverse, arith, ltb, leb, nat_beq, if◌then◌else◌, Eq, ◌==◌, nat_beq_iff,
  nat_eq, string_eq, option_beq, option_beq_iff, option_eq, Bool-cases, Option-cases, u64_max,
  saturating_add, checked_add, length, length-append, length-reverse, any, all, last?, All,
  All-append, is_whitespace, is_blank, is_ascii,
}
use multichain_rs.Exec.{
  Outcome, ok, err, panic, diverge, Exec, pure, raise, reads, current, modify, ok_or, ensure,
  and_then, or_else, negated, continue, ◌>>=◌, ◌>>◌,
}
use multichain_rs.Solana.Fork.{ForkId, TransactionKey, SolanaError}

-- `i64`, by its sign and its distance from 0 or -1
pub data Time : Type 0 where
  from_epoch before_epoch : ℕ → Time

pub record ReconstructionEvidence : Type 0 where
  pub missing_source_id : String
  pub recovery_source_id : String
  pub fork_id : ForkId
  pub recovery_observation_id : ℕ

-- `ReconstructionEvidence::new`
pub new_reconstruction : String → String → ForkId → ℕ → Outcome SolanaError ReconstructionEvidence
new_reconstruction missing recovery fork_id observation_id =
    if is_blank missing || is_blank recovery || missing == recovery
    then err SolanaError.invalid_recovery_sources
    else if nat_beq observation_id 0
    then err SolanaError.invalid_recovery_observation
    else ok (record {
      missing_source_id = missing;
      recovery_source_id = recovery;
      fork_id = fork_id;
      recovery_observation_id = observation_id;
    })

pub record PreExecutionObservation : Type 0 where
  pub source_id : String
  pub signature : ℕ
  pub observed_at_unix_ns : Time
  pub transaction_key : Option TransactionKey

-- `PreExecutionObservation::new`
pub new_pre_execution : String → ℕ → Time → Outcome SolanaError PreExecutionObservation
new_pre_execution source_id signature (before_epoch _) =
    if is_blank source_id
    then err SolanaError.invalid_pre_execution_source
    else err SolanaError.invalid_observed_time
new_pre_execution source_id signature (from_epoch n) =
    if is_blank source_id
    then err SolanaError.invalid_pre_execution_source
    else ok (record {
      source_id = source_id;
      signature = signature;
      observed_at_unix_ns = from_epoch n;
      transaction_key = none;
    })

-- `join_execution`
pub join_execution :
    TransactionKey → PreExecutionObservation → Outcome SolanaError PreExecutionObservation
join_execution key signal = elim signal.transaction_key [
  | some _ ↦ err SolanaError.execution_already_joined
  | none ↦
      if nat_beq signal.signature key.signature
      then ok (record signal { transaction_key = some key })
      else err SolanaError.execution_signature_mismatch
]

-- `is_executed`
pub is_executed : PreExecutionObservation → Bool
is_executed signal = elim signal.transaction_key [ none ↦ false | some _ ↦ true ]

ok-injective :
    {a b : PreExecutionObservation}
    → ◌≡◌ {A = Outcome SolanaError PreExecutionObservation} (ok a) (ok b)
    → a ≡ b
ok-injective e = cc e

new_pre_execution-fields :
    (source_id : String) (signature : ℕ) (at : Time) (signal : PreExecutionObservation)
    → new_pre_execution source_id signature at ≡ ok signal
    → (signature ≡ signal.signature) × (none ≡ signal.transaction_key)
unfolding new_pre_execution
new_pre_execution-fields source_id signature (before_epoch n) signal =
    elim (Bool-cases (is_blank source_id)) [
      | inl blank ↦ rw (new_pre_execution, blank) (λ made. absurd (cc made))
      | inr named ↦ rw (new_pre_execution, named) (λ made. absurd (cc made))
    ]
new_pre_execution-fields source_id signature (from_epoch n) signal =
    elim (Bool-cases (is_blank source_id)) [
      | inl blank ↦ rw (new_pre_execution, blank) (λ made. absurd (cc made))
      | inr named ↦
          rw (new_pre_execution, named)
            (λ made. (
              ap (λ x. x.signature) (ok-injective made),
              ap (λ x. x.transaction_key) (ok-injective made),
            ))
    ]

join_execution-fields :
    (key : TransactionKey) (signal joined : PreExecutionObservation)
    → none ≡ signal.transaction_key
    → join_execution key signal ≡ ok joined
    → (signal.signature ≡ key.signature) × (some key ≡ joined.transaction_key)
unfolding join_execution
join_execution-fields key signal joined fresh =
    elim (Bool-cases (nat_beq signal.signature key.signature)) [
      | inl same ↦
          rw (join_execution, sym fresh, same)
            (λ joins. (ground arith, ap (λ x. x.transaction_key) (ok-injective joins)))
      | inr other ↦ rw (join_execution, sym fresh, other) (λ joins. absurd (cc joins))
    ]

-- A new signal is not executed; a join that succeeds makes it executed by a transaction with the
-- signal's own signature; and after a successful join every other join fails.
pub join_execution-once :
    (source_id : String) (signature : ℕ) (at : Time) (key : TransactionKey)
    (signal joined : PreExecutionObservation)
    → new_pre_execution source_id signature at ≡ ok signal
    → join_execution key signal ≡ ok joined
    → (is_executed signal ≡ false)
      × (is_executed joined ≡ true)
      × (joined.transaction_key ≡ some key)
      × (key.signature ≡ signature)
      × ((other : TransactionKey)
          → join_execution other joined ≡ err SolanaError.execution_already_joined)
unfolding new_pre_execution join_execution is_executed
join_execution-once source_id signature at key signal joined made joins =
    let (signed, fresh) = new_pre_execution-fields source_id signature at signal made in
    let (matched, kept) = join_execution-fields key signal joined fresh joins in
    (
      rw (is_executed, sym fresh) refl,
      rw (is_executed, sym kept) refl,
      sym kept,
      sym (signed ∙ matched),
      λ other. rw (join_execution, sym kept) refl,
    )
