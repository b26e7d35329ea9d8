-- ===== src/Solana/Evidence/Tests.antt =====
-- The theorem about pre-execution signals at a concrete signal.
use multichain_rs.Prelude.{
  ◌≡◌, refl, true, false, none, some, nat_eq, string_eq, option_eq, is_blank, list_eq,
}
use multichain_rs.Exec.{ok, err}
use multichain_rs.Solana.Fork.{TransactionKey, SolanaError}
use multichain_rs.Solana.Evidence.{
  Time, PreExecutionObservation, new_pre_execution, join_execution, is_executed,
  join_execution-once,
}

abbrev key : TransactionKey
key = record { signature = 77; fork_id = record { slot = 5; blockhash = 9 } }

abbrev signal : PreExecutionObservation
signal = record {
  source_id = "shred-stream";
  signature = 77;
  observed_at_unix_ns = Time.from_epoch 12;
  transaction_key = none;
}

abbrev joined : PreExecutionObservation
joined = record signal { transaction_key = some key }

signal_is_new : new_pre_execution "shred-stream" 77 (Time.from_epoch 12) ≡ ok signal
unfolding new_pre_execution is_blank
signal_is_new = refl

signal_joins : join_execution key signal ≡ ok joined
unfolding join_execution
signal_joins = refl

join_execution-once_example :
    (is_executed signal ≡ false)
    × (is_executed joined ≡ true)
    × (joined.transaction_key ≡ some key)
    × (key.signature ≡ 77)
    × ((other : TransactionKey)
        → join_execution other joined ≡ err SolanaError.execution_already_joined)
join_execution-once_example =
    join_execution-once "shred-stream" 77 (Time.from_epoch 12) key signal joined signal_is_new
      signal_joins
