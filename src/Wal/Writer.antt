-- ===== src/Wal/Writer.antt =====
-- Writing a segment (crates/wal/src/writer.rs: FileWal).
use multichain_rs.Prelude.{
  ℕ, ◌+◌, ◌-◌, min, Bool, true, not, Option, none, some, List, [], ◌∷◌, ◌++◌, map, ltb, leb,
  nat_beq, if◌then◌else◌, ◌==◌, nat_eq, string_eq, option_eq, u64_max, saturating_add, checked_add,
  length, list_eq,
}
use multichain_rs.Exec.{
  Outcome, ok, Exec, raise, reads, modify, ensure, and_then, continue, ◌>>=◌, ◌>>◌,
}
use multichain_rs.Wal.Bytes.{zeros, set_len, write_at}
use multichain_rs.Wal.Format.{
  WalError, capacity_exhausted, no_pending_observations, pending_observations, sealed,
  sequence_mismatch, source_session_mismatch, invalid_capacity, Observation, WalCommit,
  CommittedObservation, Codec, observation_frame, group_commit_frame, segment_seal_frame,
  commit_reserve_bytes, encode_frame, calculate_commit_hash,
}
use multichain_rs.Wal.Reader.{hash_prefix}
use multichain_rs.Wal.Recovery.{RecoveryReport, RecoveryState, recover, last_of, is_empty}

-- An observation that is written and not committed yet.
pub record PendingFrame : Type 0 where
  pub observation : Observation
  pub offset : ℕ
  pub end_offset : ℕ
  pub frame_bytes : List ℕ

-- `file` holds the segment's bytes, all `max_bytes` of them.
pub record FileWal : Type 0 where
  pub file : List ℕ
  pub source_session_id : List ℕ
  pub max_bytes : ℕ
  pub logical_end : ℕ
  pub next_sequence : ℕ
  pub pending : List PendingFrame
  pub is_sealed : Bool

pub record PendingObservation : Type 0 where
  pub observation : Observation
  pub wal_offset : ℕ

pub record CommittedRange : Type 0 where
  pub first_sequence : ℕ
  pub last_sequence : ℕ
  pub durable_at_unix_ns : ℕ
  pub commit_hash : List ℕ

-- `remaining_capacity`
abbrev pub remaining_capacity : FileWal → ℕ
remaining_capacity w = w.max_bytes - w.logical_end

-- `write_frame`, where the file system does what it is asked
unfoldable pub write_frame : List ℕ → Exec WalError FileWal ℕ
write_frame frame w =
    if ltb (remaining_capacity w) (length frame)
    then raise (capacity_exhausted (length frame) (remaining_capacity w)) w
    else (
      ok w.logical_end,
      record w {
        file = write_at w.logical_end frame w.file;
        logical_end = w.logical_end + length frame;
      },
    )

-- The message of a group commit over the pending observations, from the first, at a time.
abbrev pub commit_of : Codec → FileWal → PendingFrame → List PendingFrame → ℕ → WalCommit
commit_of codec w first more now =
    let last = last_of first more in
    record {
      source_session_id = w.source_session_id;
      first_collector_sequence = first.observation.collector_sequence;
      last_collector_sequence = last.observation.collector_sequence;
      first_wal_offset = first.offset;
      last_wal_offset = last.end_offset - 1;
      durable_at_unix_ns = now;
      commit_hash =
          calculate_commit_hash codec w.source_session_id first.observation.collector_sequence
            last.observation.collector_sequence first.offset (last.end_offset - 1) now
            (map (λ p. p.frame_bytes) (first ∷ more));
    }

abbrev pub range_of : WalCommit → CommittedRange
range_of commit = record {
  first_sequence = commit.first_collector_sequence;
  last_sequence = commit.last_collector_sequence;
  durable_at_unix_ns = commit.durable_at_unix_ns;
  commit_hash = commit.commit_hash;
}

abbrev pub add_pending : Observation → List ℕ → ℕ → FileWal → FileWal
add_pending observation frame offset w = record w {
  pending =
      w.pending
      ++ (record {
        observation = observation;
        offset = offset;
        end_offset = w.logical_end;
        frame_bytes = frame;
      }
          ∷ []);
}

-- The end of `append`: counting the sequence on.
unfoldable pub count_sequence : Observation → ℕ → Exec WalError FileWal PendingObservation
count_sequence observation offset w = elim (checked_add w.next_sequence 1) [
  | none ↦ raise (sequence_mismatch u64_max u64_max) w
  | some next ↦ (
    ok (record { observation = observation; wal_offset = offset }),
    record w { next_sequence = next },
  )
]

-- The end of `append`, with the frame.
unfoldable pub write_observation : Observation → List ℕ → Exec WalError FileWal PendingObservation
unfolding write_frame count_sequence
write_observation observation frame w =
    let required = saturating_add (length frame) commit_reserve_bytes in
    if ltb (remaining_capacity w) required
    then raise (capacity_exhausted required (remaining_capacity w)) w
    else (write_frame frame >>= λ offset.
          modify (add_pending observation frame offset) >> count_sequence observation offset)
        w

module _ (codec : Codec) where
  -- `append`
  unfoldable pub append : Observation → Exec WalError FileWal PendingObservation
  unfolding write_observation encode_frame
  append observation w =
      if w.is_sealed
      then raise sealed w
      else if not (observation.source_session_id == w.source_session_id)
      then raise source_session_mismatch w
      else if not (nat_beq observation.collector_sequence w.next_sequence)
      then raise (sequence_mismatch w.next_sequence observation.collector_sequence) w
      else continue (encode_frame codec observation_frame (codec.encode_observation observation))
          (write_observation observation) w

  abbrev pub flush : WalCommit → ℕ → Exec WalError FileWal CommittedRange
  flush commit offset w = (ok (range_of commit), record w { pending = [] })

  -- The part of `group_commit` behind its first test, at the clock's time.
  unfoldable pub commit_pending : ℕ → List PendingFrame → Exec WalError FileWal CommittedRange
  unfolding write_frame encode_frame
  commit_pending now [] w = raise no_pending_observations w
  commit_pending now (first ∷ more) w =
      let commit = commit_of codec w first more now in
      continue (encode_frame codec group_commit_frame (codec.encode_commit commit))
        (λ frame. write_frame frame >>= flush commit) w

  -- `group_commit`
  unfoldable pub group_commit : ℕ → Exec WalError FileWal CommittedRange
  unfolding commit_pending
  group_commit now w = if w.is_sealed then raise sealed w else commit_pending now w.pending w

  -- `seal`
  unfoldable pub seal : Exec WalError FileWal (List ℕ)
  unfolding write_frame encode_frame hash_prefix
  seal w =
      if w.is_sealed
      then raise sealed w
      else if not (is_empty w.pending)
      then raise pending_observations w
      else continue (hash_prefix codec w.file w.logical_end)
          (λ seal_hash. reads (λ _. encode_frame codec segment_seal_frame seal_hash) >>= λ frame.
            write_frame frame >>= λ offset v. (ok seal_hash, record v { is_sealed = true }))
          w

  -- `committed`
  unfoldable pub committed : FileWal → Outcome WalError (List CommittedObservation)
  unfolding recover
  committed w = and_then (recover codec w.source_session_id w.file) (λ state. ok state.committed)

  -- What `open` leaves of a file that is recovered.
  abbrev pub repaired : List ℕ → ℕ → List ℕ → RecoveryState → FileWal
  repaired session max_bytes file state = record {
    file = set_len max_bytes (set_len (min state.report.logical_end (length file)) file);
    source_session_id = session;
    max_bytes = max_bytes;
    logical_end = state.report.logical_end;
    next_sequence = state.next_sequence;
    pending = [];
    is_sealed = state.sealed;
  }

  -- `open`, of a file that is there or not
  unfoldable pub open_wal :
      List ℕ → ℕ → Option (List ℕ) → Outcome WalError (FileWal × RecoveryReport)
  unfolding recover
  open_wal session max_bytes existing =
      let file : List ℕ = elim existing [ none ↦ zeros max_bytes | some bytes ↦ bytes ] in
      and_then (ensure (ltb commit_reserve_bytes max_bytes) (invalid_capacity max_bytes)) (λ _.
        and_then (ensure (leb (length file) max_bytes) (capacity_exhausted (length file) max_bytes))
          (λ _.
            and_then (recover codec session file)
              (λ state. ok (repaired session max_bytes file state, state.report))))
