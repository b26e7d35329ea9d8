-- ===== src/Wal/Recovery.antt =====
-- Recovering a segment's committed observations (crates/wal/src/recovery.rs).
use multichain_rs.Prelude.{
  ℕ, ◌-◌, Bool, true, false, ◌&&◌, ◌||◌, not, Option, none, some, List, [], ◌∷◌, ◌++◌, map, nat_beq,
  if◌then◌else◌, ◌==◌, nat_eq, string_eq, option_eq, checked_add, length, list_eq,
}
use multichain_rs.Exec.{Outcome, ok, err, panic, ensure, and_then}
use multichain_rs.Wal.Format.{
  WalError, corrupt_frame, committed_corruption, decode, Observation, WalCommit,
  CommittedObservation, Codec, calculate_commit_hash,
}
use multichain_rs.Wal.Reader.{RawFrame, ScanResult, scan, hash_prefix}

pub data RecoveryIncident : Type 0 where
  truncated_tail : ℕ → RecoveryIncident
  uncommitted_tail : ℕ → ℕ → RecoveryIncident

pub record RecoveryReport : Type 0 where
  pub incidents : List RecoveryIncident
  pub logical_end : ℕ

pub record RecoveryState : Type 0 where
  pub report : RecoveryReport
  pub committed : List CommittedObservation
  pub next_sequence : ℕ
  pub sealed : Bool

pub record CandidateObservation : Type 0 where
  pub observation : Observation
  pub offset : ℕ
  pub end_offset : ℕ
  pub frame_bytes : List ℕ

pub record RecoveryAccumulator : Type 0 where
  pub committed : List CommittedObservation
  pub candidates : List CandidateObservation
  pub invalid_observation_offset : Option ℕ
  pub last_commit_end : ℕ
  pub next_sequence : ℕ
  pub sealed : Bool

-- `RecoveryAccumulator::default`
abbrev pub fresh : RecoveryAccumulator
fresh = record {
  committed = [];
  candidates = [];
  invalid_observation_offset = none;
  last_commit_end = 0;
  next_sequence = 0;
  sealed = false;
}

abbrev pub is_empty {ℓ} : {A : Type ℓ} → List A → Bool
is_empty [] = true
is_empty (x ∷ xs) = false

abbrev pub is_some {ℓ} : {A : Type ℓ} → Option A → Bool
is_some none = false
is_some (some x) = true

abbrev pub last_of {ℓ} : {A : Type ℓ} → A → List A → A
last_of x [] = x
last_of x (y ∷ ys) = last_of y ys

-- The loop over `windows(2)`, from a first observation; an addition that overflows panics, as with the
-- checks of a debug build.
unfoldable pub check_contiguous :
    CandidateObservation → List CandidateObservation → Outcome WalError Unit
check_contiguous first [] = ok tt
check_contiguous first (next ∷ more) = elim (checked_add first.observation.collector_sequence 1) [
  | none ↦ panic
  | some expected ↦
      and_then
        (ensure (nat_beq next.observation.collector_sequence expected)
          (corrupt_frame next.offset "collector sequence is not contiguous"))
        (λ _. check_contiguous next more)
]

module _ (codec : Codec) (expected_session : List ℕ) where
  abbrev pub range_matches : WalCommit → CandidateObservation → CandidateObservation → Bool
  range_matches commit first last =
      nat_beq commit.first_collector_sequence first.observation.collector_sequence
      && nat_beq commit.last_collector_sequence last.observation.collector_sequence
      && nat_beq commit.first_wal_offset first.offset
      && nat_beq commit.last_wal_offset (last.end_offset - 1)

  -- The hash that a commit must have.
  abbrev pub expected_hash : WalCommit → List CandidateObservation → List ℕ
  expected_hash commit candidates =
      calculate_commit_hash codec expected_session commit.first_collector_sequence
        commit.last_collector_sequence commit.first_wal_offset commit.last_wal_offset
        commit.durable_at_unix_ns (map (λ c. c.frame_bytes) candidates)

  -- `validate_commit`
  unfoldable pub validate_commit : WalCommit → List CandidateObservation → ℕ → Outcome WalError Unit
  unfolding check_contiguous calculate_commit_hash
  validate_commit commit [] offset =
      err (corrupt_frame offset "commit covers no observation frames")
  validate_commit commit (first ∷ more) offset =
      and_then
        (ensure (commit.source_session_id == expected_session)
          (corrupt_frame offset "commit source session mismatch"))
        (λ _.
          and_then
            (ensure (range_matches commit first (last_of first more))
              (corrupt_frame offset "commit range does not match preceding observations"))
            (λ _. and_then (check_contiguous first more) (λ _.
              ensure (commit.commit_hash == expected_hash commit (first ∷ more))
                (corrupt_frame offset "commit hash mismatch"))))

  -- `process_observation`
  unfoldable pub process_observation :
      RecoveryAccumulator → RawFrame → Outcome WalError RecoveryAccumulator
  process_observation acc frame =
      if not frame.crc_valid
      then ok (record acc {
        invalid_observation_offset = elim acc.invalid_observation_offset [
          | none ↦ some frame.offset
          | some first ↦ some first
        ];
      })
      else elim (codec.decode_observation frame.payload) [
        | none ↦ err (decode frame.offset)
        | some observation ↦
            let candidate : CandidateObservation = record {
              observation = observation;
              offset = frame.offset;
              end_offset = frame.end_offset;
              frame_bytes = frame.bytes;
            } in
            ok (record acc { candidates = acc.candidates ++ (candidate ∷ []) })
      ]

  abbrev pub publish : WalCommit → CandidateObservation → CommittedObservation
  publish commit candidate = record {
    observation = candidate.observation;
    durable_at_unix_ns = commit.durable_at_unix_ns;
    wal_commit_hash = commit.commit_hash;
  }

  -- The end of `process_commit`, for a valid commit.
  unfoldable pub accept_commit :
      RecoveryAccumulator → RawFrame → WalCommit → Outcome WalError RecoveryAccumulator
  accept_commit acc frame commit =
      and_then
        (ensure (nat_beq (length commit.commit_hash) 32)
          (corrupt_frame frame.offset "commit hash is not 32 bytes"))
        (λ _. elim (checked_add commit.last_collector_sequence 1) [
          | none ↦ err (corrupt_frame frame.offset "collector sequence overflow")
          | some next ↦ ok (record acc {
            committed = acc.committed ++ map (publish commit) acc.candidates;
            candidates = [];
            next_sequence = next;
            last_commit_end = frame.end_offset;
          })
        ])

  -- `process_commit`
  unfoldable pub process_commit :
      RecoveryAccumulator → RawFrame → Outcome WalError RecoveryAccumulator
  unfolding validate_commit accept_commit
  process_commit acc frame =
      if not frame.crc_valid
      then err (corrupt_frame frame.offset "group-commit CRC mismatch")
      else elim acc.invalid_observation_offset [
        | some offset ↦ err (committed_corruption offset)
        | none ↦ elim (codec.decode_commit frame.payload) [
          | none ↦ err (decode frame.offset)
          | some commit ↦
              and_then (validate_commit commit acc.candidates frame.offset)
                (λ _. accept_commit acc frame commit)
        ]
      ]

  -- `process_seal`
  unfoldable pub process_seal :
      List ℕ → RecoveryAccumulator → RawFrame → Outcome WalError RecoveryAccumulator
  unfolding hash_prefix
  process_seal file acc frame =
      if not frame.crc_valid
      then err (corrupt_frame frame.offset "segment-seal CRC mismatch")
      else if not (is_empty acc.candidates) || is_some acc.invalid_observation_offset
      then err (corrupt_frame frame.offset "segment sealed with uncommitted observations")
      else and_then (hash_prefix codec file frame.offset) (λ expected.
        and_then
          (ensure (frame.payload == expected)
            (corrupt_frame frame.offset "segment-seal hash mismatch"))
          (λ _. ok (record acc { sealed = true })))

  -- `process_frame`; the text of the last error does not show the number.
  unfoldable pub process_frame :
      List ℕ → RecoveryAccumulator → RawFrame → Outcome WalError RecoveryAccumulator
  unfolding process_observation process_commit process_seal
  process_frame file acc frame =
      if acc.sealed
      then err (corrupt_frame frame.offset "frame found after segment seal")
      else if nat_beq frame.frame_type 1
      then process_observation acc frame
      else if nat_beq frame.frame_type 2
      then process_commit acc frame
      else if nat_beq frame.frame_type 3
      then process_seal file acc frame
      else err (corrupt_frame frame.offset "unknown frame type")

  -- The loop of `recover`.
  unfoldable pub process_frames :
      List ℕ → List RawFrame → RecoveryAccumulator → Outcome WalError RecoveryAccumulator
  unfolding process_frame
  process_frames file [] acc = ok acc
  process_frames file (frame ∷ more) acc =
      and_then (process_frame file acc frame) (λ next. process_frames file more next)

-- The offset of the first candidate, or else that of the first invalid frame.
abbrev pub tail_offset : List CandidateObservation → Option ℕ → ℕ → ℕ
tail_offset (first ∷ more) invalid last_commit_end = first.offset
tail_offset [] (some offset) last_commit_end = offset
tail_offset [] none last_commit_end = last_commit_end

-- `finish_report`
unfoldable pub finish_report : ScanResult → RecoveryAccumulator → RecoveryReport
finish_report scanned acc = elim scanned.truncated [
  | some at_offset ↦ record {
    incidents = truncated_tail at_offset ∷ [];
    logical_end = acc.last_commit_end;
  }
  | none ↦
      if not (is_empty acc.candidates) || is_some acc.invalid_observation_offset
      then record {
        incidents =
            uncommitted_tail
              (tail_offset acc.candidates acc.invalid_observation_offset acc.last_commit_end)
              (length acc.candidates)
            ∷ [];
        logical_end = acc.last_commit_end;
      }
      else record { incidents = []; logical_end = scanned.scanned_end }
]

-- `recover`
unfoldable pub recover : Codec → List ℕ → List ℕ → Outcome WalError RecoveryState
unfolding scan process_frames finish_report
recover codec expected_session file = and_then (scan codec file) (λ scanned.
    and_then (process_frames codec expected_session file scanned.frames fresh) (λ acc. ok (record {
      report = finish_report scanned acc;
      committed = acc.committed;
      next_sequence = acc.next_sequence;
      sealed = acc.sealed;
    })))
