-- ===== src/Wal/Tests.antt =====
-- A segment of 700 bytes, with messages and digests that are easy to read (crates/wal/src).
use multichain_rs.Prelude.{
  ℕ, suc, ◌+◌, ◌<◌, ◌≡◌, refl, false, Option, none, some, List, [], ◌∷◌, ◌++◌, map, arith, nat_eq,
  string_eq, option_eq, u64_max, length, length-append, list_eq,
}
use multichain_rs.Exec.{ok, err, and_then}
use multichain_rs.Wal.Bytes.{take, drop, zeros, write_at}
use multichain_rs.Wal.Format.{
  calculate_commit_hash, CommittedObservation, corrupt_frame, sequence_mismatch, Codec, IsCodec,
  Observation, WalCommit, encode_frame, frame_bytes,
}
use multichain_rs.Wal.Reader.{scan, scan_from, stop}
use multichain_rs.Wal.Recovery.{
  validate_commit, accept_commit, check_contiguous, RecoveryReport, recover, process_frames,
  process_frame, process_observation, process_commit, finish_report,
}
use multichain_rs.Wal.Writer.{
  CommittedRange, commit_pending, FileWal, PendingFrame, append, group_commit, committed, open_wal,
  write_observation, write_frame, count_sequence,
}
use multichain_rs.Wal.Scan.{encode_frames, layout, take-append, drop-append}
use multichain_rs.Wal.Scan.Segments.{scan-encode_frames, add_frames, length-zeros}
use multichain_rs.Wal.Calls.{
  Called, created, appending, committing, durable, Called-committed, Called-group_commit,
}

abbrev observation_from : List ℕ → List ℕ → Option Observation
observation_from session [] = none
observation_from session (sequence ∷ content) =
    some (record { source_session_id = session; collector_sequence = sequence; content = content })

abbrev read_observation : List ℕ → Option Observation
read_observation [] = none
read_observation (n ∷ rest) = observation_from (take n rest) (drop n rest)

abbrev commit_from : List ℕ → List ℕ → Option WalCommit
commit_from session (a ∷ b ∷ c ∷ d ∷ t ∷ hash) = some (record {
  source_session_id = session;
  first_collector_sequence = a;
  last_collector_sequence = b;
  first_wal_offset = c;
  last_wal_offset = d;
  durable_at_unix_ns = t;
  commit_hash = hash;
})
commit_from session _ = none

abbrev read_commit : List ℕ → Option WalCommit
read_commit [] = none
read_commit (n ∷ rest) = commit_from (take n rest) (drop n rest)

abbrev commit_numbers : WalCommit → List ℕ
commit_numbers c =
    c.first_collector_sequence ∷ c.last_collector_sequence ∷ c.first_wal_offset ∷ c.last_wal_offset
    ∷ c.durable_at_unix_ns ∷ c.commit_hash

abbrev plain : Codec
plain = record {
  crc32c = λ bytes. 7;
  blake3 = λ bytes. zeros 32;
  encode_observation =
      λ o. length o.source_session_id ∷ (o.source_session_id ++ (o.collector_sequence ∷ o.content));
  decode_observation = read_observation;
  encode_commit = λ c. length c.source_session_id ∷ (c.source_session_id ++ commit_numbers c);
  decode_commit = read_commit;
}

drop_front : (xs ys : List ℕ) → drop (length xs) (xs ++ ys) ≡ ys
drop_front xs ys = drop-append xs ys 0 (length xs) (omega arith)

plain-IsCodec : IsCodec plain
plain-IsCodec = record {
  checksum = λ bytes. omega arith;
  digest = λ bytes. length-zeros 32;
  observations = λ o.
      let rest = o.collector_sequence ∷ o.content in
      λ i.
        observation_from (take-append o.source_session_id rest i)
          (drop_front o.source_session_id rest i);
  commits = λ c. λ i.
      commit_from (take-append c.source_session_id (commit_numbers c) i)
        (drop_front c.source_session_id (commit_numbers c) i);
  commit_size = λ c short hash.
      let size = length-append c.source_session_id (commit_numbers c) in omega (arith, size, hash);
}

-- Segments of two whole frames, one of them without a payload.
scan-encode_frames_example :
    (scan plain (encode_frames plain ((1, 5 ∷ []) ∷ (2, []) ∷ []) ++ zeros 3)
      ≡ ok (add_frames (layout plain 0 ((1, 5 ∷ []) ∷ (2, []) ∷ [])) (stop none 19)))
    × (scan plain (
          encode_frames plain ((1, 5 ∷ []) ∷ (2, []) ∷ [])
          ++ take 7 (frame_bytes plain 1 (8 ∷ 9 ∷ [])))
        ≡ ok (add_frames (layout plain 0 ((1, 5 ∷ []) ∷ (2, []) ∷ [])) (stop (some 19) 19)))
scan-encode_frames_example =
    scan-encode_frames plain plain-IsCodec ((1, 5 ∷ []) ∷ (2, []) ∷ []) 3 (1, 8 ∷ 9 ∷ []) 7
      ((omega arith, omega arith), ((omega arith, omega arith), tt)) (omega arith, omega arith)
      (omega arith) (omega arith)

abbrev session : List ℕ
session = 1 ∷ []

abbrev empty_segment : FileWal
empty_segment = record {
  file = zeros 700;
  source_session_id = session;
  max_bytes = 700;
  logical_end = 0;
  next_sequence = 0;
  pending = [];
  is_sealed = false;
}

abbrev first_observation : Observation
first_observation = record { source_session_id = session; collector_sequence = 0; content = 9 ∷ [] }

abbrev second_observation : Observation
second_observation = record { source_session_id = session; collector_sequence = 1; content = [] }

abbrev created_empty : Called plain session empty_segment []
unfolding open_wal recover scan scan_from process_frames finish_report
created_empty = created 700 empty_segment (record { incidents = []; logical_end = 0 }) refl

abbrev one_waiting : FileWal
one_waiting = (append plain first_observation empty_segment).1

abbrev first_waiting : PendingFrame
first_waiting = record {
  observation = first_observation;
  offset = 0;
  end_offset = 13;
  frame_bytes = frame_bytes plain 1 (1 ∷ 1 ∷ 0 ∷ 9 ∷ []);
}

one_called : Called plain session one_waiting []
one_called = appending empty_segment [] first_observation created_empty (omega arith)

-- The first observation is committed and the second is still pending when the segment is opened again.
abbrev one_committed : FileWal
one_committed = (group_commit plain 50 one_waiting).1

abbrev one_pending : FileWal
one_pending = (append plain second_observation one_committed).1

abbrev one_durable : List CommittedObservation
one_durable = [] ++ durable (group_commit plain 50 one_waiting).0 one_waiting.pending

still_counted : one_committed.next_sequence < u64_max
unfolding append encode_frame write_observation write_frame count_sequence group_commit
    commit_pending calculate_commit_hash
still_counted = omega arith

one_pending_called : Called plain session one_pending one_durable
one_pending_called =
    appending one_committed one_durable second_observation (committing one_waiting [] 50 one_called)
      still_counted

Called-committed_example :
    (committed plain one_pending ≡ ok one_durable)
    × ((v : FileWal) × (report : RecoveryReport) × (open_wal plain one_pending.source_session_id
            one_pending.max_bytes
            (some one_pending.file)
          ≡ ok (v, report))
        × (v.pending ≡ [])
        × (committed plain v ≡ ok one_durable))
Called-committed_example =
    Called-committed plain plain-IsCodec session one_pending one_durable (omega arith)
      one_pending_called

one_listed : one_waiting.pending ≡ first_waiting ∷ []
unfolding append encode_frame write_observation write_frame count_sequence
one_listed = refl

one_open : one_waiting.is_sealed ≡ false
unfolding append encode_frame write_observation write_frame count_sequence
one_open = refl

Called-group_commit_example :
    (range : CommittedRange) × (v : FileWal) × (group_commit plain 50 one_waiting ≡ (ok range, v))
    × (range.first_sequence ≡ 0)
    × (range.first_sequence + 1 ≡ suc range.last_sequence)
    × (suc range.last_sequence ≡ one_waiting.next_sequence)
    × (range.durable_at_unix_ns ≡ 50)
    × (v.pending ≡ [])
    × (v.next_sequence ≡ one_waiting.next_sequence)
    × (committed plain v
        ≡ ok (
            []
            ++ map
                (λ p. record {
                  observation = p.observation;
                  durable_at_unix_ns = 50;
                  wal_commit_hash = range.commit_hash;
                })
                (first_waiting ∷ [])))
Called-group_commit_example =
    Called-group_commit plain plain-IsCodec session one_waiting [] 50 first_waiting [] (omega arith)
      one_called one_listed one_open

-- A second observation with the number of the first is refused.
refused : (append plain first_observation one_waiting).0 ≡ err (sequence_mismatch 1 0)
unfolding append encode_frame write_observation write_frame count_sequence
refused = refl

-- A group commit of which only the first bytes were written, into a segment that is full of zeros.
torn_commit :
    recover plain session (write_at 13 (2 ∷ 0 ∷ 0 ∷ 0 ∷ 39 ∷ 1 ∷ []) one_waiting.file)
    ≡ err (corrupt_frame 13 "group-commit CRC mismatch")
unfolding append encode_frame write_observation write_frame count_sequence recover scan scan_from
    process_frames process_frame process_observation process_commit
torn_commit = refl

-- A second commit whose observation has the number of the first one's, in the same session.
abbrev regressed : FileWal
regressed =
    (group_commit plain 60
      (append plain first_observation (record one_committed { next_sequence = 0 })).1).1

regression_read :
    and_then
      (committed plain regressed)
      (λ log. ok (map (λ c. c.observation.collector_sequence) log))
    ≡ ok (0 ∷ 0 ∷ [])
unfolding append encode_frame write_observation write_frame count_sequence group_commit
    commit_pending calculate_commit_hash committed recover scan scan_from process_frames
    process_frame process_observation process_commit validate_commit accept_commit check_contiguous
    finish_report
regression_read = refl
