-- ===== src/Wal/Append.antt =====
-- `append` of FileWal (crates/wal/src/writer.rs) keeps a segment well written.
use mathlib.Core.Path.{subst}
use mathlib.Core.List.{append_assoc}
use multichain_rs.Prelude.{
  ℕ, suc, ◌+◌, ◌≤◌, ◌<◌, ◌≡◌, refl, sym, ap, ◌∙◌, true, false, not, some, List, [], ◌∷◌, ◌++◌,
  arith, ltb, leb, nat_beq, ◌==◌, nat_eq, string_eq, option_eq, u64_max, saturating_add,
  checked_add, length, All-append, list_eq, map-append,
}
use multichain_rs.Exec.{Outcome, ok, modify, continue, ◌>>=◌, ◌>>◌}
use multichain_rs.Exec.Rules.{if-cases}
use multichain_rs.Wal.Bytes.{write_at}
use multichain_rs.Wal.Format.{
  WalError, Codec, IsCodec, Observation, CommittedObservation, frame_bytes, encode_frame,
  max_frame_payload_bytes,
}
use multichain_rs.Wal.Recovery.{RecoveryAccumulator, process_frame, process_observation}
use multichain_rs.Wal.Writer.{
  PendingFrame, PendingObservation, FileWal, write_frame, append, write_observation, count_sequence,
  add_pending, remaining_capacity,
}
use multichain_rs.Wal.Scan.{Frame, raw}
use multichain_rs.Wal.Scan.Segments.{length-frame_bytes}
use multichain_rs.Wal.Written.{
  candidate_of, Kept, Run, Run-snoc, IsWritten, grown, grown_bytes, grown_end, grown_valid,
  grown_replay,
}

reserved : (free n : ℕ) → n ≤ 67108873 → ltb free (saturating_add n 512) ≡ false → n + 512 ≤ free
reserved free n small h = ground (arith, small)

pub not_full : (free n : ℕ) → n ≤ free → ltb free n ≡ false
not_full free n h = ground (arith, h)

counted_on : (n : ℕ) → n < u64_max → checked_add n 1 ≡ some (n + 1)
counted_on n h = ground (arith, h)

within : (n bound : ℕ) → not (leb n bound) ≡ false → n ≤ bound
within n bound h = ground arith

pub same_number : (a b : ℕ) → not (nat_beq a b) ≡ false → a ≡ b
same_number a b h = ground arith

pub write_frame_fits :
    (bytes : List ℕ) (w : FileWal)
    → ltb (remaining_capacity w) (length bytes) ≡ false
    → write_frame bytes w ≡ (
      ok w.logical_end,
      record w {
        file = write_at w.logical_end bytes w.file;
        logical_end = w.logical_end + length bytes;
      },
    )
unfolding write_frame
write_frame_fits bytes w roomy = rw roomy refl

pub encode_frame_fits :
    (codec : Codec) (t : ℕ) (payload : List ℕ)
    → length payload ≤ max_frame_payload_bytes
    → encode_frame codec t payload ≡ ok (frame_bytes codec t payload)
unfolding encode_frame
encode_frame_fits codec t payload h =
    let small : leb (length payload) max_frame_payload_bytes ≡ true = ground (arith, h) in
    rw small refl

module _ (codec : Codec) (laws : IsCodec codec) (o : Observation) (w : FileWal) where
  abbrev frame : Frame
  frame = (1, codec.encode_observation o)

  abbrev bytes : List ℕ
  bytes = frame_bytes codec 1 (codec.encode_observation o)

  abbrev added : PendingFrame
  added = record {
    observation = o;
    offset = w.logical_end;
    end_offset = w.logical_end + length bytes;
    frame_bytes = bytes;
  }

  -- What a successful append leaves.
  abbrev pub appended : FileWal
  appended = record (grown codec frame w) {
    pending = w.pending ++ (added ∷ []);
    next_sequence = w.next_sequence + 1;
  }

  candidate_added :
      (file : List ℕ) (acc : RecoveryAccumulator)
      → acc.sealed ≡ false
      → process_frame codec w.source_session_id file acc (raw codec frame w.logical_end)
        ≡ ok (record acc { candidates = acc.candidates ++ (candidate_of added ∷ []) })
  unfolding process_frame process_observation
  candidate_added file acc open_acc =
      let at : w.logical_end + (9 + length (codec.encode_observation o))
          ≡ w.logical_end + length bytes =
        omega (arith, length-frame_bytes codec 1 (codec.encode_observation o)) in
      simp (open_acc, laws.observations o, at) refl

  extended :
      {log : List CommittedObservation} {frames : List Frame} {acc : RecoveryAccumulator}
      → Kept codec w.source_session_id log frames acc
      → Kept codec w.source_session_id log
          (frames ++ (frame ∷ []))
          (record acc { candidates = acc.candidates ++ (candidate_of added ∷ []) })
  extended k = record {
    base = k.base;
    tail = k.tail ++ (frame ∷ []);
    parts = ap (λ l. l ++ (frame ∷ [])) k.parts ∙ append_assoc k.base k.tail (frame ∷ []);
    state = k.state;
    again = k.again;
    committed_alike = k.committed_alike;
    none_waiting = k.none_waiting;
    none_invalid = k.none_invalid;
    still_open = k.still_open;
    number = k.number;
    last_end = k.last_end;
    end = k.end;
    base_unsealed = k.base_unsealed;
  }

  appended-IsWritten :
      (log : List CommittedObservation)
      → IsWritten codec w log
      → w.is_sealed ≡ false
      → w.next_sequence < u64_max
      → o.collector_sequence ≡ w.next_sequence
      → length (codec.encode_observation o) ≤ max_frame_payload_bytes
      → w.logical_end + length bytes + 512 ≤ w.max_bytes
      → IsWritten codec appended log
  appended-IsWritten log h unsealed more numbered small space =
      let fits : w.logical_end + length bytes ≤ w.max_bytes = omega (arith, space) in
      let one : suc w.next_sequence ≡ w.next_sequence + 1 = omega arith in
      let acc = h.acc in
      record {
        frames = h.frames ++ (frame ∷ []);
        acc = record acc { candidates = acc.candidates ++ (candidate_of added ∷ []) };
        bytes = grown_bytes codec w log h frame fits;
        ends = grown_end codec w log h frame fits;
        room = fits;
        valid = grown_valid codec w log h frame fits (omega arith, small);
        replay =
            grown_replay codec w log h frame fits unsealed
            ∙ candidate_added (grown codec frame w).file acc (h.sealed_alike ∙ unsealed);
        published = h.published;
        waiting =
            ap (λ l. l ++ (candidate_of added ∷ [])) h.waiting
            ∙ sym (map-append candidate_of w.pending (added ∷ []));
        clean = h.clean;
        sealed_alike = h.sealed_alike;
        run =
            subst (Run acc.next_sequence (w.pending ++ (added ∷ []))) one
              (Run-snoc acc.next_sequence w.pending added w.next_sequence h.run numbered);
        short = h.short;
        large = h.large;
        settled = λ e. absurd (cc e);
        kept = λ e. extended (h.kept unsealed);
        unsealed = λ e.
            All-append (λ f. nat_beq f.0 3 ≡ false) h.frames (frame ∷ []) (h.unsealed unsealed)
              (refl, tt);
        counted = omega (arith, more);
        reserve = λ e. space;
      }

  module _ (log : List CommittedObservation) where
    abbrev Good : Outcome WalError PendingObservation × FileWal → Type 0
    Good r = IsWritten codec r.1 log

  counted :
      checked_add w.next_sequence 1 ≡ some (w.next_sequence + 1)
      → count_sequence o w.logical_end (add_pending o bytes w.logical_end (grown codec frame w))
        ≡ (ok (record { observation = o; wal_offset = w.logical_end }), appended)
  unfolding count_sequence
  counted next = rw (count_sequence, next) refl

  written :
      ltb (remaining_capacity w) (length bytes) ≡ false
      → checked_add w.next_sequence 1 ≡ some (w.next_sequence + 1)
      → (write_frame bytes >>= λ offset.
            modify (add_pending o bytes offset) >> count_sequence o offset)
          w
        ≡ (ok (record { observation = o; wal_offset = w.logical_end }), appended)
  written roomy next =
      let rest = λ (offset : ℕ).
        modify {E = WalError} (add_pending o bytes offset) >> count_sequence o offset in
      ap (λ r. continue r.0 rest r.1) (write_frame_fits bytes w roomy) ∙ counted next

  -- The call as a whole.
  pub append-IsWritten :
      (log : List CommittedObservation)
      → IsWritten codec w log
      → w.next_sequence < u64_max
      → IsWritten codec (append codec o w).1 log
  unfolding append write_observation write_frame count_sequence encode_frame
  append-IsWritten log h more =
      if-cases (Good log) w.is_sealed _ _ (λ _. h)
        (λ unsealed.
          if-cases (Good log) (not (o.source_session_id == w.source_session_id)) _ _ (λ _. h)
            (λ _.
              if-cases (Good log) (not (nat_beq o.collector_sequence w.next_sequence)) _ _ (λ _. h)
                (λ numbered.
                  if-cases (λ m. Good log (continue m (write_observation o) w))
                    (not (leb (length (codec.encode_observation o)) max_frame_payload_bytes)) _ _
                    (λ _. h)
                    (λ small.
                      if-cases (Good log)
                        (ltb (remaining_capacity w) (saturating_add (length bytes) 512)) _ _
                        (λ _. h)
                        (λ space.
                          let long = length-frame_bytes codec 1 (codec.encode_observation o) in
                          let fits =
                            within (length (codec.encode_observation o)) max_frame_payload_bytes
                              small in
                          let spare =
                            reserved (remaining_capacity w) (length bytes)
                              (omega (arith, long, fits)) space in
                          let roomy =
                            not_full (remaining_capacity w) (length bytes) (omega (arith, spare)) in
                          let next = counted_on w.next_sequence more in
                          subst (Good log) (sym (written roomy next)) (
                            appended-IsWritten log h unsealed more
                              (same_number o.collector_sequence w.next_sequence numbered) fits
                              (omega (arith, spare))))))))
