-- ===== src/Wal/Written.antt =====
-- What holds of a segment that FileWal (crates/wal/src/writer.rs) has written: its bytes are frames, and
-- replaying them gives what was committed and what is pending.
use mathlib.Core.List.{append-nil}
use multichain_rs.Prelude.{
  ℕ, suc, ◌+◌, ◌-◌, ◌≤◌, ◌≡◌, refl, sym, ap, ◌∙◌, true, false, none, List, [], ◌∷◌, ◌++◌, map,
  arith, ltb, nat_beq, nat_eq, string_eq, option_eq, u64_max, length, All, All-append, list_eq,
}
use multichain_rs.Exec.{ok, and_then}
use multichain_rs.Wal.Bytes.{zeros, write_at}
use multichain_rs.Wal.Format.{Codec, IsCodec, CommittedObservation, frame_bytes}
use multichain_rs.Wal.Reader.{stop, scan}
use multichain_rs.Wal.Recovery.{
  RecoveryAccumulator, CandidateObservation, fresh, process_frame, process_frames, is_empty,
  recover, finish_report,
}
use multichain_rs.Wal.Writer.{PendingFrame, FileWal, committed}
use multichain_rs.Wal.Scan.{Frame, IsFrame, raw, encode_frames, layout, extent}
use multichain_rs.Wal.Scan.Segments.{length-encode_frames, length-frame_bytes, scan-encode_frames}
use multichain_rs.Wal.Replay.{
  encode_frames-append, extent-append, process_frames-snoc, write_at-zeros,
}

abbrev pub candidate_of : PendingFrame → CandidateObservation
candidate_of p = record {
  observation = p.observation;
  offset = p.offset;
  end_offset = p.end_offset;
  frame_bytes = p.frame_bytes;
}

-- The pending observations are numbered from one number up to another.
abbrev pub Run : ℕ → List PendingFrame → ℕ → Type 0
Run k [] n = k ≡ n
Run k (p ∷ ps) n = (p.observation.collector_sequence ≡ k) × Run (suc k) ps n

pub Run-snoc :
    (k : ℕ) (ps : List PendingFrame) (q : PendingFrame) (n : ℕ)
    → Run k ps n
    → q.observation.collector_sequence ≡ n
    → Run k (ps ++ (q ∷ [])) (suc n)
Run-snoc k [] q n r e = (e ∙ sym r, ap suc r)
Run-snoc k (p ∷ ps) q n r e = (r.0, Run-snoc (suc k) ps q n r.1 e)

module _ (codec : Codec) where
  -- The frames up to the last commit, and what replaying them gives.
  pub record Kept (session : List ℕ) (log : List CommittedObservation) (frames : List Frame)
      (acc : RecoveryAccumulator) : Type 0 where
    pub base : List Frame
    pub tail : List Frame
    pub parts : frames ≡ base ++ tail
    pub state : RecoveryAccumulator
    pub again :
        (file : List ℕ) → process_frames codec session file (layout codec 0 base) fresh ≡ ok state
    pub committed_alike : state.committed ≡ log
    pub none_waiting : state.candidates ≡ []
    pub none_invalid : state.invalid_observation_offset ≡ none
    pub still_open : state.sealed ≡ false
    pub number : state.next_sequence ≡ acc.next_sequence
    pub last_end : state.last_commit_end ≡ extent codec base
    pub end : acc.last_commit_end ≡ extent codec base
    pub base_unsealed : All (λ f. nat_beq f.0 3 ≡ false) base

  -- The frames, and what replaying them gives, for observations that were committed.
  pub record IsWritten (w : FileWal) (log : List CommittedObservation) : Type 0 where
    pub frames : List Frame
    pub acc : RecoveryAccumulator
    pub bytes : w.file ≡ encode_frames codec frames ++ zeros (w.max_bytes - w.logical_end)
    pub ends : w.logical_end ≡ extent codec frames
    pub room : w.logical_end ≤ w.max_bytes
    pub valid : All IsFrame frames
    pub replay :
        process_frames codec w.source_session_id w.file (layout codec 0 frames) fresh ≡ ok acc
    pub published : acc.committed ≡ log
    pub waiting : acc.candidates ≡ map candidate_of w.pending
    pub clean : acc.invalid_observation_offset ≡ none
    pub sealed_alike : acc.sealed ≡ w.is_sealed
    pub run : Run acc.next_sequence w.pending w.next_sequence
    pub unsealed : w.is_sealed ≡ false → All (λ f. nat_beq f.0 3 ≡ false) frames
    pub short : length w.source_session_id ≤ 16
    pub counted : w.next_sequence ≤ u64_max
    pub large : ltb 512 w.max_bytes ≡ true
    pub settled : w.is_sealed ≡ true → w.pending ≡ []
    pub kept : w.is_sealed ≡ false → Kept w.source_session_id log frames acc
    pub reserve : is_empty w.pending ≡ false → w.logical_end + 512 ≤ w.max_bytes

  -- The segment with one more frame.
  abbrev pub grown : Frame → FileWal → FileWal
  grown f w = record w {
    file = write_at w.logical_end (frame_bytes codec f.0 f.1) w.file;
    logical_end = w.logical_end + length (frame_bytes codec f.0 f.1);
  }

  module _ (w : FileWal) (log : List CommittedObservation) (h : IsWritten w log) (f : Frame)
      (fits : w.logical_end + length (frame_bytes codec f.0 f.1) ≤ w.max_bytes) where
    pub grown_bytes :
        (grown f w).file
        ≡ encode_frames codec (h.frames ++ (f ∷ []))
          ++ zeros ((grown f w).max_bytes - (grown f w).logical_end)
    grown_bytes =
        let bytes = frame_bytes codec f.0 f.1 in
        let written = encode_frames codec h.frames in
        let at : w.logical_end ≡ length written =
          h.ends ∙ sym (length-encode_frames codec h.frames) in
        let rest : w.max_bytes - w.logical_end - length bytes
            ≡ w.max_bytes - (w.logical_end + length bytes) =
          omega arith in
        let more : written ++ bytes ≡ encode_frames codec (h.frames ++ (f ∷ [])) =
          ap (λ l. written ++ l) (sym (append-nil bytes))
          ∙ sym (encode_frames-append codec h.frames (f ∷ [])) in
        (λ i. write_at (at i) bytes (h.bytes i))
        ∙ write_at-zeros written bytes (w.max_bytes - w.logical_end)
        ∙ (λ i. more i ++ zeros (rest i))

    pub grown_end : (grown f w).logical_end ≡ extent codec (h.frames ++ (f ∷ []))
    grown_end =
        omega
          (arith, h.ends, extent-append codec h.frames (f ∷ []), length-frame_bytes codec f.0 f.1)

    pub grown_valid : IsFrame f → All IsFrame (h.frames ++ (f ∷ []))
    grown_valid good = All-append IsFrame h.frames (f ∷ []) h.valid (good, tt)

    pub grown_replay :
        w.is_sealed ≡ false
        → process_frames codec w.source_session_id
            (grown f w).file
            (layout codec 0 (h.frames ++ (f ∷ [])))
            fresh
          ≡ process_frame codec w.source_session_id
              (grown f w).file
              h.acc
              (raw codec f w.logical_end)
    grown_replay unsealed =
        process_frames-snoc codec w.source_session_id w.file (grown f w).file h.frames f fresh h.acc
          (h.unsealed unsealed) h.replay
        ∙ ap (λ o. process_frame codec w.source_session_id (grown f w).file h.acc (raw codec f o))
            (sym h.ends)

  -- Recovering a written segment gives the result of replaying its frames.
  pub IsWritten-recover :
      IsCodec codec
      → (w : FileWal) (log : List CommittedObservation) (h : IsWritten w log)
      → recover codec w.source_session_id w.file
        ≡ ok (record {
          report = finish_report (stop none w.logical_end) h.acc;
          committed = log;
          next_sequence = h.acc.next_sequence;
          sealed = w.is_sealed;
        })
  unfolding recover finish_report
  IsWritten-recover laws w log h =
      let (read, cut) =
        scan-encode_frames codec laws h.frames (w.max_bytes - w.logical_end) (1, []) 1 h.valid
          (omega arith, omega arith) (omega arith) (omega arith) in
      let scanned = ap (scan codec) h.bytes ∙ read in
      let listed : process_frames codec w.source_session_id w.file (layout codec 0 h.frames ++ [])
            fresh
          ≡ ok h.acc =
        ap (λ l. process_frames codec w.source_session_id w.file l fresh)
          (append-nil (layout codec 0 h.frames))
        ∙ h.replay in
      rw (scanned, and_then, listed, and_then)
        (let back = sym h.ends in
          λ i. ok (record {
            report = finish_report (stop none (back i)) h.acc;
            committed = h.published i;
            next_sequence = h.acc.next_sequence;
            sealed = h.sealed_alike i;
          }))

  pub IsWritten-committed :
      IsCodec codec
      → (w : FileWal) (log : List CommittedObservation) → IsWritten w log
      → committed codec w ≡ ok log
  unfolding committed
  IsWritten-committed laws w log h = rw (IsWritten-recover laws w log h) refl
