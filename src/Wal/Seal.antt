-- ===== src/Wal/Seal.antt =====
-- `seal` of FileWal (crates/wal/src/writer.rs) keeps a segment well written.
use mathlib.Core.Path.{subst}
use mathlib.Core.List.{append_assoc}
use multichain_rs.Prelude.{
  ℕ, ◌+◌, ◌-◌, ◌≤◌, ◌≡◌, refl, sym, ap, ◌∙◌, true, false, not, List, [], ◌∷◌, ◌++◌, map, arith, ltb,
  leb, if◌then◌else◌, ◌==◌, nat_eq, string_eq, option_eq, length, length-append, list_eq,
  list_beq_iff,
}
use multichain_rs.Exec.{Outcome, ok, err, Exec, reads, continue, ◌>>=◌}
use multichain_rs.Exec.Rules.{if-cases}
use multichain_rs.Wal.Bytes.{take, zeros, write_at}
use multichain_rs.Wal.Format.{
  WalError, io, Codec, IsCodec, CommittedObservation, frame_bytes, encode_frame,
}
use multichain_rs.Wal.Reader.{hash_prefix}
use multichain_rs.Wal.Recovery.{process_frame, process_seal, is_empty}
use multichain_rs.Wal.Writer.{FileWal, write_frame, remaining_capacity, seal}
use multichain_rs.Wal.Scan.{Frame, raw, encode_frames, take-append}
use multichain_rs.Wal.Scan.Segments.{length-encode_frames}
use multichain_rs.Wal.Replay.{write_at-zeros}
use multichain_rs.Wal.Append.{encode_frame_fits}
use multichain_rs.Wal.Written.{
  candidate_of, IsWritten, grown, grown_bytes, grown_end, grown_valid, grown_replay,
}

pub no_elements {ℓ} : {A : Type ℓ} (xs : List A) → not (is_empty xs) ≡ false → xs ≡ []
no_elements [] h = refl
no_elements (x ∷ xs) h = absurd (ground arith)

in_room : (max end n : ℕ) → end ≤ max → ltb (max - end) n ≡ false → end + n ≤ max
in_room max end n h roomy = ground (arith, h)

module _ (codec : Codec) (laws : IsCodec codec) (w : FileWal) (log : List CommittedObservation)
    (h : IsWritten codec w log) where
  -- The digest of what is written.
  abbrev pub seal_hash : List ℕ
  seal_hash = codec.blake3 (encode_frames codec h.frames)

  abbrev frame : Frame
  frame = (3, seal_hash)

  abbrev pub closed : FileWal
  closed = record (grown codec frame w) { is_sealed = true }

  at : w.logical_end ≡ length (encode_frames codec h.frames)
  at = h.ends ∙ sym (length-encode_frames codec h.frames)

  hash_written :
      (rest : List ℕ) (file : List ℕ)
      → file ≡ encode_frames codec h.frames ++ rest
      → hash_prefix codec file w.logical_end ≡ ok seal_hash
  unfolding hash_prefix
  hash_written rest file e =
      let written = encode_frames codec h.frames in
      let long : leb (length written) (length (written ++ rest)) ≡ true =
        let sum = length-append written rest in ground (arith, sum) in
      (λ i. if leb (at i) (length (e i)) then ok (codec.blake3 (take (at i) (e i))) else err io)
      ∙ rw (long, take-append written rest) refl

  hash_grown : hash_prefix codec (grown codec frame w).file w.logical_end ≡ ok seal_hash
  hash_grown =
      let written = encode_frames codec h.frames in
      let bytes = frame_bytes codec 3 seal_hash in
      let k = w.max_bytes - w.logical_end in
      hash_written (bytes ++ zeros (k - length bytes)) (grown codec frame w).file (
        (λ i. write_at (at i) bytes (h.bytes i))
        ∙ write_at-zeros written bytes k
        ∙ append_assoc written bytes (zeros (k - length bytes)))

  sealed_by :
      w.pending ≡ []
      → w.is_sealed ≡ false
      → process_frame codec w.source_session_id
          (grown codec frame w).file
          h.acc
          (raw codec frame w.logical_end)
        ≡ ok (record h.acc { sealed = true })
  unfolding process_frame process_seal
  sealed_by none_pending unsealed =
      let acc = h.acc in
      let open_acc : acc.sealed ≡ false = h.sealed_alike ∙ unsealed in
      let waiting : acc.candidates ≡ [] = h.waiting ∙ ap (map candidate_of) none_pending in
      let clean = h.clean in
      let same : (seal_hash == seal_hash) ≡ true = (list_beq_iff seal_hash seal_hash).1 refl in
      simp (open_acc, waiting, clean, hash_grown, same) refl

  closed-IsWritten :
      w.pending ≡ []
      → w.is_sealed ≡ false
      → w.logical_end + length (frame_bytes codec 3 seal_hash) ≤ w.max_bytes
      → IsWritten codec closed log
  closed-IsWritten none_pending unsealed fits =
      let acc = h.acc in
      let digest = laws.digest (encode_frames codec h.frames) in
      record {
        frames = h.frames ++ (frame ∷ []);
        acc = record acc { sealed = true };
        bytes = grown_bytes codec w log h frame fits;
        ends = grown_end codec w log h frame fits;
        room = fits;
        valid = grown_valid codec w log h frame fits (omega arith, omega (arith, digest));
        replay = grown_replay codec w log h frame fits unsealed ∙ sealed_by none_pending unsealed;
        published = h.published;
        waiting = h.waiting;
        clean = h.clean;
        sealed_alike = refl;
        run = h.run;
        short = h.short;
        large = h.large;
        settled = λ e. none_pending;
        kept = λ e. absurd (ground (arith, e));
        unsealed = λ e. absurd (ground (arith, e));
        counted = h.counted;
        reserve = λ e. absurd (ground (arith, e, ap is_empty none_pending));
      }

  abbrev Good : Outcome WalError (List ℕ) × FileWal → Type 0
  Good r = IsWritten codec r.1 log

  abbrev finish : List ℕ → ℕ → Exec WalError FileWal (List ℕ)
  finish hash offset v = (ok hash, record v { is_sealed = true })

  abbrev rest : List ℕ → Exec WalError FileWal (List ℕ)
  rest hash = reads (λ _. encode_frame codec 3 hash) >>= λ bytes. write_frame bytes >>= finish hash

  -- The call as a whole.
  pub seal-IsWritten : IsWritten codec (seal codec w).1 log
  unfolding seal write_frame
  seal-IsWritten =
      if-cases Good w.is_sealed _ _ (λ _. h)
        (λ unsealed.
          if-cases Good (not (is_empty w.pending)) _ _ (λ _. h)
            (λ pending_none.
              let bytes = frame_bytes codec 3 seal_hash in
              let hashed = hash_written (zeros (w.max_bytes - w.logical_end)) w.file h.bytes in
              let digest = laws.digest (encode_frames codec h.frames) in
              let framed = encode_frame_fits codec 3 seal_hash (omega (arith, digest)) in
              let as_run =
                ap (λ m. continue m rest w) hashed
                ∙ ap (λ m. continue m (λ frame. write_frame frame >>= finish seal_hash) w) framed in
              subst Good (sym as_run) (
                if-cases
                  (λ (r : Outcome WalError ℕ × FileWal). Good (continue r.0 (finish seal_hash) r.1))
                  (ltb (remaining_capacity w) (length bytes)) _ _ (λ _. h)
                  (λ roomy.
                    closed-IsWritten (no_elements w.pending pending_none) unsealed
                      (in_room w.max_bytes w.logical_end (length bytes) h.room roomy)))))
