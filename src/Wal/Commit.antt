-- ===== src/Wal/Commit.antt =====
-- `group_commit` of FileWal (crates/wal/src/writer.rs) succeeds on pending observations, keeps a segment well
-- written, and publishes them.
use mathlib.Core.Path.{subst}
use mathlib.Core.List.{append-nil}
use multichain_rs.Prelude.{
  ℕ, ◌+◌, ◌-◌, ◌≤◌, ◌≡◌, refl, sym, ap, ◌∙◌, true, false, none, some, List, [], ◌∷◌, ◌++◌, map,
  arith, nat_beq, if◌then◌else◌, ◌==◌, nat_beq_iff, nat_eq, string_eq, option_eq, u64_max,
  checked_add, length, All, All-append, list_eq, list_beq_iff,
}
use multichain_rs.Exec.{ok, raise, continue, ◌>>=◌}
use multichain_rs.Wal.Format.{
  sealed, Codec, IsCodec, WalCommit, CommittedObservation, frame_bytes, calculate_commit_hash,
}
use multichain_rs.Wal.Recovery.{
  fresh, process_frames, is_empty, RecoveryAccumulator, process_frame, process_commit,
  accept_commit, validate_commit, publish, last_of, expected_hash, range_matches,
}
use multichain_rs.Wal.Writer.{
  PendingFrame, FileWal, write_frame, group_commit, commit_pending, flush, commit_of, range_of,
  remaining_capacity,
}
use multichain_rs.Wal.Scan.{Frame, raw, layout, extent}
use multichain_rs.Wal.Replay.{process_frames_any}
use multichain_rs.Wal.Scan.Segments.{length-frame_bytes}
use multichain_rs.Wal.Written.{
  candidate_of, Kept, Run, IsWritten, grown, grown_bytes, grown_end, grown_valid, grown_replay,
}
use multichain_rs.Wal.Append.{write_frame_fits, encode_frame_fits, not_full}
use multichain_rs.Wal.Covered.{
  Run-last, last_of-map, next_number, check_contiguous-Run, frames_alike, published_by, publish_all,
}

module _ (codec : Codec) (laws : IsCodec codec) (w : FileWal) (now : ℕ) (first : PendingFrame)
    (more : List PendingFrame) where
  abbrev pub commit : WalCommit
  commit = commit_of codec w first more now

  validated :
      (k offset : ℕ)
      → Run k (first ∷ more) w.next_sequence
      → w.next_sequence ≤ u64_max
      → validate_commit codec w.source_session_id commit (map candidate_of (first ∷ more)) offset
        ≡ ok tt
  unfolding validate_commit
  validated k offset run counted =
      let session : (w.source_session_id == w.source_session_id) ≡ true =
        (list_beq_iff w.source_session_id w.source_session_id).1 refl in
      let range : range_matches codec w.source_session_id commit (candidate_of first)
            (candidate_of (last_of first more))
          ≡ true =
        ground arith in
      let hashed : (commit.commit_hash
            == expected_hash codec w.source_session_id commit (map candidate_of (first ∷ more)))
          ≡ true =
        (list_beq_iff commit.commit_hash _).1 (
          ap
            (λ l.
              calculate_commit_hash codec w.source_session_id first.observation.collector_sequence
                (last_of first more).observation.collector_sequence first.offset
                ((last_of first more).end_offset - 1) now l)
            (sym (frames_alike (first ∷ more)))) in
      rw
        (
          last_of-map first more,
          session,
          range,
          check_contiguous-Run k first more w.next_sequence run counted,
          hashed,
        )
        refl

  abbrev frame : Frame
  frame = (2, codec.encode_commit commit)

  abbrev bytes : List ℕ
  bytes = frame_bytes codec 2 (codec.encode_commit commit)

  -- What a successful group commit leaves.
  abbrev pub flushed : FileWal
  flushed = record (grown codec frame w) { pending = [] }

  abbrev accepted : RecoveryAccumulator → RecoveryAccumulator
  accepted acc = record acc {
    committed = acc.committed ++ map (publish codec w.source_session_id commit) acc.candidates;
    candidates = [];
    next_sequence = w.next_sequence;
    last_commit_end = w.logical_end + (9 + length (codec.encode_commit commit));
  }

  accept :
      (k : ℕ) (acc : RecoveryAccumulator)
      → Run k (first ∷ more) w.next_sequence
      → w.next_sequence ≤ u64_max
      → accept_commit codec w.source_session_id acc (raw codec frame w.logical_end) commit
        ≡ ok (accepted acc)
  unfolding accept_commit calculate_commit_hash
  accept k acc run counted =
      let last = (last_of first more).observation.collector_sequence in
      let sized : nat_beq (length commit.commit_hash) 32 ≡ true =
        (nat_beq_iff (length commit.commit_hash) 32).1 (laws.digest _) in
      let end = Run-last k first more w.next_sequence run in
      let next : checked_add last 1 ≡ some w.next_sequence =
        next_number last last refl (omega (arith, end, counted)) ∙ ap some end in
      rw (sized, next) refl

  replayed :
      (file : List ℕ) (k : ℕ) (acc : RecoveryAccumulator)
      → acc.sealed ≡ false
      → acc.invalid_observation_offset ≡ none
      → acc.candidates ≡ map candidate_of (first ∷ more)
      → Run k (first ∷ more) w.next_sequence
      → w.next_sequence ≤ u64_max
      → process_frame codec w.source_session_id file acc (raw codec frame w.logical_end)
        ≡ ok (accepted acc)
  unfolding process_frame process_commit
  replayed file k acc open_acc clean waiting run counted =
      let checked : validate_commit codec w.source_session_id commit acc.candidates w.logical_end
          ≡ ok tt =
        ap (λ l. validate_commit codec w.source_session_id commit l w.logical_end) waiting
        ∙ validated k w.logical_end run counted in
      simp (open_acc, clean, laws.commits commit, checked, accept k acc run counted) refl

  module _ (log : List CommittedObservation) (h : IsWritten codec w log)
      (listed : w.pending ≡ first ∷ more) (unsealed : w.is_sealed ≡ false) where
    small : length (codec.encode_commit commit) ≤ 128
    unfolding calculate_commit_hash
    small = laws.commit_size commit h.short (laws.digest _)

    fits : w.logical_end + length bytes ≤ w.max_bytes
    fits = omega (
      arith,
      small,
      length-frame_bytes codec 2 (codec.encode_commit commit),
      h.reserve (ap is_empty listed),
    )

    waiting : (h.acc).candidates ≡ map candidate_of (first ∷ more)
    waiting = h.waiting ∙ ap (map candidate_of) listed

    flushed_replay :
        process_frames codec w.source_session_id
          (grown codec frame w).file
          (layout codec 0 (h.frames ++ (frame ∷ [])))
          fresh
        ≡ ok (accepted h.acc)
    flushed_replay =
        let acc = h.acc in
        let run : Run acc.next_sequence (first ∷ more) w.next_sequence =
          subst (λ ps. Run acc.next_sequence ps w.next_sequence) listed h.run in
        grown_replay codec w log h frame fits unsealed
        ∙ replayed (grown codec frame w).file acc.next_sequence acc (h.sealed_alike ∙ unsealed)
            h.clean waiting run h.counted

    flushed_published : (accepted h.acc).committed ≡ log ++ map (published_by commit) (first ∷ more)
    flushed_published =
        (λ i. h.published i ++ map (publish codec w.source_session_id commit) (waiting i))
        ∙ ap (λ l. log ++ l) (publish_all codec w.source_session_id commit (first ∷ more))

    flushed_unsealed : All (λ f. nat_beq f.0 3 ≡ false) (h.frames ++ (frame ∷ []))
    flushed_unsealed =
        All-append (λ f. nat_beq f.0 3 ≡ false) h.frames (frame ∷ []) (h.unsealed unsealed)
          (refl, tt)

    flushed-Kept :
        Kept codec w.source_session_id
          (log ++ map (published_by commit) (first ∷ more))
          (h.frames ++ (frame ∷ []))
          (accepted h.acc)
    flushed-Kept =
        let all = h.frames ++ (frame ∷ []) in
        let end : w.logical_end + (9 + length (codec.encode_commit commit)) ≡ extent codec all =
          omega (
            arith,
            grown_end codec w log h frame fits,
            length-frame_bytes codec 2 (codec.encode_commit commit),
          ) in
        record {
          base = all;
          tail = [];
          parts = sym (append-nil all);
          state = accepted h.acc;
          again = λ file.
              process_frames_any codec w.source_session_id file (grown codec frame w).file 0 all
                fresh flushed_unsealed
              ∙ flushed_replay;
          committed_alike = flushed_published;
          none_waiting = refl;
          none_invalid = h.clean;
          still_open = h.sealed_alike ∙ unsealed;
          number = refl;
          last_end = end;
          end = end;
          base_unsealed = flushed_unsealed;
        }

    pub flushed-IsWritten :
        IsWritten codec flushed (log ++ map (published_by commit) (first ∷ more))
    flushed-IsWritten =
        let acc = h.acc in
        record {
          frames = h.frames ++ (frame ∷ []);
          acc = accepted acc;
          bytes = grown_bytes codec w log h frame fits;
          ends = grown_end codec w log h frame fits;
          room = fits;
          valid = grown_valid codec w log h frame fits (omega arith, omega (arith, small));
          replay = flushed_replay;
          published = flushed_published;
          waiting = refl;
          clean = h.clean;
          sealed_alike = h.sealed_alike;
          run = refl;
          short = h.short;
          large = h.large;
          settled = λ e. refl;
          kept = λ e. flushed-Kept;
          unsealed = λ e. flushed_unsealed;
          counted = h.counted;
          reserve = λ e. absurd (cc e);
        }

    pub commit_pending-flushed :
        commit_pending codec now (first ∷ more) w ≡ (ok (range_of commit), flushed)
    unfolding commit_pending
    commit_pending-flushed =
        let framed =
          encode_frame_fits codec 2 (codec.encode_commit commit) (omega (arith, small)) in
        let roomy = not_full (remaining_capacity w) (length bytes) (omega (arith, fits)) in
        ap (λ m. continue m (λ frame. write_frame frame >>= flush codec commit) w) framed
        ∙ ap (λ r. continue r.0 (flush codec commit) r.1) (write_frame_fits bytes w roomy)

    pub group_commit-flushed : group_commit codec now w ≡ (ok (range_of commit), flushed)
    unfolding group_commit
    group_commit-flushed =
        (λ i. if unsealed i then raise sealed w else commit_pending codec now (listed i) w)
        ∙ commit_pending-flushed
