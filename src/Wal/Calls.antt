-- ===== src/Wal/Calls.antt =====
-- The calls that are made on a segment (crates/wal/src/writer.rs), from the one that creates it.
use mathlib.Core.Path.{subst}
use mathlib.Core.List.{append-nil}
use multichain_rs.Prelude.{
  ℕ, suc, ◌+◌, ◌≤◌, ◌<◌, ◌≡◌, refl, sym, false, none, some, List, [], ◌∷◌, ◌++◌, map, arith, nat_eq,
  string_eq, option_eq, u64_max, length, list_eq,
}
use multichain_rs.Exec.{Outcome, ok, err, panic, diverge}
use multichain_rs.Exec.Rules.{if-cases}
use multichain_rs.Wal.Format.{WalError, Codec, IsCodec, Observation, CommittedObservation}
use multichain_rs.Wal.Recovery.{RecoveryReport}
use multichain_rs.Wal.Writer.{
  PendingFrame, CommittedRange, FileWal, append, group_commit, commit_pending, seal, committed,
  open_wal, range_of, commit_of,
}
use multichain_rs.Wal.Written.{Run, IsWritten, IsWritten-committed}
use multichain_rs.Wal.Append.{append-IsWritten}
use multichain_rs.Wal.Covered.{Run-length, Run-last, published_by}
use multichain_rs.Wal.Commit.{
  flushed, flushed-IsWritten, group_commit-flushed, commit_pending-flushed, commit,
}
use multichain_rs.Wal.Created.{created-IsWritten}
use multichain_rs.Wal.Seal.{seal-IsWritten}
use multichain_rs.Wal.Reopen.{again, state, open_wal-again, again-IsWritten, open_wal-IsWritten}

-- What a group commit over pending observations made durable, by the range that it returned.
abbrev pub durable : Outcome WalError CommittedRange → List PendingFrame → List CommittedObservation
durable (ok range) pending =
    map
      (λ p. record {
        observation = p.observation;
        durable_at_unix_ns = range.durable_at_unix_ns;
        wal_commit_hash = range.commit_hash;
      })
      pending
durable (err e) pending = []
durable panic pending = []
durable diverge pending = []

-- A segment after calls that may fail, and what its group commits made durable.
pub data Called (codec : Codec) (session : List ℕ)
    : FileWal → List CommittedObservation → Type 0 where
  created :
      (max_bytes : ℕ) (w : FileWal) (report : RecoveryReport)
      → open_wal codec session max_bytes none ≡ ok (w, report)
      → Called codec session w []
  appending :
      (w : FileWal) (log : List CommittedObservation) (o : Observation)
      → Called codec session w log
      → w.next_sequence < u64_max
      → Called codec session (append codec o w).1 log
  committing :
      (w : FileWal) (log : List CommittedObservation) (now : ℕ)
      → Called codec session w log
      → Called codec session
          (group_commit codec now w).1
          (log ++ durable (group_commit codec now w).0 w.pending)
  sealing :
      (w : FileWal) (log : List CommittedObservation)
      → Called codec session w log
      → Called codec session (seal codec w).1 log
  reopening :
      (w : FileWal) (log : List CommittedObservation) (v : FileWal) (report : RecoveryReport)
      → Called codec session w log
      → open_wal codec w.source_session_id w.max_bytes (some w.file) ≡ ok (v, report)
      → Called codec session v log

module _ (codec : Codec) (laws : IsCodec codec) where
  abbrev After :
      FileWal → List CommittedObservation → Outcome WalError CommittedRange × FileWal → Type 0
  After w log r = IsWritten codec r.1 (log ++ durable r.0 w.pending)

  group_commit-IsWritten :
      (now : ℕ) (w : FileWal) (log : List CommittedObservation)
      → IsWritten codec w log
      → IsWritten codec
          (group_commit codec now w).1
          (log ++ durable (group_commit codec now w).0 w.pending)
  unfolding group_commit commit_pending
  group_commit-IsWritten now w log h =
      if-cases (After w log) w.is_sealed _ _ (λ _. same)
        (λ unsealed. by_pending unsealed w.pending refl)
    where
      same : IsWritten codec w (log ++ [])
      same = subst (IsWritten codec w) (sym (append-nil log)) h

      by_pending :
          w.is_sealed ≡ false
          → (ps : List PendingFrame) → w.pending ≡ ps
          → After w log (commit_pending codec now ps w)
      by_pending unsealed [] e = same
      by_pending unsealed (first ∷ more) e =
          subst (After w log)
            (sym (commit_pending-flushed codec laws w now first more log h e unsealed))
            (subst
              (λ ps.
                IsWritten codec (flushed codec laws w now first more)
                  (log ++ map (published_by (commit codec laws w now first more)) ps))
              (sym e) (flushed-IsWritten codec laws w now first more log h e unsealed))

  -- The segment is well written whatever was called.
  Called-IsWritten :
      (session : List ℕ)
      → length session ≤ 16
      → {w : FileWal} {log : List CommittedObservation} → Called codec session w log
      → IsWritten codec w log
  Called-IsWritten session short (created max_bytes w report e) =
      created-IsWritten codec laws session max_bytes w report short e
  Called-IsWritten session short (appending w log o c more) =
      append-IsWritten codec laws o w log (Called-IsWritten session short c) more
  Called-IsWritten session short (committing w log now c) =
      group_commit-IsWritten now w log (Called-IsWritten session short c)
  Called-IsWritten session short (sealing w log c) =
      seal-IsWritten codec laws w log (Called-IsWritten session short c)
  Called-IsWritten session short (reopening w log v report c e) =
      open_wal-IsWritten codec laws w log (Called-IsWritten session short c) v report e

  -- After any calls on a new segment, failed ones and reopenings among them, with a session of at most 16
  -- bytes and less than 2 ^ 64 - 1 observations: recovering the segment gives exactly what its group commits
  -- returned as durable, in order, and opening its file again succeeds, with nothing pending and the same
  -- durable observations.
  pub Called-committed :
      (session : List ℕ) (w : FileWal) (log : List CommittedObservation)
      → length session ≤ 16
      → Called codec session w log
      → (committed codec w ≡ ok log)
        × ((v : FileWal) × (report : RecoveryReport) × (open_wal codec w.source_session_id
                w.max_bytes
                (some w.file)
              ≡ ok (v, report))
            × (v.pending ≡ [])
            × (committed codec v ≡ ok log))
  Called-committed session w log short c =
      let h = Called-IsWritten session short c in
      (
        IsWritten-committed codec laws w log h,
        (
          again codec laws w log h,
          (state codec laws w log h).report,
          open_wal-again codec laws w log h,
          refl,
          IsWritten-committed codec laws (again codec laws w log h) log
              (again-IsWritten codec laws w log h),
        ),
      )

  -- After such calls, where the segment is not sealed and observations are pending, group_commit succeeds, so that
  -- the space that append keeps free is enough: the range goes from the first pending observation's number to the
  -- last one's, just below the next number, as many as are pending, at the clock's time; nothing is pending any more;
  -- and recovery then gives the pending observations, with the range's time and hash, after what it gave before.
  pub Called-group_commit :
      (session : List ℕ) (w : FileWal) (log : List CommittedObservation) (now : ℕ)
      (first : PendingFrame) (more : List PendingFrame)
      → length session ≤ 16
      → Called codec session w log
      → w.pending ≡ first ∷ more
      → w.is_sealed ≡ false
      → (range : CommittedRange) × (v : FileWal) × (group_commit codec now w ≡ (ok range, v))
        × (range.first_sequence ≡ first.observation.collector_sequence)
        × (range.first_sequence + length (first ∷ more) ≡ suc range.last_sequence)
        × (suc range.last_sequence ≡ w.next_sequence)
        × (range.durable_at_unix_ns ≡ now)
        × (v.pending ≡ [])
        × (v.next_sequence ≡ w.next_sequence)
        × (committed codec v
            ≡ ok (
                log
                ++ map
                    (λ p. record {
                      observation = p.observation;
                      durable_at_unix_ns = now;
                      wal_commit_hash = range.commit_hash;
                    })
                    (first ∷ more)))
  Called-group_commit session w log now first more short c listed unsealed =
      let h = Called-IsWritten session short c in
      let v = flushed codec laws w now first more in
      let run = subst (λ ps. Run (h.acc).next_sequence ps w.next_sequence) listed h.run in
      let long = Run-length (h.acc).next_sequence (first ∷ more) w.next_sequence run in
      let last = Run-last (h.acc).next_sequence first more w.next_sequence run in
      (
        range_of (commit_of codec w first more now),
        v,
        group_commit-flushed codec laws w now first more log h listed unsealed,
        refl,
        omega (arith, run.0, long, last),
        last,
        refl,
        refl,
        refl,
        IsWritten-committed codec laws v _
            (flushed-IsWritten codec laws w now first more log h listed unsealed),
      )
