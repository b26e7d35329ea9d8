-- ===== src/Wal/Covered.antt =====
-- The pending observations that a group commit covers, as recovery sees them (crates/wal/src/recovery.rs:
-- validate_commit).
use multichain_rs.Prelude.{
  ℕ, suc, ◌+◌, ◌≤◌, ◌<◌, ◌≡◌, refl, ap, ◌∙◌, true, some, List, [], ◌∷◌, map, arith, nat_beq,
  nat_beq_iff, nat_eq, string_eq, option_eq, u64_max, checked_add, length, list_eq,
}
use multichain_rs.Exec.{ok}
use multichain_rs.Wal.Format.{Codec, WalCommit, CommittedObservation}
use multichain_rs.Wal.Recovery.{check_contiguous, publish, last_of}
use multichain_rs.Wal.Writer.{PendingFrame}
use multichain_rs.Wal.Written.{candidate_of, Run}

pub Run-length : (k : ℕ) (ps : List PendingFrame) (n : ℕ) → Run k ps n → k + length ps ≡ n
Run-length k [] n r = omega (arith, r)
Run-length k (p ∷ ps) n r = omega (arith, Run-length (suc k) ps n r.1)

pub Run-last :
    (k : ℕ) (p : PendingFrame) (ps : List PendingFrame) (n : ℕ)
    → Run k (p ∷ ps) n
    → suc (last_of p ps).observation.collector_sequence ≡ n
Run-last k p [] n (e, f) = ap suc e ∙ f
Run-last k p (q ∷ ps) n (e, r) = Run-last (suc k) q ps n r

pub last_of-map :
    (p : PendingFrame) (ps : List PendingFrame)
    → last_of (candidate_of p) (map candidate_of ps) ≡ candidate_of (last_of p ps)
last_of-map p [] = refl
last_of-map p (q ∷ ps) = last_of-map q ps

-- A run of numbers in 64 bits is contiguous.
pub Run-above : (k : ℕ) (ps : List PendingFrame) (n : ℕ) → Run k ps n → k ≤ n
Run-above k [] n r = omega (arith, r)
Run-above k (p ∷ ps) n r = omega (arith, Run-above (suc k) ps n r.1)

pub next_number : (s k : ℕ) → s ≡ k → k < u64_max → checked_add s 1 ≡ some (suc k)
next_number s k e h = ground (arith, e, h)

pub check_contiguous-Run :
    (k : ℕ) (p : PendingFrame) (ps : List PendingFrame) (n : ℕ)
    → Run k (p ∷ ps) n
    → n ≤ u64_max
    → check_contiguous (candidate_of p) (map candidate_of ps) ≡ ok tt
unfolding check_contiguous
check_contiguous-Run k p [] n r h = refl
check_contiguous-Run k p (q ∷ ps) n r h =
    let above = Run-above (suc (suc k)) ps n r.1.1 in
    let next : checked_add p.observation.collector_sequence 1 ≡ some (suc k) =
      next_number p.observation.collector_sequence k r.0 (omega (arith, above, h)) in
    let same : nat_beq q.observation.collector_sequence (suc k) ≡ true =
      (nat_beq_iff q.observation.collector_sequence (suc k)).1 r.1.0 in
    rw (check_contiguous, next, same) (check_contiguous-Run (suc k) q ps n r.1 h)

pub frames_alike :
    (ps : List PendingFrame)
    → map (λ c. c.frame_bytes) (map candidate_of ps) ≡ map (λ p. p.frame_bytes) ps
frames_alike [] = refl
frames_alike (p ∷ ps) = ap (λ l. p.frame_bytes ∷ l) (frames_alike ps)

-- A pending observation with the commit that covers it.
abbrev pub published_by : WalCommit → PendingFrame → CommittedObservation
published_by commit p = record {
  observation = p.observation;
  durable_at_unix_ns = commit.durable_at_unix_ns;
  wal_commit_hash = commit.commit_hash;
}

pub publish_all :
    (codec : Codec) (session : List ℕ) (commit : WalCommit) (ps : List PendingFrame)
    → map (publish codec session commit) (map candidate_of ps) ≡ map (published_by commit) ps
publish_all codec session commit [] = refl
publish_all codec session commit (p ∷ ps) =
    ap (λ l. published_by commit p ∷ l) (publish_all codec session commit ps)
