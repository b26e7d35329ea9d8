-- ===== src/Wal/Created.antt =====
-- A segment that open creates (crates/wal/src/writer.rs) is well written.
use mathlib.Core.Path.{subst}
use multichain_rs.Prelude.{
  ℕ, ◌-◌, ◌≤◌, ◌≡◌, refl, sym, ap, ◌∙◌, true, false, none, List, [], arith, ltb, leb, nat_eq,
  string_eq, option_eq, length, list_eq,
}
use multichain_rs.Exec.{ok, ensure, and_then}
use multichain_rs.Exec.Rules.{ok-injective, and_then-ok, ensure-ok}
use multichain_rs.Wal.Bytes.{zeros}
use multichain_rs.Wal.Format.{invalid_capacity, Codec, IsCodec}
use multichain_rs.Wal.Recovery.{RecoveryReport, fresh, process_frames, finish_report, recover}
use multichain_rs.Wal.Writer.{FileWal, open_wal}
use multichain_rs.Wal.Scan.Segments.{scan-encode_frames, length-zeros}
use multichain_rs.Wal.Written.{IsWritten}
use multichain_rs.Wal.Reopen.{set_len-append}

module _ (codec : Codec) (laws : IsCodec codec) (session : List ℕ) (max_bytes : ℕ) where
  no_frames :
      recover codec session (zeros max_bytes)
      ≡ ok (record {
        report = record { incidents = []; logical_end = 0 };
        committed = [];
        next_sequence = 0;
        sealed = false;
      })
  unfolding recover process_frames finish_report
  no_frames =
      let (read, cut) =
        scan-encode_frames codec laws [] max_bytes (1, []) 1 tt (omega arith, omega arith)
          (omega arith) (omega arith) in
      rw (read, and_then, and_then) refl

  -- A new segment.
  abbrev empty_wal : FileWal
  empty_wal = record {
    file = zeros max_bytes;
    source_session_id = session;
    max_bytes = max_bytes;
    logical_end = 0;
    next_sequence = 0;
    pending = [];
    is_sealed = false;
  }

  creating :
      open_wal codec session max_bytes none
      ≡ and_then
          (ensure (ltb 512 max_bytes) (invalid_capacity max_bytes))
          (λ _. ok (empty_wal, record { incidents = []; logical_end = 0 }))
  unfolding open_wal
  creating =
      let whole : max_bytes - 0 ≡ max_bytes = omega arith in
      let emptied =
        set_len-append [] (zeros max_bytes) 0 max_bytes refl (omega arith) ∙ ap zeros whole in
      let sized : leb (length (zeros max_bytes)) max_bytes ≡ true =
        let long = length-zeros max_bytes in ground (arith, long) in
      rw (sized, no_frames, and_then)
        (λ i. and_then (ensure (ltb 512 max_bytes) (invalid_capacity max_bytes)) (λ _.
          ok (record empty_wal { file = emptied i }, record { incidents = []; logical_end = 0 })))

  empty_wal-IsWritten :
      length session ≤ 16 → ltb 512 max_bytes ≡ true → IsWritten codec empty_wal []
  unfolding process_frames
  empty_wal-IsWritten short large = record {
    frames = [];
    acc = fresh;
    bytes = ap zeros (omega arith);
    ends = refl;
    room = omega arith;
    valid = tt;
    replay = refl;
    published = refl;
    waiting = refl;
    clean = refl;
    sealed_alike = refl;
    run = refl;
    short = short;
    large = large;
    settled = λ e. refl;
    kept = λ e. record {
      base = [];
      tail = [];
      parts = refl;
      state = fresh;
      again = λ file. refl;
      committed_alike = refl;
      none_waiting = refl;
      none_invalid = refl;
      still_open = refl;
      number = refl;
      last_end = refl;
      end = refl;
      base_unsealed = tt;
    };
    unsealed = λ e. tt;
    counted = omega arith;
    reserve = λ e. absurd (ground arith);
  }

  pub created-IsWritten :
      (w : FileWal) (report : RecoveryReport)
      → length session ≤ 16
      → open_wal codec session max_bytes none ≡ ok (w, report)
      → IsWritten codec w []
  created-IsWritten w report short e =
      let (u, valid, made) =
        and_then-ok (ensure (ltb 512 max_bytes) (invalid_capacity max_bytes))
          (λ _. ok (empty_wal, record { incidents = []; logical_end = 0 })) (sym creating ∙ e) in
      subst (λ v. IsWritten codec v []) (ap (λ r. r.0) (ok-injective made))
        (empty_wal-IsWritten short
          (ensure-ok (ltb 512 max_bytes) (invalid_capacity max_bytes) valid))
