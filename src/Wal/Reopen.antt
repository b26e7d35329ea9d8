-- ===== src/Wal/Reopen.antt =====
-- Opening again a segment that was written (crates/wal/src/writer.rs: open): what is not committed is cut off.
use mathlib.Core.Path.{subst}
use mathlib.Core.List.{append_assoc, append-nil}
use multichain_rs.Prelude.{
  ℕ, zero, suc, ◌-◌, ◌≤◌, min, ◌≡◌, refl, sym, ap, ◌∙◌, inl, inr, true, false, none, some, List, [],
  ◌∷◌, ◌++◌, map, arith, ltb, leb, nat_eq, string_eq, option_eq, Bool-cases, length, length-append,
  All, list_eq,
}
use multichain_rs.Exec.{ok, ensure, and_then}
use multichain_rs.Exec.Rules.{and_then-ok, ok-injective}
use multichain_rs.Wal.Bytes.{take, zeros, set_len}
use multichain_rs.Wal.Format.{invalid_capacity, Codec, IsCodec, CommittedObservation}
use multichain_rs.Wal.Reader.{stop}
use multichain_rs.Wal.Recovery.{RecoveryReport, RecoveryState, is_empty, finish_report}
use multichain_rs.Wal.Writer.{FileWal, open_wal, repaired}
use multichain_rs.Wal.Scan.{IsFrame, encode_frames, extent, take-append}
use multichain_rs.Wal.Scan.Segments.{length-encode_frames, length-zeros}
use multichain_rs.Wal.Replay.{encode_frames-append, extent-append}
use multichain_rs.Wal.Written.{candidate_of, Run, Kept, IsWritten, IsWritten-recover}
use multichain_rs.Wal.Covered.{Run-above}

take_none : (n : ℕ) → take n [] ≡ []
take_none zero = refl
take_none (suc n) = refl

take_all : (xs : List ℕ) (n : ℕ) → length xs ≤ n → take n xs ≡ xs
take_all [] n h = take_none n
take_all (x ∷ xs) zero h = absurd (omega (arith, h))
take_all (x ∷ xs) (suc n) h = ap (λ l. x ∷ l) (take_all xs n (omega (arith, h)))

-- A file that is cut and extended again.
pub set_len-append :
    (xs ys : List ℕ) (n max : ℕ)
    → n ≡ length xs
    → length xs ≤ max
    → set_len max (set_len (min n (length (xs ++ ys))) (xs ++ ys)) ≡ xs ++ zeros (max - n)
set_len-append xs ys n max e h =
    let long = length-append xs ys in
    let least : min n (length (xs ++ ys)) ≡ length xs = omega (arith, e, long) in
    let gone : length xs - length (xs ++ ys) ≡ 0 = omega (arith, long) in
    let left : max - length xs ≡ max - n = omega (arith, e) in
    let cut : set_len (length xs) (xs ++ ys) ≡ xs =
      (λ i. take-append xs ys i ++ zeros (gone i)) ∙ append-nil xs in
    ap (λ k. set_len max (set_len k (xs ++ ys))) least
    ∙ ap (set_len max) cut
    ∙ (λ i. take_all xs max h i ++ zeros (left i))

All-front {ℓ} : {A : Type ℓ} (P : A → Type 0) (xs ys : List A) → All P (xs ++ ys) → All P xs
All-front P [] ys h = tt
All-front P (x ∷ xs) ys h = (h.0, All-front P xs ys h.1)

is_empty-map {ℓ} : {A B : Type ℓ} (f : A → B) (xs : List A) → is_empty (map f xs) ≡ is_empty xs
is_empty-map f [] = refl
is_empty-map f (x ∷ xs) = refl

emptiness {ℓ} : {A : Type ℓ} (xs : List A) → is_empty xs ≡ true → xs ≡ []
emptiness [] h = refl
emptiness (x ∷ xs) h = absurd (ground arith)

nothing {ℓ} : {A : Type ℓ} (xs : List A) → is_empty xs ≡ false → xs ≡ [] → ⊥
nothing xs h e = absurd (ground (arith, ap is_empty e))

module _ (codec : Codec) (laws : IsCodec codec) (w : FileWal) (log : List CommittedObservation)
    (h : IsWritten codec w log) where
  abbrev pub state : RecoveryState
  state = record {
    report = finish_report (stop none w.logical_end) (h.acc);
    committed = log;
    next_sequence = (h.acc).next_sequence;
    sealed = w.is_sealed;
  }

  abbrev pub again : FileWal
  again = repaired codec w.source_session_id w.max_bytes w.file state

  file_size : length w.file ≡ w.max_bytes
  file_size =
      let written = encode_frames codec h.frames in
      let k = w.max_bytes - w.logical_end in
      ap length h.bytes
      ∙ length-append written (zeros k)
      ∙ omega (arith, length-encode_frames codec h.frames, length-zeros k, h.ends, h.room)

  opened :
      open_wal codec w.source_session_id w.max_bytes (some w.file)
      ≡ and_then
          (ensure (ltb 512 w.max_bytes) (invalid_capacity w.max_bytes))
          (λ _. ok (again, state.report))
  unfolding open_wal
  opened =
      let sized : leb (length w.file) w.max_bytes ≡ true =
        let size = file_size in ground (arith, size) in
      rw (sized, IsWritten-recover codec laws w log h, and_then) refl

  ends_whole : w.pending ≡ [] → state.report.logical_end ≡ w.logical_end
  unfolding finish_report
  ends_whole none_pending =
      let waiting : (h.acc).candidates ≡ [] = h.waiting ∙ ap (map candidate_of) none_pending in
      let clean = h.clean in simp (waiting, clean) refl

  ends_cut : is_empty w.pending ≡ false → state.report.logical_end ≡ (h.acc).last_commit_end
  unfolding finish_report
  ends_cut some_pending =
      let waiting : is_empty (h.acc).candidates ≡ false =
        ap is_empty h.waiting ∙ is_empty-map candidate_of w.pending ∙ some_pending in
      simp waiting refl

  -- Where nothing is pending the segment is as it was.
  same : w.pending ≡ [] → again ≡ w
  same none_pending =
      let written = encode_frames codec h.frames in
      let size : w.logical_end ≡ length written =
        h.ends ∙ sym (length-encode_frames codec h.frames) in
      let end = ends_whole none_pending in
      let file : again.file ≡ w.file =
        ap (λ n. set_len w.max_bytes (set_len (min n (length w.file)) w.file)) end
        ∙ (λ i. set_len w.max_bytes (set_len (min w.logical_end (length (h.bytes i))) (h.bytes i)))
        ∙ set_len-append written (zeros (w.max_bytes - w.logical_end)) w.logical_end w.max_bytes
            size (omega (arith, size, h.room))
        ∙ sym h.bytes in
      let next : (h.acc).next_sequence ≡ w.next_sequence =
        subst (λ ps. Run (h.acc).next_sequence ps w.next_sequence) none_pending h.run in
      let none_left = sym none_pending in
      λ i. record w {
        file = file i;
        logical_end = end i;
        next_sequence = next i;
        pending = none_left i;
      }

  -- Otherwise it ends at the last commit.
  module _ (unsealed : w.is_sealed ≡ false) (some_pending : is_empty w.pending ≡ false)
      (k : Kept codec w.source_session_id log h.frames h.acc) where
    at_base : again.logical_end ≡ extent codec k.base
    at_base = ends_cut some_pending ∙ k.end

    base_room : again.logical_end ≤ w.max_bytes
    base_room =
        let parts = ap (extent codec) k.parts ∙ extent-append codec k.base k.tail in
        omega (arith, at_base, parts, h.ends, h.room)

    base_file : again.file ≡ encode_frames codec k.base ++ zeros (w.max_bytes - again.logical_end)
    base_file =
        let base = encode_frames codec k.base in
        let rest = encode_frames codec k.tail ++ zeros (w.max_bytes - w.logical_end) in
        let whole : w.file ≡ base ++ rest =
          h.bytes
          ∙ ap (λ l. l ++ zeros (w.max_bytes - w.logical_end))
              (ap (encode_frames codec) k.parts ∙ encode_frames-append codec k.base k.tail)
          ∙ append_assoc base (encode_frames codec k.tail) (zeros (w.max_bytes - w.logical_end)) in
        let size : again.logical_end ≡ length base =
          at_base ∙ sym (length-encode_frames codec k.base) in
        (λ i. set_len w.max_bytes (set_len (min again.logical_end (length (whole i))) (whole i)))
        ∙ set_len-append base rest again.logical_end w.max_bytes size
            (omega (arith, size, base_room))

    base_valid : All IsFrame k.base
    base_valid = All-front IsFrame k.base k.tail (subst (All IsFrame) k.parts h.valid)

    shortened : IsWritten codec again log
    shortened = record {
      frames = k.base;
      acc = k.state;
      bytes = base_file;
      ends = at_base;
      room = base_room;
      valid = base_valid;
      replay = k.again again.file;
      published = k.committed_alike;
      waiting = k.none_waiting;
      clean = k.none_invalid;
      sealed_alike = k.still_open ∙ sym unsealed;
      run = k.number;
      unsealed = λ e. k.base_unsealed;
      short = h.short;
      large = h.large;
      counted =
          omega (arith, Run-above (h.acc).next_sequence w.pending w.next_sequence h.run, h.counted);
      settled = λ e. refl;
      kept = λ e. record {
        base = k.base;
        tail = [];
        parts = sym (append-nil k.base);
        state = k.state;
        again = k.again;
        committed_alike = k.committed_alike;
        none_waiting = k.none_waiting;
        none_invalid = k.none_invalid;
        still_open = k.still_open;
        number = refl;
        last_end = k.last_end;
        end = k.last_end;
        base_unsealed = k.base_unsealed;
      };
      reserve = λ e. absurd (ground (arith, e));
    }

  pub again-IsWritten : IsWritten codec again log
  again-IsWritten = elim (Bool-cases (is_empty w.pending)) [
    | inl e ↦ subst (λ x. IsWritten codec x log) (sym (same (emptiness w.pending e))) h
    | inr e ↦ elim (Bool-cases w.is_sealed) [
      | inl closed ↦ absurd (nothing w.pending e (h.settled closed))
      | inr unsealed ↦ shortened unsealed e (h.kept unsealed)
    ]
  ]

  -- Opening a written segment succeeds.
  pub open_wal-again :
      open_wal codec w.source_session_id w.max_bytes (some w.file) ≡ ok (again, state.report)
  open_wal-again =
      let large = h.large in
      opened ∙ (λ i.
        and_then (ensure (large i) (invalid_capacity w.max_bytes)) (λ _. ok (again, state.report)))

  pub open_wal-IsWritten :
      (v : FileWal) (report : RecoveryReport)
      → open_wal codec w.source_session_id w.max_bytes (some w.file) ≡ ok (v, report)
      → IsWritten codec v log
  open_wal-IsWritten v report e =
      let (u, valid, made) =
        and_then-ok (ensure (ltb 512 w.max_bytes) (invalid_capacity w.max_bytes))
          (λ _. ok (again, state.report)) (sym opened ∙ e) in
      subst (λ x. IsWritten codec x log) (ap (λ r. r.0) (ok-injective made)) again-IsWritten
