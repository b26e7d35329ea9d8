-- ===== src/Wal/Scan.antt =====
-- Reading back what was framed (crates/wal/src/format.rs: encode_frame, and reader.rs: scan).
pub mod Segments
use mathlib.Core.List.{append_assoc, append-nil}
use multichain_rs.Prelude.{
  ℕ, zero, suc, ◌+◌, ◌^◌, ◌≤◌, ◌<◌, ◌≡◌, refl, ap, ◌∙◌, true, false, some, List, [], ◌∷◌, ◌++◌,
  arith, ltb, leb, nat_beq, nat_eq, string_eq, option_eq, length, length-append, list_eq,
}
use multichain_rs.Exec.{ok, and_then}
use multichain_rs.Wal.Bytes.{be_bytes, be_value, take, drop}
use multichain_rs.Wal.Format.{Codec, IsCodec, frame_body, frame_bytes, max_frame_payload_bytes}
use multichain_rs.Wal.Reader.{RawFrame, stop, add_frame, read_frame, scan_from}

pub be_value-be_bytes : (n : ℕ) → n < 2 ^ 32 → be_value 0 (be_bytes 4 n) ≡ n
be_value-be_bytes n h = omega arith

pub take-append : (xs ys : List ℕ) → take (length xs) (xs ++ ys) ≡ xs
take-append [] ys = refl
take-append (x ∷ xs) ys = ap (λ l. x ∷ l) (take-append xs ys)

pub drop-append : (xs ys : List ℕ) (n m : ℕ) → m ≡ length xs + n → drop m (xs ++ ys) ≡ drop n ys
drop-append [] ys n m e = ap (λ k. drop k ys) (omega (arith, e))
drop-append (x ∷ xs) ys n zero e = absurd (omega (arith, e))
drop-append (x ∷ xs) ys n (suc m) e = drop-append xs ys n m (omega (arith, e))

-- A frame by its type and payload.
abbrev pub Frame : Type 0
Frame = ℕ × List ℕ

abbrev pub IsFrame : Frame → Type 0
IsFrame f = (0 < f.0) × (length f.1 ≤ max_frame_payload_bytes)

module _ (codec : Codec) where
  -- The frame as it is read at an offset.
  abbrev pub raw : Frame → ℕ → RawFrame
  raw f offset = record {
    frame_type = f.0;
    offset = offset;
    end_offset = offset + (9 + length f.1);
    payload = f.1;
    bytes = frame_bytes codec f.0 f.1;
    crc_valid = true;
  }

  abbrev pub encode_frames : List Frame → List ℕ
  encode_frames [] = []
  encode_frames (f ∷ fs) = frame_bytes codec f.0 f.1 ++ encode_frames fs

  -- The frames as they are read one after the other.
  abbrev pub layout : ℕ → List Frame → List RawFrame
  layout offset [] = []
  layout offset (f ∷ fs) = raw f offset ∷ layout (offset + (9 + length f.1)) fs

  abbrev pub extent : List Frame → ℕ
  extent [] = 0
  extent (f ∷ fs) = 9 + length f.1 + extent fs

  -- One round of the loop at a whole frame.
  scan_round :
      (fuel t a b c d : ℕ) (rest : List ℕ) (offset : ℕ)
      → 0 < t
      → be_value 0 (a ∷ b ∷ c ∷ d ∷ []) ≤ max_frame_payload_bytes
      → be_value 0 (a ∷ b ∷ c ∷ d ∷ []) + 4 ≤ length rest
      → scan_from codec (suc fuel) (t ∷ a ∷ b ∷ c ∷ d ∷ rest) offset
        ≡ and_then
            (scan_from codec fuel
              (drop (be_value 0 (a ∷ b ∷ c ∷ d ∷ []) + 4) rest)
              (offset + (9 + be_value 0 (a ∷ b ∷ c ∷ d ∷ []))))
            (λ more. ok (add_frame (read_frame codec t (a ∷ b ∷ c ∷ d ∷ []) rest offset) more))
  unfolding scan_from
  scan_round fuel t a b c d rest offset ht hs hr =
      let typed : nat_beq t 0 ≡ false = ground (arith, ht) in
      let header : ltb (length (a ∷ b ∷ c ∷ d ∷ rest)) 4 ≡ false = ground arith in
      let small : leb (be_value 0 (a ∷ b ∷ c ∷ d ∷ [])) max_frame_payload_bytes ≡ true =
        ground (arith, hs) in
      let whole : ltb (length rest) (be_value 0 (a ∷ b ∷ c ∷ d ∷ []) + 4) ≡ false =
        ground (arith, hr) in
      rw (scan_from, typed, header, small, whole) refl

  -- One round of the loop where the frame is cut off behind its header.
  pub scan_cut :
      (fuel t a b c d : ℕ) (rest : List ℕ) (offset : ℕ)
      → 0 < t
      → be_value 0 (a ∷ b ∷ c ∷ d ∷ []) ≤ max_frame_payload_bytes
      → length rest < be_value 0 (a ∷ b ∷ c ∷ d ∷ []) + 4
      → scan_from codec (suc fuel) (t ∷ a ∷ b ∷ c ∷ d ∷ rest) offset
        ≡ ok (stop (some offset) offset)
  unfolding scan_from
  scan_cut fuel t a b c d rest offset ht hs hr =
      let typed : nat_beq t 0 ≡ false = ground (arith, ht) in
      let header : ltb (length (a ∷ b ∷ c ∷ d ∷ rest)) 4 ≡ false = ground arith in
      let small : leb (be_value 0 (a ∷ b ∷ c ∷ d ∷ [])) max_frame_payload_bytes ≡ true =
        ground (arith, hs) in
      let part : ltb (length rest) (be_value 0 (a ∷ b ∷ c ∷ d ∷ []) + 4) ≡ true =
        ground (arith, hr) in
      rw (scan_from, typed, header, small, part) refl

  module _ (laws : IsCodec codec) where
    -- The checksum behind a frame's body.
    abbrev check : Frame → List ℕ
    check f = be_bytes 4 (codec.crc32c (frame_body f.0 f.1))

    read_frame-raw :
        (f : Frame) (rest : List ℕ) (offset : ℕ)
        → IsFrame f
        → read_frame codec f.0 (be_bytes 4 (length f.1)) ((f.1 ++ check f) ++ rest) offset
          ≡ raw f offset
    read_frame-raw f rest offset (typed, small) =
        let size : be_value 0 (be_bytes 4 (length f.1)) ≡ length f.1 =
          be_value-be_bytes (length f.1) (omega (arith, small)) in
        let whole = append_assoc f.1 (check f) rest in
        let payload : take (length f.1) ((f.1 ++ check f) ++ rest) ≡ f.1 =
          ap (take (length f.1)) whole ∙ take-append f.1 (check f ++ rest) in
        let behind : drop (length f.1) ((f.1 ++ check f) ++ rest) ≡ check f ++ rest =
          ap (drop (length f.1)) whole
          ∙ drop-append f.1 (check f ++ rest) 0 (length f.1) (omega arith) in
        let sum : be_value 0 (check f) ≡ codec.crc32c (frame_body f.0 f.1) =
          be_value-be_bytes (codec.crc32c (frame_body f.0 f.1))
            (laws.checksum (frame_body f.0 f.1)) in
        let valid : nat_beq (codec.crc32c (frame_body f.0 f.1)) (be_value 0 (check f)) ≡ true =
          ground (arith, sum) in
        rw (size, payload, behind, valid) refl

    pub scan_frame :
        (fuel : ℕ) (f : Frame) (rest : List ℕ) (offset : ℕ)
        → IsFrame f
        → scan_from codec (suc fuel) (frame_bytes codec f.0 f.1 ++ rest) offset
          ≡ and_then
              (scan_from codec fuel rest (offset + (9 + length f.1)))
              (λ more. ok (add_frame (raw f offset) more))
    scan_frame fuel f rest offset good =
        let n = length f.1 in
        let size : be_value 0 (be_bytes 4 n) ≡ n = be_value-be_bytes n (omega (arith, good.1)) in
        let long : length ((f.1 ++ check f) ++ rest) ≡ n + 4 + length rest =
          length-append (f.1 ++ check f) rest
          ∙ ap (λ k. k + length rest) (length-append f.1 (check f)) in
        let gone : drop (be_value 0 (be_bytes 4 n) + 4) ((f.1 ++ check f) ++ rest) ≡ rest =
          ap (drop (be_value 0 (be_bytes 4 n) + 4)) (append_assoc f.1 (check f) rest)
          ∙ drop-append f.1 (check f ++ rest) 4 (be_value 0 (be_bytes 4 n) + 4)
              (omega (arith, size)) in
        scan_round fuel f.0 _ _ _ _ ((f.1 ++ check f) ++ rest) offset good.0
          (omega (arith, size, good.1)) (omega (arith, size, long))
        ∙ rw (gone, read_frame-raw f rest offset good, size) refl
