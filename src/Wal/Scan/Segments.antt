-- ===== src/Wal/Scan/Segments.antt =====
-- Reading a whole segment (crates/wal/src/reader.rs: scan): frames and then unwritten bytes, or a
-- frame that was cut off.
use mathlib.Core.List.{append_assoc}
use multichain_rs.Prelude.{
  ℕ, zero, suc, ◌+◌, ◌-◌, ◌≤◌, ◌<◌, ◌≡◌, refl, sym, ap, ◌∙◌, true, false, none, some, List, [], ◌∷◌,
  ◌++◌, arith, ltb, nat_beq, nat_eq, string_eq, option_eq, length, length-append, All, list_eq,
}
use multichain_rs.Exec.{ok}
use multichain_rs.Wal.Bytes.{be_bytes, be_value, take, zeros}
use multichain_rs.Wal.Format.{Codec, IsCodec, frame_body, frame_bytes}
use multichain_rs.Wal.Reader.{RawFrame, ScanResult, stop, scan_from, scan}
use multichain_rs.Wal.Scan.{
  Frame, IsFrame, encode_frames, layout, extent, scan_frame, scan_cut, be_value-be_bytes,
}

-- The frames before those of a rest.
abbrev pub add_frames : List RawFrame → ScanResult → ScanResult
add_frames frames rest = record rest { frames = frames ++ rest.frames }

pub length-zeros : (k : ℕ) → length (zeros k) ≡ k
length-zeros zero = refl
length-zeros (suc k) = ap suc (length-zeros k)

pub length-take : (n : ℕ) (bytes : List ℕ) → n ≤ length bytes → length (take n bytes) ≡ n
length-take zero bytes h = refl
length-take (suc n) [] h = absurd (omega (arith, h))
length-take (suc n) (b ∷ more) h = ap suc (length-take n more (omega (arith, h)))

module _ (codec : Codec) where
  pub length-frame_bytes :
      (t : ℕ) (payload : List ℕ) → length (frame_bytes codec t payload) ≡ 9 + length payload
  length-frame_bytes t payload = omega (
    arith,
    length-append (frame_body t payload) (be_bytes 4 (codec.crc32c (frame_body t payload))),
  )

  pub length-encode_frames : (fs : List Frame) → length (encode_frames codec fs) ≡ extent codec fs
  length-encode_frames [] = refl
  length-encode_frames (f ∷ fs) = omega (
    arith,
    length-append (frame_bytes codec f.0 f.1) (encode_frames codec fs),
    length-frame_bytes f.0 f.1,
    length-encode_frames fs,
  )

  frames_fit : (fs : List Frame) → length fs ≤ extent codec fs
  frames_fit [] = omega arith
  frames_fit (f ∷ fs) = omega (arith, frames_fit fs)

  module _ (laws : IsCodec codec) where
    scan_frames :
        (fs : List Frame) (m fuel : ℕ) (rest : List ℕ) (offset : ℕ) (more : ScanResult)
        → All IsFrame fs
        → fuel ≡ length fs + m
        → scan_from codec m rest (offset + extent codec fs) ≡ ok more
        → scan_from codec fuel (encode_frames codec fs ++ rest) offset
          ≡ ok (add_frames (layout codec offset fs) more)
    scan_frames [] m fuel rest offset more good e h =
        let at : offset + 0 ≡ offset = omega arith in
        let enough : fuel ≡ m = omega (arith, e) in
        rw (enough) (ap (λ o. scan_from codec m rest o) (sym at) ∙ h)
    scan_frames (f ∷ fs) m zero rest offset more good e h = absurd (omega (arith, e))
    scan_frames (f ∷ fs) m (suc fuel) rest offset more good e h =
        let at : offset + (9 + length f.1) + extent codec fs ≡ offset + extent codec (f ∷ fs) =
          omega arith in
        let tail =
          scan_frames fs m fuel rest (offset + (9 + length f.1)) more good.1 (omega (arith, e))
            (ap (λ o. scan_from codec m rest o) at ∙ h) in
        ap (λ bytes. scan_from codec (suc fuel) bytes offset)
          (append_assoc (frame_bytes codec f.0 f.1) (encode_frames codec fs) rest)
        ∙ scan_frame codec laws fuel f (encode_frames codec fs ++ rest) offset good.0
        ∙ rw tail refl

    scan_zeros :
        (fuel k offset : ℕ) → scan_from codec (suc fuel) (zeros k) offset ≡ ok (stop none offset)
    unfolding scan_from
    scan_zeros fuel zero offset = refl
    scan_zeros fuel (suc k) offset = refl

    short_header :
        (fuel t : ℕ) (rest : List ℕ) (offset : ℕ)
        → 0 < t
        → length rest < 4
        → scan_from codec (suc fuel) (t ∷ rest) offset ≡ ok (stop (some offset) offset)
    unfolding scan_from
    short_header fuel t rest offset ht hr =
        let typed : nat_beq t 0 ≡ false = ground (arith, ht) in
        let part : ltb (length rest) 4 ≡ true = ground (arith, hr) in
        rw (scan_from, typed, part) refl

    scan_torn :
        (fuel n : ℕ) (f : Frame) (offset : ℕ)
        → IsFrame f
        → 0 < n
        → n < 9 + length f.1
        → scan_from codec (suc fuel) (take n (frame_bytes codec f.0 f.1)) offset
          ≡ ok (stop (some offset) offset)
    unfolding scan_from
    scan_torn fuel zero f offset good positive short = absurd (omega (arith, positive))
    scan_torn fuel (suc zero) f offset good positive short =
        short_header fuel f.0 [] offset good.0 (omega arith)
    scan_torn fuel (suc (suc zero)) f offset good positive short =
        short_header fuel f.0 (take 1 (be_bytes 4 (length f.1))) offset good.0 (omega arith)
    scan_torn fuel (suc (suc (suc zero))) f offset good positive short =
        short_header fuel f.0 (take 2 (be_bytes 4 (length f.1))) offset good.0 (omega arith)
    scan_torn fuel (suc (suc (suc (suc zero)))) f offset good positive short =
        short_header fuel f.0 (take 3 (be_bytes 4 (length f.1))) offset good.0 (omega arith)
    scan_torn fuel (suc (suc (suc (suc (suc n))))) f offset good positive short =
        let behind = f.1 ++ be_bytes 4 (codec.crc32c (frame_body f.0 f.1)) in
        let size : be_value 0 (be_bytes 4 (length f.1)) ≡ length f.1 =
          be_value-be_bytes (length f.1) (omega (arith, good.1)) in
        let long : length behind ≡ length f.1 + 4 =
          length-append f.1 (be_bytes 4 (codec.crc32c (frame_body f.0 f.1))) in
        let cut : length (take n behind) ≡ n = length-take n behind (omega (arith, long, short)) in
        scan_cut codec fuel f.0 _ _ _ _ (take n behind) offset good.0 (omega (arith, size, good.1))
          (omega (arith, size, cut, short))

    -- A segment of frames and then unwritten bytes is read as just those frames, with valid checksums and at their
    -- offsets, up to their end; and one that ends inside a further frame is read as the frames before it, with the
    -- truncation at the offset where that frame starts.
    pub scan-encode_frames :
        (fs : List Frame) (unwritten : ℕ) (f : Frame) (n : ℕ)
        → All IsFrame fs
        → IsFrame f
        → 0 < n
        → n < 9 + length f.1
        → (scan codec (encode_frames codec fs ++ zeros unwritten)
            ≡ ok (add_frames (layout codec 0 fs) (stop none (extent codec fs))))
          × (scan codec (encode_frames codec fs ++ take n (frame_bytes codec f.0 f.1))
              ≡ ok (
                  add_frames (layout codec 0 fs) (stop (some (extent codec fs)) (extent codec fs))))
    unfolding scan
    scan-encode_frames fs unwritten f n good last positive short = (
      scan_all (zeros unwritten) (stop none (extent codec fs))
          (λ fuel offset e. scan_zeros fuel unwritten offset ∙ ap (λ o. ok (stop none o)) e),
      scan_all (take n (frame_bytes codec f.0 f.1))
          (stop (some (extent codec fs)) (extent codec fs))
          (λ fuel offset e.
            scan_torn fuel n f offset last positive short ∙ ap (λ o. ok (stop (some o) o)) e),
    )
      where
        scan_all :
            (rest : List ℕ) (more : ScanResult)
            → ((fuel offset : ℕ)
                → offset ≡ extent codec fs
                → scan_from codec (suc fuel) rest offset ≡ ok more)
            → scan_from codec
                (suc (length (encode_frames codec fs ++ rest)))
                (encode_frames codec fs ++ rest)
                0
              ≡ ok (add_frames (layout codec 0 fs) more)
        scan_all rest more h =
            let size = length (encode_frames codec fs ++ rest) in
            let long : size ≡ length (encode_frames codec fs) + length rest =
              length-append (encode_frames codec fs) rest in
            scan_frames fs (suc (size - length fs)) (suc size) rest 0 more good
              (omega (arith, long, length-encode_frames fs, frames_fit fs))
              (h (size - length fs) (0 + extent codec fs) (omega arith))
