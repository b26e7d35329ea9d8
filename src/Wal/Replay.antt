-- ===== src/Wal/Replay.antt =====
-- Replaying the frames of a segment (crates/wal/src/recovery.rs) when frames are added to it.
use mathlib.Core.List.{append_assoc}
use multichain_rs.Prelude.{
  ℕ, zero, suc, ◌+◌, ◌-◌, ◌≡◌, refl, sym, ap, ◌∙◌, false, List, [], ◌∷◌, ◌++◌, arith, nat_beq,
  nat_eq, string_eq, option_eq, length, All, list_eq,
}
use multichain_rs.Exec.{ok, and_then}
use multichain_rs.Exec.Rules.{and_then-ok, ok-injective, and_then_ok}
use multichain_rs.Wal.Bytes.{drop, zeros, write_at}
use multichain_rs.Wal.Format.{Codec, frame_bytes}
use multichain_rs.Wal.Reader.{RawFrame}
use multichain_rs.Wal.Recovery.{RecoveryAccumulator, process_frame, process_frames}
use multichain_rs.Wal.Scan.{Frame, raw, encode_frames, layout, extent, take-append, drop-append}

module _ (codec : Codec) where
  pub encode_frames-append :
      (fs gs : List Frame)
      → encode_frames codec (fs ++ gs) ≡ encode_frames codec fs ++ encode_frames codec gs
  encode_frames-append [] gs = refl
  encode_frames-append (f ∷ fs) gs =
      ap (λ l. frame_bytes codec f.0 f.1 ++ l) (encode_frames-append fs gs)
      ∙ sym (
          append_assoc (frame_bytes codec f.0 f.1) (encode_frames codec fs)
            (encode_frames codec gs))

  pub extent-append :
      (fs gs : List Frame) → extent codec (fs ++ gs) ≡ extent codec fs + extent codec gs
  extent-append [] gs = omega arith
  extent-append (f ∷ fs) gs = omega (arith, extent-append fs gs)

  pub layout-append :
      (offset : ℕ) (fs gs : List Frame)
      → layout codec offset (fs ++ gs)
        ≡ layout codec offset fs ++ layout codec (offset + extent codec fs) gs
  layout-append offset [] gs = ap (λ o. layout codec o gs) (omega arith)
  layout-append offset (f ∷ fs) gs =
      let at : offset + (9 + length f.1) + extent codec fs ≡ offset + extent codec (f ∷ fs) =
        omega arith in
      ap (λ l. raw codec f offset ∷ l)
        (layout-append (offset + (9 + length f.1)) fs gs
          ∙ ap (λ o. layout codec (offset + (9 + length f.1)) fs ++ layout codec o gs) at)

  module _ (session : List ℕ) where
    pub process_frames-append :
        (file : List ℕ) (xs ys : List RawFrame) (acc middle : RecoveryAccumulator)
        → process_frames codec session file xs acc ≡ ok middle
        → process_frames codec session file (xs ++ ys) acc
          ≡ process_frames codec session file ys middle
    unfolding process_frames
    process_frames-append file [] ys acc middle h =
        ap (process_frames codec session file ys) (ok-injective h)
    process_frames-append file (x ∷ xs) ys acc middle h =
        let (next, first, rest) =
          and_then-ok (process_frame codec session file acc x)
            (process_frames codec session file xs) h in
        rw first (process_frames-append file xs ys next middle rest)

    -- A segment that is not sealed yet is read alike in every file.
    process_frame_any :
        (file other : List ℕ) (acc : RecoveryAccumulator) (frame : RawFrame)
        → nat_beq frame.frame_type 3 ≡ false
        → process_frame codec session file acc frame ≡ process_frame codec session other acc frame
    unfolding process_frame
    process_frame_any file other acc frame h = rw (process_frame, h) refl

    pub process_frames_any :
        (file other : List ℕ) (offset : ℕ) (fs : List Frame) (acc : RecoveryAccumulator)
        → All (λ f. nat_beq f.0 3 ≡ false) fs
        → process_frames codec session file (layout codec offset fs) acc
          ≡ process_frames codec session other (layout codec offset fs) acc
    unfolding process_frames
    process_frames_any file other offset [] acc h = refl
    process_frames_any file other offset (f ∷ fs) acc h =
        let one = process_frame_any file other acc (raw codec f offset) h.0 in
        let rest = λ (next : RecoveryAccumulator).
          process_frames_any file other (offset + (9 + length f.1)) fs next h.1 in
        λ i. and_then (one i) (λ next. rest next i)

    -- One more frame behind a segment that is not sealed.
    pub process_frames-snoc :
        (file other : List ℕ) (fs : List Frame) (f : Frame) (acc middle : RecoveryAccumulator)
        → All (λ g. nat_beq g.0 3 ≡ false) fs
        → process_frames codec session file (layout codec 0 fs) acc ≡ ok middle
        → process_frames codec session other (layout codec 0 (fs ++ (f ∷ []))) acc
          ≡ process_frame codec session other middle (raw codec f (extent codec fs))
    unfolding process_frames
    process_frames-snoc file other fs f acc middle h e =
        ap (λ l. process_frames codec session other l acc) (layout-append 0 fs (f ∷ []))
        ∙ process_frames-append other (layout codec 0 fs)
            (layout codec (0 + extent codec fs) (f ∷ [])) acc middle
            (process_frames_any other file 0 fs acc h ∙ e)
        ∙ and_then_ok (process_frame codec session other middle (raw codec f (0 + extent codec fs)))
        ∙ ap (λ o. process_frame codec session other middle (raw codec f o)) (omega arith)

-- Writing behind the written bytes.
drop-zeros : (n k : ℕ) → drop n (zeros k) ≡ zeros (k - n)
drop-zeros zero k = let e : k ≡ k - 0 = omega arith in ap zeros e
drop-zeros (suc n) zero = let e : 0 ≡ 0 - suc n = omega arith in ap zeros e
drop-zeros (suc n) (suc k) =
    let e : k - n ≡ suc k - suc n = omega arith in drop-zeros n k ∙ ap zeros e

pub write_at-zeros :
    (written frame : List ℕ) (k : ℕ)
    → write_at (length written) frame (written ++ zeros k)
      ≡ (written ++ frame) ++ zeros (k - length frame)
write_at-zeros written frame k =
    let front = take-append written (zeros k) in
    let back =
      drop-append written (zeros k) (length frame) (length written + length frame) refl
      ∙ drop-zeros (length frame) k in
    (λ i. front i ++ (frame ++ back i))
    ∙ sym (append_assoc written frame (zeros (k - length frame)))
