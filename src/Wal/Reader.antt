-- ===== src/Wal/Reader.antt =====
-- Reading a segment's frames (crates/wal/src/reader.rs).
use multichain_rs.Prelude.{
  ℕ, zero, suc, ◌+◌, Bool, true, false, Option, none, some, List, [], ◌∷◌, ◌++◌, ltb, leb, nat_beq,
  if◌then◌else◌, nat_eq, string_eq, option_eq, length, list_eq,
}
use multichain_rs.Exec.{Outcome, ok, err, diverge, and_then}
use multichain_rs.Wal.Bytes.{be_value, take, drop}
use multichain_rs.Wal.Format.{WalError, corrupt_frame, io, Codec, max_frame_payload_bytes}

pub record RawFrame : Type 0 where
  pub frame_type : ℕ
  pub offset : ℕ
  pub end_offset : ℕ
  pub payload : List ℕ
  pub bytes : List ℕ
  pub crc_valid : Bool

pub record ScanResult : Type 0 where
  pub frames : List RawFrame
  pub truncated : Option ℕ
  pub scanned_end : ℕ

-- A scan that ends here.
abbrev pub stop : Option ℕ → ℕ → ScanResult
stop truncated offset = record { frames = []; truncated = truncated; scanned_end = offset }

abbrev pub add_frame : RawFrame → ScanResult → ScanResult
add_frame frame rest = record rest { frames = frame ∷ rest.frames }

module _ (codec : Codec) where
  -- The frame whose header has been read, from its length bytes and what follows them.
  abbrev pub read_frame : ℕ → List ℕ → List ℕ → ℕ → RawFrame
  read_frame frame_type lengths rest offset =
      let size = be_value 0 lengths in
      let payload = take size rest in
      let body = frame_type ∷ (lengths ++ payload) in
      let crc_bytes = take 4 (drop size rest) in
      record {
        frame_type = frame_type;
        offset = offset;
        end_offset = offset + (9 + size);
        payload = payload;
        bytes = body ++ crc_bytes;
        crc_valid = nat_beq (codec.crc32c body) (be_value 0 crc_bytes);
      }

  -- The loop of `scan`, on the bytes from an offset, with fuel
  unfoldable pub scan_from : ℕ → List ℕ → ℕ → Outcome WalError ScanResult
  scan_from zero bytes offset = diverge
  scan_from (suc fuel) [] offset = ok (stop none offset)
  scan_from (suc fuel) (frame_type ∷ after_type) offset = elim (nat_beq frame_type 0) [
    | true ↦ ok (stop none offset)
    | false ↦ elim (ltb (length after_type) 4) [
      | true ↦ ok (stop (some offset) offset)
      | false ↦
          let lengths = take 4 after_type in
          let rest = drop 4 after_type in
          let size = be_value 0 lengths in
          elim (leb size max_frame_payload_bytes) [
            | false ↦ err (corrupt_frame offset "frame payload exceeds the 64 MiB safety bound")
            | true ↦ elim (ltb (length rest) (size + 4)) [
              | true ↦ ok (stop (some offset) offset)
              | false ↦
                  and_then (scan_from fuel (drop (size + 4) rest) (offset + (9 + size)))
                    (λ more. ok (add_frame (read_frame frame_type lengths rest offset) more))
            ]
          ]
    ]
  ]

  -- `scan`: every frame takes bytes.
  unfoldable pub scan : List ℕ → Outcome WalError ScanResult
  unfolding scan_from
  scan file = scan_from (suc (length file)) file 0

  -- `hash_prefix`: hashing the chunks one by one hashes them all.
  unfoldable pub hash_prefix : List ℕ → ℕ → Outcome WalError (List ℕ)
  hash_prefix file end_offset =
      if leb end_offset (length file) then ok (codec.blake3 (take end_offset file)) else err io
