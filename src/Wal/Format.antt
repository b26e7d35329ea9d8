-- ===== src/Wal/Format.antt =====
-- The frames of a segment (crates/wal/src/format.rs), how the log fails (error.rs), and what it takes
-- from other crates.
use multichain_rs.Prelude.{
  ℕ, ◌^◌, ◌≤◌, ◌<◌, String, ◌≡◌, not, Option, some, List, [], ◌∷◌, ◌++◌, leb, if◌then◌else◌, nat_eq,
  string_eq, option_eq, length, list_eq,
}
use multichain_rs.Exec.{Outcome, ok, err}
use multichain_rs.Wal.Bytes.{be_bytes}

pub data WalError : Type 0 where
  io : WalError
  decode : ℕ → WalError
  capacity_exhausted : ℕ → ℕ → WalError
  no_pending_observations pending_observations sealed : WalError
  sequence_mismatch : ℕ → ℕ → WalError
  source_session_mismatch : WalError
  committed_corruption : ℕ → WalError
  corrupt_frame : ℕ → String → WalError
  invalid_capacity : ℕ → WalError

-- An observation by what the log reads of it; `content` stands for all the rest.
pub record Observation : Type 0 where
  pub source_session_id : List ℕ
  pub collector_sequence : ℕ
  pub content : List ℕ

pub record WalCommit : Type 0 where
  pub source_session_id : List ℕ
  pub first_collector_sequence : ℕ
  pub last_collector_sequence : ℕ
  pub first_wal_offset : ℕ
  pub last_wal_offset : ℕ
  pub durable_at_unix_ns : ℕ
  pub commit_hash : List ℕ

pub record CommittedObservation : Type 0 where
  pub observation : Observation
  pub durable_at_unix_ns : ℕ
  pub wal_commit_hash : List ℕ

-- What the crates crc32c, blake3 and prost supply.
pub record Codec : Type 0 where
  pub crc32c : List ℕ → ℕ
  pub blake3 : List ℕ → List ℕ
  pub encode_observation : Observation → List ℕ
  pub decode_observation : List ℕ → Option Observation
  pub encode_commit : WalCommit → List ℕ
  pub decode_commit : List ℕ → Option WalCommit

-- What they document: a checksum of 32 bits, a digest of 32 bytes, messages that decode to what was
-- encoded, and the size of a commit's message, whose fields are two byte strings of 16 and 32 bytes and five
-- varints of ten bytes at most.
pub record IsCodec (codec : Codec) : Type 0 where
  pub checksum : (bytes : List ℕ) → codec.crc32c bytes < 2 ^ 32
  pub digest : (bytes : List ℕ) → length (codec.blake3 bytes) ≡ 32
  pub observations :
      (o : Observation) → codec.decode_observation (codec.encode_observation o) ≡ some o
  pub commits : (c : WalCommit) → codec.decode_commit (codec.encode_commit c) ≡ some c
  pub commit_size :
      (c : WalCommit)
      → length c.source_session_id ≤ 16
      → length c.commit_hash ≡ 32
      → length (codec.encode_commit c) ≤ 128

abbrev pub observation_frame : ℕ
observation_frame = 1

abbrev pub group_commit_frame : ℕ
group_commit_frame = 2

abbrev pub segment_seal_frame : ℕ
segment_seal_frame = 3

abbrev pub commit_reserve_bytes : ℕ
commit_reserve_bytes = 512

abbrev pub max_frame_payload_bytes : ℕ
max_frame_payload_bytes = 67108864

-- The bytes of a frame before its checksum.
abbrev pub frame_body : ℕ → List ℕ → List ℕ
frame_body frame_type payload = frame_type ∷ (be_bytes 4 (length payload) ++ payload)

abbrev pub concat : List (List ℕ) → List ℕ
concat [] = []
concat (bytes ∷ more) = bytes ++ concat more

-- The bytes of `wal-commit/v1`.
abbrev pub commit_domain : List ℕ
commit_domain = 119 ∷ 97 ∷ 108 ∷ 45 ∷ 99 ∷ 111 ∷ 109 ∷ 109 ∷ 105 ∷ 116 ∷ 47 ∷ 118 ∷ 49 ∷ []

module _ (codec : Codec) where
  abbrev pub frame_bytes : ℕ → List ℕ → List ℕ
  frame_bytes frame_type payload =
      frame_body frame_type payload ++ be_bytes 4 (codec.crc32c (frame_body frame_type payload))

  -- `encode_frame`; a length within the bound fits in a `u32`.
  unfoldable pub encode_frame : ℕ → List ℕ → Outcome WalError (List ℕ)
  encode_frame frame_type payload =
      if not (leb (length payload) max_frame_payload_bytes)
      then err (capacity_exhausted (length payload) max_frame_payload_bytes)
      else ok (frame_bytes frame_type payload)

  -- `calculate_commit_hash`, on the fields of a commit; a time in nanoseconds is given as its 64 bits.
  unfoldable pub calculate_commit_hash : List ℕ → ℕ → ℕ → ℕ → ℕ → ℕ → List (List ℕ) → List ℕ
  calculate_commit_hash session first_sequence last_sequence first_offset last_offset durable_at
        frames =
      codec.blake3 (
        commit_domain
        ++ (session
            ++ (be_bytes 8 first_sequence
                ++ (be_bytes 8 last_sequence
                    ++ (be_bytes 8 first_offset
                        ++ (be_bytes 8 last_offset ++ (be_bytes 8 durable_at ++ concat frames)))))))
