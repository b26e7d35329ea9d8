-- ===== src/Wal/Bytes.antt =====
-- Bytes: big-endian numbers, and the parts of a file that is a list of bytes.
use multichain_rs.Prelude.{
  ℕ, zero, suc, ◌+◌, ◌-◌, ◌*◌, ◌/◌, ◌%◌, List, [], ◌∷◌, ◌++◌, nat_eq, string_eq, option_eq, length,
  list_eq,
}

-- `to_be_bytes`, for a number of `width` bytes
abbrev pub be_bytes : ℕ → ℕ → List ℕ
be_bytes zero n = []
be_bytes (suc width) n = be_bytes width (n / 256) ++ (n % 256 ∷ [])

-- `from_be_bytes`, after the bytes that stand for a number
abbrev pub be_value : ℕ → List ℕ → ℕ
be_value high [] = high
be_value high (b ∷ more) = be_value (high * 256 + b) more

-- The first bytes, and those behind them.
abbrev pub take : ℕ → List ℕ → List ℕ
take zero bytes = []
take (suc n) [] = []
take (suc n) (b ∷ more) = b ∷ take n more

abbrev pub drop : ℕ → List ℕ → List ℕ
drop zero bytes = bytes
drop (suc n) [] = []
drop (suc n) (b ∷ more) = drop n more

abbrev pub zeros : ℕ → List ℕ
zeros zero = []
zeros (suc n) = 0 ∷ zeros n

-- `File::set_len`
abbrev pub set_len : ℕ → List ℕ → List ℕ
set_len n file = take n file ++ zeros (n - length file)

-- `seek` and `write_all`, at a place within the file
abbrev pub write_at : ℕ → List ℕ → List ℕ → List ℕ
write_at offset bytes file = take offset file ++ (bytes ++ drop (offset + length bytes) file)
