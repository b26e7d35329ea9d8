-- ===== src/Mempool/Epoch.antt =====
-- The identity of a membership epoch: the bytes that `epoch_id` of
-- processors/bitcoin-mempool/src/state.rs feeds to SHA-256.
pub mod Names
mod Tests
use Prim.Native.Char.{code}
use multichain_rs.Prelude.{
  ℕ, zero, suc, ◌+◌, ◌-◌, ◌*◌, ◌/◌, ◌%◌, ◌^◌, ◌≤◌, ◌<◌, min, String, ◌≡◌, refl, sym, ap, ◌∙◌,
  fun_ext, ◌≢◌, ◌↔◌, ◌⊎◌, inl, inr, Bool, true, false, ◌&&◌, ◌||◌, not, Option, none, some, List,
  [], ◌∷◌, ◌++◌, map, reverse, arith, ltb, leb, nat_beq, if◌then◌else◌, Eq, ◌==◌, nat_beq_iff,
  nat_eq, string_eq, option_beq, option_beq_iff, option_eq, Bool-cases, Option-cases, u64_max,
  saturating_add, checked_add, length, length-append, length-reverse, any, all, last?, All,
  All-append, is_whitespace, is_blank, is_ascii, list_eq, list_beq, list_beq_iff,
}
use multichain_rs.Mempool.Membership.{Txid, EpochId}

-- `to_le_bytes`, for a number of `width` bytes
pub le_bytes : (width : ℕ) → ℕ → List ℕ
le_bytes zero n = []
le_bytes (suc width) n = n % 256 ∷ le_bytes width (n / 256)

-- `as_bytes` of a `Txid`: the number's 32 bytes, the highest first
pub txid_bytes : Txid → List ℕ
unfolding le_bytes
txid_bytes txid = reverse (le_bytes 32 txid)

-- The UTF-8 bytes of a code point.
pub utf8 : ℕ → List ℕ
utf8 c =
    if ltb c 0x80
    then c ∷ []
    else if ltb c 0x800
    then (192 + c / 64) ∷ (128 + c % 64) ∷ []
    else if ltb c 0x10000
    then (224 + c / 4096) ∷ (128 + c / 64 % 64) ∷ (128 + c % 64) ∷ []
    else (240 + c / 262144) ∷ (128 + c / 4096 % 64) ∷ (128 + c / 64 % 64) ∷ (128 + c % 64) ∷ []

-- `str::as_bytes`
pub text_bytes : String → List ℕ
unfolding utf8
text_bytes String.[] = []
text_bytes (String.◌∷◌ c s) = utf8 (code c) ++ text_bytes s

-- What `epoch_id` has fed to the hash when it asks for the digest.
pub epoch_preimage : String → Txid → ℕ → List ℕ
unfolding text_bytes le_bytes txid_bytes
epoch_preimage source_id txid epoch_number =
    text_bytes "multichain.bitcoin.mempool.epoch.v1"
    ++ (le_bytes 8 (min (length (text_bytes source_id)) u64_max)
        ++ (text_bytes source_id ++ (txid_bytes txid ++ le_bytes 8 epoch_number)))

-- `epoch_id`
unfoldable pub epoch_id : (List ℕ → EpochId) → String → Txid → ℕ → EpochId
unfolding epoch_preimage
epoch_id sha256 source_id txid epoch_number = sha256 (epoch_preimage source_id txid epoch_number)
