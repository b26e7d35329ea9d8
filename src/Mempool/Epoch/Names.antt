-- ===== src/Mempool/Epoch/Names.antt =====
-- What the bytes that name an epoch (`epoch_id` of processors/bitcoin-mempool/src/state.rs) tell
-- apart.
use multichain_rs.Prelude.{
  ℕ, zero, suc, ◌*◌, ◌/◌, ◌%◌, ◌^◌, ◌<◌, min, String, ◌≡◌, refl, sym, ap, ◌∙◌, List, [], ◌∷◌, ◌++◌,
  reverse, arith, nat_eq, string_eq, option_eq, u64_max, length, length-reverse, list_eq,
}
use mathlib.Core.List.{append_cancel_left, reverse-reverse}
use multichain_rs.Mempool.Membership.{Txid}
use multichain_rs.Mempool.Epoch.{le_bytes, txid_bytes, text_bytes, epoch_preimage}

-- How many numbers `width` bytes hold.
byte_bound : ℕ → ℕ
byte_bound zero = 1
byte_bound (suc width) = 256 * byte_bound width

length-le_bytes : (width n : ℕ) → length (le_bytes width n) ≡ width
unfolding le_bytes
length-le_bytes zero n = refl
length-le_bytes (suc width) n = ap suc (length-le_bytes width (n / 256))

tail_of : List ℕ → List ℕ
tail_of [] = []
tail_of (x ∷ xs) = xs

head_of : List ℕ → ℕ
head_of [] = 0
head_of (x ∷ xs) = x

le_bytes-injective :
    (width n m : ℕ)
    → n < byte_bound width
    → m < byte_bound width
    → le_bytes width n ≡ le_bytes width m
    → n ≡ m
unfolding le_bytes byte_bound head_of tail_of
le_bytes-injective zero n m ln lm e = omega arith
le_bytes-injective (suc width) n m ln lm e =
    let low : n % 256 ≡ m % 256 = ap head_of e in
    let high : n / 256 ≡ m / 256 =
      le_bytes-injective width (n / 256) (m / 256) (omega arith) (omega arith) (ap tail_of e) in
    omega arith

append_split :
    (xs ys us vs : List ℕ) → length xs ≡ length us → xs ++ ys ≡ us ++ vs → (xs ≡ us) × (ys ≡ vs)
unfolding head_of tail_of
append_split [] ys [] vs same e = (refl, e)
append_split [] ys (u ∷ us) vs same e = absurd (omega arith)
append_split (x ∷ xs) ys [] vs same e = absurd (omega arith)
append_split (x ∷ xs) ys (u ∷ us) vs same e =
    let (front, back) = append_split xs ys us vs (omega arith) (ap tail_of e) in
    ((λ i. ap head_of e i ∷ front i), back)

txid_bytes-injective :
    (t u : Txid) → t < 2 ^ 256 → u < 2 ^ 256 → txid_bytes t ≡ txid_bytes u → t ≡ u
unfolding txid_bytes byte_bound
txid_bytes-injective t u lt lu e =
    le_bytes-injective 32 t u lt lu
      (sym (reverse-reverse (le_bytes 32 t)) ∙ ap reverse e ∙ reverse-reverse (le_bytes 32 u))

length-txid_bytes : (t : Txid) → length (txid_bytes t) ≡ 32
unfolding txid_bytes
length-txid_bytes t = length-reverse (le_bytes 32 t) ∙ length-le_bytes 32 t

-- For one observer, the bytes that the code hashes for the names of two epochs differ unless the transaction and
-- the number of the epoch are the same (ADR 0003 describes other bytes).
pub epoch_preimage-injective :
    (source_id : String) (t u : Txid) (n m : ℕ)
    → t < 2 ^ 256
    → u < 2 ^ 256
    → n < 2 ^ 64
    → m < 2 ^ 64
    → epoch_preimage source_id t n ≡ epoch_preimage source_id u m
    → (t ≡ u) × (n ≡ m)
unfolding epoch_preimage byte_bound
epoch_preimage-injective source_id t u n m lt lu ln lm e =
    let e1 = append_cancel_left (text_bytes "multichain.bitcoin.mempool.epoch.v1") _ _ e in
    let e2 = append_cancel_left (le_bytes 8 (min (length (text_bytes source_id)) u64_max)) _ _ e1 in
    let e3 = append_cancel_left (text_bytes source_id) _ _ e2 in
    let (ids, numbers) =
      append_split (txid_bytes t) (le_bytes 8 n) (txid_bytes u) (le_bytes 8 m)
        (length-txid_bytes t ∙ sym (length-txid_bytes u)) e3 in
    (txid_bytes-injective t u lt lu ids, le_bytes-injective 8 n m ln lm numbers)
