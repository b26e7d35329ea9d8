-- ===== src/Solana/Accounts.antt =====
-- The account projection: writes with what they overwrite, and taking them back (`apply_write` and
-- the loops of `apply_node` and `revert_node`, processors/solana-canonicality/src/lib.rs).
use multichain_rs.Prelude.{
  ℕ, ◌≡◌, refl, inl, inr, none, some, List, [], ◌∷◌, arith, if◌then◌else◌, ◌==◌, nat_eq, string_eq,
  option_eq, Option-cases,
}
use multichain_rs.Dict
use multichain_rs.Dict.{Dict, get-insert, get-remove}
use multichain_rs.Solana.Fork.{AccountWrite, AccountState, AccountUndo, from_write}

abbrev pub AccountMap : Type 0
AccountMap = Dict ℕ AccountState

-- `apply_write`
unfoldable pub apply_write : AccountWrite → AccountMap → AccountUndo × AccountMap
apply_write w accounts = (
  record { pubkey = w.pubkey; previous = Dict.get accounts w.pubkey },
  Dict.insert accounts w.pubkey (from_write w),
)

-- The loop of `apply_node`
unfoldable pub apply_writes : List AccountWrite → AccountMap → List AccountUndo × AccountMap
unfolding apply_write
apply_writes [] accounts = ([], accounts)
apply_writes (w ∷ more) accounts =
    let first = apply_write w accounts in
    let rest = apply_writes more first.1 in (first.0 ∷ rest.0, rest.1)

-- One turn of the loop of `revert_node`
unfoldable pub revert_write : AccountUndo → AccountMap → AccountMap
revert_write undo accounts = elim undo.previous [
  | some previous ↦ Dict.insert accounts undo.pubkey previous
  | none ↦ Dict.remove accounts undo.pubkey
]

-- The loop of `revert_node`, the last one first
unfoldable pub revert_writes : List AccountUndo → AccountMap → AccountMap
unfolding revert_write
revert_writes [] accounts = accounts
revert_writes (undo ∷ more) accounts = revert_write undo (revert_writes more accounts)

pub get-revert_write :
    (undo : AccountUndo) (accounts : AccountMap) (p : ℕ)
    → Dict.get (revert_write undo accounts) p
      ≡ (if undo.pubkey == p then undo.previous else Dict.get accounts p)
unfolding revert_write
get-revert_write undo accounts p = elim (Option-cases undo.previous) [
  | inl fresh ↦ rw (revert_write, fresh) (get-remove accounts undo.pubkey p)
  | inr (old, was) ↦ rw (revert_write, was) (get-insert accounts undo.pubkey p old)
]

-- Taking back what a list of writes did gives every account its value from before.
pub revert-apply_writes :
    (writes : List AccountWrite) (accounts : AccountMap) (p : ℕ)
    → Dict.get (revert_writes (apply_writes writes accounts).0 (apply_writes writes accounts).1) p
      ≡ Dict.get accounts p
unfolding apply_writes revert_writes
revert-apply_writes [] accounts p = refl
revert-apply_writes (w ∷ more) accounts p =
    let (undo, after) = apply_write w accounts in
    let rest = apply_writes more after in
    ground (
      arith,
      get-revert_write undo (revert_writes rest.0 rest.1) p,
      revert-apply_writes more after p,
      get-insert accounts w.pubkey p (from_write w),
    )
