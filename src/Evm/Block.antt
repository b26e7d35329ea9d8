-- ===== src/Evm/Block.antt =====
-- What both trackers share: execution blocks, and the walk from a block towards its ancestors.
-- A `B256` is the number that its 32 bytes stand for.
use multichain_rs.Prelude.{
  ℕ, zero, suc, Bool, true, false, ◌||◌, not, Option, none, some, List, [], ◌∷◌, ltb, if◌then◌else◌,
  ◌==◌, nat_eq, string_eq, option_eq, saturating_add,
}
use multichain_rs.Dict
use multichain_rs.Dict.{Dict}

abbrev pub B256 : Type 0
B256 = ℕ

pub record ExecutionBlock : Type 0 where
  pub number : ℕ
  pub hash : B256
  pub parent_hash : B256

abbrev pub Blocks : Type 0
Blocks = Dict B256 ExecutionBlock

abbrev pub Heights : Type 0
Heights = Dict ℕ B256

-- The `while` of `is_ancestor`: from `at` to the parents of `at`, until the number is no longer
-- above `bound`; then, whether the walk stands at `target`. `none`: the fuel ran out.
unfoldable pub climb : ℕ → Blocks → ℕ → B256 → ExecutionBlock → Option Bool
climb zero blocks bound target at = if ltb bound at.number then none else some (at.hash == target)
climb (suc fuel) blocks bound target at = elim (ltb bound at.number) [
  | true ↦ elim (Dict.get blocks at.parent_hash) [
    | none ↦ some false
    | some parent ↦ climb fuel blocks bound target parent
  ]
  | false ↦ some (at.hash == target)
]

-- A walk in which each parent is lower than its child takes at most as many steps as the number
-- of the block where it begins.
unfoldable pub climb_from :
    Blocks → B256 → Option ExecutionBlock → Option ExecutionBlock → Option Bool
climb_from blocks ancestor (some a) (some d) = climb d.number blocks a.number ancestor d
climb_from blocks ancestor _ _ = some false

unfoldable pub is_ancestor : Blocks → B256 → B256 → Option Bool
unfolding climb_from
is_ancestor blocks ancestor descendant =
    climb_from blocks ancestor (Dict.get blocks ancestor) (Dict.get blocks descendant)

-- `blocks.windows(2)`: each block has the next number and names the one before it as its parent.
unfoldable pub is_contiguous : List ExecutionBlock → Bool
is_contiguous [] = true
is_contiguous (a ∷ []) = true
is_contiguous (a ∷ b ∷ rest) =
    if not (b.number == saturating_add a.number 1) || not (b.parent_hash == a.hash)
    then false
    else is_contiguous (b ∷ rest)

-- Every block is the canonical one of its number.
unfoldable pub is_canonical_at : Heights → ExecutionBlock → Bool
is_canonical_at canonical block = elim (Dict.get canonical block.number) [
  | none ↦ false
  | some hash ↦ hash == block.hash
]

-- `option.map(|block| block.hash)`
abbrev pub hash_of : Option ExecutionBlock → Option B256
hash_of none = none
hash_of (some b) = some b.hash
