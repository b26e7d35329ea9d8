-- ===== src/Solana/State.antt =====
-- The state of the Solana tracker, its paths from a fork to the root, and its revision numbers
-- (`SolanaCanonicality`, processors/solana-canonicality/src/lib.rs).
use multichain_rs.Prelude.{
  ℕ, zero, suc, Bool, Option, none, some, List, [], ◌∷◌, ◌==◌, nat_eq, string_eq, option_eq,
  checked_add, any, list_eq,
}
use multichain_rs.Dict
use multichain_rs.Dict.{Dict}
use multichain_rs.Exec.{Outcome, ok, err, diverge, Exec, ok_or, and_then}
use multichain_rs.Solana.Fork.{commitment_eq, ForkId, fork_eq, ForkNode, SolanaError}
use multichain_rs.Solana.Accounts.{AccountMap}

abbrev pub Nodes : Type 0
Nodes = Dict ForkId ForkNode

pub record SolanaCanonicality : Type 0 where
  pub nodes : Nodes
  pub root : Option ForkId
  pub active_tip : Option ForkId
  pub accounts : AccountMap
  pub revision : ℕ

-- `SolanaCanonicality::new`
abbrev pub new_solana : SolanaCanonicality
new_solana = record {
  nodes = Dict.empty;
  root = none;
  active_tip = none;
  accounts = Dict.empty;
  revision = 0;
}

abbrev pub Run : Type 0 → Type 0
Run A = Exec SolanaError SolanaCanonicality A

-- `self.nodes.get(fork_id).ok_or(UnknownFork)`
unfoldable pub node : ForkId → SolanaCanonicality → Outcome SolanaError ForkNode
node fork_id s = ok_or SolanaError.unknown_fork (Dict.get s.nodes fork_id)

-- A change of one node of the map, which `get_mut` finds.
unfoldable pub set_node : ForkId → (ForkNode → ForkNode) → Nodes → Nodes
set_node fork_id change nodes = elim (Dict.get nodes fork_id) [
  | none ↦ nodes
  | some n ↦ Dict.insert nodes fork_id (change n)
]

-- The loop of `path_to_root`, with what is left of the path's fuel.
unfoldable pub path : ℕ → Nodes → ForkId → Option (List ForkId)
path zero nodes fork = none
path (suc fuel) nodes fork = elim (Dict.get nodes fork) [
  | none ↦ some (fork ∷ [])
  | some n ↦ elim n.parent [
    | none ↦ some (fork ∷ [])
    | some up ↦ elim (path fuel nodes up) [ none ↦ none | some rest ↦ some (fork ∷ rest) ]
  ]
]

-- `path_to_root`: a path goes down by at least one slot at each step.
unfoldable pub path_to_root : ForkId → SolanaCanonicality → Outcome SolanaError (List ForkId)
unfolding path
path_to_root tip s = elim (path (suc tip.slot) s.nodes tip) [
  | none ↦ diverge
  | some forks ↦ ok forks
]

-- `contains` of a path
abbrev pub on_path : ForkId → List ForkId → Bool
on_path fork forks = any (λ f. f == fork) forks

-- `is_ancestor`
unfoldable pub is_ancestor : ForkId → ForkId → SolanaCanonicality → Outcome SolanaError Bool
unfolding path_to_root
is_ancestor ancestor descendant s =
    and_then (path_to_root descendant s) λ forks. ok (on_path ancestor forks)

-- `next_revision`
unfoldable pub next_revision : Run Unit
next_revision s = elim (checked_add s.revision 1) [
  | none ↦ (err SolanaError.revision_overflow, s)
  | some n ↦ (ok tt, record s { revision = n })
]
