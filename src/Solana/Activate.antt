-- ===== src/Solana/Activate.antt =====
-- The switch of the account projection from one fork to another (`activate`, `apply_node` and
-- `revert_node`, processors/solana-canonicality/src/lib.rs).
use multichain_rs.Prelude.{
  Option, none, some, List, [], ◌∷◌, reverse, if◌then◌else◌, ◌==◌, nat_eq, string_eq, option_eq,
  list_eq,
}
use multichain_rs.Dict
use multichain_rs.Dict.{Dict}
use multichain_rs.Exec.{Outcome, ok, err, pure, reads, modify, and_then, ◌>>=◌, ◌>>◌}
use multichain_rs.Solana.Fork.{Commitment, commitment_eq, ForkId, fork_eq, SolanaError}
use multichain_rs.Solana.Accounts.{apply_writes, revert_writes}
use multichain_rs.Solana.State.{SolanaCanonicality, Run, node, path_to_root, on_path}

-- One step of `apply_node`: the node's writes are applied and what they overwrote is kept with it.
unfoldable pub apply_node : ForkId → Run Unit
unfolding node
apply_node fork_id = do
  n ← reads (node fork_id)
  modify λ s.
      (let done = apply_writes n.writes s.accounts in
        record s {
          accounts = done.1;
          nodes = Dict.insert s.nodes fork_id (record n { applied_undo = done.0 });
        })

unfoldable pub revert_node : ForkId → Run Unit
unfolding node
revert_node fork_id = do
  n ← reads (node fork_id)
  modify λ s. record s {
    accounts = revert_writes n.applied_undo s.accounts;
    nodes = Dict.insert s.nodes fork_id (record n { applied_undo = [] });
  }

-- The loops of `activate_optional`
unfoldable pub revert_nodes : List ForkId → Run Unit
unfolding revert_node
revert_nodes [] = pure tt
revert_nodes (fork ∷ more) = revert_node fork >> revert_nodes more

unfoldable pub apply_nodes : List ForkId → Run Unit
unfolding apply_node
apply_nodes [] = pure tt
apply_nodes (fork ∷ more) = apply_node fork >> apply_nodes more

-- `current_path.iter().find(…)`: the first fork that is on the other path too.
unfoldable pub common_fork : List ForkId → List ForkId → Option ForkId
common_fork [] target_path = none
common_fork (fork ∷ more) target_path =
    if on_path fork target_path then some fork else common_fork more target_path

-- `take_while(|candidate| Some(candidate) != common)`
unfoldable pub below_common : Option ForkId → List ForkId → List ForkId
below_common common [] = []
below_common common (fork ∷ more) =
    let rest = below_common common more in if some fork == common then [] else fork ∷ rest

-- `map_or_else(Vec::new, path_to_root)`
unfoldable pub optional_path :
    Option ForkId → SolanaCanonicality → Outcome SolanaError (List ForkId)
unfolding path_to_root
optional_path none s = ok []
optional_path (some tip) s = path_to_root tip s

unfoldable pub check_target : Option ForkId → SolanaCanonicality → Outcome SolanaError Unit
unfolding node
check_target none s = ok tt
check_target (some target) s =
    and_then (node target s)
      λ n. if n.commitment == Commitment.dead then err SolanaError.dead_fork else ok tt

-- `activate_optional` with both paths at hand
unfoldable pub move_along : List ForkId → List ForkId → Option ForkId → Run Unit
unfolding common_fork below_common revert_nodes apply_nodes
move_along current_path target_path target =
    let common = common_fork current_path target_path in
    revert_nodes (below_common common current_path)
    >> apply_nodes (reverse (below_common common target_path))
    >> modify λ s. record s { active_tip = target }

-- `activate_optional` once the target is another one.
unfoldable pub switch : Option ForkId → Run Unit
unfolding optional_path move_along
switch target = do
  current_path ← reads λ s. optional_path s.active_tip s
  target_path ← reads (optional_path target)
  move_along current_path target_path target

unfoldable pub retarget : Option ForkId → Run Unit
unfolding switch
retarget target s = if s.active_tip == target then (ok tt, s) else switch target s

unfoldable pub activate_optional : Option ForkId → Run Unit
unfolding check_target retarget
activate_optional target = reads (check_target target) >> retarget target

unfoldable pub activate : ForkId → Run Unit
unfolding activate_optional
activate fork_id = activate_optional (some fork_id)
