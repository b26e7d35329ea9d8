-- ===== src/Solana/Tracker.antt =====
-- `SolanaCanonicality` (processors/solana-canonicality/src/lib.rs).
pub mod Outline
pub mod Advances
pub mod Kill
pub mod Commitments
pub mod Paths
pub mod Undo
pub mod Burial
pub mod Descent
mod Tests
use multichain_rs.Prelude.{
  ℕ, zero, suc, ◌+◌, ◌-◌, ◌*◌, ◌/◌, ◌%◌, ◌^◌, ◌≤◌, ◌<◌, min, String, ◌≡◌, refl, sym, ap, ◌∙◌,
  fun_ext, ◌≢◌, ◌↔◌, ◌⊎◌, inl, inr, Bool, true, false, ◌&&◌, ◌||◌, not, Option, none, some, List,
  [], ◌∷◌, ◌++◌, map, reverse, arith, ltb, leb, nat_beq, if◌then◌else◌, Eq, ◌==◌, nat_beq_iff,
  nat_eq, string_eq, option_beq, option_beq_iff, option_eq, Bool-cases, Option-cases, u64_max,
  saturating_add, checked_add, length, length-append, length-reverse, any, all, last?, All,
  All-append, is_whitespace, is_blank, is_ascii, list_eq, list_beq, list_beq_iff,
}
use multichain_rs.Dict
use multichain_rs.Dict.{Dict}
use multichain_rs.Exec.{
  Outcome, ok, err, panic, diverge, Exec, pure, raise, reads, current, modify, ok_or, ensure,
  and_then, or_else, negated, continue, ◌>>=◌, ◌>>◌,
}
use multichain_rs.Solana.Fork.{
  Commitment, rank, commitment_eq, ForkId, fork_eq, same_key, TransactionKey, CommitmentRevision,
  AccountWrite, AccountState, AccountUndo, ForkNode, SolanaError,
}
use multichain_rs.Solana.Accounts.{AccountMap, apply_write, apply_writes, revert_writes}
pub use multichain_rs.Solana.State.{Nodes, SolanaCanonicality, new_solana, Run, on_path}
unfoldable pub use multichain_rs.Solana.State.{
  node, set_node, path, path_to_root, is_ancestor, next_revision,
}
unfoldable pub use multichain_rs.Solana.Activate.{
  apply_node, revert_node, revert_nodes, apply_nodes, common_fork, below_common, optional_path,
  check_target, move_along, switch, retarget, activate_optional, activate,
}

-- The conditions of `observe_slot` on a fork that is new.
pub check_parent : ForkId → Option ForkId → SolanaCanonicality → Outcome SolanaError Unit
check_parent fork_id none s = elim s.root [ none ↦ ok tt | some _ ↦ err SolanaError.multiple_roots ]
check_parent fork_id (some parent_id) s =
    and_then (ok_or SolanaError.unknown_parent (Dict.get s.nodes parent_id)) λ parent_node.
      if parent_node.commitment == Commitment.dead
      then err SolanaError.dead_parent
      else if leb fork_id.slot parent_id.slot
      then err SolanaError.non_increasing_slot
      else ok tt

abbrev pub new_node : Option ForkId → ForkNode
new_node parent = record {
  parent = parent;
  commitment = Commitment.received;
  transactions = [];
  writes = [];
  last_write_version = none;
  applied_undo = [];
}

-- What `observe_slot` stores for a new fork.
pub add_fork : ForkId → Option ForkId → SolanaCanonicality → SolanaCanonicality
add_fork fork_id parent s = record s {
  root = elim parent [ none ↦ some fork_id | some _ ↦ s.root ];
  nodes = Dict.insert s.nodes fork_id (new_node parent);
}

pub observe_slot : ForkId → Option ForkId → Run Unit
unfolding check_parent add_fork
observe_slot fork_id parent s = elim (Dict.get s.nodes fork_id) [
  | some existing ↦
      if existing.parent == parent
      then (ok tt, s)
      else (err SolanaError.conflicting_fork_identity, s)
  | none ↦ (reads (check_parent fork_id parent) >> modify (add_fork fork_id parent)) s
]

-- `keys().filter(|candidate| self.is_ancestor(fork_id, candidate))`
pub descendants : ForkId → List ForkId → SolanaCanonicality → Outcome SolanaError (List ForkId)
unfolding is_ancestor
descendants fork_id [] s = ok []
descendants fork_id (candidate ∷ more) s =
    let rest = descendants fork_id more s in
    and_then (is_ancestor fork_id candidate s)
      λ below. and_then rest λ others. ok (if below then candidate ∷ others else others)

abbrev pub is_finalized_fork : SolanaCanonicality → ForkId → Bool
is_finalized_fork s fork = elim (Dict.get s.nodes fork) [
  | none ↦ false
  | some n ↦ n.commitment == Commitment.finalized
]

-- The loop of `mark_dead`
pub kill : List ForkId → Nodes → Nodes
unfolding set_node
kill [] nodes = nodes
kill (fork ∷ more) nodes =
    kill more (set_node fork (λ n. record n { commitment = Commitment.dead }) nodes)

-- `active_tip.is_some_and(|active| self.is_ancestor(fork_id, active))`
pub active_below : ForkId → SolanaCanonicality → Outcome SolanaError Bool
unfolding is_ancestor
active_below fork_id s = elim s.active_tip [
  | none ↦ ok false
  | some active ↦ is_ancestor fork_id active s
]

-- The active projection leaves a fork's subtree for the fork's parent.
pub leave_subtree : ForkId → Option ForkId → Run Unit
unfolding active_below activate_optional
leave_subtree fork_id parent =
    reads (active_below fork_id) >>= λ within. if within then activate_optional parent else pure tt

-- The end of `mark_dead`
pub announce : ForkId → Commitment → Commitment → Run (Option CommitmentRevision)
unfolding next_revision
announce fork_id before after = next_revision >>= λ _ s.
    (ok (some (record { revision = s.revision; fork_id = fork_id; from = before; to = after })), s)

-- `mark_dead` once the subtree is known
pub bury : ForkId → ForkNode → List ForkId → Run (Option CommitmentRevision)
unfolding leave_subtree kill announce
bury fork_id n dead s =
    if any (is_finalized_fork s) dead
    then (err SolanaError.finalized_fork_would_die, s)
    else (leave_subtree fork_id n.parent
          >> modify (λ s. record s { nodes = kill dead s.nodes })
          >> announce fork_id n.commitment Commitment.dead)
        s

-- `mark_dead` of a fork that is neither dead nor finalized
pub mark_subtree_dead : ForkId → ForkNode → Run (Option CommitmentRevision)
unfolding descendants bury
mark_subtree_dead fork_id n =
    reads (λ s. descendants fork_id (Dict.keys s.nodes) s) >>= bury fork_id n

pub mark_dead : ForkId → Run (Option CommitmentRevision)
unfolding node mark_subtree_dead
mark_dead fork_id = do
  n ← reads (node fork_id)
  (if n.commitment == Commitment.dead
      then pure none
      else if n.commitment == Commitment.finalized
      then raise SolanaError.finalized_fork_would_die
      else mark_subtree_dead fork_id n)

-- The derived `<` of `Option<u8>`: `None` is the least.
abbrev pub rank_ltb : Option ℕ → Option ℕ → Bool
rank_ltb none none = false
rank_ltb none (some b) = true
rank_ltb (some a) none = false
rank_ltb (some a) (some b) = ltb a b

-- `observe_commitment` from the revision on: the number is taken before the commitment is stored.
pub set_commitment : ForkId → Commitment → Commitment → Run (Option CommitmentRevision)
unfolding next_revision set_node
set_commitment fork_id before commitment = next_revision >>= λ _ s. (
  ok (some (record { revision = s.revision; fork_id = fork_id; from = before; to = commitment })),
  record s { nodes = set_node fork_id (λ n. record n { commitment = commitment }) s.nodes },
)

-- `observe_commitment` of a commitment that is not death
pub advance : ForkId → Commitment → Run (Option CommitmentRevision)
unfolding node set_commitment
advance fork_id commitment = do
  n ← reads (node fork_id)
  (if n.commitment == commitment
      then pure none
      else if n.commitment == Commitment.dead
      then raise SolanaError.dead_fork
      else if rank_ltb (rank commitment) (rank n.commitment)
      then raise SolanaError.commitment_regression
      else set_commitment fork_id n.commitment commitment)

pub observe_commitment : ForkId → Commitment → Run (Option CommitmentRevision)
unfolding mark_dead advance
observe_commitment fork_id commitment =
    if commitment == Commitment.dead then mark_dead fork_id else advance fork_id commitment

-- `transactions.insert(key)`: the set with the key in it
pub add_transaction : TransactionKey → ForkNode → ForkNode
add_transaction key n =
    if any (same_key key) n.transactions
    then n
    else record n { transactions = key ∷ n.transactions }

-- The answer is whether the key is new.
pub record_transaction : TransactionKey → Run Bool
unfolding node add_transaction
record_transaction key = do
  n ← reads (node key.fork_id)
  reads λ s. ensure (not (n.commitment == Commitment.dead)) SolanaError.dead_fork
  modify λ s. record s { nodes = Dict.insert s.nodes key.fork_id (add_transaction key n) }
  pure (not (any (same_key key) n.transactions))

pub check_write : AccountWrite → SolanaCanonicality → Outcome SolanaError Unit
unfolding node
check_write write s = and_then (node write.fork_id s) λ n.
    if n.commitment == Commitment.dead
    then err SolanaError.dead_fork
    else elim n.last_write_version [
      | none ↦ ok tt
      | some version ↦
          if leb write.write_version version
          then err SolanaError.write_version_regression
          else ok tt
    ]

-- The write at the active tip: it is applied, and what it overwrote is kept with the fork.
pub apply_at_tip : AccountWrite → SolanaCanonicality → SolanaCanonicality
unfolding set_node
apply_at_tip write s =
    let done = apply_write write s.accounts in
    record s {
      accounts = done.1;
      nodes =
          set_node write.fork_id (λ n. record n { applied_undo = n.applied_undo ++ done.0 ∷ [] })
            s.nodes;
    }

pub journal_write : AccountWrite → ForkNode → ForkNode
journal_write write n = record n {
  last_write_version = some write.write_version;
  writes = n.writes ++ write ∷ [];
}

pub apply_if_active : AccountWrite → SolanaCanonicality → SolanaCanonicality
unfolding apply_at_tip
apply_if_active write s = if s.active_tip == some write.fork_id then apply_at_tip write s else s

pub add_to_journal : AccountWrite → SolanaCanonicality → SolanaCanonicality
unfolding set_node journal_write
add_to_journal write s = record s { nodes = set_node write.fork_id (journal_write write) s.nodes }

pub record_account_write : AccountWrite → Run Unit
unfolding check_write apply_if_active add_to_journal
record_account_write write =
    reads (check_write write) >> modify λ s. add_to_journal write (apply_if_active write s)

-- `commitment`
pub commitment : SolanaCanonicality → ForkId → Option Commitment
commitment s fork_id = elim (Dict.get s.nodes fork_id) [ none ↦ none | some n ↦ some n.commitment ]
