-- ===== src/Solana/Tracker/Outline.antt =====
-- What the account side of the Solana tracker leaves alone: parents and commitments of the forks.
use multichain_rs.Prelude.{
  ◌≡◌, refl, sym, ap, ◌∙◌, inl, inr, Option, none, some, List, [], ◌∷◌, ◌++◌, reverse, arith, ◌==◌,
  nat_eq, string_eq, option_eq, Bool-cases, Option-cases,
}
use multichain_rs.Dict
use multichain_rs.Dict.{Dict, get-insert}
use multichain_rs.Exec.{Outcome, ok, err, panic, diverge, reads, modify, continue, ◌>>=◌, ◌>>◌}
use multichain_rs.Solana.Fork.{
  Commitment, ForkId, fork_eq, same_fork_iff, ForkNode, SolanaError, TransactionKey, AccountWrite,
  commitment_eq,
}
use multichain_rs.Solana.Accounts.{apply_write, apply_writes}
use multichain_rs.Solana.Tracker.{
  Nodes, SolanaCanonicality, Run, node, set_node, apply_node, revert_node, apply_nodes,
  revert_nodes, optional_path, common_fork, below_common, check_target, switch, move_along,
  retarget, activate_optional, record_transaction, record_account_write, check_write, apply_at_tip,
  apply_if_active, add_to_journal, journal_write, add_transaction,
}

abbrev pub outline_of : Option ForkNode → Option (Option ForkId × Commitment)
outline_of none = none
outline_of (some n) = some (n.parent, n.commitment)

-- Parent and commitment of a fork.
abbrev pub outline : Nodes → ForkId → Option (Option ForkId × Commitment)
outline nodes fork = outline_of (Dict.get nodes fork)

module _ (nodes : Nodes) (fork : ForkId) (n m : ForkNode) where
  pub outline-insert :
      Dict.get nodes fork ≡ some n
      → m.parent ≡ n.parent
      → m.commitment ≡ n.commitment
      → (f : ForkId) → outline (Dict.insert nodes fork m) f ≡ outline nodes f
  outline-insert there same_parent same_commit f = elim (Bool-cases (fork == f)) [
    | inl same ↦
        let at : fork ≡ f = (same_fork_iff fork f).0 same in
        let found : Dict.get nodes f ≡ some n = sym (ap (Dict.get nodes) at) ∙ there in
        let set : Dict.get (Dict.insert nodes fork m) f ≡ some m =
          get-insert nodes fork f m ∙ rw same refl in
        ap outline_of set ∙ (λ i. some (same_parent i, same_commit i)) ∙ sym (ap outline_of found)
    | inr other ↦
        let kept : Dict.get (Dict.insert nodes fork m) f ≡ Dict.get nodes f =
          get-insert nodes fork f m ∙ rw other refl in
        ap outline_of kept
  ]

pub outline-set_node :
    (fork : ForkId) (change : ForkNode → ForkNode) (nodes : Nodes)
    → ((n : ForkNode) → (change n).parent ≡ n.parent)
    → ((n : ForkNode) → (change n).commitment ≡ n.commitment)
    → (f : ForkId) → outline (set_node fork change nodes) f ≡ outline nodes f
unfolding set_node
outline-set_node fork change nodes same_parent same_commit f =
    elim (Option-cases (Dict.get nodes fork)) [
      | inl gone ↦ rw (set_node, gone) refl
      | inr (n, there) ↦
          rw (set_node, there)
            (outline-insert nodes fork n (change n) there (same_parent n) (same_commit n) f)
    ]

-- A call that leaves every fork's outline as it is, however it ends.
abbrev pub Keeps :
    {A : Type 0} → (SolanaCanonicality → Outcome SolanaError A × SolanaCanonicality) → Type 0
Keeps m = (s : SolanaCanonicality) (f : ForkId) → outline (m s).1.nodes f ≡ outline s.nodes f

module _ {A B : Type 0} where
  pub continue-Keeps :
      (o : Outcome SolanaError A) (g : A → Run B) (s : SolanaCanonicality) (f : ForkId)
      → ((a : A) → Keeps (g a))
      → outline (continue o g s).1.nodes f ≡ outline s.nodes f
  continue-Keeps (ok a) g s f k = k a s f
  continue-Keeps (err e) g s f k = refl
  continue-Keeps panic g s f k = refl
  continue-Keeps diverge g s f k = refl

  pub bind-Keeps : (m : Run A) (g : A → Run B) → Keeps m → ((a : A) → Keeps (g a)) → Keeps (m >>= g)
  bind-Keeps m g km kg s f = continue-Keeps (m s).0 g (m s).1 f kg ∙ km s f

  -- The first call only reads.
  pub reads-Keeps :
      (r : SolanaCanonicality → Outcome SolanaError A) (g : A → Run B)
      → ((a : A) → Keeps (g a))
      → Keeps (reads r >>= g)
  reads-Keeps r g kg s f = continue-Keeps (r s) g s f kg

apply_node-Keeps : (fork : ForkId) → Keeps (apply_node fork)
unfolding apply_node node
apply_node-Keeps fork s f = elim (Option-cases (Dict.get s.nodes fork)) [
  | inl gone ↦ rw (apply_node, node, gone) refl
  | inr (n, there) ↦
      rw (apply_node, node, there)
        (outline-insert s.nodes fork n
          (record n { applied_undo = (apply_writes n.writes s.accounts).0 }) there refl refl f)
]

revert_node-Keeps : (fork : ForkId) → Keeps (revert_node fork)
unfolding revert_node node
revert_node-Keeps fork s f = elim (Option-cases (Dict.get s.nodes fork)) [
  | inl gone ↦ rw (revert_node, node, gone) refl
  | inr (n, there) ↦
      rw (revert_node, node, there)
        (outline-insert s.nodes fork n (record n { applied_undo = [] }) there refl refl f)
]

apply_nodes-Keeps : (forks : List ForkId) → Keeps (apply_nodes forks)
unfolding apply_nodes
apply_nodes-Keeps [] s f = refl
apply_nodes-Keeps (fork ∷ more) s f =
    bind-Keeps (apply_node fork) (λ _. apply_nodes more) (apply_node-Keeps fork)
      (λ _. apply_nodes-Keeps more) s f

revert_nodes-Keeps : (forks : List ForkId) → Keeps (revert_nodes forks)
unfolding revert_nodes
revert_nodes-Keeps [] s f = refl
revert_nodes-Keeps (fork ∷ more) s f =
    bind-Keeps (revert_node fork) (λ _. revert_nodes more) (revert_node-Keeps fork)
      (λ _. revert_nodes-Keeps more) s f

move_along-Keeps :
    (from_path to_path : List ForkId) (target : Option ForkId)
    → Keeps (move_along from_path to_path target)
unfolding move_along
move_along-Keeps from_path to_path target =
    let common = common_fork from_path to_path in
    let reverts = revert_nodes (below_common common from_path) in
    let applies = apply_nodes (reverse (below_common common to_path)) in
    bind-Keeps (reverts >> applies) (λ _. modify λ s. record s { active_tip = target })
      (bind-Keeps reverts (λ _. applies) (revert_nodes-Keeps (below_common common from_path))
        (λ _. apply_nodes-Keeps (reverse (below_common common to_path))))
      (λ _ s f. refl)

switch-Keeps : (target : Option ForkId) → Keeps (switch target)
unfolding switch
switch-Keeps target s f =
    continue-Keeps (optional_path s.active_tip s)
      (λ from_path. reads (optional_path target) >>= λ to_path. move_along from_path to_path target)
      s f
      (λ from_path s1 f1.
        continue-Keeps (optional_path target s1) (λ to_path. move_along from_path to_path target) s1
          f1 (λ to_path. move_along-Keeps from_path to_path target))

retarget-Keeps : (target : Option ForkId) → Keeps (retarget target)
unfolding retarget
retarget-Keeps target s f = elim (Bool-cases (s.active_tip == target)) [
  | inl same ↦ rw (retarget, same) refl
  | inr other ↦ rw (retarget, other) (switch-Keeps target s f)
]

pub activate_optional-Keeps : (target : Option ForkId) → Keeps (activate_optional target)
unfolding activate_optional
activate_optional-Keeps target s f =
    continue-Keeps (check_target target s) (λ _. retarget target) s f (λ _. retarget-Keeps target)

add_transaction-outline :
    (key : TransactionKey) (n : ForkNode)
    → ((add_transaction key n).parent ≡ n.parent)
      × ((add_transaction key n).commitment ≡ n.commitment)
unfolding add_transaction
add_transaction-outline key n = (ground arith, ground arith)

pub record_transaction-Keeps : (key : TransactionKey) → Keeps (record_transaction key)
unfolding record_transaction node
record_transaction-Keeps key s f = elim (Option-cases (Dict.get s.nodes key.fork_id)) [
  | inl gone ↦ rw (record_transaction, node, gone) refl
  | inr (n, there) ↦
      let (same_parent, same_commit) = add_transaction-outline key n in
      let kept =
        outline-insert s.nodes key.fork_id n (add_transaction key n) there same_parent same_commit
          f in
      rw (record_transaction, node, there)
        (elim (Bool-cases (n.commitment == Commitment.dead)) [
          | inl died ↦ rw died refl
          | inr alive ↦ rw alive kept
        ])
]

add_to_journal-outline :
    (write : AccountWrite) (s : SolanaCanonicality) (f : ForkId)
    → outline (add_to_journal write s).nodes f ≡ outline s.nodes f
unfolding add_to_journal journal_write
add_to_journal-outline write s f =
    outline-set_node write.fork_id (journal_write write) s.nodes (λ n. refl) (λ n. refl) f

apply_if_active-outline :
    (write : AccountWrite) (s : SolanaCanonicality) (f : ForkId)
    → outline (apply_if_active write s).nodes f ≡ outline s.nodes f
unfolding apply_if_active apply_at_tip
apply_if_active-outline write s f = elim (Bool-cases (s.active_tip == some write.fork_id)) [
  | inl active ↦
      rw (apply_if_active, active)
        (outline-set_node write.fork_id
          (λ n. record n { applied_undo = n.applied_undo ++ (apply_write write s.accounts).0 ∷ [] })
          s.nodes (λ n. refl) (λ n. refl) f)
  | inr other ↦ rw (apply_if_active, other) refl
]

pub record_account_write-Keeps : (write : AccountWrite) → Keeps (record_account_write write)
unfolding record_account_write
record_account_write-Keeps write s f =
    continue-Keeps (check_write write s)
      (λ _. modify λ s. add_to_journal write (apply_if_active write s)) s f
      (λ _ s1 f1.
        add_to_journal-outline write (apply_if_active write s1) f1
        ∙ apply_if_active-outline write s1 f1)
