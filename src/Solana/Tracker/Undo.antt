-- ===== src/Solana/Tracker/Undo.antt =====
-- The journals of the Solana tracker: what a fork's writes did to the accounts can be taken back.
use multichain_rs.Prelude.{
  ℕ, ◌≡◌, refl, sym, ap, ◌∙◌, some, List, [], ◌∷◌, ◌++◌, arith, if◌then◌else◌, ◌==◌, nat_eq,
  string_eq, option_beq_iff, option_eq,
}
use multichain_rs.Dict
use multichain_rs.Dict.{Dict, get-insert}
use multichain_rs.Exec.{Outcome, ok, err, panic, diverge, ◌>>◌}
use multichain_rs.Solana.Fork.{
  ForkId, fork_eq, same_fork_iff, ForkNode, SolanaError, AccountWrite, AccountUndo, from_write,
}
use multichain_rs.Solana.Accounts.{
  AccountMap, apply_write, apply_writes, revert_write, revert_writes, get-revert_write,
  revert-apply_writes,
}
use multichain_rs.Solana.Tracker.{
  Nodes, SolanaCanonicality, node, set_node, apply_node, revert_node, check_write, apply_at_tip,
  apply_if_active, journal_write, add_to_journal, record_account_write,
}

-- Applying a known fork's journal and reverting the fork succeed, and every account has its value
-- from before.
pub revert_node-apply_node :
    (fork : ForkId) (n : ForkNode) (s : SolanaCanonicality)
    → Dict.get s.nodes fork ≡ some n
    → (((apply_node fork >> revert_node fork) s).0 ≡ ok tt)
      × ((p : ℕ)
          → Dict.get ((apply_node fork >> revert_node fork) s).1.accounts p ≡ Dict.get s.accounts p)
unfolding apply_node revert_node node
revert_node-apply_node fork n s there =
    let m = record n { applied_undo = (apply_writes n.writes s.accounts).0 } in
    let set : Dict.get (Dict.insert s.nodes fork m) fork ≡ some m =
      get-insert s.nodes fork fork m ∙ rw ((same_fork_iff fork fork).1 refl) refl in
    (
      rw (apply_node, revert_node, node, there, set) refl,
      λ p.
          rw (apply_node, revert_node, node, there, set)
            (revert-apply_writes n.writes s.accounts p),
    )

revert_writes-append :
    (undos : List AccountUndo) (u : AccountUndo) (accounts : AccountMap)
    → revert_writes (undos ++ u ∷ []) accounts ≡ revert_writes undos (revert_write u accounts)
unfolding revert_writes
revert_writes-append [] u accounts = refl
revert_writes-append (x ∷ more) u accounts =
    ap (revert_write x) (revert_writes-append more u accounts)

-- Reverting only looks at what the accounts hold.
revert_writes-ext :
    (undos : List AccountUndo) (a b : AccountMap)
    → ((p : ℕ) → Dict.get a p ≡ Dict.get b p)
    → (p : ℕ) → Dict.get (revert_writes undos a) p ≡ Dict.get (revert_writes undos b) p
unfolding revert_writes
revert_writes-ext [] a b same p = same p
revert_writes-ext (x ∷ more) a b same p =
    get-revert_write x (revert_writes more a) p
    ∙ ap (λ o. if x.pubkey == p then x.previous else o) (revert_writes-ext more a b same p)
    ∙ sym (get-revert_write x (revert_writes more b) p)

revert-apply_write :
    (w : AccountWrite) (a : AccountMap) (p : ℕ)
    → Dict.get (revert_write (apply_write w a).0 (apply_write w a).1) p ≡ Dict.get a p
unfolding apply_writes revert_writes
revert-apply_write w a p = revert-apply_writes (w ∷ []) a p

get-set_node :
    (fork : ForkId) (change : ForkNode → ForkNode) (nodes : Nodes) (n : ForkNode)
    → Dict.get nodes fork ≡ some n
    → Dict.get (set_node fork change nodes) fork ≡ some (change n)
unfolding set_node
get-set_node fork change nodes n there =
    rw (set_node, there)
      (get-insert nodes fork fork (change n) ∙ rw ((same_fork_iff fork fork).1 refl) refl)

revert_node-accounts :
    (fork : ForkId) (n : ForkNode) (s : SolanaCanonicality)
    → Dict.get s.nodes fork ≡ some n
    → (revert_node fork s).1.accounts ≡ revert_writes n.applied_undo s.accounts
unfolding revert_node node
revert_node-accounts fork n s there = rw (revert_node, node, there) refl

-- What is left by a write that is accepted at the active tip.
written : AccountWrite → SolanaCanonicality → SolanaCanonicality
written write s = add_to_journal write (apply_at_tip write s)

record_account_write-written :
    (write : AccountWrite) (s : SolanaCanonicality) (o : Outcome SolanaError Unit)
    → check_write write s ≡ o
    → s.active_tip ≡ some write.fork_id
    → (record_account_write write s).0 ≡ ok tt
    → (record_account_write write s).1 ≡ written write s
unfolding record_account_write apply_if_active written
record_account_write-written write s (ok _) e tip =
    rw
      (
        record_account_write,
        e,
        apply_if_active,
        (option_beq_iff s.active_tip (some write.fork_id)).1 tip,
      )
      (λ accepted. refl)
record_account_write-written write s (err x) e tip =
    rw (record_account_write, e) (λ accepted. absurd (cc accepted))
record_account_write-written write s panic e tip =
    rw (record_account_write, e) (λ accepted. absurd (cc accepted))
record_account_write-written write s diverge e tip =
    rw (record_account_write, e) (λ accepted. absurd (cc accepted))

written-node :
    (write : AccountWrite) (n : ForkNode) (s : SolanaCanonicality)
    → Dict.get s.nodes write.fork_id ≡ some n
    → Dict.get (written write s).nodes write.fork_id
      ≡ some (
          journal_write write
            (record n { applied_undo = n.applied_undo ++ (apply_write write s.accounts).0 ∷ [] }))
unfolding written add_to_journal apply_at_tip
written-node write n s there =
    let undo_kept = λ (m : ForkNode). record m {
      applied_undo = m.applied_undo ++ (apply_write write s.accounts).0 ∷ [];
    } in
    get-set_node write.fork_id (journal_write write) (set_node write.fork_id undo_kept s.nodes)
      (undo_kept n) (get-set_node write.fork_id undo_kept s.nodes n there)

-- A write that is recorded at the active tip shows in its account, and reverting the tip's fork
-- afterwards gives every account the value that reverting it before would have given.
pub revert_node-record_account_write :
    (write : AccountWrite) (n : ForkNode) (s : SolanaCanonicality)
    → Dict.get s.nodes write.fork_id ≡ some n
    → s.active_tip ≡ some write.fork_id
    → (record_account_write write s).0 ≡ ok tt
    → (Dict.get (record_account_write write s).1.accounts write.pubkey ≡ some (from_write write))
      × ((p : ℕ)
          → Dict.get (revert_node write.fork_id (record_account_write write s).1).1.accounts p
            ≡ Dict.get (revert_node write.fork_id s).1.accounts p)
unfolding written add_to_journal apply_at_tip journal_write apply_write
revert_node-record_account_write write n s there tip accepted =
    let fork = write.fork_id in
    let done = apply_write write s.accounts in
    let after = record_account_write-written write s (check_write write s) refl tip accepted in
    let back = revert_node-accounts fork _ (written write s) (written-node write n s there) in
    (
      ap (λ t. Dict.get t.accounts write.pubkey) after
          ∙ get-insert s.accounts write.pubkey write.pubkey (from_write write)
          ∙ ground arith,
      λ p.
          ap (λ t. Dict.get (revert_node fork t).1.accounts p) after
          ∙ ap (λ a. Dict.get a p) back
          ∙ ap (λ a. Dict.get a p) (revert_writes-append n.applied_undo done.0 done.1)
          ∙ revert_writes-ext n.applied_undo (revert_write done.0 done.1) s.accounts
              (revert-apply_write write s.accounts) p
          ∙ sym (ap (λ a. Dict.get a p) (revert_node-accounts fork n s there)),
    )
