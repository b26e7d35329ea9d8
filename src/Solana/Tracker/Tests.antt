-- ===== src/Solana/Tracker/Tests.antt =====
-- The theorems about the Solana tracker at concrete calls.
use multichain_rs.Prelude.{
  ℕ, ◌≡◌, refl, false, none, some, List, [], ◌∷◌, nat_eq, string_eq, option_eq, list_eq,
}
use multichain_rs.Dict
use multichain_rs.Exec.{ok, ◌>>◌}
use multichain_rs.Solana.Fork.{
  Commitment, commitment_eq, ForkId, fork_eq, ForkNode, AccountWrite, CommitmentRevision,
  from_write,
}
use multichain_rs.Solana.Tracker.{
  SolanaCanonicality, new_solana, observe_slot, activate, new_node, path_to_root, mark_dead,
  apply_node, revert_node, record_account_write,
}
use multichain_rs.Solana.Tracker.Outline.{outline}
use multichain_rs.Solana.Tracker.Advances.{Advances}
use multichain_rs.Solana.Tracker.Commitments.{Call, handle, handle-Advances}
use multichain_rs.Solana.Tracker.Paths.{IsPath, run_calls, path_to_root_returns}
use multichain_rs.Solana.Tracker.Undo.{revert_node-apply_node, revert_node-record_account_write}
use multichain_rs.Solana.Tracker.Descent.{Descendant}
use multichain_rs.Solana.Tracker.Burial.{mark_dead-outline}

abbrev root : ForkId
root = record { slot = 4; blockhash = 40 }

abbrev left : ForkId
left = record { slot = 6; blockhash = 61 }

abbrev right : ForkId
right = record { slot = 6; blockhash = 62 }

abbrev written : ForkId → ℕ → ℕ → AccountWrite
written fork pubkey version = record {
  fork_id = fork;
  pubkey = pubkey;
  owner = 1;
  lamports = 500;
  account_data = [];
  executable = false;
  rent_epoch = 0;
  write_version = version;
}

abbrev opening : List Call
opening =
    Call.observes_slot root none
    ∷ Call.observes_slot left (some root)
    ∷ Call.observes_slot right (some left)
    ∷ Call.observes_slot right (some root)
    ∷ Call.activates left
    ∷ Call.records_write (written left 9 1)
    ∷ Call.observes_commitment left Commitment.finalized
    ∷ []

path_to_root_returns_example :
    (more : List ForkId) × (path_to_root right (run_calls opening new_solana) ≡ ok (right ∷ more))
    × IsPath (run_calls opening new_solana).nodes (right ∷ more)
path_to_root_returns_example = path_to_root_returns opening right

-- The root with two forks above it; the left one is the active tip and has a write in its journal.
abbrev forked : SolanaCanonicality
forked = record new_solana {
  nodes =
      Dict.insert
        (Dict.insert
          (Dict.insert Dict.empty root
            (record (new_node none) { commitment = Commitment.confirmed }))
          right (new_node (some root)))
        left (record (new_node (some root)) { writes = written left 9 1 ∷ [] });
  root = some root;
  active_tip = some left;
}

handle-Advances_example :
    Advances left
      (outline forked.nodes left)
      (outline (handle (Call.marks_dead root) forked).nodes left)
handle-Advances_example = handle-Advances (Call.marks_dead root) forked left

left_known :
    Dict.get forked.nodes left
    ≡ some (record (new_node (some root)) { writes = written left 9 1 ∷ [] })
unfolding Dict.get Dict.insert Dict.empty
left_known = refl

revert_node-apply_node_example :
    (((apply_node left >> revert_node left) forked).0 ≡ ok tt)
    × ((p : ℕ)
        → Dict.get ((apply_node left >> revert_node left) forked).1.accounts p
          ≡ Dict.get forked.accounts p)
revert_node-apply_node_example =
    revert_node-apply_node left (record (new_node (some root)) { writes = written left 9 1 ∷ [] })
      forked left_known

accepted : (record_account_write (written left 9 2) forked).0 ≡ ok tt
unfolding record_account_write Dict.get Dict.insert Dict.empty
accepted = refl

revert_node-record_account_write_example :
    (Dict.get (record_account_write (written left 9 2) forked).1.accounts 9
      ≡ some (from_write (written left 9 2)))
    × ((p : ℕ)
        → Dict.get
            (revert_node left (record_account_write (written left 9 2) forked).1).1.accounts
            p
          ≡ Dict.get (revert_node left forked).1.accounts p)
revert_node-record_account_write_example =
    revert_node-record_account_write (written left 9 2)
      (record (new_node (some root)) { writes = written left 9 1 ∷ [] }) forked left_known refl
      accepted

-- The root with two forks above it, of which one is active.
abbrev three_forks : List Call
three_forks =
    Call.observes_slot root none
    ∷ Call.observes_slot left (some root)
    ∷ Call.observes_slot right (some root)
    ∷ Call.activates left
    ∷ []

abbrev spread : SolanaCanonicality
spread = run_calls three_forks new_solana

abbrev buried : SolanaCanonicality
buried = (mark_dead root spread).1

abbrev death : CommitmentRevision
death = record { revision = 1; fork_id = root; from = Commitment.received; to = Commitment.dead }

dies : mark_dead root spread ≡ (ok (some death), buried)
unfolding mark_dead run_calls handle observe_slot activate Dict.get Dict.insert Dict.empty Dict.keys
    Dict.remove
dies = refl

mark_dead-outline_example :
    ((n : ForkNode) × (Dict.get spread.nodes root ≡ some n)
      × (outline buried.nodes root ≡ some (n.parent, Commitment.dead)))
    × ((f : ForkId) (m : ForkNode)
        → Dict.get spread.nodes f ≡ some m
        → Descendant spread.nodes root f
        → outline buried.nodes f ≡ some (m.parent, Commitment.dead))
    × ((f : ForkId)
        → (Descendant spread.nodes root f → ⊥)
        → outline buried.nodes f ≡ outline spread.nodes f)
mark_dead-outline_example = mark_dead-outline three_forks root buried death dies
