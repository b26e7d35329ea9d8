-- ===== src/Evm/Ethereum/Tests.antt =====
-- Runs of the Ethereum tracker on a small network, and the theorems at them.
use multichain_rs.Prelude.{
  ◌+◌, ◌≤◌, ◌≡◌, refl, Bool, true, none, some, List, [], ◌∷◌, ◌++◌, arith, leb, nat_eq, string_eq,
  option_eq, u64_max,
}
use multichain_rs.Dict
use multichain_rs.Dict.{empty, get, insert, remove, any_value}
use multichain_rs.Exec.{Outcome, ok, err}
use multichain_rs.Exec.Rules.{Settles}
use multichain_rs.Evm.Block.{climb, climb_from, is_ancestor, is_contiguous, is_canonical_at}
use multichain_rs.Evm.Ancestry.{
  Ancestor, is_ancestor_returns, is_ancestor_sound, is_ancestor-canonical,
}
use multichain_rs.Evm.Small.{small, segment}
use multichain_rs.Evm.Ethereum.{
  EthereumCanonicality, EthereumRevision, EthereumError, new_ethereum, commit_segment,
  commit_blocks, commit_block, reorg, observe_checkpoint, validate_segment, extends_head, block,
  next_revision, check_reorg, check_finalized_kept, connect_blocks, connect_block,
  disconnect_blocks, disconnect_block, kept_safe, check_checkpoint, canonical_block,
  misses_ancestry, regresses, has_ancestor, mark_safe, mark_finalized, finalized_reversal_critical,
}
use multichain_rs.Evm.Ethereum.Valid.{IsValid, next_number, new_ethereum-IsValid}
use multichain_rs.Evm.Ethereum.Calls.{
  Call, commit, replace, checkpoint, handle, handle-IsValid, handle-err, handle_returns, Finalizes,
  handle-Finalizes,
}
use multichain_rs.Evm.Ethereum.History.{Reach, Tells, Reach-IsValid, Reach-Tells}

abbrev revisions : Outcome EthereumError (List EthereumRevision) → List EthereumRevision
revisions (ok rs) = rs
revisions _ = []

-- Every definition that a run computes with.
runs :
    Call
    → EthereumCanonicality
    → Outcome EthereumError (List EthereumRevision) × EthereumCanonicality
unfolding handle commit_segment commit_blocks commit_block reorg observe_checkpoint validate_segment
    extends_head block next_revision check_reorg check_finalized_kept connect_blocks connect_block
    disconnect_blocks disconnect_block kept_safe check_checkpoint canonical_block misses_ancestry
    regresses has_ancestor mark_safe mark_finalized climb climb_from is_ancestor is_contiguous
    is_canonical_at empty get insert remove any_value
runs c s = handle c s

abbrev first : Call
first = commit (segment (10 ∷ 20 ∷ 30 ∷ []))

abbrev three : EthereumCanonicality
three = (handle first new_ethereum).1

three_runs : handle first new_ethereum ≡ (ok (revisions (handle first new_ethereum).0), three)
unfolding runs
three_runs = refl

abbrev second : Call
second = checkpoint (record { head = 30; safe = 20; finalized = 10; source_id = "beacon" })

abbrev marked : EthereumCanonicality
marked = (handle second three).1

marked_runs : handle second three ≡ (ok (revisions (handle second three).0), marked)
unfolding runs
marked_runs = refl

marked_finalized : marked.finalized ≡ some 10
unfolding runs
marked_finalized = refl

abbrev third : Call
third = replace (segment (20 ∷ 30 ∷ [])) (segment (21 ∷ []))

abbrev forked : EthereumCanonicality
forked = (handle third marked).1

forked_runs : handle third marked ≡ (ok (revisions (handle third marked).0), forked)
unfolding runs
forked_runs = refl

forked_state : (forked.head ≡ some 21) × (forked.safe ≡ none) × (forked.revision ≡ 8)
unfolding runs
forked_state = (refl, refl, refl)

-- The finalized block cannot be reorganized away.
abbrev fourth : Call
fourth = replace (segment (10 ∷ 21 ∷ [])) (segment (11 ∷ []))

fourth_runs : handle fourth forked ≡ (err (finalized_reversal_critical 10), forked)
unfolding runs
fourth_runs = refl

three-IsValid : IsValid small three
three-IsValid =
    handle-IsValid small first new_ethereum three (revisions (handle first new_ethereum).0)
      (new_ethereum-IsValid small) (refl, (refl, (refl, tt))) three_runs

marked-IsValid : IsValid small marked
marked-IsValid =
    handle-IsValid small second three marked (revisions (handle second three).0) three-IsValid tt
      marked_runs

handle-IsValid_example : IsValid small forked
handle-IsValid_example =
    handle-IsValid small third marked forked (revisions (handle third marked).0) marked-IsValid
      ((refl, (refl, tt)), (refl, tt)) forked_runs

handle-err_example : forked ≡ forked
handle-err_example = handle-err fourth forked forked (finalized_reversal_critical 10) fourth_runs

marked_room : marked.revision + 3 ≤ u64_max
unfolding runs
marked_room = omega arith

handle_returns_example : Settles (handle third marked).0
handle_returns_example = handle_returns small third marked marked-IsValid marked_room

handle-Finalizes_example : Finalizes small marked forked 10
handle-Finalizes_example =
    handle-Finalizes small third marked forked (revisions (handle third marked).0) 10 marked-IsValid
      ((refl, (refl, tt)), (refl, tt)) forked_runs marked_finalized

history :
    Reach small
      (([] ++ revisions (handle first new_ethereum).0) ++ revisions (handle second three).0)
      marked
history =
    Reach.call second tt marked_runs
      (Reach.call first (refl, (refl, (refl, tt))) three_runs Reach.start)

Reach-IsValid_example : IsValid small marked
Reach-IsValid_example = Reach-IsValid small history

Reach-Tells_example :
    Tells new_ethereum marked
      (([] ++ revisions (handle first new_ethereum).0) ++ revisions (handle second three).0)
Reach-Tells_example = Reach-Tells small history

three_placed : (Dict.get three.canonical 1 ≡ some 10) × (Dict.get three.canonical 3 ≡ some 30)
unfolding runs
three_placed = (refl, refl)

three_ancestor : is_ancestor three.blocks 10 30 ≡ some true
unfolding runs
three_ancestor = refl

is_ancestor_returns_example : (b : Bool) × (is_ancestor three.blocks 10 30 ≡ some b)
is_ancestor_returns_example =
    is_ancestor_returns small three.blocks three.canonical (next_number small three.head)
      three-IsValid.line 10 30

is_ancestor_sound_example : Ancestor small 10 30
is_ancestor_sound_example =
    is_ancestor_sound small three.blocks three.canonical (next_number small three.head)
      three-IsValid.line 10 30 three_ancestor

is_ancestor-canonical_example : is_ancestor three.blocks 10 30 ≡ some (leb 1 3)
is_ancestor-canonical_example =
    is_ancestor-canonical small three.blocks three.canonical (next_number small three.head)
      three-IsValid.line 1 3 10 30 three_placed.0 three_placed.1
