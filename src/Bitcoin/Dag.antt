-- ===== src/Bitcoin/Dag.antt =====
-- The candidate blocks and the choice of the heaviest chain
-- (processors/bitcoin-canonicality/src/dag.rs).
pub mod Announces
pub mod Chain
pub mod Insert
pub mod Rejects
pub mod Target
pub mod Observe
pub mod Placed
pub mod Reorganize
pub mod Rooted
pub mod Walk
use multichain_rs.Prelude.{
  ℕ, zero, suc, ◌+◌, ◌-◌, ◌^◌, Bool, true, false, ◌&&◌, not, Option, none, some, List, [], ◌∷◌,
  ◌++◌, reverse, ltb, leb, nat_beq, if◌then◌else◌, ◌==◌, nat_eq, string_eq, option_eq,
  saturating_add, list_eq,
}
use multichain_rs.Exec.{
  Outcome, ok, err, panic, diverge, Exec, pure, reads, modify, ok_or, ensure, and_then, continue,
  ◌>>=◌, ◌>>◌,
}
use multichain_rs.Dict.{Dict, get, insert, contains_key, empty}
use multichain_rs.Mempool.Sets.{elem}
use multichain_rs.Bitcoin.Domain.{
  BlockHash, BitcoinBlock, BitcoinNetwork, mainnet, testnet, signet, regtest, Consensus,
  is_multiple_of, next_required_target,
}
use multichain_rs.Bitcoin.Work.{add_work}
use multichain_rs.Bitcoin.Error.{
  StateError, invalid_genesis, invalid_proof_of_work, unknown_parent, missing_difficulty_boundary,
  work_overflow, inconsistent_dag, BlockTransition, connected, disconnected,
}

pub record DagNode : Type 0 where
  pub block : BitcoinBlock
  pub parent : Option BlockHash
  pub height : ℕ
  pub cumulative_work : ℕ

abbrev pub Nodes : Type 0
Nodes = Dict BlockHash DagNode

pub record CanonicalityState : Type 0 where
  pub network : BitcoinNetwork
  pub nodes : Nodes
  pub canonical_tip : Option BlockHash
  pub next_revision : ℕ

-- `CanonicalityState::new`
unfoldable pub create : BitcoinNetwork → CanonicalityState
create network = record {
  network = network;
  nodes = empty;
  canonical_tip = none;
  next_revision = 1;
}

-- `node`
abbrev pub node : Nodes → BlockHash → Outcome StateError DagNode
node nodes h = ok_or (inconsistent_dag h) (get nodes h)

pub difficulty_interval : BitcoinNetwork → ℕ
difficulty_interval mainnet = 2016
difficulty_interval testnet = 2016
difficulty_interval signet = 2016
difficulty_interval regtest = 144

abbrev pub is_regtest : BitcoinNetwork → Bool
is_regtest regtest = true
is_regtest other = false

pub needs_epoch_boundary : BitcoinNetwork → ℕ → Bool
unfolding difficulty_interval
needs_epoch_boundary network height =
    not (is_regtest network) && is_multiple_of height (difficulty_interval network)

-- `ancestor_at_height`, with fuel for its loop
pub ancestor_at_height : ℕ → Nodes → BlockHash → ℕ → Outcome StateError DagNode
unfolding get
ancestor_at_height zero nodes cursor height = diverge
ancestor_at_height (suc fuel) nodes cursor height = and_then (node nodes cursor) (λ found.
    elim (nat_beq found.height height) [
      | true ↦ ok found
      | false ↦ elim (ltb found.height height) [
        | true ↦ err (inconsistent_dag cursor)
        | false ↦ elim found.parent [
          | none ↦ err (inconsistent_dag cursor)
          | some parent ↦ ancestor_at_height fuel nodes parent height
        ]
      ]
    ])

-- What `validate_candidate_context` finds: the parent, the height, its parent's work and the target.
abbrev pub Context : Type 0
Context = Option BlockHash × ℕ × ℕ × ℕ

module _ (consensus : Consensus) where
  -- The start of the epoch that ends below the height, where it is needed.
  pub epoch_start :
      CanonicalityState → DagNode → BlockHash → ℕ → Outcome StateError (Option BitcoinBlock)
  unfolding needs_epoch_boundary difficulty_interval ancestor_at_height
  epoch_start s parent parent_hash height =
      if needs_epoch_boundary s.network height
      then if ltb height (difficulty_interval s.network)
        then panic
        else and_then
            (ancestor_at_height (suc parent.height) s.nodes parent_hash
              (height - difficulty_interval s.network))
            (λ found. ok (some found.block))
      else ok none

  -- The required target, or the error that names the boundary.
  pub required_target :
      CanonicalityState → BlockHash → DagNode → ℕ → Option BitcoinBlock → Outcome StateError ℕ
  unfolding next_required_target difficulty_interval
  required_target s h parent height start =
      elim (next_required_target consensus parent.block s.network height start) [
        | some target ↦ ok target
        | none ↦
            if ltb height (difficulty_interval s.network)
            then panic
            else err (missing_difficulty_boundary h (height - difficulty_interval s.network))
      ]

  -- The part of `validate_candidate_context` behind the parent's lookup.
  pub extended_context :
      CanonicalityState → BlockHash → BlockHash → DagNode → Outcome StateError Context
  unfolding epoch_start required_target
  extended_context s h parent_hash parent =
      let height = parent.height + 1 in
      and_then (ensure (leb height (2 ^ 32 - 1)) (work_overflow h)) (λ _.
        and_then (epoch_start s parent parent_hash height) (λ start.
          and_then (required_target s h parent height start)
            (λ target. ok (some parent_hash, height, parent.cumulative_work, target))))

  -- `validate_candidate_context`
  pub validate_candidate_context : BitcoinBlock → CanonicalityState → Outcome StateError Context
  unfolding get extended_context
  validate_candidate_context block s =
      if nat_beq block.block_hash (consensus.genesis_hash s.network)
      then ok (none, 0, 0, block.compact_target)
      else if nat_beq block.previous_block_hash 0
      then err (invalid_genesis block.block_hash)
      else elim (get s.nodes block.previous_block_hash) [
        | none ↦ err (unknown_parent block.block_hash block.previous_block_hash)
        | some parent ↦ extended_context s block.block_hash block.previous_block_hash parent
      ]

-- `ancestor_set`, from a cursor and the hashes met before, with fuel for its loop
pub ancestor_set :
    ℕ → Nodes → Option BlockHash → List BlockHash → Outcome StateError (List BlockHash)
unfolding get
ancestor_set zero nodes cursor ancestors = diverge
ancestor_set (suc fuel) nodes none ancestors = ok ancestors
ancestor_set (suc fuel) nodes (some h) ancestors = elim (elem h ancestors) [
  | true ↦ err (inconsistent_dag h)
  | false ↦ and_then (node nodes h) (λ found. ancestor_set fuel nodes found.parent (h ∷ ancestors))
]

-- The blocks that leave the chain, from the tip down to one of the ancestors, and that one.
pub disconnect_from :
    ℕ
    → Nodes
    → List BlockHash
    → Option BlockHash
    → Outcome StateError (List (BlockHash × ℕ) × Option BlockHash)
unfolding get
disconnect_from zero nodes ancestors cursor = diverge
disconnect_from (suc fuel) nodes ancestors none = ok ([], none)
disconnect_from (suc fuel) nodes ancestors (some h) = elim (elem h ancestors) [
  | true ↦ ok ([], some h)
  | false ↦ and_then (node nodes h) (λ found.
      and_then (disconnect_from fuel nodes ancestors found.parent)
        (λ rest. ok ((h, found.height) ∷ rest.0, rest.1)))
]

-- The blocks that join the chain, from the new tip down to the common ancestor.
pub connect_from :
    ℕ
    → Nodes
    → BlockHash
    → Option BlockHash
    → Option BlockHash
    → Outcome StateError (List (BlockHash × ℕ))
unfolding get
connect_from zero nodes new_tip common cursor = diverge
connect_from (suc fuel) nodes new_tip common cursor = elim (cursor == common) [
  | true ↦ ok []
  | false ↦ elim cursor [
    | none ↦ err (inconsistent_dag new_tip)
    | some h ↦ and_then (node nodes h) (λ found.
        and_then (connect_from fuel nodes new_tip common found.parent)
          (λ rest. ok ((h, found.height) ∷ rest)))
  ]
]

-- `take_revision` for each transition of a list: the transitions, and the next revision.
unfoldable pub numbered :
    (BlockHash → ℕ → ℕ → BlockTransition) → List (BlockHash × ℕ) → ℕ → List BlockTransition × ℕ
numbered transition [] revision = ([], revision)
numbered transition (entry ∷ more) revision =
    let rest = numbered transition more (saturating_add revision 1) in
    (transition entry.0 entry.1 revision ∷ rest.0, rest.1)

-- Enough rounds for the loops that walk from a block to the genesis.
abbrev pub walk_fuel : Nodes → Option BlockHash → ℕ
walk_fuel nodes none = 1
walk_fuel nodes (some h) = elim (get nodes h) [ none ↦ 2 | some found ↦ suc (suc found.height) ]

-- The transitions of `reorganize_to`, the disconnected blocks first, and the next revision.
unfoldable pub transitions_of :
    List (BlockHash × ℕ) → List (BlockHash × ℕ) → ℕ → List BlockTransition × ℕ
unfolding numbered
transitions_of disconnect connect revision =
    let off = numbered disconnected disconnect revision in
    let on = numbered connected (reverse connect) off.1 in (off.0 ++ on.0, on.1)

-- `reorganize_to`
pub reorganize_to : BlockHash → Exec StateError CanonicalityState (List BlockTransition)
unfolding ancestor_set disconnect_from connect_from transitions_of
reorganize_to new_tip s =
    continue
      (and_then (ancestor_set (walk_fuel s.nodes (some new_tip)) s.nodes (some new_tip) [])
        (λ new_ancestors.
          and_then
            (disconnect_from (walk_fuel s.nodes s.canonical_tip) s.nodes new_ancestors
              s.canonical_tip)
            (λ off.
              and_then
                (connect_from (walk_fuel s.nodes (some new_tip)) s.nodes new_tip off.1
                  (some new_tip))
                (λ on. ok (transitions_of off.0 on s.next_revision)))))
      (λ numbered_off t. (
        ok numbered_off.0,
        record t { canonical_tip = some new_tip; next_revision = numbered_off.1 },
      ))
      s

-- `should_reorganize`
pub should_reorganize : ℕ → CanonicalityState → Outcome StateError Bool
unfolding get
should_reorganize cumulative_work s = elim s.canonical_tip [
  | none ↦ ok true
  | some tip ↦ and_then (node s.nodes tip) (λ found. ok (ltb found.cumulative_work cumulative_work))
]

abbrev pub insert_node : BlockHash → DagNode → CanonicalityState → CanonicalityState
insert_node h added s = record s { nodes = insert s.nodes h added }

-- The end of `observe_block`, from the insertion of the node.
pub add_node : BlockHash → DagNode → Exec StateError CanonicalityState (List BlockTransition)
unfolding should_reorganize reorganize_to insert
add_node h added = do
  modify (insert_node h added)
  reorganizes ← reads (should_reorganize added.cumulative_work)
  if reorganizes then reorganize_to h else pure []

module _ (consensus : Consensus) where
  -- The node of a valid block that is not known yet.
  pub candidate : BitcoinBlock → CanonicalityState → Outcome StateError DagNode
  unfolding validate_candidate_context
  candidate block s =
      let h = block.block_hash in
      and_then
        (ensure (consensus.validate_pow block block.compact_target) (invalid_proof_of_work h))
        (λ _. and_then (validate_candidate_context consensus block s) (λ context.
          let (parent, height, parent_work, target) = context in
          and_then (ensure (consensus.validate_pow block target) (invalid_proof_of_work h)) (λ _.
            and_then (ok_or (work_overflow h) (add_work parent_work block.work)) (λ cumulative_work.
              ok (record {
                block = block;
                parent = parent;
                height = height;
                cumulative_work = cumulative_work;
              })))))

  -- `observe_block`
  pub observe_block : BitcoinBlock → Exec StateError CanonicalityState (List BlockTransition)
  unfolding candidate add_node get
  observe_block block s =
      if contains_key s.nodes block.block_hash
      then pure [] s
      else continue (candidate block s) (add_node block.block_hash) s
