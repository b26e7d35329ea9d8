-- ===== src/Bitcoin/Dag/Target.antt =====
-- The target that a block must meet (processors/bitcoin-canonicality/src/dag.rs: ancestor_at_height,
-- and next_required_target of crates/bitcoin-domain/src/block.rs) is always found.
use multichain_rs.Prelude.{
  ℕ, zero, suc, ◌-◌, ◌^◌, ◌≤◌, ◌<◌, ◌≡◌, refl, inl, inr, true, false, ◌||◌, not, Option, some,
  arith, ltb, leb, nat_beq, nat_eq, string_eq, option_eq, Bool-cases, Option-cases, list_eq,
}
use multichain_rs.Exec.{ok, and_then}
use multichain_rs.Dict.{get}
use multichain_rs.Bitcoin.Domain.{
  BlockHash, BitcoinBlock, BitcoinNetwork, mainnet, testnet, signet, regtest, Consensus,
  next_required_target, is_multiple_of,
}
use multichain_rs.Bitcoin.Dag.{
  DagNode, Nodes, difficulty_interval, is_regtest, needs_epoch_boundary, ancestor_at_height,
}
use multichain_rs.Bitcoin.Dag.Chain.{IsLinked}

-- The ancestor at any height up to the node's own is found.
pub ancestor_at_height-finds :
    (nodes : Nodes) (linked : IsLinked nodes) (fuel : ℕ) (h : BlockHash) (found : DagNode)
    (height : ℕ)
    → get nodes h ≡ some found
    → height ≤ found.height
    → found.height < fuel
    → (ancestor : DagNode) × (ancestor_at_height fuel nodes h height ≡ ok ancestor)
unfolding ancestor_at_height
ancestor_at_height-finds nodes linked zero h found height g low enough =
    absurd (omega (arith, enough))
ancestor_at_height-finds nodes linked (suc fuel) h found height g low enough =
    elim (Bool-cases (nat_beq found.height height)) [
      | inl at ↦ (found, rw (ancestor_at_height, g, and_then, at) refl)
      | inr e ↦
          let above : ltb found.height height ≡ false = ground (arith, low) in
          elim (Option-cases found.parent) [
            | inl top ↦ absurd (ground (arith, linked.bottom h found g top))
            | inr (p, up) ↦
                let (below, f, step) = linked.lower h found p g up in
                let (ancestor, done) =
                  ancestor_at_height-finds nodes linked fuel p below height f (ground (arith, step))
                    (omega (arith, step, enough)) in
                (ancestor, rw (ancestor_at_height, g, and_then, e, above, up) done)
          ]
    ]

-- What the crate `bitcoin` documents of its networks: epochs of 2016 blocks, and no retargeting on regtest.
pub record IsStandard (consensus : Consensus) : Type 0 where
  pub epoch : (n : BitcoinNetwork) → is_regtest n ≡ false → consensus.adjustment_interval n ≡ 2016
  pub fits : consensus.adjustment_interval regtest ≤ 2 ^ 32 - 1
  pub fixed : consensus.no_pow_retargeting regtest ≡ true

pub interval_positive : (n : BitcoinNetwork) → 0 < difficulty_interval n
unfolding difficulty_interval
interval_positive mainnet = omega arith
interval_positive testnet = omega arith
interval_positive signet = omega arith
interval_positive regtest = omega arith

-- A height at an epoch's end is at least an epoch long.
pub epoch_long :
    (n : BitcoinNetwork) (k : ℕ)
    → 0 < k
    → needs_epoch_boundary n k ≡ true
    → difficulty_interval n ≤ k
unfolding needs_epoch_boundary difficulty_interval
epoch_long mainnet k positive e = ground arith
epoch_long testnet k positive e = ground arith
epoch_long signet k positive e = ground arith
epoch_long regtest k positive e = absurd (cc e)

module _ (consensus : Consensus) (standard : IsStandard consensus) where
  -- The required target is known wherever the epoch's start is, if it is needed.
  target_on :
      (n : BitcoinNetwork) (block : BitcoinBlock) (height : ℕ) (start : Option BitcoinBlock)
      → is_regtest n ≡ false
      → difficulty_interval n ≡ 2016
      → (needs_epoch_boundary n height ≡ true → (b : BitcoinBlock) × (start ≡ some b))
      → (target : ℕ) × (next_required_target consensus block n height start ≡ some target)
  unfolding next_required_target needs_epoch_boundary
  target_on n block height start retargets long h =
      let interval = standard.epoch n retargets in
      elim (Bool-cases (consensus.no_pow_retargeting n || not (is_multiple_of height 2016))) [
        | inl e ↦ (block.compact_target, rw (interval, e) refl)
        | inr e ↦
            let (b, there) = h (rw (retargets, long) (ground arith)) in
            (consensus.adjust_target b block n, rw (interval, e, there) refl)
      ]

  pub next_required_target-some :
      (n : BitcoinNetwork) (block : BitcoinBlock) (height : ℕ) (start : Option BitcoinBlock)
      → (needs_epoch_boundary n height ≡ true → (b : BitcoinBlock) × (start ≡ some b))
      → (target : ℕ) × (next_required_target consensus block n height start ≡ some target)
  unfolding next_required_target difficulty_interval
  next_required_target-some mainnet block height start h =
      target_on mainnet block height start refl refl h
  next_required_target-some testnet block height start h =
      target_on testnet block height start refl refl h
  next_required_target-some signet block height start h =
      target_on signet block height start refl refl h
  next_required_target-some regtest block height start h =
      let small : leb (consensus.adjustment_interval regtest) (2 ^ 32 - 1) ≡ true =
        ground (arith, standard.fits) in
      (block.compact_target, rw (small, standard.fixed) refl)
