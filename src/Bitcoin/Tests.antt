-- ===== src/Bitcoin/Tests.antt =====
-- The theorems about Bitcoin's works and chains at concrete values.
use multichain_rs.Prelude.{
  ℕ, ◌≡◌, refl, true, false, List, [], ◌∷◌, arith, ltb, nat_eq, string_eq, option_eq, list_eq,
}
use mathlib.Core.Option
use multichain_rs.Bitcoin.Domain.{mainnet, testnet, signet, regtest, Consensus, BitcoinBlock}
use multichain_rs.Bitcoin.Work.{
  work_value, add_work, checked_add as checked_add_bytes, bytes_ltb, checked_add-bytes_ltb,
}
use multichain_rs.Bitcoin.Dag.Observe.{Observed, observe_block-Observed}
use multichain_rs.Bitcoin.Dag.Rejects.{Rejects, observe_block-Rejects}
use multichain_rs.Bitcoin.Dag
use multichain_rs.Bitcoin.State.{BitcoinState, create, observe_block}
use multichain_rs.Bitcoin.State.Sound.{
  IsSound, StartsAt, Outcomes, observe_all, observe_block-Outcomes, observe_all-IsSound,
}
use multichain_rs.Bitcoin.Samples.{genesis, above, branch, block_of}

abbrev consensus : Consensus
consensus = record {
  genesis_hash = λ _. 100;
  validate_pow = λ block target. true;
  no_pow_retargeting = λ network. elim network [
    | mainnet ↦ false
    | testnet ↦ false
    | signet ↦ false
    | regtest ↦ true
  ];
  adjustment_interval = λ _. 2016;
  adjust_target = λ start block network. block.compact_target;
}

abbrev seen : BitcoinState
seen = observe_all consensus (genesis ∷ above ∷ branch) (create regtest)

observe_all-IsSound_example : StartsAt consensus regtest seen
observe_all-IsSound_example = observe_all-IsSound consensus regtest (genesis ∷ above ∷ branch)

seen-IsSound : IsSound seen
seen-IsSound = (observe_all-IsSound consensus regtest (genesis ∷ above ∷ branch)).sound

abbrev next_block : BitcoinBlock
next_block = block_of 203 202 []

observe_block-Outcomes_example : Outcomes seen (observe_block consensus next_block seen)
observe_block-Outcomes_example = observe_block-Outcomes seen seen-IsSound consensus next_block

observe_block-Observed_example : Observed seen.dag (Dag.observe_block consensus next_block seen.dag)
observe_block-Observed_example =
    observe_block-Observed consensus next_block seen.dag seen-IsSound.dag

observe_block-Rejects_example : Rejects (Dag.observe_block consensus next_block seen.dag).0
observe_block-Rejects_example =
    observe_block-Rejects consensus
      (record { epoch = λ n h. refl; fits = omega arith; fixed = refl }) seen.dag seen-IsSound.dag
      next_block

-- The work 2 ^ 255 as bytes.
abbrev half : List ℕ
half =
    128 ∷ 0 ∷ 0 ∷ 0 ∷ 0 ∷ 0 ∷ 0 ∷ 0 ∷ 0 ∷ 0 ∷ 0 ∷ 0 ∷ 0 ∷ 0 ∷ 0 ∷ 0 ∷ 0 ∷ 0 ∷ 0 ∷ 0 ∷ 0 ∷ 0 ∷ 0 ∷ 0
    ∷ 0 ∷ 0 ∷ 0 ∷ 0 ∷ 0 ∷ 0 ∷ 0 ∷ 0 ∷ []

checked_add-bytes_ltb_example :
    (Option.map work_value (checked_add_bytes half half)
      ≡ add_work (work_value half) (work_value half))
    × (bytes_ltb half half ≡ ltb (work_value half) (work_value half))
checked_add-bytes_ltb_example =
    checked_add-bytes_ltb half half refl refl (omega arith) (omega arith)
