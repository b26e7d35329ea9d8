-- ===== src/Bitcoin/Dag/Placed.antt =====
-- Where `validate_candidate_context` (processors/bitcoin-canonicality/src/dag.rs) places a block.
use mathlib.Core.Path.{subst}
use multichain_rs.Prelude.{
  ℕ, suc, ◌+◌, ◌-◌, ◌^◌, ◌≡◌, refl, ap, ◌∙◌, inl, inr, Bool, true, false, Option, none, some, arith,
  leb, nat_beq, nat_beq_iff, nat_eq, string_eq, option_eq, Bool-cases, Option-cases, list_eq,
}
use multichain_rs.Exec.Rules.{and_then-ok, ok-injective}
use multichain_rs.Exec.{Outcome, ok, ok_or, ensure, and_then}
use multichain_rs.Dict.{get}
use multichain_rs.Bitcoin.Domain.{BlockHash, BitcoinBlock, Consensus}
use multichain_rs.Bitcoin.Work.{add_work, add_work_sum}
use multichain_rs.Bitcoin.Error.{StateError, invalid_proof_of_work, work_overflow}
use multichain_rs.Bitcoin.Dag.{
  DagNode, Nodes, CanonicalityState, Context, validate_candidate_context, extended_context,
  epoch_start, required_target, candidate,
}
use multichain_rs.Bitcoin.Dag.Chain.{IsLinked}

-- A node stands one above its parent and has its parent's work besides its own.
abbrev pub Under : Nodes → DagNode → Option BlockHash → Type 0
Under nodes found none = (found.height ≡ 0) × (found.cumulative_work ≡ found.block.work)
Under nodes found (some p) =
    (below : DagNode) × (get nodes p ≡ some below)
    × (found.block.previous_block_hash ≡ p)
    × (found.height ≡ suc below.height)
    × (found.cumulative_work ≡ below.cumulative_work + found.block.work)

abbrev pub IsPlaced : Nodes → Type 0
IsPlaced nodes =
    (h : BlockHash) (found : DagNode)
    → get nodes h ≡ some found
    → (found.block.block_hash ≡ h) × Under nodes found found.parent

pub IsPlaced-IsLinked : (nodes : Nodes) → IsPlaced nodes → IsLinked nodes
IsPlaced-IsLinked nodes placed = record {
  lower = λ h found p g up.
      let (below, f, named, step, work) = subst (Under nodes found) up (placed h found g).1 in
      (below, f, step);
  bottom = λ h found g up. (subst (Under nodes found) up (placed h found g).1).0;
}

ok_or-ok : {A : Type 0} (e : StateError) {o : Option A} {a : A} → ok_or e o ≡ ok a → o ≡ some a
ok_or-ok e {o = none} h = absurd (cc h)
ok_or-ok e {o = some x} h = ap some (ok-injective h)

ensured :
    {A : Type 0} (b : Bool) (e : StateError) {m : Outcome StateError A} {a : A}
    → and_then (ensure b e) (λ _. m) ≡ ok a
    → m ≡ ok a
ensured true e h = h
ensured false e h = absurd (cc h)

-- The last value of a chain of four calls, of which the third depends on the second.
last-ok :
    {A B C D F : Type 0} (m : Outcome StateError A) (n : Outcome StateError B)
    (o : B → Outcome StateError C) (p : B → Outcome StateError D) (k : B → D → F) {r : F}
    → and_then m (λ _. and_then n (λ b. and_then (o b) (λ _. and_then (p b) (λ d. ok (k b d)))))
      ≡ ok r
    → (b : B) × (d : D) × (n ≡ ok b) × (p b ≡ ok d) × (k b d ≡ r)
last-ok m n o p k h =
    let (_, _, h₁) =
      and_then-ok m (λ _. and_then n (λ b. and_then (o b) (λ _. and_then (p b) (λ d. ok (k b d)))))
        h in
    let (b, e, h₂) =
      and_then-ok n (λ b. and_then (o b) (λ _. and_then (p b) (λ d. ok (k b d)))) h₁ in
    let (_, _, h₃) = and_then-ok (o b) (λ _. and_then (p b) (λ d. ok (k b d))) h₂ in
    let (d, f, h₄) = and_then-ok (p b) (λ d. ok (k b d)) h₃ in (b, d, e, f, ok-injective h₄)

-- The height and the work before the block, for its parent; only the genesis block has none.
abbrev Placing : BlockHash → Nodes → BitcoinBlock → Context → Type 0
Placing genesis nodes block (none, height, work, target) =
    (height ≡ 0) × (work ≡ 0) × (block.block_hash ≡ genesis)
Placing genesis nodes block (some p, height, work, target) =
    (below : DagNode) × (get nodes p ≡ some below)
    × (block.previous_block_hash ≡ p)
    × (height ≡ suc below.height)
    × (work ≡ below.cumulative_work)

module _ (consensus : Consensus) (block : BitcoinBlock) (s : CanonicalityState) where
  extended_context-Placing :
      (parent : DagNode) (context : Context)
      → get s.nodes block.previous_block_hash ≡ some parent
      → extended_context consensus s block.block_hash block.previous_block_hash parent ≡ ok context
      → Placing (consensus.genesis_hash s.network) s.nodes block context
  unfolding extended_context
  extended_context-Placing parent context g h =
      let height = parent.height + 1 in
      let (start, target, _, _, e) =
        last-ok (ok tt) (epoch_start consensus s parent block.previous_block_hash height)
          (λ _. ok tt) (required_target consensus s block.block_hash parent height)
          (λ _ target. (some block.previous_block_hash, height, parent.cumulative_work, target))
          (ensured (leb height (2 ^ 32 - 1)) (work_overflow block.block_hash) h) in
      subst (Placing (consensus.genesis_hash s.network) s.nodes block) e
        (parent, g, refl, omega arith, refl)

  context-Placing :
      (context : Context)
      → validate_candidate_context consensus block s ≡ ok context
      → Placing (consensus.genesis_hash s.network) s.nodes block context
  unfolding validate_candidate_context
  context-Placing context =
      elim (Bool-cases (nat_beq block.block_hash (consensus.genesis_hash s.network))) [
        | inl e ↦ rw e (λ h.
            subst (Placing (consensus.genesis_hash s.network) s.nodes block) (ok-injective h)
              (refl, refl, (nat_beq_iff block.block_hash (consensus.genesis_hash s.network)).0 e))
        | inr e ↦ elim (Bool-cases (nat_beq block.previous_block_hash 0)) [
          | inl f ↦ rw (e, f) (λ h. absurd (cc h))
          | inr f ↦ elim (Option-cases (get s.nodes block.previous_block_hash)) [
            | inl g ↦ rw (e, f, g) (λ h. absurd (cc h))
            | inr (parent, g) ↦ rw (e, f, g) (extended_context-Placing parent context g)
          ]
        ]
      ]

  node-Under :
      (context : Context) (work : ℕ)
      → Placing (consensus.genesis_hash s.network) s.nodes block context
      → work ≡ context.2 + block.work
      → Under s.nodes
          (record { block = block; parent = context.0; height = context.1; cumulative_work = work })
          context.0
  node-Under (none, height, before, target) work (a, b, g) e = (a, ground (arith, e, b))
  node-Under (some p, height, before, target) work (below, g, named, a, b) e =
      (below, g, named, a, ground (arith, e, b))

  -- The context that a candidate was made in.
  candidate-context :
      (added : DagNode)
      → candidate consensus block s ≡ ok added
      → (context : Context) × (work : ℕ) × (validate_candidate_context consensus block s
          ≡ ok context)
        × (ok_or (work_overflow block.block_hash) (add_work context.2 block.work) ≡ ok work)
        × (record { block = block; parent = context.0; height = context.1; cumulative_work = work }
            ≡ added)
  unfolding candidate
  candidate-context added h =
      let invalid = invalid_proof_of_work block.block_hash in
      last-ok (ensure (consensus.validate_pow block block.compact_target) invalid)
        (validate_candidate_context consensus block s)
        (λ c. ensure (consensus.validate_pow block c.3) invalid)
        (λ c. ok_or (work_overflow block.block_hash) (add_work c.2 block.work))
        (λ c work. record { block = block; parent = c.0; height = c.1; cumulative_work = work }) h

  -- The node of a candidate stands where it belongs.
  pub candidate-Under :
      (added : DagNode)
      → candidate consensus block s ≡ ok added
      → (added.block ≡ block) × Under s.nodes added added.parent
  candidate-Under added h =
      let (context, work, valid, summed, e) = candidate-context added h in
      subst (λ added. (added.block ≡ block) × Under s.nodes added added.parent) e
        (
          refl,
          node-Under context work (context-Placing context valid) (
              add_work_sum context.2 block.work work
                (ok_or-ok (work_overflow block.block_hash) summed)),
        )

  rootless :
      (context : Context)
      → Placing (consensus.genesis_hash s.network) s.nodes block context
      → context.0 ≡ none
      → block.block_hash ≡ consensus.genesis_hash s.network
  rootless (none, height, work, target) (a, b, g) e = g
  rootless (some p, height, work, target) u e = absurd (cc e)

  -- A candidate without a parent is the genesis block.
  pub candidate_genesis :
      (added : DagNode)
      → candidate consensus block s ≡ ok added
      → added.parent ≡ none
      → block.block_hash ≡ consensus.genesis_hash s.network
  candidate_genesis added h top =
      let (context, work, valid, summed, e) = candidate-context added h in
      rootless context (context-Placing context valid) (ap (λ n. n.parent) e ∙ top)
