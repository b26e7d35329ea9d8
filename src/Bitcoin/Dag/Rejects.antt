-- ===== src/Bitcoin/Dag/Rejects.antt =====
-- The only failures of `observe_block` (processors/bitcoin-canonicality/src/dag.rs) are rejections of
-- the block: its loops end, and it never finds the candidate blocks inconsistent.
use mathlib.Core.Path.{subst}
use multichain_rs.Prelude.{
  ℕ, suc, ◌+◌, ◌-◌, ◌^◌, ◌≡◌, refl, sym, ap, inl, inr, Bool, true, false, Option, none, some, List,
  arith, ltb, leb, nat_beq, nat_eq, string_eq, option_eq, Bool-cases, Option-cases, list_eq,
}
use multichain_rs.Exec.{Outcome, ok, err, panic, diverge, ok_or, ensure, and_then, continue}
use multichain_rs.Dict.{get}
use multichain_rs.Bitcoin.Domain.{BlockHash, BitcoinBlock, Consensus}
use multichain_rs.Bitcoin.Work.{add_work}
use multichain_rs.Bitcoin.Error.{
  StateError, invalid_genesis, invalid_proof_of_work, unknown_parent, work_overflow,
  BlockTransition,
}
use multichain_rs.Bitcoin.Dag.{
  DagNode, CanonicalityState, difficulty_interval, needs_epoch_boundary, epoch_start,
  required_target, extended_context, validate_candidate_context, candidate, add_node, observe_block,
}
use multichain_rs.Bitcoin.Dag.Target.{
  ancestor_at_height-finds, IsStandard, interval_positive, epoch_long, next_required_target-some,
}
use multichain_rs.Bitcoin.Dag.Placed.{IsPlaced-IsLinked, candidate-Under}
use multichain_rs.Bitcoin.Dag.Observe.{
  IsDag, Added, add_node-Added, observe_block_known, observe_block_new,
}

-- The errors that reject a block.
abbrev pub is_rejection : StateError → Bool
is_rejection (invalid_genesis h) = true
is_rejection (invalid_proof_of_work h) = true
is_rejection (unknown_parent h p) = true
is_rejection (work_overflow h) = true
is_rejection other = false

abbrev pub Rejects : {A : Type 0} → Outcome StateError A → Type 0
Rejects (ok a) = Unit
Rejects (err e) = is_rejection e ≡ true
Rejects panic = ⊥
Rejects diverge = ⊥

and_then-Rejects :
    {A B : Type 0} (m : Outcome StateError A) (f : A → Outcome StateError B)
    → Rejects m
    → ((a : A) → m ≡ ok a → Rejects (f a))
    → Rejects (and_then m f)
and_then-Rejects (ok a) f h k = k a refl
and_then-Rejects (err e) f h k = h
and_then-Rejects panic f h k = h
and_then-Rejects diverge f h k = h

ensure-Rejects : (b : Bool) (e : StateError) → is_rejection e ≡ true → Rejects (ensure b e)
ensure-Rejects true e h = tt
ensure-Rejects false e h = h

ok_or-Rejects :
    {A : Type 0} (e : StateError) (o : Option A) → is_rejection e ≡ true → Rejects (ok_or e o)
ok_or-Rejects e none h = h
ok_or-Rejects e (some a) h = tt

module _ (consensus : Consensus) (standard : IsStandard consensus) where
  module _ (s : CanonicalityState) (dag : IsDag s) where
    epoch_start-finds :
        (parent : DagNode) (p : BlockHash)
        → get s.nodes p ≡ some parent
        → (start : Option BitcoinBlock) × (epoch_start consensus s parent p (parent.height + 1)
            ≡ ok start)
          × (needs_epoch_boundary s.network (parent.height + 1) ≡ true
              → (b : BitcoinBlock) × (start ≡ some b))
    unfolding epoch_start
    epoch_start-finds parent p g =
        elim (Bool-cases (needs_epoch_boundary s.network (parent.height + 1))) [
          | inr e ↦ (none, rw e refl, λ h. absurd (cc (e, h)))
          | inl e ↦
              let enough = epoch_long s.network (parent.height + 1) (omega arith) e in
              let long : ltb (parent.height + 1) (difficulty_interval s.network) ≡ false =
                ground (arith, enough) in
              let some_blocks = interval_positive s.network in
              let (ancestor, found) =
                ancestor_at_height-finds s.nodes (IsPlaced-IsLinked s.nodes dag.placed)
                  (suc parent.height) p parent (parent.height + 1 - difficulty_interval s.network) g
                  (omega arith) (omega arith) in
              (some ancestor.block, rw (e, long, found) refl, λ h. (ancestor.block, refl))
        ]

    required_target-finds :
        (h : BlockHash) (parent : DagNode) (start : Option BitcoinBlock)
        → (needs_epoch_boundary s.network (parent.height + 1) ≡ true
            → (b : BitcoinBlock) × (start ≡ some b))
        → (target : ℕ) × (required_target consensus s h parent (parent.height + 1) start
            ≡ ok target)
    unfolding required_target
    required_target-finds h parent start k =
        let (target, e) =
          next_required_target-some consensus standard s.network parent.block (parent.height + 1)
            start k in
        (target, rw (required_target, e) refl)

    extended_context-Rejects :
        (h p : BlockHash) (parent : DagNode)
        → get s.nodes p ≡ some parent
        → Rejects (extended_context consensus s h p parent)
    unfolding extended_context
    extended_context-Rejects h p parent g =
        let (start, e, needed) = epoch_start-finds parent p g in
        let (target, f) = required_target-finds h parent start needed in
        and_then-Rejects _ _
          (ensure-Rejects (leb (parent.height + 1) (2 ^ 32 - 1)) (work_overflow h) refl)
          (λ _ _. rw (e, and_then, f, and_then) tt)

    context-Rejects :
        (block : BitcoinBlock) → Rejects (validate_candidate_context consensus block s)
    unfolding validate_candidate_context
    context-Rejects block =
        elim (Bool-cases (nat_beq block.block_hash (consensus.genesis_hash s.network))) [
          | inl e ↦ rw (validate_candidate_context, e) tt
          | inr e ↦ elim (Bool-cases (nat_beq block.previous_block_hash 0)) [
            | inl f ↦ rw (validate_candidate_context, e, f) refl
            | inr f ↦ elim (Option-cases (get s.nodes block.previous_block_hash)) [
              | inl g ↦ rw (validate_candidate_context, e, f, g) refl
              | inr (parent, g) ↦
                  rw (validate_candidate_context, e, f, g)
                    (extended_context-Rejects block.block_hash block.previous_block_hash parent g)
            ]
          ]
        ]

    candidate-Rejects : (block : BitcoinBlock) → Rejects (candidate consensus block s)
    unfolding candidate
    candidate-Rejects block =
        let h = block.block_hash in
        and_then-Rejects _ _
          (ensure-Rejects (consensus.validate_pow block block.compact_target)
            (invalid_proof_of_work h) refl)
          (λ _ _. and_then-Rejects _ _ (context-Rejects block) (λ c _.
            and_then-Rejects _ _
              (ensure-Rejects (consensus.validate_pow block c.3) (invalid_proof_of_work h) refl)
              (λ _ _.
                and_then-Rejects _ _
                  (ok_or-Rejects (work_overflow h) (add_work c.2 block.work) refl) (λ _ _. tt))))

    Added-Rejects :
        (r : Outcome StateError (List BlockTransition) × CanonicalityState)
        → Added s r
        → Rejects r.0
    Added-Rejects (ok transitions, t) a = tt
    Added-Rejects (err e, t) a = absurd a
    Added-Rejects (panic, t) a = a
    Added-Rejects (diverge, t) a = a

    -- Observing a block on a state that is a placed and heaviest chain ends, without a panic, in a list of transitions
    -- or in a rejection: an invalid genesis, an invalid proof of work, an unknown parent or an overflow of the work
    -- or height.
    pub observe_block-Rejects : (block : BitcoinBlock) → Rejects (observe_block consensus block s).0
    observe_block-Rejects block = elim (Option-cases (get s.nodes block.block_hash)) [
      | inr (known, g) ↦
          subst (λ r. Rejects r.0) (sym (observe_block_known consensus block s known g)) tt
      | inl free ↦
          subst (λ r. Rejects r.0) (sym (observe_block_new consensus block s free))
            (continued (candidate consensus block s) refl free)
    ]
      where
        continued :
            (r : Outcome StateError DagNode)
            → candidate consensus block s ≡ r
            → get s.nodes block.block_hash ≡ none
            → Rejects (continue r (add_node block.block_hash) s).0
        continued (ok added) c free =
            let (same, under) = candidate-Under consensus block s added c in
            Added-Rejects _
              (add_node-Added s block.block_hash added dag free (ap (λ b. b.block_hash) same) under)
        continued (err e) c free = subst Rejects c (candidate-Rejects block)
        continued panic c free = subst Rejects c (candidate-Rejects block)
        continued diverge c free = subst Rejects c (candidate-Rejects block)
