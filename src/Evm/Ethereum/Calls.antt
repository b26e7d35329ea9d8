-- ===== src/Evm/Ethereum/Calls.antt =====
-- The calls of the Ethereum tracker together: the invariant, failed calls, termination, finality.
use multichain_rs.Prelude.{
  ℕ, ◌+◌, ◌≤◌, ◌≡◌, refl, ap, ◌∙◌, ◌≢◌, inl, inr, some, List, ◌∷◌, arith, nat_eq, string_eq,
  option_eq, u64_max, length, All,
}
use multichain_rs.Dict
use multichain_rs.Exec.{Outcome, ok, err, panic, diverge}
use multichain_rs.Exec.Rules.{Settles}
use multichain_rs.Evm.Block.{B256, ExecutionBlock}
use multichain_rs.Evm.Line.{Headers, IsSealed}
use multichain_rs.Evm.Ancestry.{Ancestor, is_ancestor-canonical, is_ancestor_sound}
use multichain_rs.Evm.Ethereum.{
  EthereumCanonicality, EthereumCheckpoint, EthereumRevision, EthereumError, Run, commit_segment,
  reorg, observe_checkpoint,
}
use multichain_rs.Evm.Ethereum.Valid.{IsValid, next_number}
use multichain_rs.Evm.Ethereum.Commit.{
  commit_segment-IsValid, commit_segment-err, commit_segment_returns, commit_segment-ok,
  commit_blocks-ok,
}
use multichain_rs.Evm.Ethereum.Reorg.{reorg-err, reorg_returns, reorg-ok}
use multichain_rs.Evm.Ethereum.Reorg.Valid.{reorg-IsValid}
use multichain_rs.Evm.Ethereum.Checkpoint.{check_checkpoint-Joins}
use multichain_rs.Evm.Ethereum.Checkpoint.Valid.{
  observe_checkpoint-IsValid, observe_checkpoint-err, observe_checkpoint-ok,
}
use multichain_rs.Evm.Ethereum.Checkpoint.Returns.{observe_checkpoint_returns}

pub data Call : Type 0 where
  commit : List ExecutionBlock → Call
  replace : List ExecutionBlock → List ExecutionBlock → Call
  checkpoint : EthereumCheckpoint → Call

unfoldable pub handle : Call → Run (List EthereumRevision)
handle (commit blocks) = commit_segment blocks
handle (replace old news) = reorg old news
handle (checkpoint c) = observe_checkpoint c

-- The number of revisions that a call can make.
abbrev pub most_revisions : Call → ℕ
most_revisions (commit blocks) = length blocks
most_revisions (replace old news) = length old + length news
most_revisions (checkpoint c) = 2

-- A call that ends with an error leaves the state as it was.
pub handle-err :
    (c : Call) (s s' : EthereumCanonicality) (e : EthereumError) → handle c s ≡ (err e, s') → s' ≡ s
unfolding handle
handle-err (commit blocks) s s' e h = commit_segment-err blocks s s' e h
handle-err (replace old news) s s' e h = reorg-err old news s s' e h
handle-err (checkpoint c) s s' e h = observe_checkpoint-err c s s' e h

settles : {E A : Type 0} (r : Outcome E A) → r ≢ panic → r ≢ diverge → Settles r
settles (ok a) h k = tt
settles (err e) h k = tt
settles panic h k = h refl
settles diverge h k = k refl

module _ (net : Headers) where
  open net use {header}

  abbrev pub IsSealedCall : Call → Type 0
  IsSealedCall (commit blocks) = All (IsSealed net) blocks
  IsSealedCall (replace old news) = All (IsSealed net) old × All (IsSealed net) news
  IsSealedCall (checkpoint c) = Unit

  -- From a valid state, a successful call whose blocks are sealed leads to a valid state.
  pub handle-IsValid :
      (c : Call) (s s' : EthereumCanonicality) (rs : List EthereumRevision)
      → IsValid net s
      → IsSealedCall c
      → handle c s ≡ (ok rs, s')
      → IsValid net s'
  unfolding handle
  handle-IsValid (commit blocks) s s' rs v k h = commit_segment-IsValid net blocks s s' rs v k h
  handle-IsValid (replace old news) s s' rs v k h = reorg-IsValid net old news s s' rs v k.0 k.1 h
  handle-IsValid (checkpoint c) s s' rs v k h = observe_checkpoint-IsValid net c s s' rs v h

  -- From a valid state with revision numbers left for it, each call ends with a value or an error:
  -- it neither panics nor runs on.
  pub handle_returns :
      (c : Call) (s : EthereumCanonicality)
      → IsValid net s
      → s.revision + most_revisions c ≤ u64_max
      → Settles (handle c s).0
  unfolding handle
  handle_returns (commit blocks) s v room =
      let r = commit_segment_returns blocks s room in settles (commit_segment blocks s).0 r.0 r.1
  handle_returns (replace old news) s v room =
      let r = reorg_returns old news s (omega arith) in settles (reorg old news s).0 r.0 r.1
  handle_returns (checkpoint c) s v room = observe_checkpoint_returns net c s v room

  -- What a call does to a finalized block.
  pub record Finalizes (s s' : EthereumCanonicality) (f : B256) : Type 0 where
    pub still_canonical : Dict.get s'.canonical (header f).number ≡ some f
    pub successor : B256
    pub is_finalized : s'.finalized ≡ some successor
    pub descends : Ancestor net f successor

  same_finalized :
      (s s' : EthereumCanonicality) (f : B256)
      → IsValid net s'
      → s'.finalized ≡ s.finalized
      → s.finalized ≡ some f
      → Finalizes s s' f
  same_finalized s s' f v same e = record {
    still_canonical = v.finalized_canonical f (same ∙ e);
    successor = f;
    is_finalized = same ∙ e;
    descends = Ancestor.itself f refl;
  }

  finalized-commit_segment :
      (blocks : List ExecutionBlock) (s s' : EthereumCanonicality) (rs : List EthereumRevision)
      → s.revision ≤ u64_max
      → commit_segment blocks s ≡ (ok rs, s')
      → s'.finalized ≡ s.finalized
  unfolding commit_segment
  finalized-commit_segment List.[] s s' rs fits h = ground arith
  finalized-commit_segment (b ∷ bs) s s' rs fits h = elim (commit_segment-ok b bs s s' rs h) [
    | inl (same, _) ↦ ap (λ x. x.finalized) same
    | inr (_, _, ran) ↦ ap (λ x. x.finalized) (commit_blocks-ok (b ∷ bs) s s' rs fits ran).1
  ]

  finalized-reorg :
      (old news : List ExecutionBlock) (s s' : EthereumCanonicality) (rs : List EthereumRevision)
      → s.revision ≤ u64_max
      → reorg old news s ≡ (ok rs, s')
      → s'.finalized ≡ s.finalized
  unfolding reorg
  finalized-reorg List.[] news s s' rs fits h = absurd (ground arith)
  finalized-reorg (o ∷ os) List.[] s s' rs fits h = absurd (ground arith)
  finalized-reorg (o ∷ os) (n ∷ ns) s s' rs fits h =
      ap (λ x. x.finalized) (reorg-ok o os n ns s s' rs fits h).2

  finalized-checkpoint :
      (c : EthereumCheckpoint) (s s' : EthereumCanonicality) (rs : List EthereumRevision) (f : B256)
      → IsValid net s
      → observe_checkpoint c s ≡ (ok rs, s')
      → s.finalized ≡ some f
      → Finalizes s s' f
  finalized-checkpoint c s s' rs f v h e =
      let (joined, ec, m) = observe_checkpoint-ok c s s' rs h in
      let j = check_checkpoint-Joins net c s joined.0 joined.1 v ec in
      let on = j.finalized_on in
      let at = v.finalized_canonical f e in
      let up =
        is_ancestor-canonical net s.blocks s.canonical (next_number net s.head) v.line
          (header f).number joined.1.number f c.finalized at on.placed in
      let low = j.finalized_grows f e in
      record {
        still_canonical = rw m.canonical at;
        successor = c.finalized;
        is_finalized = m.finalized_is ∙ ap some on.hashed;
        descends =
            is_ancestor_sound net s.blocks s.canonical (next_number net s.head) v.line f c.finalized
              (ground arith);
      }

  -- From a valid state, a successful call of sealed blocks leaves a block that was finalized on the
  -- canonical line, and the block that is finalized afterwards is that block or a descendant of it.
  pub handle-Finalizes :
      (c : Call) (s s' : EthereumCanonicality) (rs : List EthereumRevision) (f : B256)
      → IsValid net s
      → IsSealedCall c
      → handle c s ≡ (ok rs, s')
      → s.finalized ≡ some f
      → Finalizes s s' f
  unfolding handle
  handle-Finalizes (commit blocks) s s' rs f v k h e =
      same_finalized s s' f (handle-IsValid (commit blocks) s s' rs v k h)
        (finalized-commit_segment blocks s s' rs v.revision_fits h) e
  handle-Finalizes (replace old news) s s' rs f v k h e =
      same_finalized s s' f (handle-IsValid (replace old news) s s' rs v k h)
        (finalized-reorg old news s s' rs v.revision_fits h) e
  handle-Finalizes (checkpoint c) s s' rs f v k h e = finalized-checkpoint c s s' rs f v h e
