-- ===== src/Evm/Bsc/Calls.antt =====
-- The calls of the BSC tracker together: the invariant, failed calls, termination, finality.
use mathlib.Core.Path.{subst}
use multichain_rs.Prelude.{
  ℕ, ◌+◌, ◌≤◌, ◌≡◌, refl, ap, ◌∙◌, ◌≢◌, inl, inr, some, List, [], ◌∷◌, arith, nat_eq, string_eq,
  option_eq, u64_max, length, All,
}
use multichain_rs.Exec.{Outcome, ok, err, panic, diverge, pure, ◌>>=◌}
use multichain_rs.Exec.Rules.{Settles, bind-ok, bind-err, continue-Settles}
use multichain_rs.Evm.Block.{B256, ExecutionBlock}
use multichain_rs.Evm.Line.{Headers, IsSealed}
use multichain_rs.Evm.Ancestry.{Ancestor}
use multichain_rs.Evm.Bsc.{
  BscCanonicality, BscFinalityObservation, BscRevision, BscError, Run, commit_segment, reorg,
  observe_finalized,
}
use multichain_rs.Evm.Bsc.Valid.{IsValid}
use multichain_rs.Evm.Bsc.Commit.{
  commit_segment-IsValid, commit_segment-err, commit_segment_returns, commit_segment-ok,
  commit_blocks-ok,
}
use multichain_rs.Evm.Bsc.Reorg.{reorg-err, reorg_returns, reorg-ok}
use multichain_rs.Evm.Bsc.Observe.{observe_finalized-err}
use multichain_rs.Evm.Bsc.Observe.Valid.{
  observe_finalized-IsValid, observe_finalized_returns, Finalizes, finalized-observe,
}
use multichain_rs.Evm.Bsc.Reorg.Valid.{reorg-IsValid}

pub data Call : Type 0 where
  commit : List ExecutionBlock → Call
  replace : List ExecutionBlock → List ExecutionBlock → Call
  finality : BscFinalityObservation → Call

unfoldable pub handle_bsc : Call → Run (List BscRevision)
handle_bsc (commit blocks) = commit_segment blocks
handle_bsc (replace old news) = reorg old news
handle_bsc (finality o) = do r ← observe_finalized o; pure (r ∷ [])

-- The number of revisions that a call can make.
abbrev pub most_revisions : Call → ℕ
most_revisions (commit blocks) = length blocks
most_revisions (replace old news) = length old + length news
most_revisions (finality o) = 1

-- A call that ends with an error leaves the state as it was.
pub handle_bsc-err :
    (c : Call) (s s' : BscCanonicality) (e : BscError) → handle_bsc c s ≡ (err e, s') → s' ≡ s
unfolding handle_bsc
handle_bsc-err (commit blocks) s s' e h = commit_segment-err blocks s s' e h
handle_bsc-err (replace old news) s s' e h = reorg-err old news s s' e h
handle_bsc-err (finality o) s s' e h = elim (bind-err (observe_finalized o) _ s h) [
  | inl refused ↦ observe_finalized-err o s s' e refused
  | inr (r, u, _, g) ↦ absurd (ground arith)
]

settles : {E A : Type 0} (r : Outcome E A) → r ≢ panic → r ≢ diverge → Settles r
settles (ok a) h k = tt
settles (err e) h k = tt
settles panic h k = h refl
settles diverge h k = k refl

module _ (net : Headers) where
  open net use {header}

  abbrev pub IsSealedCall : Call → Type 0
  IsSealedCall (commit blocks) = All (IsSealed net) blocks
  IsSealedCall (replace old news) = All (IsSealed net) old × All (IsSealed net) news
  IsSealedCall (finality o) = Unit

  -- From a valid state, a successful call whose blocks are sealed leads to a valid state.
  pub handle_bsc-IsValid :
      (c : Call) (s s' : BscCanonicality) (rs : List BscRevision)
      → IsValid net s
      → IsSealedCall c
      → handle_bsc c s ≡ (ok rs, s')
      → IsValid net s'
  unfolding handle_bsc
  handle_bsc-IsValid (commit blocks) s s' rs v k h = commit_segment-IsValid net blocks s s' rs v k h
  handle_bsc-IsValid (replace old news) s s' rs v k h =
      reorg-IsValid net old news s s' rs v k.0 k.1 h
  handle_bsc-IsValid (finality o) s s' rs v k h =
      let (r, u, e, g) = bind-ok (observe_finalized o) _ s h in
      subst (IsValid net) (ap (λ x. x.1) g) (observe_finalized-IsValid net o s u r v e)

  -- From a valid state with revision numbers left for it, each call ends with a value or an error:
  -- it neither panics nor runs on.
  pub handle_bsc_returns :
      (c : Call) (s : BscCanonicality)
      → IsValid net s
      → s.revision + most_revisions c ≤ u64_max
      → Settles (handle_bsc c s).0
  unfolding handle_bsc
  handle_bsc_returns (commit blocks) s v room =
      let r = commit_segment_returns blocks s room in settles (commit_segment blocks s).0 r.0 r.1
  handle_bsc_returns (replace old news) s v room =
      let r = reorg_returns old news s (omega arith) in settles (reorg old news s).0 r.0 r.1
  handle_bsc_returns (finality o) s v room =
      continue-Settles (observe_finalized o s).0 _ (observe_finalized o s).1
        (observe_finalized_returns net o s v room) (λ r. tt)

  same_finalized :
      (s s' : BscCanonicality) (f : B256)
      → IsValid net s'
      → s'.finalized ≡ s.finalized
      → s.finalized ≡ some f
      → Finalizes net s s' f
  same_finalized s s' f v same e = record {
    still_canonical = v.finalized_canonical f (same ∙ e);
    successor = f;
    is_finalized = same ∙ e;
    descends = Ancestor.itself f refl;
  }

  finalized-commit_segment :
      (blocks : List ExecutionBlock) (s s' : BscCanonicality) (rs : List BscRevision)
      → s.revision ≤ u64_max
      → commit_segment blocks s ≡ (ok rs, s')
      → s'.finalized ≡ s.finalized
  unfolding commit_segment
  finalized-commit_segment List.[] s s' rs fits h = ground arith
  finalized-commit_segment (b ∷ bs) s s' rs fits h = elim (commit_segment-ok b bs s s' rs h) [
    | inl (same, _) ↦ ap (λ x. x.finalized) same
    | inr (_, _, ran) ↦ ap (λ x. x.finalized) (commit_blocks-ok (b ∷ bs) s s' rs fits ran).1
  ]

  finalized-reorg :
      (old news : List ExecutionBlock) (s s' : BscCanonicality) (rs : List BscRevision)
      → s.revision ≤ u64_max
      → reorg old news s ≡ (ok rs, s')
      → s'.finalized ≡ s.finalized
  unfolding reorg
  finalized-reorg List.[] news s s' rs fits h = absurd (ground arith)
  finalized-reorg (o ∷ os) List.[] s s' rs fits h = absurd (ground arith)
  finalized-reorg (o ∷ os) (n ∷ ns) s s' rs fits h =
      ap (λ x. x.finalized) (reorg-ok o os n ns s s' rs fits h).2

  -- From a valid state, a successful call of sealed blocks leaves a block that was finalized on the
  -- canonical line, and the block that is finalized afterwards is that block or a descendant of it.
  pub handle_bsc-Finalizes :
      (c : Call) (s s' : BscCanonicality) (rs : List BscRevision) (f : B256)
      → IsValid net s
      → IsSealedCall c
      → handle_bsc c s ≡ (ok rs, s')
      → s.finalized ≡ some f
      → Finalizes net s s' f
  unfolding handle_bsc
  handle_bsc-Finalizes (commit blocks) s s' rs f v k h e =
      same_finalized s s' f (handle_bsc-IsValid (commit blocks) s s' rs v k h)
        (finalized-commit_segment blocks s s' rs v.revision_fits h) e
  handle_bsc-Finalizes (replace old news) s s' rs f v k h e =
      same_finalized s s' f (handle_bsc-IsValid (replace old news) s s' rs v k h)
        (finalized-reorg old news s s' rs v.revision_fits h) e
  handle_bsc-Finalizes (finality o) s s' rs f v k h e =
      let (r, u, eu, g) = bind-ok (observe_finalized o) _ s h in
      subst (λ x. Finalizes net s x f) (ap (λ x. x.1) g) (finalized-observe net o s u r f v eu e)
