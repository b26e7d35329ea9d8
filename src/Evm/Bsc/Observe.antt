-- ===== src/Evm/Bsc/Observe.antt =====
-- `observe_finalized` and `finality_health` of the BSC tracker.
pub mod Valid
use mathlib.Core.Path.{subst}
use multichain_rs.Prelude.{
  ℕ, zero, suc, ◌+◌, ◌-◌, ◌*◌, ◌/◌, ◌%◌, ◌^◌, ◌≤◌, ◌<◌, min, String, ◌≡◌, refl, sym, ap, ◌∙◌,
  fun_ext, ◌≢◌, ◌↔◌, ◌⊎◌, inl, inr, Bool, true, false, ◌&&◌, ◌||◌, not, Option, none, some, List,
  [], ◌∷◌, ◌++◌, map, reverse, arith, ltb, leb, nat_beq, if◌then◌else◌, Eq, ◌==◌, nat_beq_iff,
  nat_eq, string_eq, option_beq, option_beq_iff, option_eq, Bool-cases, Option-cases, u64_max,
  saturating_add, checked_add, length, length-append, length-reverse, any, all, last?, All,
  All-append, is_whitespace, is_blank, is_ascii,
}
use multichain_rs.Dict
use multichain_rs.Exec.{
  Outcome, ok, err, panic, diverge, Exec, pure, raise, reads, current, modify, ok_or, ensure,
  and_then, or_else, negated, continue, ◌>>=◌, ◌>>◌,
}
use multichain_rs.Exec.Rules.{
  and_then-ok, bind-ok, bind-err, ensure-ok, Settles, and_then-Settles, ok_or-Settles,
  ensure-Settles, if-Settles, continue-Settles,
}
use multichain_rs.Evm.Status.{BscStatus}
use multichain_rs.Evm.Block.{B256, ExecutionBlock, Heights, is_ancestor}
use multichain_rs.Evm.Line.{Headers, IsLine}
use multichain_rs.Evm.Ancestry.{
  Ancestor, is_ancestor-canonical, is_ancestor_returns, is_ancestor_sound,
}
use multichain_rs.Evm.Bsc.{
  BscCanonicality, BscFinalityObservation, BscRevision, BscError, observe_finalized,
  check_observation, check_time, check_ancestry, check_advance, canonical_block, block,
  has_ancestor, next_revision, observed,
}
use multichain_rs.Evm.Bsc.Valid.{IsValid, next_number}

-- The payload of a tag that passes is the canonical block of its number.
pub canonical_block-ok :
    (h : B256) (s : BscCanonicality) (b : ExecutionBlock)
    → canonical_block h s ≡ ok b
    → (Dict.get s.blocks h ≡ some b) × (Dict.get s.canonical b.number ≡ some h)
unfolding canonical_block block
canonical_block-ok h s b e = elim (Option-cases (Dict.get s.blocks h)) [
  | inl missing ↦ absurd (ground arith)
  | inr (c, found) ↦ elim (Bool-cases (Dict.get s.canonical c.number == some h)) [
    | inl on ↦
        let at = (option_beq_iff (Dict.get s.canonical c.number) (some h)).0 on in ground arith
    | inr off ↦ absurd (ground arith)
  ]
]

-- What the checks of an observation have established, the previous finalized block apart.
pub record Observes (o : BscFinalityObservation) (b : ExecutionBlock) (s : BscCanonicality)
    : Type 0 where
  pub later : (t : ℕ) → s.last_observed_at_unix_ms ≡ some t → t < o.observed_at_unix_ms
  pub finds : canonical_block o.finalized s ≡ ok b
  pub advances : check_advance s.finalized b s ≡ ok tt

later-check_time : (o t : ℕ) (last : Option ℕ) → check_time o last ≡ ok tt → last ≡ some t → t < o
unfolding check_time
later-check_time o t none h e = absurd (cc e)
later-check_time o t (some u) h e = ground arith

pub check_observation-Observes :
    (o : BscFinalityObservation) (s : BscCanonicality) (b : ExecutionBlock)
    → check_observation o s ≡ ok b
    → Observes o b s
unfolding check_observation
check_observation-Observes o s b e =
    let (_, e0, e1) =
      and_then-ok (check_time o.observed_at_unix_ms s.last_observed_at_unix_ms) _ e in
    let (head, eh, e2) = and_then-ok (canonical_block o.head s) _ e1 in
    let (fb, ef, e3) = and_then-ok (canonical_block o.finalized s) _ e2 in
    let (_, ea, e4) = and_then-ok (check_ancestry head fb s) _ e3 in
    let (_, ed, e5) = and_then-ok (check_advance s.finalized fb s) _ e4 in
    let same : fb ≡ b = cc e5 in
    record {
      later = λ t. later-check_time o.observed_at_unix_ms t s.last_observed_at_unix_ms e0;
      finds = ef ∙ ap ok same;
      advances = ap (λ x. check_advance s.finalized x s) (sym same) ∙ ed;
    }

next_revision-ok :
    (b : ExecutionBlock) (status : BscStatus) (source : Option String) (s s' : BscCanonicality)
    (r : BscRevision)
    → next_revision b status source s ≡ (ok r, s')
    → (s' ≡ record s { revision = s.revision + 1 })
      × (s.revision + 1 ≤ u64_max)
      × (r ≡ record { block = b; status = status; revision = s.revision + 1; source_id = source })
unfolding next_revision
next_revision-ok b status source s s' r h = ground arith

pub next_revision_lem :
    (b : ExecutionBlock) (status : BscStatus) (source : Option String) (s : BscCanonicality)
    → s.revision + 1 ≤ u64_max
    → next_revision b status source s ≡ (
      ok (record { block = b; status = status; revision = s.revision + 1; source_id = source }),
      record s { revision = s.revision + 1 },
    )
unfolding next_revision
next_revision_lem b status source s room = ground arith

-- What an accepted observation changes, and what it leaves.
pub record Marks (o : BscFinalityObservation) (s s' : BscCanonicality) (b : ExecutionBlock)
    : Type 0 where
  pub blocks : s'.blocks ≡ s.blocks
  pub canonical : s'.canonical ≡ s.canonical
  pub head : s'.head ≡ s.head
  pub finalized_is : s'.finalized ≡ some b.hash
  pub observed_at : s'.last_observed_at_unix_ms ≡ some o.observed_at_unix_ms
  pub changed_at : s'.last_finality_change_at_unix_ms ≡ (
      if s.finalized == some b.hash
      then s.last_finality_change_at_unix_ms
      else some o.observed_at_unix_ms)
  pub counted : s'.revision ≡ s.revision + 1
  pub fits : s'.revision ≤ u64_max

observed-Marks :
    (o : BscFinalityObservation) (s : BscCanonicality) (b : ExecutionBlock)
    → s.revision + 1 ≤ u64_max
    → Marks o s (record (observed b o.observed_at_unix_ms s) { revision = s.revision + 1 }) b
unfolding observed
observed-Marks o s b room = elim (Bool-cases (s.finalized == some b.hash)) [
  | inl same ↦
      let e = (option_beq_iff s.finalized (some b.hash)).0 same in
      rw (same, observed)
        (record {
          blocks = refl;
          canonical = refl;
          head = refl;
          finalized_is = e;
          observed_at = refl;
          changed_at = rw same;
          counted = refl;
          fits = room;
        })
  | inr other ↦
      rw (other, observed)
        (record {
          blocks = refl;
          canonical = refl;
          head = refl;
          finalized_is = refl;
          observed_at = refl;
          changed_at = rw other;
          counted = refl;
          fits = room;
        })
]

pub revision-observed :
    (b : ExecutionBlock) (time : ℕ) (s : BscCanonicality)
    → (observed b time s).revision ≡ s.revision
unfolding observed
revision-observed b time s = ground arith

-- How a call that returns a revision went.
pub observe_finalized-ok :
    (o : BscFinalityObservation) (s s' : BscCanonicality) (r : BscRevision)
    → observe_finalized o s ≡ (ok r, s')
    → (b : ExecutionBlock) × (check_observation o s ≡ ok b) × Marks o s s' b
unfolding observe_finalized
observe_finalized-ok o s s' r h =
    let (b, u, e, h1) = bind-ok (reads (check_observation o)) _ s h in
    let same : u ≡ s = ap (λ x. x.1) (sym e) in
    let w = observed b o.observed_at_unix_ms u in
    let (eq, room_u, _) =
      next_revision-ok b BscStatus.fast_finalized (some o.source_id) w s' r h1 in
    let kept : w.revision ≡ u.revision = revision-observed b o.observed_at_unix_ms u in
    let after : s' ≡ record (observed b o.observed_at_unix_ms u) { revision = u.revision + 1 } =
      eq ∙ ap (λ n. record (observed b o.observed_at_unix_ms u) { revision = n + 1 }) kept in
    let marks : Marks o u s' b =
      subst (λ x. Marks o u x b) (sym after) (observed-Marks o u b (omega arith)) in
    (b, ground arith, subst (λ x. Marks o x s' b) same marks)

-- An observation that is refused has changed nothing.
pub observe_finalized-err :
    (o : BscFinalityObservation) (s s' : BscCanonicality) (e : BscError)
    → observe_finalized o s ≡ (err e, s')
    → s' ≡ s
unfolding observe_finalized next_revision
observe_finalized-err o s s' e h = ground arith
