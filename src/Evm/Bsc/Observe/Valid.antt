-- ===== src/Evm/Bsc/Observe/Valid.antt =====
-- Accepted observations keep the invariant of the BSC tracker, and the finalized tag only moves up.
use mathlib.Core.Path.{subst₂}
use multichain_rs.Prelude.{
  ℕ, ◌+◌, ◌≤◌, ◌≡◌, sym, ap, ◌∙◌, inl, inr, true, not, Option, none, some, arith, leb, ◌==◌,
  nat_beq_iff, nat_eq, string_eq, option_eq, Bool-cases, u64_max,
}
use multichain_rs.Dict
use multichain_rs.Exec.{ok}
use multichain_rs.Exec.Rules.{
  Settles, and_then-Settles, ok_or-Settles, ensure-Settles, if-Settles, continue-Settles,
}
use multichain_rs.Evm.Status.{BscStatus}
use multichain_rs.Evm.Block.{B256, ExecutionBlock, is_ancestor}
use multichain_rs.Evm.Line.{Headers}
use multichain_rs.Evm.Ancestry.{Ancestor, is_ancestor_returns, is_ancestor_sound}
use multichain_rs.Evm.Bsc.{
  BscCanonicality, BscFinalityObservation, BscRevision, observe_finalized, check_observation,
  check_time, check_ancestry, check_advance, canonical_block, block, has_ancestor, observed,
}
use multichain_rs.Evm.Bsc.Valid.{IsValid, next_number}
use multichain_rs.Evm.Bsc.Observe.{
  check_observation-Observes, observe_finalized-ok, next_revision_lem, revision-observed,
  canonical_block-ok,
}

module _ (net : Headers) where
  open net use {header}

  -- The tag's payload is a canonical block, and the block is the one that its hash stands for.
  pub record OnLine (h : B256) (b : ExecutionBlock) (s : BscCanonicality) : Type 0 where
    pub sealed : header h ≡ b
    pub hashed : b.hash ≡ h
    pub placed : Dict.get s.canonical b.number ≡ some h

  canonical_block-OnLine :
      (h : B256) (s : BscCanonicality) (b : ExecutionBlock)
      → IsValid net s
      → canonical_block h s ≡ ok b
      → OnLine h b s
  canonical_block-OnLine h s b v e =
      let (found, placed) = canonical_block-ok h s b e in
      let known = v.line.known h b found in
      record { sealed = known.0; hashed = known.1; placed = placed }

  pub observe_finalized-IsValid :
      (o : BscFinalityObservation) (s s' : BscCanonicality) (r : BscRevision)
      → IsValid net s
      → observe_finalized o s ≡ (ok r, s')
      → IsValid net s'
  observe_finalized-IsValid o s s' r v h =
      let (b, e, m) = observe_finalized-ok o s s' r h in
      let obs = check_observation-Observes o s b e in
      let on = canonical_block-OnLine o.finalized s b v obs.finds in
      record {
        line = rw (m.blocks, m.canonical, m.head) v.line;
        tip = λ c f. rw m.canonical (v.tip c (sym m.head ∙ f));
        finalized_canonical =
            λ c f. rw m.canonical (ground (arith, m.finalized_is, on.hashed, on.sealed, on.placed));
        revision_fits = m.fits;
      }

  -- The previous finalized block is the new one, or a lower block that it descends from.
  check_advance-Ancestor :
      (g h : B256) (b : ExecutionBlock) (s : BscCanonicality)
      → IsValid net s
      → Dict.get s.canonical (header g).number ≡ some g
      → OnLine h b s
      → check_advance (some g) b s ≡ ok tt
      → Ancestor net g h × ((header g).number ≤ b.number)
  unfolding check_advance block has_ancestor
  check_advance-Ancestor g h b s v at on e =
      let st = v.line.stored (header g).number g at in
      let kn = v.line.known g (header g) st.0 in
      elim (Bool-cases (g == b.hash)) [
        | inl same ↦
            let eq = (nat_beq_iff g b.hash).0 same in
            (Ancestor.itself h (ground (arith, on.hashed)), ground (arith, on.hashed, on.sealed))
        | inr other ↦
            let sound =
              is_ancestor_sound net s.blocks s.canonical (next_number net s.head) v.line
                (header g).hash b.hash in
            let facts : (is_ancestor s.blocks (header g).hash b.hash ≡ some true)
                × ((header g).number ≤ b.number) =
              ground (arith, st.0) in
            (subst₂ (Ancestor net) kn.1 on.hashed (sound facts.0), facts.1)
      ]

  pub record Finalizes (s s' : BscCanonicality) (f : B256) : Type 0 where
    pub still_canonical : Dict.get s'.canonical (header f).number ≡ some f
    pub successor : B256
    pub is_finalized : s'.finalized ≡ some successor
    pub descends : Ancestor net f successor

  pub finalized-observe :
      (o : BscFinalityObservation) (s s' : BscCanonicality) (r : BscRevision) (f : B256)
      → IsValid net s
      → observe_finalized o s ≡ (ok r, s')
      → s.finalized ≡ some f
      → Finalizes s s' f
  finalized-observe o s s' r f v h e =
      let (b, eb, m) = observe_finalized-ok o s s' r h in
      let obs = check_observation-Observes o s b eb in
      let on = canonical_block-OnLine o.finalized s b v obs.finds in
      let at = v.finalized_canonical f e in
      let up =
        check_advance-Ancestor f o.finalized b s v at on
          (ap (λ x. check_advance x b s) (sym e) ∙ obs.advances) in
      record {
        still_canonical = rw m.canonical at;
        successor = o.finalized;
        is_finalized = m.finalized_is ∙ ap some on.hashed;
        descends = up.0;
      }

  has_ancestor-Settles :
      (g h : B256) (s : BscCanonicality) → IsValid net s → Settles (has_ancestor g h s)
  unfolding has_ancestor
  has_ancestor-Settles g h s v =
      let (b, e) =
        is_ancestor_returns net s.blocks s.canonical (next_number net s.head) v.line g h in
      rw (e, has_ancestor) tt

  canonical_block-Settles : (h : B256) (s : BscCanonicality) → Settles (canonical_block h s)
  unfolding canonical_block block
  canonical_block-Settles h s =
      and_then-Settles _ _ (ok_or-Settles _ _)
        λ b. if-Settles (Dict.get s.canonical b.number == some h) _ _ tt tt

  check_advance-Settles :
      (p : Option B256) (b : ExecutionBlock) (s : BscCanonicality)
      → IsValid net s
      → Settles (check_advance p b s)
  unfolding check_advance block
  check_advance-Settles none b s v = tt
  check_advance-Settles (some p) b s v = if-Settles (p == b.hash) _ _ tt (
      and_then-Settles _ _ (ok_or-Settles _ _) λ previous.
        if-Settles (leb b.number previous.number) _ _ tt (
          and_then-Settles _ _ (has_ancestor-Settles previous.hash b.hash s v)
            λ below. ensure-Settles below _))

  check_time-Settles : (o : ℕ) (t : Option ℕ) → Settles (check_time o t)
  unfolding check_time
  check_time-Settles o none = tt
  check_time-Settles o (some t) = if-Settles (leb o t) _ _ tt tt

  check_ancestry-Settles :
      (head b : ExecutionBlock) (s : BscCanonicality)
      → IsValid net s
      → Settles (check_ancestry head b s)
  unfolding check_ancestry
  check_ancestry-Settles head b s v = if-Settles (not (s.head == some head.hash)) _ _ tt (
      and_then-Settles _ _ (has_ancestor-Settles b.hash head.hash s v)
        λ below. ensure-Settles below _)

  check_observation-Settles :
      (o : BscFinalityObservation) (s : BscCanonicality)
      → IsValid net s
      → Settles (check_observation o s)
  unfolding check_observation
  check_observation-Settles o s v =
      and_then-Settles _ _ (check_time-Settles o.observed_at_unix_ms s.last_observed_at_unix_ms)
        λ _. and_then-Settles _ _ (canonical_block-Settles o.head s) λ head.
          and_then-Settles _ _ (canonical_block-Settles o.finalized s) λ b.
            and_then-Settles _ _ (check_ancestry-Settles head b s v)
              λ _. and_then-Settles _ _ (check_advance-Settles s.finalized b s v) λ _. tt

  pub observe_finalized_returns :
      (o : BscFinalityObservation) (s : BscCanonicality)
      → IsValid net s
      → s.revision + 1 ≤ u64_max
      → Settles (observe_finalized o s).0
  unfolding observe_finalized
  observe_finalized_returns o s v room =
      continue-Settles (check_observation o s) _ s (check_observation-Settles o s v) λ b.
        let kept = revision-observed b o.observed_at_unix_ms s in
        rw
          (next_revision_lem b BscStatus.fast_finalized (some o.source_id)
            (observed b o.observed_at_unix_ms s) (omega arith))
          tt
