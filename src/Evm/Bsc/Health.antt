-- ===== src/Evm/Bsc/Health.antt =====
-- The health of the finalized tag across an observation.
use multichain_rs.Prelude.{
  ℕ, ◌-◌, ◌<◌, ◌≡◌, Bool, true, false, some, ltb, if◌then◌else◌, ◌==◌, nat_eq, string_eq, option_eq,
  list_eq,
}
use multichain_rs.Dict
use multichain_rs.Exec.{ok}
use multichain_rs.Evm.Block.{ExecutionBlock}
use multichain_rs.Evm.Bsc.{
  BscCanonicality, BscFinalityObservation, BscRevision, observe_finalized, finality_health, healthy,
  stalled,
}
use multichain_rs.Evm.Bsc.Observe.{
  observe_finalized-ok, check_observation-Observes, canonical_block-ok,
}

health-eq :
    (same : Bool) (s s' : BscCanonicality) (time now bound : ℕ)
    → s'.last_finality_change_at_unix_ms
      ≡ (if same then s.last_finality_change_at_unix_ms else some time)
    → finality_health s' now bound ≡ (
        if same
        then finality_health s now bound
        else if ltb bound (now - time)
        then stalled
        else healthy)
unfolding finality_health
health-eq true s s' time now bound h = rw (h, finality_health)
health-eq false s s' time now bound h = rw (h, finality_health)

-- The block that an accepted observation names as finalized is known, canonical at its height, and finalized
-- afterwards. If it was the finalized one already, the tag's health is at every time what it was: repeated
-- observations do not hide a stall. If it is a new one, the tag is healthy until more than the bound has passed since
-- the observation, then stalled.
pub health-observe_finalized :
    (o : BscFinalityObservation) (s s' : BscCanonicality) (r : BscRevision)
    → observe_finalized o s ≡ (ok r, s')
    → (b : ExecutionBlock) × (Dict.get s.blocks o.finalized ≡ some b)
      × (Dict.get s.canonical b.number ≡ some o.finalized)
      × (s'.finalized ≡ some b.hash)
      × ((now bound : ℕ)
          → finality_health s' now bound ≡ (
              if s.finalized == some b.hash
              then finality_health s now bound
              else if ltb bound (now - o.observed_at_unix_ms)
              then stalled
              else healthy))
health-observe_finalized o s s' r h =
    let (b, e, m) = observe_finalized-ok o s s' r h in
    let (known, at) =
      canonical_block-ok o.finalized s b (check_observation-Observes o s b e).finds in
    (
      b,
      known,
      at,
      m.finalized_is,
      λ now bound.
          health-eq (s.finalized == some b.hash) s s' o.observed_at_unix_ms now bound m.changed_at,
    )

-- An accepted observation is later than every one accepted before it.
later-observe_finalized :
    (o : BscFinalityObservation) (s s' : BscCanonicality) (r : BscRevision) (t : ℕ)
    → observe_finalized o s ≡ (ok r, s')
    → s.last_observed_at_unix_ms ≡ some t
    → (t < o.observed_at_unix_ms) × (s'.last_observed_at_unix_ms ≡ some o.observed_at_unix_ms)
later-observe_finalized o s s' r t h e =
    let (b, eb, m) = observe_finalized-ok o s s' r h in
    ((check_observation-Observes o s b eb).later t e, m.observed_at)
