-- ===== src/Solana/Tracker/Advances.antt =====
-- How the commitment of a fork of the Solana tracker may change, and the call that adds a fork
-- (`observe_slot`).
use multichain_rs.Prelude.{
  ◌<◌, ◌≡◌, refl, sym, ap, ◌∙◌, inl, inr, Bool, true, ◌&&◌, ◌||◌, not, Option, none, some, arith,
  if◌then◌else◌, ◌==◌, nat_eq, string_eq, option_eq, Bool-cases, Option-cases,
}
use mathlib.Core.Path.{subst}
use multichain_rs.Dict
use multichain_rs.Dict.{Dict, get-insert}
use multichain_rs.Exec.{Outcome, ok, err, panic, diverge, modify, continue}
use multichain_rs.Solana.Fork.{
  Commitment, rank, commitment_eq, same_commitment_iff, ForkId, fork_eq, same_fork_iff, SolanaError,
}
use multichain_rs.Solana.Tracker.{
  SolanaCanonicality, rank_ltb, new_node, add_fork, check_parent, observe_slot,
}
use multichain_rs.Solana.Tracker.Outline.{outline, outline_of}

-- What a commitment may change to in one call: to itself, to a higher one, and to death unless it is
-- finalized. Nothing becomes of a dead fork.
unfoldable pub may_become : Commitment → Commitment → Bool
may_become before after =
    before == after
    || not (before == Commitment.dead)
      && (if after == Commitment.dead
          then not (before == Commitment.finalized)
          else rank_ltb (rank before) (rank after))

-- The parent, if there is one, has a lower slot.
abbrev pub IsLower : ForkId → Option ForkId → Type 0
IsLower fork none = Unit
IsLower fork (some parent) = parent.slot < fork.slot

-- A fork that was unknown stays so or is received, above its parent's slot; a known one keeps its
-- parent, and its commitment changes as it may.
abbrev pub Advances :
    ForkId → Option (Option ForkId × Commitment) → Option (Option ForkId × Commitment) → Type 0
Advances f none none = Unit
Advances f none (some (parent, c)) = (c ≡ Commitment.received) × IsLower f parent
Advances f (some (parent, c)) none = ⊥
Advances f (some (parent, c)) (some (parent_after, d)) =
    (parent_after ≡ parent) × (may_become c d ≡ true)

pub Advances-refl : (f : ForkId) (o : Option (Option ForkId × Commitment)) → Advances f o o
unfolding may_become
Advances-refl f none = tt
Advances-refl f (some (p, c)) = (refl, ground (arith, same_commitment_iff c c))

abbrev pub AllAdvance : SolanaCanonicality → SolanaCanonicality → Type 0
AllAdvance s t = (f : ForkId) → Advances f (outline s.nodes f) (outline t.nodes f)

pub same-AllAdvance :
    (s t : SolanaCanonicality)
    → ((f : ForkId) → outline t.nodes f ≡ outline s.nodes f)
    → AllAdvance s t
same-AllAdvance s t same f =
    subst (Advances f (outline s.nodes f)) (sym (same f)) (Advances-refl f (outline s.nodes f))

add_fork-AllAdvance :
    (fork : ForkId) (parent : Option ForkId) (s : SolanaCanonicality)
    → Dict.get s.nodes fork ≡ none
    → IsLower fork parent
    → AllAdvance s (add_fork fork parent s)
unfolding add_fork
add_fork-AllAdvance fork parent s fresh lower f = elim (Bool-cases (fork == f)) [
  | inl same ↦
      let at : fork ≡ f = (same_fork_iff fork f).0 same in
      let before : Dict.get s.nodes f ≡ none = sym (ap (Dict.get s.nodes) at) ∙ fresh in
      let set : Dict.get (Dict.insert s.nodes fork (new_node parent)) f ≡ some (new_node parent) =
        get-insert s.nodes fork f (new_node parent) ∙ rw same refl in
      subst
        (λ o.
          Advances f (outline_of o)
            (outline_of (Dict.get (Dict.insert s.nodes fork (new_node parent)) f)))
        (sym before)
        (subst (λ o. Advances f none (outline_of o)) (sym set)
          (refl, subst (λ g. IsLower g parent) at lower))
  | inr other ↦
      let kept : Dict.get (Dict.insert s.nodes fork (new_node parent)) f ≡ Dict.get s.nodes f =
        get-insert s.nodes fork f (new_node parent) ∙ rw other refl in
      subst (λ o. Advances f (outline s.nodes f) (outline_of o)) (sym kept)
        (Advances-refl f (outline s.nodes f))
]

-- A check, and then a change of the state.
modify-AllAdvance :
    (o : Outcome SolanaError Unit) (change : SolanaCanonicality → SolanaCanonicality)
    (s : SolanaCanonicality)
    → (o ≡ ok tt → AllAdvance s (change s))
    → AllAdvance s (continue o (λ _. modify change) s).1
modify-AllAdvance (ok _) change s a = a refl
modify-AllAdvance (err e) change s a = same-AllAdvance s s (λ f. refl)
modify-AllAdvance panic change s a = same-AllAdvance s s (λ f. refl)
modify-AllAdvance diverge change s a = same-AllAdvance s s (λ f. refl)

check_parent-IsLower :
    (fork : ForkId) (parent : Option ForkId) (s : SolanaCanonicality)
    → check_parent fork parent s ≡ ok tt
    → IsLower fork parent
unfolding check_parent
check_parent-IsLower fork none s e = tt
check_parent-IsLower fork (some parent) s e = ground arith

pub observe_slot-AllAdvance :
    (fork : ForkId) (parent : Option ForkId) (s : SolanaCanonicality)
    → AllAdvance s (observe_slot fork parent s).1
unfolding observe_slot
observe_slot-AllAdvance fork parent s = elim (Option-cases (Dict.get s.nodes fork)) [
  | inr (n, there) ↦ elim (Bool-cases (n.parent == parent)) [
    | inl same ↦ rw (observe_slot, there, same) (same-AllAdvance s s (λ f. refl))
    | inr other ↦ rw (observe_slot, there, other) (same-AllAdvance s s (λ f. refl))
  ]
  | inl fresh ↦
      rw (observe_slot, fresh)
        (modify-AllAdvance (check_parent fork parent s) (add_fork fork parent) s (λ passed.
          add_fork-AllAdvance fork parent s fresh (check_parent-IsLower fork parent s passed)))
]
