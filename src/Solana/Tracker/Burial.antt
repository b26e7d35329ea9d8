-- ===== src/Solana/Tracker/Burial.antt =====
-- Which forks `mark_dead` of the Solana tracker kills.
use multichain_rs.Prelude.{
  ◌≡◌, refl, sym, ap, ◌∙◌, inl, inr, Bool, true, false, ◌&&◌, Option, none, some, List, [], ◌∷◌,
  if◌then◌else◌, ◌==◌, nat_eq, string_eq, option_eq, Bool-cases, Option-cases, any, list_eq,
}
use mathlib.Core.Path.{subst}
use multichain_rs.Dict
use multichain_rs.Dict.{Dict, any-keys}
use multichain_rs.Exec.{Outcome, ok, pure, raise, reads, modify, ◌>>◌}
use multichain_rs.Exec.Rules.{bind-ok, and_then-ok}
use multichain_rs.Solana.Fork.{
  Commitment, commitment_eq, ForkId, fork_eq, same_fork_iff, ForkNode, SolanaError,
  CommitmentRevision,
}
use multichain_rs.Solana.Tracker.{
  SolanaCanonicality, new_solana, Run, node, is_ancestor, descendants, bury, is_finalized_fork,
  leave_subtree, mark_dead, mark_subtree_dead, kill, announce,
}
use multichain_rs.Solana.Tracker.Outline.{outline, outline_of}
use multichain_rs.Solana.Tracker.Kill.{recommit, outline-kill, kill-outline}
use multichain_rs.Solana.Tracker.Paths.{run_calls}
use multichain_rs.Solana.Tracker.Descent.{Descendant, is_ancestor-Descendant}
use multichain_rs.Solana.Tracker.Commitments.{Call, announce-Keeps, leave_subtree-Keeps}

ok-injective : {A : Type 0} {a b : A} → ◌≡◌ {A = Outcome SolanaError A} (ok a) (ok b) → a ≡ b
ok-injective e = cc e

none_and : (b : Bool) → (b && false) ≡ false
none_and true = refl
none_and false = refl

keep_same :
    (c b : Bool) (g f : ForkId) (more others : List ForkId)
    → (g == f) ≡ true
    → c ≡ b
    → any (λ h. h == f) others ≡ (any (λ h. h == f) more && b)
    → any (λ h. h == f) (if c then g ∷ others else others) ≡ (any (λ h. h == f) (g ∷ more) && b)
keep_same true true g f more others same meet tail = rw same refl
keep_same true false g f more others same meet tail = absurd (cc meet)
keep_same false true g f more others same meet tail = absurd (cc meet)
keep_same false false g f more others same meet tail =
    rw same (tail ∙ none_and (any (λ h. h == f) more))

keep_other :
    (c b : Bool) (g f : ForkId) (more others : List ForkId)
    → (g == f) ≡ false
    → any (λ h. h == f) others ≡ (any (λ h. h == f) more && b)
    → any (λ h. h == f) (if c then g ∷ others else others) ≡ (any (λ h. h == f) (g ∷ more) && b)
keep_other true b g f more others other tail = rw other tail
keep_other false b g f more others other tail = rw other tail

-- A fork that is not known has no outline to change.
known_only :
    (b : Bool) (o : Option ForkNode)
    → (if (elim o [ none ↦ false | some _ ↦ true ]) && b
        then recommit Commitment.dead (outline_of o)
        else outline_of o)
      ≡ (if b then recommit Commitment.dead (outline_of o) else outline_of o)
unfolding recommit
known_only true none = refl
known_only false none = refl
known_only b (some n) = refl

-- The forks of a list that the filter of `mark_dead` keeps.
descendants-elem :
    (fork f : ForkId) (b : Bool) (l dead : List ForkId) (s : SolanaCanonicality)
    → is_ancestor fork f s ≡ ok b
    → descendants fork l s ≡ ok dead
    → any (λ g. g == f) dead ≡ (any (λ g. g == f) l && b)
unfolding descendants
descendants-elem fork f b [] dead s below e =
    subst (λ xs. any (λ g. g == f) xs ≡ false) (ok-injective e) refl
descendants-elem fork f b (g ∷ more) dead s below e =
    let (c, at_g, e1) = and_then-ok (is_ancestor fork g s) _ e in
    let (others, rest, e2) = and_then-ok (descendants fork more s) _ e1 in
    let tail = descendants-elem fork f b more others s below rest in
    let listed : (if c then g ∷ others else others) ≡ dead = ok-injective e2 in
    subst (λ xs. any (λ h. h == f) xs ≡ (any (λ h. h == f) (g ∷ more) && b)) listed
      (elim (Bool-cases (g == f)) [
        | inl same ↦
            let meet : c ≡ b =
              ok-injective
                (sym at_g ∙ ap (λ h. is_ancestor fork h s) ((same_fork_iff g f).0 same) ∙ below) in
            keep_same c b g f more others same meet tail
        | inr other ↦ keep_other c b g f more others other tail
      ])

bury-outline :
    (fork : ForkId) (n : ForkNode) (dead : List ForkId) (s t : SolanaCanonicality)
    (r : Option CommitmentRevision)
    → bury fork n dead s ≡ (ok r, t)
    → (f : ForkId) → outline t.nodes f ≡ outline (kill dead s.nodes) f
unfolding bury
bury-outline fork n dead s t r = elim (Bool-cases (any (is_finalized_fork s) dead)) [
  | inl final ↦ rw (bury, final) (λ h. absurd (cc (ap (λ x. x.0) h)))
  | inr open_ ↦
      rw (bury, open_)
        (λ h f.
          (let leave = leave_subtree fork n.parent in
            let kills = modify (λ u. record u { nodes = kill dead u.nodes }) in
            let (_, v, e1, e2) =
              bind-ok (leave >> kills) (λ _. announce fork n.commitment Commitment.dead) s h in
            let (_, w, e3, e4) = bind-ok leave (λ _. kills) s e1 in
            ap (λ x. outline x.1.nodes f) (sym e2)
            ∙ announce-Keeps fork n.commitment Commitment.dead v f
            ∙ ap (λ x. outline x.1.nodes f) (sym e4)
            ∙ kill-outline dead s.nodes w.nodes f
                (ap (λ x. outline x.1.nodes f) (sym e3) ∙ leave_subtree-Keeps fork n.parent s f)))
]

mark_subtree_dead-outline :
    (fork f : ForkId) (n : ForkNode) (b : Bool) (s t : SolanaCanonicality)
    (r : Option CommitmentRevision)
    → mark_subtree_dead fork n s ≡ (ok r, t)
    → is_ancestor fork f s ≡ ok b
    → outline t.nodes f
      ≡ (if b then recommit Commitment.dead (outline s.nodes f) else outline s.nodes f)
unfolding mark_subtree_dead
mark_subtree_dead-outline fork f n b s t r h below =
    let listing = λ (u : SolanaCanonicality). descendants fork (Dict.keys u.nodes) u in
    let (dead, v, e1, e2) = bind-ok (reads listing) (bury fork n) s h in
    let found : descendants fork (Dict.keys s.nodes) s ≡ ok dead = ap (λ x. x.0) e1 in
    let member = descendants-elem fork f b (Dict.keys s.nodes) dead s below found in
    let known = any-keys s.nodes f in
    let stay : s ≡ v = ap (λ x. x.1) e1 in
    bury-outline fork n dead v t r e2 f
    ∙ ap (λ u. outline (kill dead u.nodes) f) (sym stay)
    ∙ outline-kill dead s.nodes f
    ∙ ap (λ d. if d then recommit Commitment.dead (outline s.nodes f) else outline s.nodes f)
        (member ∙ ap (λ k. k && b) known)
    ∙ known_only b (Dict.get s.nodes f)

-- `mark_dead` behind the lookup of the fork
mark_if_open : ForkId → ForkNode → Run (Option CommitmentRevision)
mark_if_open fork n =
    if n.commitment == Commitment.dead
    then pure none
    else if n.commitment == Commitment.finalized
    then raise SolanaError.finalized_fork_would_die
    else mark_subtree_dead fork n

mark_open-outline :
    (fork f : ForkId) (n : ForkNode) (b : Bool) (s t : SolanaCanonicality) (r : CommitmentRevision)
    → mark_if_open fork n s ≡ (ok (some r), t)
    → is_ancestor fork f s ≡ ok b
    → outline t.nodes f
      ≡ (if b then recommit Commitment.dead (outline s.nodes f) else outline s.nodes f)
unfolding mark_if_open
mark_open-outline fork f n b s t r = elim (Bool-cases (n.commitment == Commitment.dead)) [
  | inl died ↦ rw (mark_if_open, died) (λ h below. absurd (cc (ap (λ x. x.0) h)))
  | inr alive ↦ elim (Bool-cases (n.commitment == Commitment.finalized)) [
    | inl final ↦ rw (mark_if_open, alive, final) (λ h below. absurd (cc (ap (λ x. x.0) h)))
    | inr open_ ↦
        rw (mark_if_open, alive, open_)
          (λ h below. mark_subtree_dead-outline fork f n b s t (some r) h below)
  ]
]

mark_dead-told :
    (fork f : ForkId) (b : Bool) (s t : SolanaCanonicality) (r : CommitmentRevision)
    → mark_dead fork s ≡ (ok (some r), t)
    → is_ancestor fork f s ≡ ok b
    → outline t.nodes f
      ≡ (if b then recommit Commitment.dead (outline s.nodes f) else outline s.nodes f)
unfolding mark_dead mark_if_open
mark_dead-told fork f b s t r h below =
    let (n, v, e1, e2) = bind-ok (reads (node fork)) _ s h in
    let stay : v ≡ s = sym (ap (λ x. x.1) e1) in
    mark_open-outline fork f n b s t r
      (subst (λ u. mark_if_open fork n u ≡ (ok (some r), t)) stay e2) below

named_node :
    (fork : ForkId) (s t : SolanaCanonicality) (r : CommitmentRevision)
    → mark_dead fork s ≡ (ok (some r), t)
    → (n : ForkNode) × (Dict.get s.nodes fork ≡ some n)
unfolding mark_dead node
named_node fork s t r = elim (Option-cases (Dict.get s.nodes fork)) [
  | inl gone ↦ rw (mark_dead, node, gone) (λ h. absurd (cc (ap (λ x. x.0) h)))
  | inr found ↦ λ h. found
]

dies :
    (o : Option ForkNode) (m : ForkNode)
    → o ≡ some m
    → recommit Commitment.dead (outline_of o) ≡ some (m.parent, Commitment.dead)
unfolding recommit
dies o m e = ap (λ x. recommit Commitment.dead (outline_of x)) e

-- Where, after any calls, `mark_dead` gives a revision back, the fork is known, it and every known fork that descends
-- from it by parents are dead afterwards and keep their parents, and no other fork's parent or commitment changes.
pub mark_dead-outline :
    (calls : List Call) (fork : ForkId) (t : SolanaCanonicality) (r : CommitmentRevision)
    → mark_dead fork (run_calls calls new_solana) ≡ (ok (some r), t)
    → ((n : ForkNode) × (Dict.get (run_calls calls new_solana).nodes fork ≡ some n)
        × (outline t.nodes fork ≡ some (n.parent, Commitment.dead)))
      × ((f : ForkId) (m : ForkNode)
          → Dict.get (run_calls calls new_solana).nodes f ≡ some m
          → Descendant (run_calls calls new_solana).nodes fork f
          → outline t.nodes f ≡ some (m.parent, Commitment.dead))
      × ((f : ForkId)
          → (Descendant (run_calls calls new_solana).nodes fork f → ⊥)
          → outline t.nodes f ≡ outline (run_calls calls new_solana).nodes f)
mark_dead-outline calls fork t r h =
    ((n, known, below fork n known Descendant.itself), below, apart)
  where
    s : SolanaCanonicality
    s = run_calls calls new_solana

    n : ForkNode
    n = (named_node fork s t r h).0

    known : Dict.get s.nodes fork ≡ some n
    known = (named_node fork s t r h).1

    below :
        (f : ForkId) (m : ForkNode)
        → Dict.get s.nodes f ≡ some m
        → Descendant s.nodes fork f
        → outline t.nodes f ≡ some (m.parent, Commitment.dead)
    below f m there d =
        let (b, asked, truly, told) = is_ancestor-Descendant calls fork f in
        mark_dead-told fork f true s t r h (asked ∙ ap ok (told d))
        ∙ dies (Dict.get s.nodes f) m there

    apart : (f : ForkId) → (Descendant s.nodes fork f → ⊥) → outline t.nodes f ≡ outline s.nodes f
    apart f none_of =
        let (b, asked, truly, told) = is_ancestor-Descendant calls fork f in
        elim (Bool-cases b) [
          | inl agrees ↦ absurd (none_of (truly agrees))
          | inr denies ↦ mark_dead-told fork f false s t r h (asked ∙ ap ok denies)
        ]
