-- ===== src/Solana/Tracker/Kill.antt =====
-- What storing a commitment does to the forks' outlines: one node of the Solana tracker, and the
-- loop of `mark_dead`.
use multichain_rs.Prelude.{
  ◌≡◌, refl, sym, ap, ◌∙◌, inl, inr, Bool, true, false, ◌||◌, Option, none, some, List, [], ◌∷◌,
  arith, if◌then◌else◌, ◌==◌, nat_eq, string_eq, option_eq, Bool-cases, Option-cases, any,
}
use mathlib.Core.Path.{subst}
use multichain_rs.Dict
use multichain_rs.Dict.{Dict, get-insert}
use multichain_rs.Solana.Fork.{Commitment, commitment_eq, ForkId, fork_eq, same_fork_iff, ForkNode}
use multichain_rs.Solana.Tracker.{Nodes, SolanaCanonicality, set_node, kill, is_finalized_fork}
use multichain_rs.Solana.Tracker.Outline.{outline, outline_of}
use multichain_rs.Solana.Tracker.Advances.{may_become, Advances, Advances-refl}

-- The outline with the commitment changed.
unfoldable pub recommit :
    Commitment → Option (Option ForkId × Commitment) → Option (Option ForkId × Commitment)
recommit c none = none
recommit c (some (p, d)) = some (p, c)

pub outline-recommit :
    (fork : ForkId) (c : Commitment) (nodes : Nodes) (f : ForkId)
    → outline (set_node fork (λ n. record n { commitment = c }) nodes) f
      ≡ (if fork == f then recommit c (outline nodes f) else outline nodes f)
unfolding set_node recommit
outline-recommit fork c nodes f = elim (Option-cases (Dict.get nodes fork)) [
  | inl gone ↦ elim (Bool-cases (fork == f)) [
    | inl same ↦
        let before : Dict.get nodes f ≡ none =
          sym (ap (Dict.get nodes) ((same_fork_iff fork f).0 same)) ∙ gone in
        rw (set_node, gone, same)
          (ap outline_of before ∙ sym (ap (λ o. recommit c (outline_of o)) before))
    | inr other ↦ rw (set_node, gone, other) refl
  ]
  | inr (n, there) ↦
      let m = record n { commitment = c } in
      elim (Bool-cases (fork == f)) [
        | inl same ↦
            let before : Dict.get nodes f ≡ some n =
              sym (ap (Dict.get nodes) ((same_fork_iff fork f).0 same)) ∙ there in
            let set : Dict.get (Dict.insert nodes fork m) f ≡ some m =
              get-insert nodes fork f m ∙ rw same refl in
            rw (set_node, there, same)
              (ap outline_of set ∙ sym (ap (λ o. recommit c (outline_of o)) before))
        | inr other ↦
            let kept : Dict.get (Dict.insert nodes fork m) f ≡ Dict.get nodes f =
              get-insert nodes fork f m ∙ rw other refl in
            rw (set_node, there, other) (ap outline_of kept)
      ]
]

recommit_idem :
    (c : Commitment) (o : Option (Option ForkId × Commitment))
    → recommit c (recommit c o) ≡ recommit c o
unfolding recommit
recommit_idem c none = refl
recommit_idem c (some (p, d)) = refl

kill_step :
    (here later : Bool) (o marked : Option (Option ForkId × Commitment))
    → marked ≡ (if here then recommit Commitment.dead o else o)
    → (if later then recommit Commitment.dead marked else marked)
      ≡ (if here || later then recommit Commitment.dead o else o)
kill_step true true o marked e = ap (recommit Commitment.dead) e ∙ recommit_idem Commitment.dead o
kill_step true false o marked e = e
kill_step false true o marked e = ap (recommit Commitment.dead) e
kill_step false false o marked e = e

-- The loop of `mark_dead` changes the commitment of the forks on its list, and nothing else.
pub outline-kill :
    (dead : List ForkId) (nodes : Nodes) (f : ForkId)
    → outline (kill dead nodes) f ≡ (
        if any (λ fork. fork == f) dead
        then recommit Commitment.dead (outline nodes f)
        else outline nodes f)
unfolding kill recommit
outline-kill [] nodes f = refl
outline-kill (fork ∷ more) nodes f =
    let marked = set_node fork (λ n. record n { commitment = Commitment.dead }) nodes in
    outline-kill more marked f
    ∙ kill_step (fork == f) (any (λ g. g == f) more) (outline nodes f) (outline marked f)
        (outline-recommit fork Commitment.dead nodes f)

any-elem :
    (p : ForkId → Bool) (l : List ForkId) (f : ForkId)
    → any (λ g. g == f) l ≡ true
    → any p l ≡ false
    → p f ≡ false
any-elem p [] f here none_of = absurd (ground arith)
any-elem p (g ∷ more) f here none_of = elim (Bool-cases (g == f)) [
  | inl same ↦ sym (ap p ((same_fork_iff g f).0 same)) ∙ ground arith
  | inr other ↦ any-elem p more f (ground arith) (ground arith)
]

pub may_become-dead :
    (c : Commitment) → (c == Commitment.finalized) ≡ false → may_become c Commitment.dead ≡ true
unfolding may_become
may_become-dead Commitment.received h = refl
may_become-dead Commitment.processed h = refl
may_become-dead Commitment.confirmed h = refl
may_become-dead Commitment.finalized h = absurd (cc h)
may_become-dead Commitment.dead h = refl

-- A fork that dies without being finalized.
killed-Advances :
    (f : ForkId) (o : Option ForkNode)
    → (elim o [ none ↦ false | some n ↦ n.commitment == Commitment.finalized ]) ≡ false
    → Advances f (outline_of o) (recommit Commitment.dead (outline_of o))
unfolding may_become recommit
killed-Advances f none h = tt
killed-Advances f (some n) h = (refl, may_become-dead n.commitment h)

pub kill-AllAdvance :
    (dead : List ForkId) (s : SolanaCanonicality)
    → any (is_finalized_fork s) dead ≡ false
    → (f : ForkId) → Advances f (outline s.nodes f) (outline (kill dead s.nodes) f)
kill-AllAdvance dead s none_final f =
    subst (Advances f (outline s.nodes f)) (sym (outline-kill dead s.nodes f))
      (elim (Bool-cases (any (λ g. g == f) dead)) [
        | inl dies ↦ rw dies (
            killed-Advances f (Dict.get s.nodes f)
              (any-elem (is_finalized_fork s) dead f dies none_final))
        | inr lives ↦ rw lives (Advances-refl f (outline s.nodes f))
      ])

pub kill-outline :
    (dead : List ForkId) (before after : Nodes) (f : ForkId)
    → outline after f ≡ outline before f
    → outline (kill dead after) f ≡ outline (kill dead before) f
kill-outline dead before after f same =
    outline-kill dead after f
    ∙ ap (λ o. if any (λ fork. fork == f) dead then recommit Commitment.dead o else o) same
    ∙ sym (outline-kill dead before f)
