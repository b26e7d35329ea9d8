-- ===== src/Solana/Tracker/Descent.antt =====
-- Which forks descend from a fork of the Solana tracker, and that `is_ancestor` tells.
use mathlib.Core.Path.{subst}
use multichain_rs.Prelude.{
  ℕ, zero, suc, ◌≡◌, refl, sym, ap, ◌∙◌, inl, inr, Bool, true, none, some, List, [], ◌∷◌, arith,
  ◌==◌, nat_eq, string_eq, option_eq, Bool-cases, Option-cases, any, list_eq,
}
use multichain_rs.Dict
use multichain_rs.Exec.{ok, diverge}
use multichain_rs.Solana.Fork.{ForkId, fork_eq, same_fork_iff, ForkNode}
use multichain_rs.Solana.Tracker.{Nodes, new_solana, path, path_to_root, is_ancestor}
use multichain_rs.Solana.Tracker.Commitments.{Call}
use multichain_rs.Solana.Tracker.Paths.{run_calls, path_to_root_returns}

some-injective : {A : Type 0} {a b : A} → some a ≡ some b → a ≡ b
some-injective {a = a} h = ap (λ o. elim o [ none ↦ a | some x ↦ x ]) h

-- A fork, its children, their children, and so on.
pub data Descendant (nodes : Nodes) (fork : ForkId) : ForkId → Type 0 where
  itself : Descendant nodes fork fork
  child :
      (f p : ForkId) (n : ForkNode)
      → Dict.get nodes f ≡ some n
      → n.parent ≡ some p
      → Descendant nodes fork p
      → Descendant nodes fork f

module _ (nodes : Nodes) (fork : ForkId) where
  at_fork : (f : ForkId) → (f == fork) ≡ true → Descendant nodes fork f
  at_fork f e = subst (Descendant nodes fork) (sym ((same_fork_iff f fork).0 e)) Descendant.itself

  alone :
      (f : ForkId) (l : List ForkId)
      → some (f ∷ []) ≡ some l
      → any (λ g. g == fork) l ≡ true
      → (f == fork) ≡ true
  alone f l e h = ground (arith, ap (any (λ g. g == fork)) (some-injective e))

  on_path-Descendant :
      (fuel : ℕ) (f : ForkId) (l : List ForkId)
      → path fuel nodes f ≡ some l
      → any (λ g. g == fork) l ≡ true
      → Descendant nodes fork f
  unfolding path
  on_path-Descendant zero f l = λ e h. absurd (cc e)
  on_path-Descendant (suc fuel) f l = elim (Option-cases (Dict.get nodes f)) [
    | inl gone ↦ rw (path, gone) (λ e h. at_fork f (alone f l e h))
    | inr (n, there) ↦ elim (Option-cases n.parent) [
      | inl top ↦ rw (path, there, top) (λ e h. at_fork f (alone f l e h))
      | inr (p, up) ↦ elim (Option-cases (path fuel nodes p)) [
        | inl short ↦ rw (path, there, up, short) (λ e h. absurd (cc e))
        | inr (rest, walked) ↦
            rw (path, there, up, walked)
              (λ e h. elim (Bool-cases (f == fork)) [
                | inl same ↦ at_fork f same
                | inr other ↦
                    let on : any (λ g. g == fork) rest ≡ true =
                      ground (arith, ap (any (λ g. g == fork)) (some-injective e)) in
                    Descendant.child f p n there up (on_path-Descendant fuel p rest walked on)
              ])
      ]
    ]
  ]

  starts :
      (fuel : ℕ) (f : ForkId) (l : List ForkId)
      → path fuel nodes f ≡ some l
      → (rest : List ForkId) × (l ≡ f ∷ rest)
  unfolding path
  starts zero f l = λ e. absurd (cc e)
  starts (suc fuel) f l = elim (Option-cases (Dict.get nodes f)) [
    | inl gone ↦ rw (path, gone) (λ e. ([], sym (some-injective e)))
    | inr (n, there) ↦ elim (Option-cases n.parent) [
      | inl top ↦ rw (path, there, top) (λ e. ([], sym (some-injective e)))
      | inr (p, up) ↦ elim (Option-cases (path fuel nodes p)) [
        | inl short ↦ rw (path, there, up, short) (λ e. absurd (cc e))
        | inr (rest, walked) ↦ rw (path, there, up, walked) (λ e. (rest, sym (some-injective e)))
      ]
    ]
  ]

  Descendant-on_path :
      {f : ForkId}
      → Descendant nodes fork f
      → (fuel : ℕ) (l : List ForkId) → path fuel nodes f ≡ some l
      → any (λ g. g == fork) l ≡ true
  unfolding path
  Descendant-on_path Descendant.itself fuel l = λ e.
      let (rest, first) = starts fuel fork l e in
      let same = (same_fork_iff fork fork).1 refl in
      ap (any (λ g. g == fork)) first ∙ ground (arith, same)
  Descendant-on_path (Descendant.child f p n there up below) zero l = λ e. absurd (cc e)
  Descendant-on_path (Descendant.child f p n there up below) (suc fuel) l =
      elim (Option-cases (path fuel nodes p)) [
        | inl short ↦ rw (path, there, up, short) (λ e. absurd (cc e))
        | inr (rest, walked) ↦
            rw (path, there, up, walked)
              (λ e.
                let on = Descendant-on_path below fuel rest walked in
                ap (any (λ g. g == fork)) (sym (some-injective e)) ∙ ground (arith, on))
      ]

-- After any calls the test for descendants ends, and answers truly.
pub is_ancestor-Descendant :
    (calls : List Call) (fork f : ForkId)
    → (b : Bool) × (is_ancestor fork f (run_calls calls new_solana) ≡ ok b)
      × (b ≡ true → Descendant (run_calls calls new_solana).nodes fork f)
      × (Descendant (run_calls calls new_solana).nodes fork f → b ≡ true)
unfolding is_ancestor path_to_root
is_ancestor-Descendant calls fork f =
    let s = run_calls calls new_solana in
    let (more, ends, chain) = path_to_root_returns calls f in
    elim (Option-cases (path (suc f.slot) s.nodes f)) [
      | inl short ↦
          let stuck : path_to_root f s ≡ diverge = rw (path_to_root, short) refl in
          absurd (cc (stuck, ends))
      | inr (l, walked) ↦ (
        any (λ g. g == fork) l,
        rw (is_ancestor, path_to_root, walked) refl,
        on_path-Descendant s.nodes fork (suc f.slot) f l walked,
        λ d. Descendant-on_path s.nodes fork d (suc f.slot) l walked,
      )
    ]
