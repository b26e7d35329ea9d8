-- ===== src/Solana/Tracker/Paths.antt =====
-- The paths of the Solana tracker: parents have lower slots, so that `path_to_root` ends, after any
-- calls.
use multichain_rs.Prelude.{
  ℕ, zero, suc, ◌<◌, ◌≡◌, refl, sym, inl, inr, Option, none, some, List, [], ◌∷◌, arith, nat_eq,
  string_eq, option_eq, Option-cases,
}
use mathlib.Core.Path.{subst}
use multichain_rs.Dict
use multichain_rs.Dict.{Dict, get-empty}
use multichain_rs.Exec.{ok}
use multichain_rs.Solana.Fork.{ForkId, fork_eq, ForkNode}
use multichain_rs.Solana.Tracker.{Nodes, SolanaCanonicality, new_solana, path, path_to_root}
use multichain_rs.Solana.Tracker.Outline.{outline_of}
use multichain_rs.Solana.Tracker.Advances.{Advances, IsLower}
use multichain_rs.Solana.Tracker.Commitments.{Call, handle, handle-Advances}

-- Every known fork has a higher slot than its parent.
abbrev pub Descends : Nodes → Type 0
Descends nodes = (f : ForkId) (n : ForkNode) → Dict.get nodes f ≡ some n → IsLower f n.parent

parent_of : Option ForkNode → Option ForkId
parent_of none = none
parent_of (some n) = n.parent

IsLower-Advances :
    (f : ForkId) (before after : Option ForkNode)
    → Advances f (outline_of before) (outline_of after)
    → ((n : ForkNode) → before ≡ some n → IsLower f n.parent)
    → (m : ForkNode) → after ≡ some m
    → IsLower f m.parent
unfolding parent_of
IsLower-Advances f before none a d m e = absurd (ground arith)
IsLower-Advances f none (some k) a d m e = subst (λ o. IsLower f (parent_of o)) e a.1
IsLower-Advances f (some n) (some k) a d m e =
    subst (λ o. IsLower f (parent_of o)) e (subst (IsLower f) (sym a.0) (d n refl))

-- The parents of the forks on a path go down.
pub data IsPath (nodes : Nodes) : List ForkId → Type 0 where
  last : (f : ForkId) → IsPath nodes (f ∷ [])
  step :
      (f p : ForkId) (n : ForkNode) (more : List ForkId)
      → Dict.get nodes f ≡ some n
      → n.parent ≡ some p
      → p.slot < f.slot
      → IsPath nodes (p ∷ more)
      → IsPath nodes (f ∷ p ∷ more)

path_returns :
    (fuel : ℕ) (nodes : Nodes) (fork : ForkId)
    → Descends nodes
    → fork.slot < fuel
    → (more : List ForkId) × (path fuel nodes fork ≡ some (fork ∷ more))
      × IsPath nodes (fork ∷ more)
unfolding path
path_returns zero nodes fork d low = absurd (omega arith)
path_returns (suc fuel) nodes fork d low = elim (Option-cases (Dict.get nodes fork)) [
  | inl gone ↦ ([], rw (path, gone) refl, IsPath.last fork)
  | inr (n, there) ↦ elim (Option-cases n.parent) [
    | inl top ↦ ([], rw (path, there, top) refl, IsPath.last fork)
    | inr (p, up) ↦
        let lower : p.slot < fork.slot = subst (IsLower fork) up (d fork n there) in
        let (more, e, chain) = path_returns fuel nodes p d (omega arith) in
        (p ∷ more, rw (path, there, up, e) refl, IsPath.step fork p n more there up lower chain)
  ]
]

unfoldable pub run_calls : List Call → SolanaCanonicality → SolanaCanonicality
run_calls [] s = s
run_calls (call ∷ more) s = run_calls more (handle call s)

handle-Descends :
    (call : Call) (s : SolanaCanonicality) → Descends s.nodes → Descends (handle call s).nodes
handle-Descends call s d f =
    IsLower-Advances f (Dict.get s.nodes f) (Dict.get (handle call s).nodes f)
      (handle-Advances call s f) (d f)

run_calls-Descends :
    (calls : List Call) (s : SolanaCanonicality)
    → Descends s.nodes
    → Descends (run_calls calls s).nodes
unfolding run_calls
run_calls-Descends [] s d = d
run_calls-Descends (call ∷ more) s d =
    run_calls-Descends more (handle call s) (handle-Descends call s d)

-- After any calls of an empty tracker, failed ones among them, `path_to_root` ends from every fork;
-- the path starts with the fork, and each next one is the parent and has a lower slot.
pub path_to_root_returns :
    (calls : List Call) (fork : ForkId)
    → (more : List ForkId) × (path_to_root fork (run_calls calls new_solana) ≡ ok (fork ∷ more))
      × IsPath (run_calls calls new_solana).nodes (fork ∷ more)
unfolding path_to_root
path_to_root_returns calls fork =
    let s = run_calls calls new_solana in
    let d =
      run_calls-Descends calls new_solana
        (λ f n e. absurd (ground (arith, get-empty {V = ForkNode} f))) in
    let (more, e, chain) = path_returns (suc fork.slot) s.nodes fork d (omega arith) in
    (more, rw (path_to_root, e) refl, chain)
