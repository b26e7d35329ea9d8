-- ===== src/Bitcoin/Dag/Reorganize.antt =====
-- `reorganize_to` (processors/bitcoin-canonicality/src/dag.rs) turns the old chain into the new one.
use multichain_rs.Prelude.{
  ℕ, suc, ◌<◌, ◌≡◌, refl, sym, ap, ◌∙◌, Bool, false, ◌||◌, Option, none, some, List, [], ◌∷◌, ◌++◌,
  arith, nat_eq, string_eq, option_eq, length, All, list_eq,
}
use multichain_rs.Exec.{ok}
use multichain_rs.Dict.{get}
use multichain_rs.Mempool.Sets.{elem}
use multichain_rs.Bitcoin.Domain.{BlockHash}
use multichain_rs.Bitcoin.Dag.{
  DagNode, Nodes, CanonicalityState, walk_fuel, reorganize_to, transitions_of,
}
use multichain_rs.Bitcoin.Dag.Chain.{
  Chain, root, link, hashes, IsLinked, chain_of, some-injective, ancestor_set-Chain,
}
use multichain_rs.Bitcoin.Dag.Walk.{AtOneOf, disconnect_from-Chain, connect_from-Chain}

-- One chain becomes the other by taking off the one list and putting on the other; what is taken off is not put on again.
abbrev pub Reorganizes :
    List (BlockHash × ℕ)
    → List (BlockHash × ℕ)
    → List (BlockHash × ℕ)
    → List (BlockHash × ℕ)
    → List (BlockHash × ℕ)
    → Type 0
Reorganizes before after off on shared =
    (before ≡ off ++ shared)
    × (after ≡ on ++ shared)
    × All (λ e. elem e.0 (hashes after) ≡ false) off

module _ (nodes : Nodes) where
  known_fuel :
      (h : BlockHash) (found : DagNode)
      → get nodes h ≡ some found
      → walk_fuel nodes (some h) ≡ suc (suc found.height)
  known_fuel h found g = rw (walk_fuel, g) refl

  Chain_fits :
      IsLinked nodes
      → {c : Option BlockHash} {l : List (BlockHash × ℕ)} → Chain nodes c l
      → length l < walk_fuel nodes c
  Chain_fits linked root = omega arith
  Chain_fits linked (link {h = x} {found = found} g up root) = omega (arith, known_fuel x found g)
  Chain_fits linked
        (link {h = x} {found = found} g up (link {h = p} {found = other} f over older)) =
      let (below, e, step) = linked.lower x found p g up in
      let same : below ≡ other = some-injective (sym e ∙ f) in
      let ih = Chain_fits linked (link f over older) in
      omega (arith, ih, step, ap (λ n. n.height) same, known_fuel x found g, known_fuel p other f)

  AtOneOf-members :
      (xs ys : List BlockHash) (c : Option BlockHash)
      → ((p : BlockHash) → elem p xs ≡ elem p ys)
      → AtOneOf xs c
      → AtOneOf ys c
  AtOneOf-members xs ys none h at = tt
  AtOneOf-members xs ys (some c) h at = sym (h c) ∙ at

  All-members :
      (xs ys : List BlockHash) (l : List (BlockHash × ℕ))
      → ((p : BlockHash) → elem p xs ≡ elem p ys)
      → All (λ e. elem e.0 xs ≡ false) l
      → All (λ e. elem e.0 ys ≡ false) l
  All-members xs ys [] h a = tt
  All-members xs ys (e ∷ l) h a = (sym (h e.0) ∙ a.0, All-members xs ys l h a.1)

or_false : (b : Bool) → (b || false) ≡ b
or_false b = ground arith

pub reorganize_to-Reorganizes :
    (s : CanonicalityState) (new_tip : BlockHash) (found : DagNode) (before : List (BlockHash × ℕ))
    → IsLinked s.nodes
    → get s.nodes new_tip ≡ some found
    → Chain s.nodes s.canonical_tip before
    → (after : List (BlockHash × ℕ)) × (off : List (BlockHash × ℕ)) × (on : List (BlockHash × ℕ))
      × (shared : List (BlockHash × ℕ)) × Chain s.nodes (some new_tip) after
      × Reorganizes before after off on shared
      × (reorganize_to new_tip s ≡ (
        ok (transitions_of off on s.next_revision).0,
        record s {
          canonical_tip = some new_tip;
          next_revision = (transitions_of off on s.next_revision).1;
        },
      ))
unfolding reorganize_to
reorganize_to-Reorganizes s new_tip found before linked g old =
    let nodes = s.nodes in
    let (after, new, long) = chain_of nodes linked found.height new_tip found g refl in
    let fits = Chain_fits nodes linked new in
    let (set, collected, members) =
      ancestor_set-Chain nodes linked (walk_fuel nodes (some new_tip)) (suc found.height) new []
        fits tt (λ other f. omega (arith, ap (λ n. n.height) (some-injective (sym g ∙ f)))) in
    let (off, shared, cursor, walked, parts, below, at, apart) =
      disconnect_from-Chain nodes set (walk_fuel nodes s.canonical_tip) old
        (Chain_fits nodes linked old) in
    let same : (p : BlockHash) → elem p set ≡ elem p (hashes after) =
      λ p. members p ∙ or_false (elem p (hashes after)) in
    let (on, joined, news) =
      connect_from-Chain nodes new_tip cursor shared below (walk_fuel nodes (some new_tip)) new fits
        (AtOneOf-members nodes set (hashes after) cursor same at) in
    (
      after,
      off,
      on,
      shared,
      new,
      (parts, news, All-members nodes set (hashes after) off same apart),
      rw (reorganize_to, collected, walked, joined) refl,
    )
