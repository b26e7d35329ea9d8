-- ===== src/Bitcoin/Dag/Announces.antt =====
-- The transitions of a reorganisation (processors/bitcoin-canonicality/src/dag.rs: reorganize_to) one by one.
use mathlib.Core.Path.{subst}
use multichain_rs.Prelude.{
  ℕ, suc, min, ◌≡◌, refl, sym, ap, ◌∙◌, List, [], ◌∷◌, ◌++◌, reverse, arith, nat_eq, string_eq,
  option_eq, u64_max, saturating_add, list_eq,
}
use multichain_rs.Bitcoin.Domain.{BlockHash}
use multichain_rs.Bitcoin.Error.{BlockTransition, connected, disconnected}
use multichain_rs.Bitcoin.Dag.{numbered, transitions_of}

-- From a revision on, the transitions disconnect the one list of blocks in its order and then connect the other in
-- its order, each with its height, and each has the revision behind the one before; the last number is the next
-- revision.
abbrev pub Announces :
    ℕ → List (BlockHash × ℕ) → List (BlockHash × ℕ) → List BlockTransition → ℕ → Type 0
Announces k [] [] [] next = next ≡ k
Announces k [] [] (t ∷ ts) next = ⊥
Announces k [] (e ∷ up) [] next = ⊥
Announces k [] (e ∷ up) (t ∷ ts) next =
    (t ≡ connected e.0 e.1 k) × Announces (min (suc k) u64_max) [] up ts next
Announces k (e ∷ off) up [] next = ⊥
Announces k (e ∷ off) up (t ∷ ts) next =
    (t ≡ disconnected e.0 e.1 k) × Announces (min (suc k) u64_max) off up ts next

saturating : (k : ℕ) → saturating_add k 1 ≡ min (suc k) u64_max
saturating k = ground arith

connects :
    (k : ℕ) (up : List (BlockHash × ℕ))
    → Announces k [] up (numbered connected up k).0 (numbered connected up k).1
unfolding numbered
connects k [] = refl
connects k (e ∷ up) = (
  refl,
  subst
      (λ n.
        Announces n [] up (numbered connected up (saturating_add k 1)).0
          (numbered connected up (saturating_add k 1)).1)
      (saturating k) (connects (saturating_add k 1) up),
)

disconnects :
    (k : ℕ) (off up : List (BlockHash × ℕ))
    → Announces k off up
        ((numbered disconnected off k).0
          ++ (numbered connected up (numbered disconnected off k).1).0)
        (numbered connected up (numbered disconnected off k).1).1
unfolding numbered
disconnects k [] up = connects k up
disconnects k (e ∷ off) up =
    let m = saturating_add k 1 in
    (
      refl,
      subst
          (λ n.
            Announces n off up
              ((numbered disconnected off m).0
                ++ (numbered connected up (numbered disconnected off m).1).0)
              (numbered connected up (numbered disconnected off m).1).1)
          (saturating k) (disconnects m off up),
    )

pub transitions_of-Announces :
    (off on : List (BlockHash × ℕ)) (k : ℕ)
    → Announces k off (reverse on) (transitions_of off on k).0 (transitions_of off on k).1
unfolding transitions_of
transitions_of-Announces off on k = disconnects k off (reverse on)

connected_only :
    (k : ℕ) (up : List (BlockHash × ℕ)) (ts : List BlockTransition) (next : ℕ)
    → Announces k [] up ts next
    → ts ≡ (numbered connected up k).0
unfolding numbered
connected_only k [] [] next a = refl
connected_only k [] (t ∷ ts) next a = absurd a
connected_only k (e ∷ up) [] next a = absurd a
connected_only k (e ∷ up) (t ∷ ts) next (here, a) =
    let rest = connected_only (min (suc k) u64_max) up ts next a in
    let same = sym (saturating k) in
    λ i. here i ∷ (rest ∙ ap (λ n. (numbered connected up n).0) same) i

disconnected_first :
    (k : ℕ) (off up : List (BlockHash × ℕ)) (ts : List BlockTransition) (next : ℕ)
    → Announces k off up ts next
    → ts
      ≡ (numbered disconnected off k).0 ++ (numbered connected up (numbered disconnected off k).1).0
unfolding numbered
disconnected_first k [] up ts next a = connected_only k up ts next a
disconnected_first k (e ∷ off) up [] next a = absurd a
disconnected_first k (e ∷ off) up (t ∷ ts) next (here, a) =
    let rest = disconnected_first (min (suc k) u64_max) off up ts next a in
    let same = sym (saturating k) in
    λ i.
      here i
      ∷ (rest
            ∙ ap
                (λ n.
                  (numbered disconnected off n).0
                  ++ (numbered connected up (numbered disconnected off n).1).0)
                same)
          i

-- They are determined.
pub Announces-transitions_of :
    (off on : List (BlockHash × ℕ)) (k : ℕ) (ts : List BlockTransition) (next : ℕ)
    → Announces k off (reverse on) ts next
    → ts ≡ (transitions_of off on k).0
unfolding transitions_of
Announces-transitions_of off on k ts next a = disconnected_first k off (reverse on) ts next a
