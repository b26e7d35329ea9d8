-- ===== src/Bitcoin/Dag/Walk.antt =====
-- The two walks of `reorganize_to` (processors/bitcoin-canonicality/src/dag.rs): down the old chain
-- to the common ancestor, and down the new one to the same place.
use mathlib.Core.Path.{subst}
use multichain_rs.Prelude.{
  ℕ, zero, suc, ◌<◌, ◌≡◌, refl, sym, ap, inl, inr, true, false, Option, none, some, List, [], ◌∷◌,
  ◌++◌, arith, nat_beq, nat_beq_iff, nat_eq, string_eq, option_eq, Bool-cases, length, All, list_eq,
}
use multichain_rs.Exec.{ok}
use multichain_rs.Mempool.Sets.{elem}
use multichain_rs.Bitcoin.Domain.{BlockHash}
use multichain_rs.Bitcoin.Dag.{Nodes, disconnect_from, connect_from}
use multichain_rs.Bitcoin.Dag.Chain.{Chain, root, link, hashes, Chain_unique}

-- The walk ended at the genesis block, or at one of the hashes.
abbrev pub AtOneOf : List BlockHash → Option BlockHash → Type 0
AtOneOf among none = Unit
AtOneOf among (some h) = elem h among ≡ true

module _ (nodes : Nodes) where
  -- The old chain is the disconnected blocks and what is shared, and the shared part starts at the cursor.
  pub disconnect_from-Chain :
      (ancestors : List BlockHash) (fuel : ℕ) {c : Option BlockHash} {l : List (BlockHash × ℕ)}
      → Chain nodes c l
      → length l < fuel
      → (off : List (BlockHash × ℕ)) × (shared : List (BlockHash × ℕ)) × (cursor : Option BlockHash)
        × (disconnect_from fuel nodes ancestors c ≡ ok (off, cursor))
        × (l ≡ off ++ shared)
        × Chain nodes cursor shared
        × AtOneOf ancestors cursor
        × All (λ e. elem e.0 ancestors ≡ false) off
  unfolding disconnect_from
  disconnect_from-Chain ancestors zero chain h = absurd (omega (arith, h))
  disconnect_from-Chain ancestors (suc fuel) root h = ([], [], none, refl, refl, root, tt, tt)
  disconnect_from-Chain ancestors (suc fuel)
        (link {h = x} {found = found} {older = older} g up below) h =
      elim (Bool-cases (elem x ancestors)) [
        | inl here ↦ (
          [],
          (x, found.height) ∷ older,
          some x,
          rw (disconnect_from, here) refl,
          refl,
          link g up below,
          here,
          tt,
        )
        | inr new ↦
            let (off, shared, cursor, done, parts, chain, at, apart) =
              disconnect_from-Chain ancestors fuel below (omega (arith, h)) in
            (
              (x, found.height) ∷ off,
              shared,
              cursor,
              rw (disconnect_from, new, g, up, done) refl,
              ap (λ l. (x, found.height) ∷ l) parts,
              chain,
              at,
              (new, apart),
            )
      ]

  -- The new chain is the connected blocks and the shared part.
  pub connect_from-Chain :
      (new_tip : BlockHash) (common : Option BlockHash) (shared : List (BlockHash × ℕ))
      → Chain nodes common shared
      → (fuel : ℕ) {c : Option BlockHash} {l : List (BlockHash × ℕ)} → Chain nodes c l
      → length l < fuel
      → AtOneOf (hashes l) common
      → (on : List (BlockHash × ℕ)) × (connect_from fuel nodes new_tip common c ≡ ok on)
        × (l ≡ on ++ shared)
  unfolding connect_from
  connect_from-Chain new_tip common shared below zero chain h at = absurd (omega (arith, h))
  connect_from-Chain new_tip none shared below (suc fuel) root h at =
      ([], refl, Chain_unique nodes root below)
  connect_from-Chain new_tip (some c) shared below (suc fuel) root h at = absurd (cc at)
  connect_from-Chain new_tip none shared below (suc fuel) (link {h = x} {found = found} g up older)
        h at =
      let (on, done, parts) =
        connect_from-Chain new_tip none shared below fuel older (omega (arith, h)) tt in
      (
        (x, found.height) ∷ on,
        rw (connect_from, g, up, done) refl,
        ap (λ l. (x, found.height) ∷ l) parts,
      )
  connect_from-Chain new_tip (some c) shared below (suc fuel)
        (link {h = x} {found = found} g up older) h at =
      elim (Bool-cases (nat_beq x c)) [
        | inl same ↦ (
          [],
          rw (connect_from, same) refl,
          Chain_unique nodes (link g up older)
              (subst (λ q. Chain nodes (some q) shared) (sym ((nat_beq_iff x c).0 same)) below),
        )
        | inr other ↦
            let (on, done, parts) =
              connect_from-Chain new_tip (some c) shared below fuel older (omega (arith, h))
                (ground arith) in
            (
              (x, found.height) ∷ on,
              rw (connect_from, other, g, up, done) refl,
              ap (λ l. (x, found.height) ∷ l) parts,
            )
      ]
