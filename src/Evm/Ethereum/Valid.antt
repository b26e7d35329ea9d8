-- ===== src/Evm/Ethereum/Valid.antt =====
-- The invariant of the Ethereum tracker, and what a call does to it.
use multichain_rs.Prelude.{
  ℕ, suc, ◌≤◌, ◌≡◌, Option, none, some, arith, nat_eq, string_eq, option_eq, u64_max,
}
use multichain_rs.Dict
use multichain_rs.Evm.Block.{B256}
use multichain_rs.Evm.Line.{Headers, IsLine, empty-IsLine}
use multichain_rs.Evm.Ethereum.{EthereumCanonicality, new_ethereum}

module _ (net : Headers) where
  open net use {header}

  -- The number of the block that would come next.
  abbrev pub next_number : Option B256 → ℕ
  next_number none = 0
  next_number (some h) = suc (header h).number

  -- The canonical heights are a line of sealed blocks without gaps that ends in the head; the safe
  -- and the finalized checkpoint are on it, the finalized one not above the safe one.
  pub record IsValid (s : EthereumCanonicality) : Type 0 where
    pub line : IsLine net s.blocks s.canonical (next_number s.head)
    pub tip : (h : B256) → s.head ≡ some h → Dict.get s.canonical (header h).number ≡ some h
    pub safe_canonical :
        (h : B256) → s.safe ≡ some h → Dict.get s.canonical (header h).number ≡ some h
    pub finalized_canonical :
        (h : B256) → s.finalized ≡ some h → Dict.get s.canonical (header h).number ≡ some h
    pub ordered :
        (f h : B256)
        → s.finalized ≡ some f
        → s.safe ≡ some h
        → (header f).number ≤ (header h).number
    pub revision_fits : s.revision ≤ u64_max

  pub new_ethereum-IsValid : IsValid new_ethereum
  new_ethereum-IsValid = record {
    line = empty-IsLine net 0;
    tip = λ h e. absurd (cc e);
    safe_canonical = λ h e. absurd (cc e);
    finalized_canonical = λ h e. absurd (cc e);
    ordered = λ f h e. absurd (cc e);
    revision_fits = omega arith;
  }
