-- ===== src/Evm/Line.antt =====
-- The canonical line: what the maps of known blocks and of canonical hashes mean together, and the
-- two steps that change them, adding a block on top and taking the top block away. Both trackers
-- use these lemmas.
use multichain_rs.Prelude.{ℕ, suc, ◌<◌, ◌≡◌, some, arith, nat_eq, string_eq, option_eq, u64_max}
use native.Mathlib.Decide.{dec_lt}
use multichain_rs.Dict
use multichain_rs.Dict.{map_laws, get-insert, get-remove, get-empty}
use multichain_rs.Evm.Block.{B256, ExecutionBlock, Blocks, Heights}

-- What the network guarantees of block hashes: a hash has one block behind it, a block with a
-- number above 0 is one above its parent, and numbers do not reach the end of `u64`.
pub record Headers : Type 0 where
  pub header : B256 → ExecutionBlock
  pub parent_below :
      (h : B256)
      → 0 < (header h).number
      → suc (header (header h).parent_hash).number ≡ (header h).number
  pub bounded : (h : B256) → (header h).number < u64_max

module _ (net : Headers) where
  open net use {header}

  -- The block is the one that its hash stands for.
  abbrev pub IsSealed : ExecutionBlock → Type 0
  IsSealed b = header b.hash ≡ b

  pub record IsLine (blocks : Blocks) (canonical : Heights) (top : ℕ) : Type 0 where
    pub known :
        (h : B256) (b : ExecutionBlock) → Dict.get blocks h ≡ some b → (header h ≡ b) × (b.hash ≡ h)
    pub below : (n : ℕ) (h : B256) → Dict.get canonical n ≡ some h → n < top
    pub stored :
        (n : ℕ) (h : B256)
        → Dict.get canonical n ≡ some h
        → (Dict.get blocks h ≡ some (header h)) × ((header h).number ≡ n)
    pub linked :
        (n : ℕ) (g h : B256)
        → Dict.get canonical n ≡ some g
        → Dict.get canonical (suc n) ≡ some h
        → (header h).parent_hash ≡ g
    pub gapless :
        (n : ℕ) (g : B256)
        → Dict.get canonical n ≡ some g
        → suc n < top
        → (h : B256) × (Dict.get canonical (suc n) ≡ some h)

  pub empty-IsLine : (top : ℕ) → IsLine Dict.empty Dict.empty top
  empty-IsLine top = record {
    known = λ h b e. absurd (ground (arith, get-empty {V = ExecutionBlock} h));
    below = λ n h e. absurd (ground (arith, get-empty {V = B256} n));
    stored = λ n h e. absurd (ground (arith, get-empty {V = B256} n));
    linked = λ n g h e. absurd (ground (arith, get-empty {V = B256} n));
    gapless = λ n g e. absurd (ground (arith, get-empty {V = B256} n));
  }

  -- A line with no block below its top is one at any top.
  pub bare-IsLine :
      (blocks : Blocks) (canonical : Heights) (top : ℕ)
      → IsLine blocks canonical 0
      → IsLine blocks canonical top
  bare-IsLine blocks canonical top v = record {
    known = v.known;
    below = λ n h e. absurd (omega (arith, v.below n h e));
    stored = v.stored;
    linked = v.linked;
    gapless = λ n g e. absurd (omega (arith, v.below n g e));
  }

  module _ (blocks : Blocks) (canonical : Heights) (top : ℕ) where
    -- The top block taken away.
    pub pop-IsLine :
        IsLine blocks canonical (suc top) → IsLine blocks (Dict.remove canonical top) top
    pop-IsLine v = record {
      known = v.known;
      below = λ n h e. ground (arith, get-remove canonical top n, v.below n h);
      stored = λ n h e. ground (arith, get-remove canonical top n, v.stored n h);
      linked = λ n g h e f.
          ground
            (arith, get-remove canonical top n, get-remove canonical top (suc n), v.linked n g h);
      gapless = λ n g e lt.
          let (h, f) = v.gapless n g (ground (arith, get-remove canonical top n)) (omega arith) in
          (h, ground (arith, get-remove canonical top (suc n)));
    }

    -- A block put on top: it has the next number, and its parent is the block below, if there is one.
    pub push-IsLine :
        (b : ExecutionBlock)
        → IsLine blocks canonical top
        → IsSealed b
        → b.number ≡ top
        → ((n : ℕ) (g : B256) → suc n ≡ top → Dict.get canonical n ≡ some g → b.parent_hash ≡ g)
        → IsLine (Dict.insert blocks b.hash b) (Dict.insert canonical b.number b.hash) (suc top)
    push-IsLine b v seal at up = record {
      known = λ h c e. ground (arith, get-insert blocks b.hash h b, v.known h c);
      below = λ n h e. ground (arith, get-insert canonical b.number n b.hash, v.below n h);
      stored = λ n h e. ground (
        arith,
        get-insert canonical b.number n b.hash,
        get-insert blocks b.hash h b,
        v.stored n h,
      );
      linked = λ n g h e f. ground (
        arith,
        get-insert canonical b.number n b.hash,
        get-insert canonical b.number (suc n) b.hash,
        v.linked n g h,
        v.below n g,
        v.below (suc n) h,
        up n g,
      );
      gapless = λ n g e lt. elim (dec_lt (suc n) top) [
        | yes under ↦
            let (h, f) =
              v.gapless n g (ground (arith, get-insert canonical b.number n b.hash)) under in
            (h, ground (arith, get-insert canonical b.number (suc n) b.hash))
        | no over ↦ (b.hash, ground (arith, get-insert canonical b.number (suc n) b.hash))
      ];
    }
