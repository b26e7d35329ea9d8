-- ===== src/Evm/Ethereum/Checkpoint.antt =====
-- `observe_checkpoint` of the Ethereum tracker.
pub mod Valid
pub mod Returns
use mathlib.Core.Path.{subst}
use multichain_rs.Prelude.{
  ℕ, zero, suc, ◌+◌, ◌-◌, ◌*◌, ◌/◌, ◌%◌, ◌^◌, ◌≤◌, ◌<◌, min, String, ◌≡◌, refl, sym, ap, ◌∙◌,
  fun_ext, ◌≢◌, ◌↔◌, ◌⊎◌, inl, inr, Bool, true, false, ◌&&◌, ◌||◌, not, Option, none, some, List,
  [], ◌∷◌, ◌++◌, map, reverse, arith, ltb, leb, nat_beq, if◌then◌else◌, Eq, ◌==◌, nat_beq_iff,
  nat_eq, string_eq, option_beq, option_beq_iff, option_eq, Bool-cases, Option-cases, u64_max,
  saturating_add, checked_add, length, length-append, length-reverse, any, all, last?, All,
  All-append, is_whitespace, is_blank, is_ascii,
}
use multichain_rs.Dict
use multichain_rs.Exec.{
  Outcome, ok, err, panic, diverge, Exec, pure, raise, reads, current, modify, ok_or, ensure,
  and_then, or_else, negated, continue, ◌>>=◌, ◌>>◌,
}
use multichain_rs.Exec.Rules.{and_then-ok, bind-ok, ensure-ok, Settles, settle_rules}
use multichain_rs.Evm.Status.{EthereumStatus}
use multichain_rs.Evm.Block.{B256, ExecutionBlock, Heights, is_ancestor}
use multichain_rs.Evm.Line.{Headers, IsLine}
use multichain_rs.Evm.Ancestry.{
  Ancestor, is_ancestor-canonical, is_ancestor_returns, is_ancestor_sound,
}
use multichain_rs.Evm.Ethereum.{
  EthereumCanonicality, EthereumCheckpoint, EthereumRevision, EthereumError, observe_checkpoint,
  check_checkpoint, canonical_block, block, has_ancestor, misses_ancestry, regresses, mark_safe,
  mark_finalized, next_revision, previous_hash,
}
use multichain_rs.Evm.Ethereum.Valid.{IsValid, next_number}

-- A checkpoint's payload that passes is the canonical block of its number.
canonical_block-ok :
    (h : B256) (s : EthereumCanonicality) (b : ExecutionBlock)
    → canonical_block h s ≡ ok b
    → (Dict.get s.blocks h ≡ some b) × (Dict.get s.canonical b.number ≡ some h)
unfolding canonical_block block
canonical_block-ok h s b e = elim (Option-cases (Dict.get s.blocks h)) [
  | inl missing ↦ absurd (ground arith)
  | inr (c, found) ↦ elim (Bool-cases (Dict.get s.canonical c.number == some h)) [
    | inl yes_canonical ↦
        let at = (option_beq_iff (Dict.get s.canonical c.number) (some h)).0 yes_canonical in
        ground arith
    | inr off ↦ absurd (ground arith)
  ]
]

not-true : (b : Bool) → not b ≡ true → b ≡ false
not-true b h = ground arith

module _ (net : Headers) where
  open net use {header}

  -- The payload is a canonical block, and the block is the one that its hash stands for.
  pub record OnLine (h : B256) (b : ExecutionBlock) (s : EthereumCanonicality) : Type 0 where
    pub sealed : header h ≡ b
    pub hashed : b.hash ≡ h
    pub placed : Dict.get s.canonical b.number ≡ some h

  canonical_block-OnLine :
      (h : B256) (s : EthereumCanonicality) (b : ExecutionBlock)
      → IsValid net s
      → canonical_block h s ≡ ok b
      → OnLine h b s
  canonical_block-OnLine h s b v e =
      let (found, placed) = canonical_block-ok h s b e in
      let known = v.line.known h b found in
      record { sealed = known.0; hashed = known.1; placed = placed }

  -- Between canonical blocks the tracker's ancestor test compares numbers.
  has_ancestor-OnLine :
      (g h : B256) (a b : ExecutionBlock) (s : EthereumCanonicality)
      → IsValid net s
      → OnLine g a s
      → OnLine h b s
      → has_ancestor a.hash b.hash s ≡ ok (leb a.number b.number)
  unfolding has_ancestor
  has_ancestor-OnLine g h a b s v oa ob = ground (
    arith,
    is_ancestor-canonical net s.blocks s.canonical (next_number net s.head) v.line a.number b.number
        a.hash b.hash,
  )

  regresses-OnLine :
      (o : Option B256) (h : B256) (next : ExecutionBlock) (s : EthereumCanonicality) (p : B256)
      → IsValid net s
      → ((q : B256) → o ≡ some q → Dict.get s.canonical (header q).number ≡ some q)
      → OnLine h next s
      → regresses o next s ≡ ok false
      → o ≡ some p
      → (header p).number ≤ next.number
  unfolding regresses block
  regresses-OnLine none h next s p v at on e f = absurd (cc f)
  regresses-OnLine (some q) h next s p v at on e f =
      let st = v.line.stored (header q).number q (at q refl) in
      let kn = v.line.known q (header q) st.0 in
      let oq : OnLine q (header q) s = record {
        sealed = refl;
        hashed = kn.1;
        placed = at q refl;
      } in
      let anc = has_ancestor-OnLine q h (header q) next s v oq on in
      let anc' : has_ancestor q next.hash s ≡ ok (leb (header q).number next.number) =
        subst (λ x. has_ancestor x next.hash s ≡ ok (leb (header q).number next.number)) kn.1 anc in
      ground (arith, nat_beq_iff q next.hash)

  -- What the checks of a checkpoint have established.
  pub record Joins (c : EthereumCheckpoint) (safe finalized : ExecutionBlock)
      (s : EthereumCanonicality) : Type 0 where
    pub head_is : s.head ≡ some c.head
    pub safe_on : OnLine c.safe safe s
    pub finalized_on : OnLine c.finalized finalized s
    pub in_order : finalized.number ≤ safe.number
    pub finalized_grows : (p : B256) → s.finalized ≡ some p → (header p).number ≤ finalized.number
    pub safe_grows : (p : B256) → s.safe ≡ some p → (header p).number ≤ safe.number

  misses_ancestry-OnLine :
      (c : EthereumCheckpoint) (head safe finalized : ExecutionBlock) (s : EthereumCanonicality)
      → IsValid net s
      → OnLine c.head head s
      → OnLine c.safe safe s
      → OnLine c.finalized finalized s
      → misses_ancestry head safe finalized s ≡ ok false
      → (finalized.number ≤ safe.number) × (s.head ≡ some c.head)
  unfolding misses_ancestry
  misses_ancestry-OnLine c head safe finalized s v oh os of e =
      let a = has_ancestor-OnLine c.finalized c.safe finalized safe s v of os in
      let b = has_ancestor-OnLine c.safe c.head safe head s v os oh in
      (ground arith, (option_beq_iff s.head (some head.hash)).0 (ground arith) ∙ ap some oh.hashed)

  pub check_checkpoint-Joins :
      (c : EthereumCheckpoint) (s : EthereumCanonicality) (safe finalized : ExecutionBlock)
      → IsValid net s
      → check_checkpoint c s ≡ ok (safe, finalized)
      → Joins c safe finalized s
  unfolding check_checkpoint
  check_checkpoint-Joins c s safe finalized v e =
      let (head, eh, e1) = and_then-ok (canonical_block c.head s) _ e in
      let (sb, es, e2) = and_then-ok (canonical_block c.safe s) _ e1 in
      let (fb, ef, e3) = and_then-ok (canonical_block c.finalized s) _ e2 in
      let (misses, em, e4) = and_then-ok (misses_ancestry head sb fb s) _ e3 in
      let (_, en, e5) = and_then-ok (ensure (not misses) _) _ e4 in
      let (reversal, er, e6) = and_then-ok (regresses s.finalized fb s) _ e5 in
      let (_, et, e7) = and_then-ok (ensure (not reversal) _) _ e6 in
      let (regression, eg, e8) = and_then-ok (regresses s.safe sb s) _ e7 in
      let (_, eu, e9) = and_then-ok (ensure (not regression) _) _ e8 in
      let sb_is : sb ≡ safe = cc e9 in
      let fb_is : fb ≡ finalized = cc e9 in
      let os = canonical_block-OnLine c.safe s safe v (es ∙ ap ok sb_is) in
      let of = canonical_block-OnLine c.finalized s finalized v (ef ∙ ap ok fb_is) in
      let oh = canonical_block-OnLine c.head s head v eh in
      let (order, tip) =
        misses_ancestry-OnLine c head safe finalized s v oh os of
          (cc (em, sb_is, fb_is, not-true misses (ensure-ok _ _ en))) in
      record {
        head_is = tip;
        safe_on = os;
        finalized_on = of;
        in_order = order;
        finalized_grows = λ p.
            regresses-OnLine s.finalized c.finalized finalized s p v v.finalized_canonical of
              (cc (er, fb_is, not-true reversal (ensure-ok _ _ et)));
        safe_grows = λ p.
            regresses-OnLine s.safe c.safe safe s p v v.safe_canonical os
              (cc (eg, sb_is, not-true regression (ensure-ok _ _ eu)));
      }
