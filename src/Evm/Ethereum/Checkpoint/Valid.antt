-- ===== src/Evm/Ethereum/Checkpoint/Valid.antt =====
-- An accepted checkpoint keeps the invariant of the Ethereum tracker, and a refused one changes
-- nothing.
use mathlib.Core.Path.{subst}
use multichain_rs.Prelude.{
  ◌+◌, ◌≤◌, String, ◌≡◌, sym, ap, ◌∙◌, ◌≢◌, inl, inr, true, Option, some, List, ◌++◌, arith, ◌==◌,
  nat_eq, string_eq, option_beq_iff, option_eq, Bool-cases, u64_max, length, length-append,
}
use multichain_rs.Exec.{ok, err, reads}
use multichain_rs.Exec.Rules.{bind-ok, bind-err}
use multichain_rs.Evm.Block.{B256, ExecutionBlock}
use multichain_rs.Evm.Line.{Headers}
use multichain_rs.Evm.Ethereum.{
  EthereumCanonicality, EthereumCheckpoint, EthereumRevision, EthereumError, observe_checkpoint,
  check_checkpoint, mark_safe, mark_finalized, next_revision,
}
use multichain_rs.Evm.Ethereum.Valid.{IsValid}
use multichain_rs.Evm.Ethereum.Checkpoint.{Joins, check_checkpoint-Joins}

-- What a checkpoint that is accepted changes, and what it leaves.
pub record Marks (s s' : EthereumCanonicality) (safe finalized : ExecutionBlock)
    (rs : List EthereumRevision) : Type 0 where
  pub blocks : s'.blocks ≡ s.blocks
  pub canonical : s'.canonical ≡ s.canonical
  pub head : s'.head ≡ s.head
  pub safe_is : s'.safe ≡ some safe.hash
  pub finalized_is : s'.finalized ≡ some finalized.hash
  pub counted : s'.revision ≡ s.revision + length rs
  pub fits : s.revision ≤ u64_max → s'.revision ≤ u64_max

option_hash_eq : (o : Option B256) (h : B256) → (o == some h) ≡ true → o ≡ some h
option_hash_eq o h = (option_beq_iff o (some h)).0

mark_safe-ok :
    (b : ExecutionBlock) (source : String) (s s' : EthereumCanonicality)
    (rs : List EthereumRevision)
    → mark_safe b source s ≡ (ok rs, s')
    → (s' ≡ record s { safe = some b.hash; revision = s.revision + length rs })
      × (s.revision ≤ u64_max → s'.revision ≤ u64_max)
unfolding mark_safe next_revision
mark_safe-ok b source s s' rs h = elim (Bool-cases (s.safe == some b.hash)) [
  | inl same ↦ let e = option_hash_eq s.safe b.hash same in ground arith
  | inr new_one ↦ ground arith
]

mark_finalized-ok :
    (b : ExecutionBlock) (source : String) (s s' : EthereumCanonicality)
    (rs : List EthereumRevision)
    → mark_finalized b source s ≡ (ok rs, s')
    → (s' ≡ record s { finalized = some b.hash; revision = s.revision + length rs })
      × (s.revision ≤ u64_max → s'.revision ≤ u64_max)
unfolding mark_finalized next_revision
mark_finalized-ok b source s s' rs h = elim (Bool-cases (s.finalized == some b.hash)) [
  | inl same ↦ let e = option_hash_eq s.finalized b.hash same in ground arith
  | inr new_one ↦ ground arith
]

Marks-chain :
    (s w s' : EthereumCanonicality) (safe finalized : ExecutionBlock)
    (ms fs rs : List EthereumRevision)
    → w ≡ record s { safe = some safe.hash; revision = s.revision + length ms }
    → (s.revision ≤ u64_max → w.revision ≤ u64_max)
    → s' ≡ record w { finalized = some finalized.hash; revision = w.revision + length fs }
    → (w.revision ≤ u64_max → s'.revision ≤ u64_max)
    → ms ++ fs ≡ rs
    → Marks s s' safe finalized rs
Marks-chain s w s' safe finalized ms fs rs ew kw es ks joined = record {
  blocks = ground arith;
  canonical = ground arith;
  head = ground arith;
  safe_is = ground arith;
  finalized_is = ground arith;
  counted = ground (arith, length-append ms fs);
  fits = λ k. ks (kw k);
}

pub observe_checkpoint-ok :
    (c : EthereumCheckpoint) (s s' : EthereumCanonicality) (rs : List EthereumRevision)
    → observe_checkpoint c s ≡ (ok rs, s')
    → (joined : ExecutionBlock × ExecutionBlock) × (check_checkpoint c s ≡ ok joined)
      × Marks s s' joined.0 joined.1 rs
unfolding observe_checkpoint
observe_checkpoint-ok c s s' rs h =
    let (joined, u, e, h1) = bind-ok (reads (check_checkpoint c)) _ s h in
    let (ms, w, em, h2) = bind-ok (mark_safe joined.0 c.source_id) _ u h1 in
    let (fs, x, ef, h3) = bind-ok (mark_finalized joined.1 c.source_id) _ w h2 in
    let first = mark_safe-ok joined.0 c.source_id u w ms em in
    let second = mark_finalized-ok joined.1 c.source_id w x fs ef in
    let same : u ≡ s = ground arith in
    let start : w ≡ record s { safe = some joined.0.hash; revision = s.revision + length ms } =
      subst (λ y. w ≡ record y { safe = some joined.0.hash; revision = y.revision + length ms })
        same first.0 in
    let kept : s.revision ≤ u64_max → w.revision ≤ u64_max =
      subst (λ y. y.revision ≤ u64_max → w.revision ≤ u64_max) same first.1 in
    let end : x ≡ s' = ap (λ r. r.1) h3 in
    (
      joined,
      ground arith,
      subst (λ y. Marks s y joined.0 joined.1 rs) end
          (Marks-chain s w x joined.0 joined.1 ms fs rs start kept second.0 second.1
            (ground arith)),
    )

mark_safe-ne-err :
    (b : ExecutionBlock) (source : String) (s s' : EthereumCanonicality) (e : EthereumError)
    → mark_safe b source s ≢ (err e, s')
unfolding mark_safe next_revision
mark_safe-ne-err b source s s' e h = ground arith

mark_finalized-ne-err :
    (b : ExecutionBlock) (source : String) (s s' : EthereumCanonicality) (e : EthereumError)
    → mark_finalized b source s ≢ (err e, s')
unfolding mark_finalized next_revision
mark_finalized-ne-err b source s s' e h = ground arith

pub observe_checkpoint-err :
    (c : EthereumCheckpoint) (s s' : EthereumCanonicality) (e : EthereumError)
    → observe_checkpoint c s ≡ (err e, s')
    → s' ≡ s
unfolding observe_checkpoint
observe_checkpoint-err c s s' e h = elim (bind-err (reads (check_checkpoint c)) _ s h) [
  | inl refused ↦ ground arith
  | inr (joined, u, _, h1) ↦ elim (bind-err (mark_safe joined.0 c.source_id) _ u h1) [
    | inl no_mark ↦ absurd (mark_safe-ne-err joined.0 c.source_id u s' e no_mark)
    | inr (ms, w, _, h2) ↦ elim (bind-err (mark_finalized joined.1 c.source_id) _ w h2) [
      | inl no_mark ↦ absurd (mark_finalized-ne-err joined.1 c.source_id w s' e no_mark)
      | inr (fs, x, _, h3) ↦ absurd (ground arith)
    ]
  ]
]

module _ (net : Headers) where
  open net use {header}

  Marks-IsValid :
      (c : EthereumCheckpoint) (s s' : EthereumCanonicality) (safe finalized : ExecutionBlock)
      (rs : List EthereumRevision)
      → IsValid net s
      → Joins net c safe finalized s
      → Marks s s' safe finalized rs
      → IsValid net s'
  Marks-IsValid c s s' safe finalized rs v j m =
      let so = j.safe_on in
      let fo = j.finalized_on in
      record {
        line = rw (m.blocks, m.canonical, m.head) v.line;
        tip = λ h e. rw m.canonical (v.tip h (sym m.head ∙ e));
        safe_canonical =
            λ h e. rw m.canonical (ground (arith, m.safe_is, so.hashed, so.sealed, so.placed));
        finalized_canonical =
            λ h e. rw m.canonical (ground (arith, m.finalized_is, fo.hashed, fo.sealed, fo.placed));
        ordered = λ f h ef eh. ground (
          arith, m.safe_is, m.finalized_is, so.hashed, so.sealed, fo.hashed, fo.sealed, j.in_order,
        );
        revision_fits = m.fits v.revision_fits;
      }

  -- An accepted checkpoint keeps the invariant.
  pub observe_checkpoint-IsValid :
      (c : EthereumCheckpoint) (s s' : EthereumCanonicality) (rs : List EthereumRevision)
      → IsValid net s
      → observe_checkpoint c s ≡ (ok rs, s')
      → IsValid net s'
  observe_checkpoint-IsValid c s s' rs v h =
      let (joined, e, m) = observe_checkpoint-ok c s s' rs h in
      let j = check_checkpoint-Joins net c s joined.0 joined.1 v e in
      Marks-IsValid c s s' joined.0 joined.1 rs v j m
