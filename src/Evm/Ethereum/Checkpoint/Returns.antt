-- ===== src/Evm/Ethereum/Checkpoint/Returns.antt =====
-- A checkpoint's checks come to an end, and so does the call while revision numbers last.
use multichain_rs.Prelude.{
  ◌+◌, ◌≤◌, String, ◌≡◌, inl, inr, not, Option, none, some, List, [], ◌∷◌, arith, ◌==◌, nat_eq,
  string_eq, option_eq, Bool-cases, u64_max,
}
use multichain_rs.Dict
use multichain_rs.Exec.{ok}
use multichain_rs.Exec.Rules.{
  continue-Settles, Settles, settle_rules, and_then-Settles, ok_or-Settles, or_else-Settles,
  negated-Settles, ensure-Settles, if-Settles,
}
use multichain_rs.Evm.Status.{EthereumStatus}
use multichain_rs.Evm.Block.{B256, ExecutionBlock}
use multichain_rs.Evm.Line.{Headers}
use multichain_rs.Evm.Ancestry.{is_ancestor_returns}
use multichain_rs.Evm.Ethereum.{
  EthereumCanonicality, EthereumCheckpoint, EthereumRevision, observe_checkpoint, check_checkpoint,
  canonical_block, block, has_ancestor, misses_ancestry, regresses, mark_safe, mark_finalized,
  next_revision,
}
use multichain_rs.Evm.Ethereum.Valid.{IsValid, next_number}

mark_safe_returns :
    (b : ExecutionBlock) (source : String) (s : EthereumCanonicality)
    → s.revision + 1 ≤ u64_max
    → (rs : List EthereumRevision) × (w : EthereumCanonicality) × (mark_safe b source s
        ≡ (ok rs, w))
      × (w.revision ≤ s.revision + 1)
unfolding mark_safe next_revision
mark_safe_returns b source s room = elim (Bool-cases (s.safe == some b.hash)) [
  | inl same ↦ ([], s, ground arith, omega arith)
  | inr other ↦ (
    record {
      block = b;
      status = EthereumStatus.safe;
      revision = s.revision + 1;
      source_id = some source;
    }
        ∷ [],
    record s { safe = some b.hash; revision = s.revision + 1 },
    ground arith,
    omega arith,
  )
]

mark_finalized_returns :
    (b : ExecutionBlock) (source : String) (s : EthereumCanonicality)
    → s.revision + 1 ≤ u64_max
    → (rs : List EthereumRevision) × (w : EthereumCanonicality) × (mark_finalized b source s
        ≡ (ok rs, w))
unfolding mark_finalized next_revision
mark_finalized_returns b source s room = elim (Bool-cases (s.finalized == some b.hash)) [
  | inl same ↦ ([], s, ground arith)
  | inr other ↦ (
    record {
      block = b;
      status = EthereumStatus.finalized;
      revision = s.revision + 1;
      source_id = some source;
    }
        ∷ [],
    record s { finalized = some b.hash; revision = s.revision + 1 },
    ground arith,
  )
]

module _ (net : Headers) where
  has_ancestor-Settles :
      (g h : B256) (s : EthereumCanonicality) → IsValid net s → Settles (has_ancestor g h s)
  unfolding has_ancestor
  has_ancestor-Settles g h s v =
      let (b, e) =
        is_ancestor_returns net s.blocks s.canonical (next_number net s.head) v.line g h in
      rw (e, has_ancestor) tt

  regresses-Settles :
      (o : Option B256) (b : ExecutionBlock) (s : EthereumCanonicality)
      → IsValid net s
      → Settles (regresses o b s)
  unfolding regresses block
  regresses-Settles none b s v = tt
  regresses-Settles (some p) b s v = elim (Bool-cases (p == b.hash)) [
    | inl same ↦ rw same tt
    | inr other ↦ rw other (search (settle_rules, has_ancestor-Settles))
  ]

  canonical_block-Settles : (h : B256) (s : EthereumCanonicality) → Settles (canonical_block h s)
  unfolding canonical_block block
  canonical_block-Settles h s =
      and_then-Settles _ _ (ok_or-Settles _ _)
        λ b. if-Settles (Dict.get s.canonical b.number == some h) _ _ tt tt

  check_checkpoint-Settles :
      (c : EthereumCheckpoint) (s : EthereumCanonicality)
      → IsValid net s
      → Settles (check_checkpoint c s)
  unfolding check_checkpoint misses_ancestry
  check_checkpoint-Settles c s v = and_then-Settles _ _ (canonical_block-Settles c.head s) λ head.
      and_then-Settles _ _ (canonical_block-Settles c.safe s) λ safe.
        and_then-Settles _ _ (canonical_block-Settles c.finalized s) λ finalized.
          and_then-Settles _ _
            (or_else-Settles _ _
              (negated-Settles _ (has_ancestor-Settles finalized.hash safe.hash s v))
              (or_else-Settles _ _
                (negated-Settles _ (has_ancestor-Settles safe.hash head.hash s v)) tt))
            λ misses. and_then-Settles _ _ (ensure-Settles (not misses) _) λ _.
              and_then-Settles _ _ (regresses-Settles s.finalized finalized s v) λ reversal.
                and_then-Settles _ _ (ensure-Settles (not reversal) _) λ _.
                  and_then-Settles _ _ (regresses-Settles s.safe safe s v)
                    λ regression. and_then-Settles _ _ (ensure-Settles (not regression) _) λ _. tt

  pub observe_checkpoint_returns :
      (c : EthereumCheckpoint) (s : EthereumCanonicality)
      → IsValid net s
      → s.revision + 2 ≤ u64_max
      → Settles (observe_checkpoint c s).0
  unfolding observe_checkpoint
  observe_checkpoint_returns c s v room =
      continue-Settles (check_checkpoint c s) _ s (check_checkpoint-Settles c s v) λ joined.
        let (ms, w, em, le) = mark_safe_returns joined.0 c.source_id s (omega arith) in
        let (fs, x, ef) = mark_finalized_returns joined.1 c.source_id w (omega arith) in
        rw (em, ef) tt
