-- ===== src/Evm/Bsc/Loops.antt =====
-- What the loops of the BSC tracker leave behind, as equations: while revision numbers last,
-- the revisions are numbered one after the other, and the maps are those of `Evm.Segment`; where
-- they do not last, the loop panics.
use multichain_rs.Prelude.{
  ℕ, suc, ◌+◌, ◌≤◌, ◌<◌, ◌≡◌, refl, Option, none, some, List, [], ◌∷◌, arith, nat_eq, string_eq,
  option_eq, u64_max, length, last?,
}
use multichain_rs.Dict
use multichain_rs.Exec.{ok, panic}
use multichain_rs.Evm.Status.{BscStatus}
use multichain_rs.Evm.Block.{B256, ExecutionBlock, hash_of}
use multichain_rs.Evm.Segment.{blocks_after, heights_after, heights_without}
use multichain_rs.Evm.Bsc.{
  BscCanonicality, BscRevision, next_revision, commit_block, commit_blocks, disconnect_block,
  disconnect_blocks, connect_block, connect_blocks,
}

-- Revisions of one status, numbered from the one after `n`.
unfoldable pub numbered : BscStatus → ℕ → List ExecutionBlock → List BscRevision
numbered status n [] = []
numbered status n (b ∷ bs) =
    record { block = b; status = status; revision = suc n; source_id = none }
    ∷ numbered status (suc n) bs

abbrev pub head_after : Option B256 → List ExecutionBlock → Option B256
head_after head [] = head
head_after head (b ∷ bs) = head_after (some b.hash) bs

pub head_after-last :
    (head : Option B256) (b : ExecutionBlock) (bs : List ExecutionBlock)
    → head_after head (b ∷ bs) ≡ hash_of (last? (b ∷ bs))
head_after-last head b [] = refl
head_after-last head b (c ∷ bs) = head_after-last (some b.hash) c bs

abbrev pub committed : BscCanonicality → List ExecutionBlock → BscCanonicality
committed s bs = record s {
  blocks = blocks_after s.blocks bs;
  canonical = heights_after s.canonical bs;
  head = head_after s.head bs;
  revision = s.revision + length bs;
}

pub commit_blocks_lem :
    (bs : List ExecutionBlock) (s : BscCanonicality)
    → s.revision + length bs ≤ u64_max
    → commit_blocks bs s ≡ (ok (numbered BscStatus.canonical_head s.revision bs), committed s bs)
unfolding commit_blocks commit_block next_revision numbered blocks_after heights_after
commit_blocks_lem [] s room = ground arith
commit_blocks_lem (b ∷ bs) s room =
    let s' : BscCanonicality = record s {
      blocks = Dict.insert s.blocks b.hash b;
      canonical = Dict.insert s.canonical b.number b.hash;
      head = some b.hash;
      revision = suc s.revision;
    } in
    ground (arith, commit_blocks_lem bs s')

abbrev pub connected : BscCanonicality → List ExecutionBlock → BscCanonicality
connected s bs = record s {
  blocks = blocks_after s.blocks bs;
  canonical = heights_after s.canonical bs;
  revision = s.revision + length bs;
}

pub connect_blocks_lem :
    (bs : List ExecutionBlock) (s : BscCanonicality)
    → s.revision + length bs ≤ u64_max
    → connect_blocks bs s ≡ (ok (numbered BscStatus.canonical_head s.revision bs), connected s bs)
unfolding connect_blocks connect_block next_revision numbered blocks_after heights_after
connect_blocks_lem [] s room = ground arith
connect_blocks_lem (b ∷ bs) s room =
    let s' : BscCanonicality = record s {
      blocks = Dict.insert s.blocks b.hash b;
      canonical = Dict.insert s.canonical b.number b.hash;
      revision = suc s.revision;
    } in
    ground (arith, connect_blocks_lem bs s')

abbrev pub disconnected : BscCanonicality → List ExecutionBlock → BscCanonicality
disconnected s bs = record s {
  canonical = heights_without s.canonical bs;
  revision = s.revision + length bs;
}

pub disconnect_blocks_lem :
    (bs : List ExecutionBlock) (s : BscCanonicality)
    → s.revision + length bs ≤ u64_max
    → disconnect_blocks bs s ≡ (ok (numbered BscStatus.reorged s.revision bs), disconnected s bs)
unfolding disconnect_blocks disconnect_block next_revision numbered heights_without
disconnect_blocks_lem [] s room = ground arith
disconnect_blocks_lem (b ∷ bs) s room =
    let s' : BscCanonicality = record s {
      canonical = Dict.remove s.canonical b.number;
      revision = suc s.revision;
    } in
    ground (arith, disconnect_blocks_lem bs s')

-- Without revision numbers for all blocks, the loops panic.
pub commit_blocks_panics :
    (bs : List ExecutionBlock) (s : BscCanonicality)
    → s.revision ≤ u64_max
    → u64_max < s.revision + length bs
    → (commit_blocks bs s).0 ≡ panic
unfolding commit_blocks commit_block next_revision
commit_blocks_panics [] s fits short = absurd (omega arith)
commit_blocks_panics (b ∷ bs) s fits short =
    let s' : BscCanonicality = record s {
      blocks = Dict.insert s.blocks b.hash b;
      canonical = Dict.insert s.canonical b.number b.hash;
      head = some b.hash;
      revision = suc s.revision;
    } in
    ground (arith, commit_blocks_panics bs s')

pub connect_blocks_panics :
    (bs : List ExecutionBlock) (s : BscCanonicality)
    → s.revision ≤ u64_max
    → u64_max < s.revision + length bs
    → (connect_blocks bs s).0 ≡ panic
unfolding connect_blocks connect_block next_revision
connect_blocks_panics [] s fits short = absurd (omega arith)
connect_blocks_panics (b ∷ bs) s fits short =
    let s' : BscCanonicality = record s {
      blocks = Dict.insert s.blocks b.hash b;
      canonical = Dict.insert s.canonical b.number b.hash;
      revision = suc s.revision;
    } in
    ground (arith, connect_blocks_panics bs s')

pub disconnect_blocks_panics :
    (bs : List ExecutionBlock) (s : BscCanonicality)
    → s.revision ≤ u64_max
    → u64_max < s.revision + length bs
    → (disconnect_blocks bs s).0 ≡ panic
unfolding disconnect_blocks disconnect_block next_revision
disconnect_blocks_panics [] s fits short = absurd (omega arith)
disconnect_blocks_panics (b ∷ bs) s fits short =
    let s' : BscCanonicality = record s {
      canonical = Dict.remove s.canonical b.number;
      revision = suc s.revision;
    } in
    ground (arith, disconnect_blocks_panics bs s')
