-- ===== src/Evm/Ethereum/History.antt =====
-- The revisions of the Ethereum tracker as its history: they rebuild the canonical heights, and
-- their numbers run from 1 without a gap.
use mathlib.Core.Path.{subst}
use multichain_rs.Prelude.{
  ℕ, suc, ◌+◌, ◌≤◌, String, ◌≡◌, refl, sym, ap, ◌∙◌, inl, inr, some, List, [], ◌∷◌, ◌++◌, reverse,
  arith, ◌==◌, nat_eq, string_eq, option_eq, Bool-cases, u64_max, length, list_eq,
}
use multichain_rs.Dict
use multichain_rs.Exec.{ok, reads}
use multichain_rs.Exec.Rules.{bind-ok}
use multichain_rs.Evm.Status.{EthereumStatus, canonical_head, reorged}
use multichain_rs.Evm.Block.{ExecutionBlock, Heights}
use multichain_rs.Evm.Line.{Headers}
use multichain_rs.Evm.Segment.{heights_after, heights_without}
use multichain_rs.Evm.Ethereum.{
  EthereumCanonicality, EthereumCheckpoint, EthereumRevision, new_ethereum, commit_segment, reorg,
  observe_checkpoint, mark_safe, mark_finalized, check_checkpoint, next_revision,
}
use multichain_rs.Evm.Ethereum.Loops.{numbered, committed, disconnected}
use multichain_rs.Evm.Ethereum.Valid.{IsValid, new_ethereum-IsValid}
use multichain_rs.Evm.Ethereum.Commit.{commit_segment-ok, commit_blocks-ok}
use multichain_rs.Evm.Ethereum.Reorg.{reorg-ok, reorganized, reorg_revisions}
use multichain_rs.Evm.Ethereum.Calls.{
  Call, commit, replace, checkpoint, handle, IsSealedCall, handle-IsValid,
}

-- What a reader of one revision does to its own canonical heights.
replay_one : Heights → EthereumRevision → EthereumStatus → Heights
replay_one canonical r canonical_head = Dict.insert canonical r.block.number r.block.hash
replay_one canonical r reorged = Dict.remove canonical r.block.number
replay_one canonical r _ = canonical

pub replay : Heights → List EthereumRevision → Heights
unfolding replay_one
replay canonical [] = canonical
replay canonical (r ∷ rs) = replay (replay_one canonical r r.status) rs

-- The revisions are numbered from the one after `n`, and `m` is the number of the last.
abbrev pub Numbers : ℕ → List EthereumRevision → ℕ → Type 0
Numbers n [] m = n ≡ m
Numbers n (r ∷ rs) m = (r.revision ≡ suc n) × Numbers (suc n) rs m

replay-append :
    (canonical : Heights) (xs ys : List EthereumRevision)
    → replay canonical (xs ++ ys) ≡ replay (replay canonical xs) ys
unfolding replay
replay-append canonical [] ys = refl
replay-append canonical (x ∷ xs) ys = replay-append (replay_one canonical x x.status) xs ys

Numbers-append :
    (n m k : ℕ) (xs ys : List EthereumRevision)
    → Numbers n xs m
    → Numbers m ys k
    → Numbers n (xs ++ ys) k
Numbers-append n m k [] ys h j = subst (λ x. Numbers x ys k) (sym h) j
Numbers-append n m k (x ∷ xs) ys h j = (h.0, Numbers-append (suc n) m k xs ys h.1 j)

replay-connects :
    (canonical : Heights) (n : ℕ) (bs : List ExecutionBlock)
    → replay canonical (numbered canonical_head n bs) ≡ heights_after canonical bs
unfolding replay numbered heights_after
replay-connects canonical n [] = refl
replay-connects canonical n (b ∷ bs) =
    replay-connects (Dict.insert canonical b.number b.hash) (suc n) bs

replay-disconnects :
    (canonical : Heights) (n : ℕ) (bs : List ExecutionBlock)
    → replay canonical (numbered reorged n bs) ≡ heights_without canonical bs
unfolding replay numbered heights_without
replay-disconnects canonical n [] = refl
replay-disconnects canonical n (b ∷ bs) =
    replay-disconnects (Dict.remove canonical b.number) (suc n) bs

numbered-Numbers :
    (status : EthereumStatus) (n : ℕ) (bs : List ExecutionBlock)
    → Numbers n (numbered status n bs) (n + length bs)
unfolding numbered
numbered-Numbers status n [] = omega arith
numbered-Numbers status n (b ∷ bs) =
    let up : suc n + length bs ≡ n + length (b ∷ bs) = omega arith in
    (
      refl,
      subst (Numbers (suc n) (numbered status (suc n) bs)) up (numbered-Numbers status (suc n) bs),
    )

-- The revisions tell how the state changed.
pub record Tells (s s' : EthereumCanonicality) (rs : List EthereumRevision) : Type 0 where
  pub heights : replay s.canonical rs ≡ s'.canonical
  pub numbers : Numbers s.revision rs s'.revision

Tells-eq :
    (s t s' : EthereumCanonicality) (qs rs : List EthereumRevision)
    → Tells s t qs
    → s' ≡ t
    → rs ≡ qs
    → Tells s s' rs
Tells-eq s t s' qs rs tells es er = rw (es, er) tells

Tells-none : (s : EthereumCanonicality) → Tells s s []
unfolding replay
Tells-none s = record { heights = refl; numbers = refl }

Tells-chain :
    (s t u : EthereumCanonicality) (qs rs : List EthereumRevision)
    → Tells s t qs
    → Tells t u rs
    → Tells s u (qs ++ rs)
Tells-chain s t u qs rs a b = record {
  heights = replay-append s.canonical qs rs ∙ ap (λ c. replay c rs) a.heights ∙ b.heights;
  numbers = Numbers-append s.revision t.revision u.revision qs rs a.numbers b.numbers;
}

commit_segment-Tells :
    (bs : List ExecutionBlock) (s s' : EthereumCanonicality) (rs : List EthereumRevision)
    → s.revision ≤ u64_max
    → commit_segment bs s ≡ (ok rs, s')
    → Tells s s' rs
unfolding commit_segment
commit_segment-Tells List.[] s s' rs fits h =
    Tells-eq s s s' [] rs (Tells-none s) (ap (λ r. r.1) (sym h)) (ground arith)
commit_segment-Tells (b ∷ bs) s s' rs fits h = elim (commit_segment-ok b bs s s' rs h) [
  | inl (same, empty) ↦ Tells-eq s s s' [] rs (Tells-none s) same empty
  | inr (_, _, ran) ↦
      let (_, after, made) = commit_blocks-ok (b ∷ bs) s s' rs fits ran in
      Tells-eq s (committed s (b ∷ bs)) s' (numbered canonical_head s.revision (b ∷ bs)) rs
        (record {
          heights = replay-connects s.canonical s.revision (b ∷ bs);
          numbers = numbered-Numbers canonical_head s.revision (b ∷ bs);
        })
        after made
]

reorg-Tells :
    (old news : List ExecutionBlock) (s s' : EthereumCanonicality) (rs : List EthereumRevision)
    → s.revision ≤ u64_max
    → reorg old news s ≡ (ok rs, s')
    → Tells s s' rs
unfolding reorg
reorg-Tells List.[] news s s' rs fits h = absurd (ground arith)
reorg-Tells (o ∷ os) List.[] s s' rs fits h = absurd (ground arith)
reorg-Tells (o ∷ os) (n ∷ ns) s s' rs fits h =
    let (_, _, after, made) = reorg-ok o os n ns s s' rs fits h in
    let cut = disconnected s (reverse (o ∷ os)) in
    Tells-eq s (reorganized s (o ∷ os) (n ∷ ns)) s' (reorg_revisions s.revision (o ∷ os) (n ∷ ns))
      rs
      (Tells-chain s cut (reorganized s (o ∷ os) (n ∷ ns))
        (numbered reorged s.revision (reverse (o ∷ os)))
        (numbered canonical_head cut.revision (n ∷ ns))
        (record {
          heights = replay-disconnects s.canonical s.revision (reverse (o ∷ os));
          numbers = numbered-Numbers reorged s.revision (reverse (o ∷ os));
        })
        (record {
          heights = replay-connects cut.canonical cut.revision (n ∷ ns);
          numbers = numbered-Numbers canonical_head cut.revision (n ∷ ns);
        }))
      after made

mark_safe-Tells :
    (b : ExecutionBlock) (source : String) (s s' : EthereumCanonicality)
    (rs : List EthereumRevision)
    → mark_safe b source s ≡ (ok rs, s')
    → Tells s s' rs
unfolding mark_safe next_revision replay
mark_safe-Tells b source s s' rs h = elim (Bool-cases (s.safe == some b.hash)) [
  | inl same ↦ Tells-eq s s s' [] rs (Tells-none s) (ground arith) (ground arith)
  | inr other ↦
      let r : EthereumRevision = record {
        block = b;
        status = EthereumStatus.safe;
        revision = s.revision + 1;
        source_id = some source;
      } in
      Tells-eq s (record s { safe = some b.hash; revision = s.revision + 1 }) s' (r ∷ []) rs
        (record { heights = refl; numbers = (omega arith, omega arith) }) (ground arith)
        (ground arith)
]

mark_finalized-Tells :
    (b : ExecutionBlock) (source : String) (s s' : EthereumCanonicality)
    (rs : List EthereumRevision)
    → mark_finalized b source s ≡ (ok rs, s')
    → Tells s s' rs
unfolding mark_finalized next_revision replay
mark_finalized-Tells b source s s' rs h = elim (Bool-cases (s.finalized == some b.hash)) [
  | inl same ↦ Tells-eq s s s' [] rs (Tells-none s) (ground arith) (ground arith)
  | inr other ↦
      let r : EthereumRevision = record {
        block = b;
        status = EthereumStatus.finalized;
        revision = s.revision + 1;
        source_id = some source;
      } in
      Tells-eq s (record s { finalized = some b.hash; revision = s.revision + 1 }) s' (r ∷ []) rs
        (record { heights = refl; numbers = (omega arith, omega arith) }) (ground arith)
        (ground arith)
]

observe_checkpoint-Tells :
    (c : EthereumCheckpoint) (s s' : EthereumCanonicality) (rs : List EthereumRevision)
    → observe_checkpoint c s ≡ (ok rs, s')
    → Tells s s' rs
unfolding observe_checkpoint
observe_checkpoint-Tells c s s' rs h =
    let (joined, u, e, h1) = bind-ok (reads (check_checkpoint c)) _ s h in
    let (ms, w, em, h2) = bind-ok (mark_safe joined.0 c.source_id) _ u h1 in
    let (fs, x, ef, h3) = bind-ok (mark_finalized joined.1 c.source_id) _ w h2 in
    let same : u ≡ s = ap (λ r. r.1) (sym e) in
    let end : s' ≡ x = ap (λ r. r.1) (sym h3) in
    let first = mark_safe-Tells joined.0 c.source_id u w ms em in
    let second = mark_finalized-Tells joined.1 c.source_id w x fs ef in
    Tells-eq s x s' (ms ++ fs) rs
      (Tells-chain s w x ms fs (subst (λ y. Tells y w ms) same first) second) end (ground arith)

handle-Tells :
    (c : Call) (s s' : EthereumCanonicality) (rs : List EthereumRevision)
    → s.revision ≤ u64_max
    → handle c s ≡ (ok rs, s')
    → Tells s s' rs
unfolding handle
handle-Tells (commit blocks) s s' rs fits h = commit_segment-Tells blocks s s' rs fits h
handle-Tells (replace old news) s s' rs fits h = reorg-Tells old news s s' rs fits h
handle-Tells (checkpoint c) s s' rs fits h = observe_checkpoint-Tells c s s' rs h

module _ (net : Headers) where
  -- The states that successful calls lead to, each with the revisions made on the way to it.
  pub data Reach : List EthereumRevision → EthereumCanonicality → Type 0 where
    start : Reach [] new_ethereum
    call :
        {log rs : List EthereumRevision} {s s' : EthereumCanonicality} (c : Call)
        → IsSealedCall net c
        → handle c s ≡ (ok rs, s')
        → Reach log s
        → Reach (log ++ rs) s'

  -- Every state that successful calls of sealed blocks lead to from the empty tracker is valid.
  pub Reach-IsValid :
      {log : List EthereumRevision} {s : EthereumCanonicality} → Reach log s → IsValid net s
  Reach-IsValid start = new_ethereum-IsValid net
  Reach-IsValid (call {rs = rs} {s = s} {s' = s'} c seals h before) =
      handle-IsValid net c s s' rs (Reach-IsValid before) seals h

  -- The revisions of any run of successful calls of sealed blocks from the empty tracker rebuild the canonical
  -- heights of the state that the run ends in, and their numbers are 1, 2, … up to that state's revision.
  pub Reach-Tells :
      {log : List EthereumRevision} {s : EthereumCanonicality}
      → Reach log s
      → Tells new_ethereum s log
  Reach-Tells start = Tells-none new_ethereum
  Reach-Tells (call {log = log} {rs = rs} {s = s} {s' = s'} c seals h before) =
      Tells-chain new_ethereum s s' log rs (Reach-Tells before)
        (handle-Tells c s s' rs (Reach-IsValid before).revision_fits h)
