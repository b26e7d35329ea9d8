-- ===== src/Mempool/Graph/Conflicts.antt =====
-- Which conflicts an addition to the mempool graph reports
-- (`MempoolGraph::add`, processors/bitcoin-mempool/src/graph.rs).
use multichain_rs.Prelude.{
  ℕ, String, ◌≡◌, refl, sym, ap, ◌∙◌, inl, inr, Bool, true, false, ◌&&◌, ◌||◌, not, List, [], ◌∷◌,
  arith, leb, nat_beq, if◌then◌else◌, nat_eq, string_eq, option_eq, Bool-cases, u64_max, any,
  list_eq,
}
use multichain_rs.Dict
use multichain_rs.Dict.{Dict, get-insert}
use multichain_rs.Exec.{Outcome, ok}
use multichain_rs.Mempool.Membership.{Txid, MempoolError}
use multichain_rs.Mempool.Sets.{elem, set_insert, elem-set_insert}
use multichain_rs.Bitcoin.Domain.{
  OutPoint, same_outpoint, same_outpoint_iff, outpoint_eq, BitcoinTransaction,
}
use multichain_rs.Mempool.Graph.{
  ReplacementEvidence, ConflictEdge, GraphUpdate, MempoolGraph, spenders, same_edge, insert_edge,
  add_edges, conflict_edges, names_no_conflict, named_replacement, record_spends, add, store,
}

-- The edges hold one for the outpoint and the conflicting transaction.
abbrev pub has_edge : OutPoint → Txid → List ConflictEdge → Bool
has_edge q c edges = any (λ e. same_edge e q c) edges

has_edge-insert_edge :
    (q : OutPoint) (c : Txid) (e : ConflictEdge) (edges : List ConflictEdge)
    → has_edge q c (insert_edge e edges) ≡ (same_edge e q c || has_edge q c edges)
unfolding insert_edge
has_edge-insert_edge q c e [] = refl
has_edge-insert_edge q c e (x ∷ more) = ground (arith, has_edge-insert_edge q c e more)

has_edge-add_edges :
    (q : OutPoint) (c : Txid) (source_id : String) (txid : Txid) (o : OutPoint) (known : List Txid)
    (edges : List ConflictEdge)
    → has_edge q c (add_edges source_id txid o known edges)
      ≡ (same_outpoint o q && (elem c known && not (nat_beq c txid)) || has_edge q c edges)
unfolding add_edges
has_edge-add_edges q c source_id txid o [] edges = ground arith
has_edge-add_edges q c source_id txid o (k ∷ more) edges =
    let e : ConflictEdge = record {
      source_id = source_id;
      spent_outpoint = o;
      txid = txid;
      conflicting_txid = k;
    } in
    elim (Bool-cases (nat_beq k txid)) [
      | inl itself ↦
          rw (add_edges, itself)
            (ground (arith, has_edge-add_edges q c source_id txid o more edges))
      | inr other ↦
          rw (add_edges, other)
            (ground (
              arith,
              has_edge-add_edges q c source_id txid o more (insert_edge e edges),
              has_edge-insert_edge q c e edges,
            ))
    ]

-- An earlier transaction spends the outpoint that is among the inputs.
abbrev pub conflicts_with :
    Dict OutPoint (List Txid) → Txid → List OutPoint → OutPoint → Txid → Bool
conflicts_with history txid inputs q c =
    any (λ o. same_outpoint o q) inputs && (elem c (spenders history q) && not (nat_beq c txid))

conflict_step :
    (here later known_here known fresh before marked : Bool)
    → marked ≡ (here && (known_here && fresh) || before)
    → (here ≡ true → known_here ≡ known)
    → (later && (known && fresh) || marked) ≡ ((here || later) && (known && fresh) || before)
conflict_step true later known_here known fresh before marked e same =
    ap (λ x. later && (known && fresh) || x) (e ∙ ap (λ k. k && fresh || before) (same refl))
    ∙ ground arith
conflict_step false later known_here known fresh before marked e same =
    ap (λ x. later && (known && fresh) || x) e

spend_step :
    (here later is_it known_here known after entered : Bool)
    → entered ≡ (is_it || known_here)
    → after ≡ (if here then entered else known)
    → (here ≡ true → known_here ≡ known)
    → (later && is_it || after) ≡ ((here || later) && is_it || known)
spend_step true later is_it known_here known after entered e a same =
    ap (λ x. later && is_it || x) (a ∙ e ∙ ap (λ k. is_it || k) (same refl)) ∙ ground arith
spend_step false later is_it known_here known after entered e a same =
    ap (λ x. later && is_it || x) a

elem-if :
    (b : Bool) (c : Txid) (xs ys : List Txid)
    → elem c (if b then xs else ys) ≡ (if b then elem c xs else elem c ys)
elem-if true c xs ys = refl
elem-if false c xs ys = refl

has_edge-conflict_edges :
    (q : OutPoint) (c : Txid) (source_id : String) (txid : Txid)
    (history : Dict OutPoint (List Txid)) (inputs : List OutPoint) (edges : List ConflictEdge)
    → has_edge q c (conflict_edges source_id txid history inputs edges)
      ≡ (conflicts_with history txid inputs q c || has_edge q c edges)
unfolding conflict_edges
has_edge-conflict_edges q c source_id txid history [] edges = refl
has_edge-conflict_edges q c source_id txid history (o ∷ more) edges =
    let known = spenders history o in
    let first = has_edge-add_edges q c source_id txid o known edges in
    let rest =
      has_edge-conflict_edges q c source_id txid history more
        (add_edges source_id txid o known edges) in
    rest
    ∙ conflict_step (same_outpoint o q) (any (λ p. same_outpoint p q) more) (elem c known)
        (elem c (spenders history q)) (not (nat_beq c txid)) (has_edge q c edges) _ first
        (λ same. ap (λ p. elem c (spenders history p)) ((same_outpoint_iff o q).0 same))

spenders-insert :
    (history : Dict OutPoint (List Txid)) (o q : OutPoint) (l : List Txid)
    → spenders (Dict.insert history o l) q ≡ (if same_outpoint o q then l else spenders history q)
spenders-insert history o q l = ground (arith, get-insert history o q l)

elem-record_spends :
    (q : OutPoint) (c txid : Txid) (inputs : List OutPoint) (history : Dict OutPoint (List Txid))
    → elem c (spenders (record_spends txid inputs history) q)
      ≡ (any (λ o. same_outpoint o q) inputs && nat_beq txid c || elem c (spenders history q))
unfolding record_spends
elem-record_spends q c txid [] history = refl
elem-record_spends q c txid (o ∷ more) history =
    let set = set_insert txid (spenders history o) in
    elem-record_spends q c txid more (Dict.insert history o set)
    ∙ spend_step (same_outpoint o q) (any (λ p. same_outpoint p q) more) (nat_beq txid c)
        (elem c (spenders history o)) (elem c (spenders history q)) _ (elem c set)
        (elem-set_insert c txid (spenders history o))
        (ap (elem c) (spenders-insert history o q set)
          ∙ elem-if (same_outpoint o q) c set (spenders history q))
        (λ same. ap (λ p. elem c (spenders history p)) ((same_outpoint_iff o q).0 same))

ok-injective :
    {a b : GraphUpdate} → ◌≡◌ {A = Outcome MempoolError GraphUpdate} (ok a) (ok b) → a ≡ b
ok-injective e = cc e

or_false : (b : Bool) → (b || false) ≡ b
or_false true = refl
or_false false = refl

add-ok :
    (tx : BitcoinTransaction) (fee : ℕ) (evidence : ReplacementEvidence) (s t : MempoolGraph)
    (u : GraphUpdate)
    → Dict.contains_key s.present tx.txid ≡ false
    → add tx fee evidence s ≡ (ok u, t)
    → (conflict_edges s.source_id tx.txid s.spent_by_history tx.inputs [] ≡ u.conflicts)
      × (names_no_conflict evidence
            (conflict_edges s.source_id tx.txid s.spent_by_history tx.inputs [])
          ≡ false)
      × (store tx fee s ≡ t)
unfolding add
add-ok tx fee evidence s t u absent =
    let edges = conflict_edges s.source_id tx.txid s.spent_by_history tx.inputs [] in
    elim (Bool-cases (leb tx.virtual_size u64_max)) [
      | inr large ↦ rw (add, absent, large) (λ h. absurd (cc (ap (λ x. x.0) h)))
      | inl fits ↦ elim (Bool-cases (names_no_conflict evidence edges)) [
        | inl wrong ↦ rw (add, absent, fits, wrong) (λ h. absurd (cc (ap (λ x. x.0) h)))
        | inr right ↦
            rw (add, absent, fits, right)
              (λ h. (ap (λ x. x.conflicts) (ok-injective (ap (λ x. x.0) h)), refl, ap (λ x. x.1) h))
      ]
    ]

-- The evidence names a replaced transaction.
pub data Names : ReplacementEvidence → Txid → Type 0 where
  by_direct : (replaced : Txid) → Names (ReplacementEvidence.direct replaced) replaced
  by_reconciled : (replaced : Txid) → Names (ReplacementEvidence.reconciled replaced) replaced

-- One of the edges is against the transaction.
against :
    (c : Txid) (edges : List ConflictEdge)
    → any (λ e. nat_beq e.conflicting_txid c) edges ≡ true
    → (q : OutPoint) × (has_edge q c edges ≡ true)
against c [] h = absurd (cc h)
against c (e ∷ more) h = elim (Bool-cases (nat_beq e.conflicting_txid c)) [
  | inl here ↦
      let itself = (same_outpoint_iff e.spent_outpoint e.spent_outpoint).1 refl in
      (e.spent_outpoint, ground (arith, itself))
  | inr other ↦ let (q, f) = against c more (ground arith) in (q, ground arith)
]

named_among :
    (evidence : ReplacementEvidence) (c : Txid) (edges : List ConflictEdge)
    → names_no_conflict evidence edges ≡ false
    → Names evidence c
    → (q : OutPoint) × (has_edge q c edges ≡ true)
unfolding names_no_conflict named_replacement
named_among _ c edges h (Names.by_direct _) = against c edges (ground arith)
named_among _ c edges h (Names.by_reconciled _) = against c edges (ground arith)

-- An addition of a transaction that is not present, where it succeeds, reports a conflict at an
-- outpoint with a transaction exactly if the outpoint is an input, and the other transaction was
-- ever added as a spender of it; a transaction that the evidence names is among the earlier spenders
-- of an input; and from then on the transaction is present, and a known spender of just its inputs.
pub add-conflicts :
    (tx : BitcoinTransaction) (fee : ℕ) (evidence : ReplacementEvidence) (s t : MempoolGraph)
    (u : GraphUpdate)
    → Dict.contains_key s.present tx.txid ≡ false
    → add tx fee evidence s ≡ (ok u, t)
    → ((q : OutPoint) (c : Txid)
        → has_edge q c u.conflicts ≡ conflicts_with s.spent_by_history tx.txid tx.inputs q c)
      × ((c : Txid)
          → Names evidence c
          → (q : OutPoint) × (conflicts_with s.spent_by_history tx.txid tx.inputs q c ≡ true))
      × ((c : Txid)
          → Dict.contains_key t.present c ≡ (nat_beq tx.txid c || Dict.contains_key s.present c))
      × ((q : OutPoint) (c : Txid)
          → elem c (spenders t.spent_by_history q) ≡ (
              any (λ o. same_outpoint o q) tx.inputs && nat_beq tx.txid c
              || elem c (spenders s.spent_by_history q)))
unfolding add store
add-conflicts tx fee evidence s t u absent h =
    let edges = conflict_edges s.source_id tx.txid s.spent_by_history tx.inputs [] in
    let (reported, named, stored) = add-ok tx fee evidence s t u absent h in
    let exact : (q : OutPoint) (c : Txid)
        → has_edge q c edges ≡ conflicts_with s.spent_by_history tx.txid tx.inputs q c =
      λ q c.
        has_edge-conflict_edges q c s.source_id tx.txid s.spent_by_history tx.inputs []
        ∙ or_false (conflicts_with s.spent_by_history tx.txid tx.inputs q c) in
    (
      λ q c. ap (has_edge q c) (sym reported) ∙ exact q c,
      λ c names. let (q, e) = named_among evidence c edges named names in (q, sym (exact q c) ∙ e),
      λ c.
          ap (λ g. Dict.contains_key g.present c) (sym stored)
          ∙ ground (arith, get-insert s.present tx.txid c tt),
      λ q c.
          ap (λ g. elem c (spenders g.spent_by_history q)) (sym stored)
          ∙ elem-record_spends q c tx.txid tx.inputs s.spent_by_history,
    )
