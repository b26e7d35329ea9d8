-- ===== src/Mempool/Graph.antt =====
-- The transactions of one mempool with their conflicting spends (`MempoolGraph` of
-- processors/bitcoin-mempool/src/graph.rs, its additions and removals).
pub mod Conflicts
mod Tests
use multichain_rs.Prelude.{
  ℕ, String, Bool, false, ◌&&◌, ◌||◌, not, Option, none, some, List, [], ◌∷◌, ltb, leb, nat_beq,
  if◌then◌else◌, nat_eq, string_eq, option_eq, u64_max, any, is_blank, list_eq,
}
use multichain_rs.Dict
use multichain_rs.Dict.{Dict}
use multichain_rs.Exec.{Outcome, ok, err, Exec}
use multichain_rs.Bitcoin.Domain.{Txid, OutPoint, same_outpoint, outpoint_eq, BitcoinTransaction}
use multichain_rs.Mempool.Membership.{MempoolError}
use multichain_rs.Mempool.Sets.{set_insert}

pub data ReplacementEvidence : Type 0 where
  unnamed : ReplacementEvidence
  direct reconciled : Txid → ReplacementEvidence

pub data ReplacementClassification : Type 0 where
  observed reconciled inferred unknown : ReplacementClassification

pub record ConflictEdge : Type 0 where
  pub source_id : String
  pub spent_outpoint : OutPoint
  pub txid : Txid
  pub conflicting_txid : Txid

pub record GraphUpdate : Type 0 where
  pub conflicts : List ConflictEdge
  pub replacement_classification : Option ReplacementClassification

pub record GraphTransaction : Type 0 where
  pub transaction : BitcoinTransaction
  pub fee_sats : ℕ
  pub vsize : ℕ

-- A set of present transactions is a map to nothing, and a set of spenders an ascending list.
pub record MempoolGraph : Type 0 where
  pub source_id : String
  pub transactions : Dict Txid GraphTransaction
  pub present : Dict {0, 0} Txid Unit
  pub spent_by_history : Dict OutPoint (List Txid)

-- `MempoolGraph::new`
pub new_graph : String → Outcome MempoolError MempoolGraph
new_graph source_id =
    if is_blank source_id
    then err MempoolError.empty_source_id
    else ok (record {
      source_id = source_id;
      transactions = Dict.empty;
      present = Dict.empty;
      spent_by_history = Dict.empty;
    })

-- The set of known spenders of an outpoint, empty where there is no entry.
abbrev pub spenders : Dict OutPoint (List Txid) → OutPoint → List Txid
spenders history outpoint = elim (Dict.get history outpoint) [
  | none ↦ []
  | some existing ↦ existing
]

-- The key `(OutPoint, Txid)` of the conflict map, and its order.
abbrev pub same_edge : ConflictEdge → OutPoint → Txid → Bool
same_edge e outpoint txid =
    same_outpoint e.spent_outpoint outpoint && nat_beq e.conflicting_txid txid

pub edge_ltb : ConflictEdge → ConflictEdge → Bool
edge_ltb a b =
    ltb a.spent_outpoint.txid b.spent_outpoint.txid
    || nat_beq a.spent_outpoint.txid b.spent_outpoint.txid
      && (ltb a.spent_outpoint.vout b.spent_outpoint.vout
          || nat_beq a.spent_outpoint.vout b.spent_outpoint.vout
            && ltb a.conflicting_txid b.conflicting_txid)

-- `conflicts.insert(…)`: the map's values in the order of their keys
pub insert_edge : ConflictEdge → List ConflictEdge → List ConflictEdge
unfolding edge_ltb
insert_edge e [] = e ∷ []
insert_edge e (x ∷ more) =
    let rest = insert_edge e more in
    if same_edge x e.spent_outpoint e.conflicting_txid
    then e ∷ more
    else if edge_ltb e x
    then e ∷ x ∷ more
    else x ∷ rest

-- The inner loop over the spenders that are known of one input.
pub add_edges : String → Txid → OutPoint → List Txid → List ConflictEdge → List ConflictEdge
unfolding insert_edge
add_edges source_id txid outpoint [] edges = edges
add_edges source_id txid outpoint (known ∷ more) edges = add_edges source_id txid outpoint more (
    if nat_beq known txid
    then edges
    else insert_edge
        (record {
          source_id = source_id;
          spent_outpoint = outpoint;
          txid = txid;
          conflicting_txid = known;
        })
        edges)

-- The loop over the inputs.
pub conflict_edges :
    String
    → Txid
    → Dict OutPoint (List Txid)
    → List OutPoint
    → List ConflictEdge
    → List ConflictEdge
unfolding add_edges
conflict_edges source_id txid history [] edges = edges
conflict_edges source_id txid history (outpoint ∷ more) edges =
    conflict_edges source_id txid history more
      (add_edges source_id txid outpoint (spenders history outpoint) edges)

-- `named_replacement`
pub named_replacement : ReplacementEvidence → Option Txid
named_replacement ReplacementEvidence.unnamed = none
named_replacement (ReplacementEvidence.direct replaced_txid) = some replaced_txid
named_replacement (ReplacementEvidence.reconciled replaced_txid) = some replaced_txid

pub names_no_conflict : ReplacementEvidence → List ConflictEdge → Bool
unfolding named_replacement
names_no_conflict evidence edges = elim (named_replacement evidence) [
  | none ↦ false
  | some named ↦ not (any (λ e. nat_beq e.conflicting_txid named) edges)
]

pub classification : ReplacementEvidence → List ConflictEdge → Option ReplacementClassification
classification evidence [] = none
classification ReplacementEvidence.unnamed (e ∷ more) = some ReplacementClassification.inferred
classification (ReplacementEvidence.direct _) (e ∷ more) = some ReplacementClassification.observed
classification (ReplacementEvidence.reconciled _) (e ∷ more) =
    some ReplacementClassification.reconciled

-- The loop that enters the transaction as a spender of its inputs.
pub record_spends : Txid → List OutPoint → Dict OutPoint (List Txid) → Dict OutPoint (List Txid)
record_spends txid [] history = history
record_spends txid (outpoint ∷ more) history =
    record_spends txid more
      (Dict.insert history outpoint (set_insert txid (spenders history outpoint)))

pub store : BitcoinTransaction → ℕ → MempoolGraph → MempoolGraph
unfolding record_spends
store transaction fee_sats s = record s {
  spent_by_history = record_spends transaction.txid transaction.inputs s.spent_by_history;
  transactions =
      Dict.insert s.transactions transaction.txid (record {
        transaction = transaction;
        fee_sats = fee_sats;
        vsize = transaction.virtual_size;
      });
  present = Dict.insert s.present transaction.txid tt;
}

-- `MempoolGraph::add`
pub add : BitcoinTransaction → ℕ → ReplacementEvidence → Exec MempoolError MempoolGraph GraphUpdate
unfolding conflict_edges names_no_conflict classification store
add transaction fee_sats evidence s =
    let txid = transaction.txid in
    let edges = conflict_edges s.source_id txid s.spent_by_history transaction.inputs [] in
    if Dict.contains_key s.present txid
    then (ok (record { conflicts = []; replacement_classification = none }), s)
    else if not (leb transaction.virtual_size u64_max)
    then (err (MempoolError.transaction_too_large txid), s)
    else if names_no_conflict evidence edges
    then (err (MempoolError.invalid_replacement_evidence txid), s)
    else (
      ok (record { conflicts = edges; replacement_classification = classification evidence edges }),
      store transaction fee_sats s,
    )

-- `MempoolGraph::remove`
pub remove : Txid → MempoolGraph → MempoolGraph
remove txid s = record s { present = Dict.remove s.present txid }
