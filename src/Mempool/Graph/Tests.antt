-- ===== src/Mempool/Graph/Tests.antt =====
-- The theorem about additions to the mempool graph at a concrete replacement.
use multichain_rs.Prelude.{
  ◌≡◌, refl, true, false, ◌&&◌, ◌||◌, some, [], ◌∷◌, nat_beq, nat_eq, string_eq, option_eq, any,
  list_eq,
}
use multichain_rs.Dict
use multichain_rs.Exec.{ok}
use multichain_rs.Mempool.Membership.{Txid}
use multichain_rs.Mempool.Sets.{elem}
use multichain_rs.Bitcoin.Domain.{OutPoint, same_outpoint, outpoint_eq, BitcoinTransaction}
use multichain_rs.Mempool.Graph.{
  ReplacementEvidence, ReplacementClassification, GraphUpdate, MempoolGraph, spenders, add,
}
use multichain_rs.Mempool.Graph.Conflicts.{has_edge, conflicts_with, Names, add-conflicts}

abbrev coin : OutPoint
coin = record { txid = 1; vout = 0 }

-- The transaction 5 has spent the coin and is present.
abbrev spent : MempoolGraph
spent = record {
  source_id = "alice";
  transactions = Dict.empty;
  present = Dict.insert Dict.empty 5 tt;
  spent_by_history = Dict.insert Dict.empty coin (5 ∷ []);
}

abbrev replacement : BitcoinTransaction
replacement = record {
  txid = 7;
  is_coinbase = false;
  inputs = coin ∷ [];
  outputs = [];
  virtual_size = 140;
}

abbrev update : GraphUpdate
update = record {
  conflicts =
      (record { source_id = "alice"; spent_outpoint = coin; txid = 7; conflicting_txid = 5 }) ∷ [];
  replacement_classification = some ReplacementClassification.observed;
}

not_present : Dict.contains_key spent.present 7 ≡ false
unfolding Dict.get Dict.insert Dict.empty
not_present = refl

replaces :
    add replacement 900 (ReplacementEvidence.direct 5) spent
    ≡ (ok update, (add replacement 900 (ReplacementEvidence.direct 5) spent).1)
unfolding add Dict.get Dict.insert Dict.empty
replaces = refl

add-conflicts_example :
    ((q : OutPoint) (c : Txid)
      → has_edge q c update.conflicts ≡ conflicts_with spent.spent_by_history 7 (coin ∷ []) q c)
    × ((c : Txid)
        → Names (ReplacementEvidence.direct 5) c
        → (q : OutPoint) × (conflicts_with spent.spent_by_history 7 (coin ∷ []) q c ≡ true))
    × ((c : Txid)
        → Dict.contains_key (add replacement 900 (ReplacementEvidence.direct 5) spent).1.present c
          ≡ (nat_beq 7 c || Dict.contains_key spent.present c))
    × ((q : OutPoint) (c : Txid)
        → elem c (
            spenders
              (add replacement 900 (ReplacementEvidence.direct 5) spent).1.spent_by_history
              q)
          ≡ (any (λ o. same_outpoint o q) (coin ∷ []) && nat_beq 7 c
              || elem c (spenders spent.spent_by_history q)))
add-conflicts_example =
    add-conflicts replacement 900 (ReplacementEvidence.direct 5) spent
      (add replacement 900 (ReplacementEvidence.direct 5) spent).1 update not_present replaces
