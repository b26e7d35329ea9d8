-- ===== src/Mempool/Aggregate/Tests.antt =====
-- The theorems about the aggregate membership at concrete observers.
use multichain_rs.Prelude.{◌≡◌, some, [], ◌∷◌, arith, nat_eq, string_eq, option_eq, any, list_eq}
use multichain_rs.Dict
use multichain_rs.Mempool.Membership.{pos}
use multichain_rs.Mempool.Observer.{ObserverHealth, ObserverMempool, empty_observer}
use multichain_rs.Mempool.Aggregate.{MempoolViewPolicy, aggregate_membership}
use multichain_rs.Mempool.Aggregate.Time.{IsEarliest, is_untrusted, aggregate_membership-IsEarliest}
use multichain_rs.Mempool.Aggregate.Policy.{holds, policy_satisfied-holds}

abbrev alice : ObserverMempool
alice = record (empty_observer "alice") {
  members =
      Dict.insert Dict.empty 3 (record { epoch_id = 1; first_seen_at_unix_ns = some (pos 70) });
  health = ObserverHealth.healthy;
}

abbrev bob : ObserverMempool
bob = record (empty_observer "bob") {
  members =
      Dict.insert Dict.empty 3 (record { epoch_id = 2; first_seen_at_unix_ns = some (pos 60) });
  health = ObserverHealth.healthy;
  clock_offset_ns = pos 500;
}

abbrev carol : ObserverMempool
carol = record (empty_observer "carol") { members = Dict.empty; health = ObserverHealth.gapped }

policy_satisfied-holds_example :
    (aggregate_membership 3
      (alice ∷ bob ∷ carol ∷ [])
      MempoolViewPolicy.intersection
      100).policy_satisfied
    ≡ holds MempoolViewPolicy.intersection 3 (alice ∷ bob ∷ carol ∷ [])
policy_satisfied-holds_example =
    policy_satisfied-holds 3 (alice ∷ bob ∷ carol ∷ []) MempoolViewPolicy.intersection 100
      (omega arith)

aggregate_membership-IsEarliest_example :
    IsEarliest 3 100
      (alice ∷ bob ∷ carol ∷ [])
      (aggregate_membership 3
        (alice ∷ bob ∷ carol ∷ [])
        MempoolViewPolicy.union
        100).platform_first_seen_at_unix_ns
    × ((aggregate_membership 3
          (alice ∷ bob ∷ carol ∷ [])
          MempoolViewPolicy.union
          100).clock_untrusted
        ≡ any (is_untrusted 3 100) (alice ∷ bob ∷ carol ∷ []))
aggregate_membership-IsEarliest_example =
    aggregate_membership-IsEarliest 3 (alice ∷ bob ∷ carol ∷ []) MempoolViewPolicy.union 100
