-- ===== src/Mempool/Epoch/Tests.antt =====
-- The theorem about epoch names at a concrete transaction and epoch.
use multichain_rs.Prelude.{ℕ, ◌≡◌, refl, arith, nat_eq, string_eq, option_eq, list_eq}
use multichain_rs.Mempool.Epoch.Names.{epoch_preimage-injective}

epoch_preimage-injective_example : (◌≡◌ {A = ℕ} 3 3) × (◌≡◌ {A = ℕ} 2 2)
epoch_preimage-injective_example =
    epoch_preimage-injective "alice" 3 3 2 2 (omega arith) (omega arith) (omega arith) (omega arith)
      refl
