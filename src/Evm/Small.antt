-- ===== src/Evm/Small.antt =====
-- A small network for the tests of both trackers. The blocks with a hash below 1000 have a tenth of
-- it as their number; their parent's hash is the multiple of ten below.
use multichain_rs.Prelude.{
  ℕ, suc, ◌-◌, ◌*◌, ◌/◌, ◌<◌, ◌≡◌, List, map, arith, ltb, if◌then◌else◌, nat_eq, string_eq,
  option_eq, u64_max,
}
use multichain_rs.Evm.Block.{B256, ExecutionBlock}
use multichain_rs.Evm.Line.{Headers}

abbrev pub small_header : B256 → ExecutionBlock
small_header h = record {
  number = if ltb h 1000 then h / 10 else 0;
  hash = h;
  parent_hash = (h / 10 - 1) * 10;
}

pub small_parent_below :
    (h : B256)
    → 0 < (small_header h).number
    → suc (small_header (small_header h).parent_hash).number ≡ (small_header h).number
small_parent_below h lt = ground arith

pub small_bounded : (h : B256) → (small_header h).number < u64_max
small_bounded h = ground arith

abbrev pub small : Headers
small = record { header = small_header; parent_below = small_parent_below; bounded = small_bounded }

abbrev pub segment : List ℕ → List ExecutionBlock
segment hashes = map small_header hashes
