-- ===== src/Evm/Ancestry.antt =====
-- `is_ancestor`, which both trackers write out: it returns, a positive answer is a chain of parents,
-- and on the canonical line it compares numbers.
use native.Mathlib.Decide.{dec_lt}
use mathlib.Core.Path.{subst}
use multichain_rs.Prelude.{
  ℕ, zero, suc, ◌+◌, ◌≤◌, ◌<◌, ◌≡◌, inl, inr, Bool, true, false, some, arith, ltb, leb, ◌==◌,
  nat_beq_iff, nat_eq, string_eq, option_eq, Bool-cases, Option-cases,
}
use multichain_rs.Dict
use multichain_rs.Evm.Block.{B256, ExecutionBlock, Blocks, Heights, climb, climb_from, is_ancestor}
use multichain_rs.Evm.Line.{Headers, IsSealed, IsLine}

module _ (net : Headers) where
  open net use {header, parent_below}

  -- The first hash is that of the second block, or of a parent's parent of it at any distance.
  pub data Ancestor (ancestor : B256) : B256 → Type 0 where
    itself : (h : B256) → h ≡ ancestor → Ancestor ancestor h
    parent : (h : B256) → Ancestor ancestor (header h).parent_hash → Ancestor ancestor h

  module _ (blocks : Blocks) (canonical : Heights) (top : ℕ)
      (v : IsLine net blocks canonical top) where
    climb_returns :
        (fuel : ℕ) (bound : ℕ) (target : B256) (at : ExecutionBlock)
        → IsSealed net at
        → at.number ≤ fuel + bound
        → (b : Bool) × (climb fuel blocks bound target at ≡ some b)
    unfolding climb
    climb_returns zero bound target at seal low = (at.hash == target, ground arith)
    climb_returns (suc fuel) bound target at seal low = elim (Bool-cases (ltb bound at.number)) [
      | inr stop ↦ (at.hash == target, ground arith)
      | inl more ↦ elim (Option-cases (Dict.get blocks at.parent_hash)) [
        | inl lost ↦ (false, ground arith)
        | inr (p, found) ↦
            let seals = v.known at.parent_hash p found in
            let (b, e) =
              climb_returns fuel bound target p (ground arith)
                (ground (arith, parent_below at.hash)) in
            (b, ground arith)
      ]
    ]

    -- On a line of known blocks, the walk of `is_ancestor` ends for any two hashes.
    pub is_ancestor_returns : (a d : B256) → (b : Bool) × (is_ancestor blocks a d ≡ some b)
    unfolding is_ancestor
    is_ancestor_returns a d = elim (Option-cases (Dict.get blocks a)) [
      | inl lost ↦ (false, ground arith)
      | inr (ab, af) ↦ elim (Option-cases (Dict.get blocks d)) [
        | inl lost ↦ (false, ground arith)
        | inr (db, df) ↦
            let (b, e) =
              climb_returns db.number ab.number a db (ground (arith, v.known d db)) (omega arith) in
            (b, ground arith)
      ]
    ]

    climb_sound :
        (fuel : ℕ) (bound : ℕ) (target : B256) (at : ExecutionBlock)
        → IsSealed net at
        → climb fuel blocks bound target at ≡ some true
        → Ancestor target at.hash
    unfolding climb
    climb_sound zero bound target at seal e =
        Ancestor.itself at.hash (ground (arith, nat_beq_iff at.hash target))
    climb_sound (suc fuel) bound target at seal e = elim (Bool-cases (ltb bound at.number)) [
      | inr stop ↦ Ancestor.itself at.hash (ground (arith, nat_beq_iff at.hash target))
      | inl more ↦ elim (Option-cases (Dict.get blocks at.parent_hash)) [
        | inl lost ↦ absurd (ground arith)
        | inr (p, found) ↦
            let seals = v.known at.parent_hash p found in
            let below = climb_sound fuel bound target p (ground arith) (ground arith) in
            let meet : p.hash ≡ (header at.hash).parent_hash = ground arith in
            Ancestor.parent at.hash (subst (Ancestor target) meet below)
      ]
    ]

    -- On a line of known blocks, where `is_ancestor` says yes the second hash leads to the first by
    -- parents.
    pub is_ancestor_sound : (a d : B256) → is_ancestor blocks a d ≡ some true → Ancestor a d
    unfolding is_ancestor climb_from
    is_ancestor_sound a d e = elim (Option-cases (Dict.get blocks a)) [
      | inl lost ↦ absurd (ground arith)
      | inr (ab, af) ↦ elim (Option-cases (Dict.get blocks d)) [
        | inl lost ↦ absurd (ground arith)
        | inr (db, df) ↦
            let seals = v.known d db df in
            let chain = climb_sound db.number ab.number a db (ground arith) (ground arith) in
            subst (Ancestor a) seals.1 chain
      ]
    ]

    -- The line has a block at each number from one of its blocks up to the top.
    between :
        (k : ℕ) (a : B256) (n : ℕ)
        → Dict.get canonical k ≡ some a
        → k ≤ n
        → n < top
        → (h : B256) × (Dict.get canonical n ≡ some h)
    between k a zero ea le lt = (a, ground arith)
    between k a (suc n) ea le lt = elim (dec_lt n k) [
      | yes under ↦ (a, ground arith)
      | no over ↦ let (g, eg) = between k a n ea (omega arith) (omega arith) in v.gapless n g eg lt
    ]

    climb_line :
        (fuel : ℕ) (k : ℕ) (a : B256) (n : ℕ) (h : B256)
        → Dict.get canonical k ≡ some a
        → Dict.get canonical n ≡ some h
        → k ≤ n
        → n ≤ fuel
        → climb fuel blocks k a (header h) ≡ some true
    unfolding climb
    climb_line zero k a n h ea eh le fits =
        let st = v.stored n h eh in
        let kn = v.known h (header h) st.0 in ground (arith, nat_beq_iff h a)
    climb_line (suc fuel) k a zero h ea eh le fits =
        let st = v.stored zero h eh in
        let kn = v.known h (header h) st.0 in ground (arith, nat_beq_iff h a)
    climb_line (suc fuel) k a (suc n) h ea eh le fits =
        let st = v.stored (suc n) h eh in
        let kn = v.known h (header h) st.0 in
        elim (dec_lt n k) [
          | yes same ↦ ground (arith, nat_beq_iff h a)
          | no over ↦
              let (g, eg) = between k a n ea (omega arith) (ground (arith, v.below (suc n) h)) in
              let stg = v.stored n g eg in
              let up = v.linked n g h eg eh in ground (arith, climb_line fuel k a n g)
        ]

    climb_low :
        (fuel : ℕ) (bound : ℕ) (target : B256) (at : ExecutionBlock)
        → at.number ≤ bound
        → climb fuel blocks bound target at ≡ some (at.hash == target)
    unfolding climb
    climb_low zero bound target at low = ground arith
    climb_low (suc fuel) bound target at low = ground arith

    -- Between two blocks of the canonical line, `is_ancestor` answers whether the first number is at
    -- most the second.
    pub is_ancestor-canonical :
        (k n : ℕ) (a d : B256)
        → Dict.get canonical k ≡ some a
        → Dict.get canonical n ≡ some d
        → is_ancestor blocks a d ≡ some (leb k n)
    unfolding is_ancestor climb_from
    is_ancestor-canonical k n a d ea ed =
        let sa = v.stored k a ea in
        let sd = v.stored n d ed in
        let kd = v.known d (header d) sd.0 in
        elim (dec_lt n k) [
          | yes above ↦ ground (arith, climb_low n k a (header d), nat_beq_iff d a)
          | no below ↦ ground (arith, climb_line n k a n d)
        ]
