-- ===== src/Solana/Tracker/Commitments.antt =====
-- How the commitments of the Solana tracker's forks change, over all of its calls.
use multichain_rs.Prelude.{
  ◌≡◌, refl, sym, ap, ◌∙◌, inl, inr, Bool, true, false, Option, some, List, arith, if◌then◌else◌,
  ◌==◌, nat_eq, string_eq, option_eq, Bool-cases, Option-cases, checked_add, any,
}
use mathlib.Core.Path.{subst}
use multichain_rs.Dict
use multichain_rs.Dict.{Dict, get-insert}
use multichain_rs.Exec.{Outcome, ok, err, panic, diverge, pure, modify, continue}
use multichain_rs.Solana.Fork.{
  Commitment, rank, commitment_eq, ForkId, fork_eq, same_fork_iff, ForkNode, SolanaError,
  TransactionKey, AccountWrite, CommitmentRevision,
}
use multichain_rs.Solana.Tracker.{
  SolanaCanonicality, Run, node, rank_ltb, observe_slot, next_revision, kill, is_finalized_fork,
  leave_subtree, announce, bury, descendants, mark_subtree_dead, mark_dead, set_commitment, advance,
  observe_commitment, activate, activate_optional, active_below, record_transaction,
  record_account_write,
}
use multichain_rs.Solana.Tracker.Outline.{
  outline, outline_of, Keeps, continue-Keeps, activate_optional-Keeps, record_transaction-Keeps,
  record_account_write-Keeps,
}
use multichain_rs.Solana.Tracker.Advances.{
  may_become, Advances, Advances-refl, AllAdvance, same-AllAdvance, observe_slot-AllAdvance,
}
use multichain_rs.Solana.Tracker.Kill.{recommit, outline-recommit, kill-outline, kill-AllAdvance}

next_revision-Keeps : Keeps next_revision
unfolding next_revision
next_revision-Keeps s f = elim (Option-cases (checked_add s.revision 1)) [
  | inl full ↦ rw (next_revision, full) refl
  | inr (n, next) ↦ rw (next_revision, next) refl
]

pub announce-Keeps :
    (fork : ForkId) (before after : Commitment) → Keeps (announce fork before after)
unfolding announce
announce-Keeps fork before after s f =
    continue-Keeps (next_revision s).0 _ (next_revision s).1 f (λ _ t g. refl)
    ∙ next_revision-Keeps s f

leave_if-Keeps :
    (parent : Option ForkId) (within : Bool)
    → Keeps (if within then activate_optional parent else pure tt)
leave_if-Keeps parent true s f = activate_optional-Keeps parent s f
leave_if-Keeps parent false s f = refl

pub leave_subtree-Keeps :
    (fork : ForkId) (parent : Option ForkId) → Keeps (leave_subtree fork parent)
unfolding leave_subtree
leave_subtree-Keeps fork parent s f =
    continue-Keeps (active_below fork s)
      (λ within. if within then activate_optional parent else pure tt) s f (leave_if-Keeps parent)

-- The end of `bury`, where leaving the subtree has given `o` and the state `t`.
buried :
    ForkId → ForkNode → List ForkId → Outcome SolanaError Unit → Run (Option CommitmentRevision)
buried fork n dead o t =
    let killed = continue o (λ _. modify λ s. record s { nodes = kill dead s.nodes }) t in
    continue killed.0 (λ _. announce fork n.commitment Commitment.dead) killed.1

buried-AllAdvance :
    (fork : ForkId) (n : ForkNode) (dead : List ForkId) (s t : SolanaCanonicality)
    (o : Outcome SolanaError Unit)
    → ((f : ForkId) → outline t.nodes f ≡ outline s.nodes f)
    → any (is_finalized_fork s) dead ≡ false
    → AllAdvance s (buried fork n dead o t).1
unfolding buried
buried-AllAdvance fork n dead s t (ok _) same none_final f =
    subst (Advances f (outline s.nodes f))
      (sym (
        announce-Keeps fork n.commitment Commitment.dead (record t { nodes = kill dead t.nodes }) f
        ∙ kill-outline dead s.nodes t.nodes f (same f)))
      (kill-AllAdvance dead s none_final f)
buried-AllAdvance fork n dead s t (err e) same none_final f = same-AllAdvance s t same f
buried-AllAdvance fork n dead s t panic same none_final f = same-AllAdvance s t same f
buried-AllAdvance fork n dead s t diverge same none_final f = same-AllAdvance s t same f

bury-AllAdvance :
    (fork : ForkId) (n : ForkNode) (dead : List ForkId) (s : SolanaCanonicality)
    → AllAdvance s (bury fork n dead s).1
unfolding bury buried
bury-AllAdvance fork n dead s = elim (Bool-cases (any (is_finalized_fork s) dead)) [
  | inl some_final ↦ rw (bury, some_final) (same-AllAdvance s s (λ f. refl))
  | inr none_final ↦
      let left = leave_subtree fork n.parent s in
      rw (bury, none_final)
        (buried-AllAdvance fork n dead s left.1 left.0 (leave_subtree-Keeps fork n.parent s)
          none_final)
]

continue-AllAdvance :
    {A B : Type 0} (o : Outcome SolanaError A) (g : A → Run B) (s : SolanaCanonicality)
    → ((a : A) → AllAdvance s (g a s).1)
    → AllAdvance s (continue o g s).1
continue-AllAdvance (ok a) g s k = k a
continue-AllAdvance (err e) g s k = same-AllAdvance s s (λ f. refl)
continue-AllAdvance panic g s k = same-AllAdvance s s (λ f. refl)
continue-AllAdvance diverge g s k = same-AllAdvance s s (λ f. refl)

mark_dead-AllAdvance : (fork : ForkId) (s : SolanaCanonicality) → AllAdvance s (mark_dead fork s).1
unfolding mark_dead mark_subtree_dead
mark_dead-AllAdvance fork s = continue-AllAdvance (node fork s) _ s λ n.
    elim (Bool-cases (n.commitment == Commitment.dead)) [
      | inl died ↦ rw died (same-AllAdvance s s (λ f. refl))
      | inr alive ↦ elim (Bool-cases (n.commitment == Commitment.finalized)) [
        | inl final ↦ rw (alive, final) (same-AllAdvance s s (λ f. refl))
        | inr open_ ↦
            rw (alive, open_)
              (continue-AllAdvance (descendants fork (Dict.keys s.nodes) s) (bury fork n) s
                (λ dead. bury-AllAdvance fork n dead s))
      ]
    ]

recommit-Advances :
    (f : ForkId) (n : ForkNode) (c : Commitment) (o : Option ForkNode)
    → o ≡ some n
    → may_become n.commitment c ≡ true
    → Advances f (outline_of o) (recommit c (outline_of o))
unfolding recommit
recommit-Advances f n c o e may =
    subst (λ x. Advances f (outline_of x) (recommit c (outline_of x))) (sym e) (refl, may)

may_become-higher :
    (before after : Commitment)
    → (after == Commitment.dead) ≡ false
    → (before == after) ≡ false
    → (before == Commitment.dead) ≡ false
    → rank_ltb (rank after) (rank before) ≡ false
    → may_become before after ≡ true
unfolding may_become
may_become-higher before after a b c d = ground arith

-- A known fork with a commitment that it may change to.
set_commitment-AllAdvance :
    (fork : ForkId) (n : ForkNode) (c : Commitment) (s : SolanaCanonicality)
    → Dict.get s.nodes fork ≡ some n
    → may_become n.commitment c ≡ true
    → AllAdvance s (set_commitment fork n.commitment c s).1
unfolding set_commitment next_revision
set_commitment-AllAdvance fork n c s there may f = elim (Option-cases (checked_add s.revision 1)) [
  | inl full ↦ rw (set_commitment, next_revision, full) (Advances-refl f (outline s.nodes f))
  | inr (k, next) ↦
      rw (set_commitment, next_revision, next)
        (subst (Advances f (outline s.nodes f)) (sym (outline-recommit fork c s.nodes f))
          (elim (Bool-cases (fork == f)) [
            | inl same ↦
                let before : Dict.get s.nodes f ≡ some n =
                  sym (ap (Dict.get s.nodes) ((same_fork_iff fork f).0 same)) ∙ there in
                rw same (recommit-Advances f n c (Dict.get s.nodes f) before may)
            | inr other ↦ rw other (Advances-refl f (outline s.nodes f))
          ]))
]

advance-AllAdvance :
    (fork : ForkId) (c : Commitment) (s : SolanaCanonicality)
    → (c == Commitment.dead) ≡ false
    → AllAdvance s (advance fork c s).1
unfolding advance node
advance-AllAdvance fork c s alive = elim (Option-cases (Dict.get s.nodes fork)) [
  | inl gone ↦ rw (advance, node, gone) (same-AllAdvance s s (λ f. refl))
  | inr (n, there) ↦
      rw (advance, node, there)
        (elim (Bool-cases (n.commitment == c)) [
          | inl same ↦ rw same (same-AllAdvance s s (λ f. refl))
          | inr changed ↦ elim (Bool-cases (n.commitment == Commitment.dead)) [
            | inl died ↦ rw (changed, died) (same-AllAdvance s s (λ f. refl))
            | inr up ↦ elim (Bool-cases (rank_ltb (rank c) (rank n.commitment))) [
              | inl lower ↦ rw (changed, up, lower) (same-AllAdvance s s (λ f. refl))
              | inr higher ↦
                  rw (changed, up, higher)
                    (set_commitment-AllAdvance fork n c s there
                      (may_become-higher n.commitment c alive changed up higher))
            ]
          ]
        ])
]

observe_commitment-AllAdvance :
    (fork : ForkId) (c : Commitment) (s : SolanaCanonicality)
    → AllAdvance s (observe_commitment fork c s).1
unfolding observe_commitment
observe_commitment-AllAdvance fork c s = elim (Bool-cases (c == Commitment.dead)) [
  | inl death ↦ rw (observe_commitment, death) (mark_dead-AllAdvance fork s)
  | inr alive ↦ rw (observe_commitment, alive) (advance-AllAdvance fork c s alive)
]

pub data Call : Type 0 where
  observes_slot : ForkId → Option ForkId → Call
  observes_commitment : ForkId → Commitment → Call
  marks_dead : ForkId → Call
  records_transaction : TransactionKey → Call
  records_write : AccountWrite → Call
  activates : ForkId → Call

-- The state that a call leaves, whether it succeeds or fails.
unfoldable pub handle : Call → SolanaCanonicality → SolanaCanonicality
unfolding observe_slot observe_commitment mark_dead record_transaction record_account_write activate
handle (Call.observes_slot fork parent) s = (observe_slot fork parent s).1
handle (Call.observes_commitment fork c) s = (observe_commitment fork c s).1
handle (Call.marks_dead fork) s = (mark_dead fork s).1
handle (Call.records_transaction key) s = (record_transaction key s).1
handle (Call.records_write write) s = (record_account_write write s).1
handle (Call.activates fork) s = (activate fork s).1

-- Whatever a call is and however it ends, each known fork stays known and keeps its parent, a fork
-- that is added is received and has a higher slot than its parent, and a commitment only changes to a higher one or
-- to death: what is dead stays dead, and what is finalized stays finalized.
pub handle-Advances :
    (call : Call) (s : SolanaCanonicality) (f : ForkId)
    → Advances f (outline s.nodes f) (outline (handle call s).nodes f)
unfolding handle observe_commitment activate
handle-Advances (Call.observes_slot fork parent) s f = observe_slot-AllAdvance fork parent s f
handle-Advances (Call.observes_commitment fork c) s f = observe_commitment-AllAdvance fork c s f
handle-Advances (Call.marks_dead fork) s f = mark_dead-AllAdvance fork s f
handle-Advances (Call.records_transaction key) s f =
    same-AllAdvance s (record_transaction key s).1 (record_transaction-Keeps key s) f
handle-Advances (Call.records_write write) s f =
    same-AllAdvance s (record_account_write write s).1 (record_account_write-Keeps write s) f
handle-Advances (Call.activates fork) s f =
    same-AllAdvance s (activate_optional (some fork) s).1 (activate_optional-Keeps (some fork) s) f
