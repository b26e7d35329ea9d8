-- ===== src/Lib.antt =====
-- multichain-rs: a model of the parts that keep chain state in memory, with what makes them correct.
--
-- The repository ingests observations of several chains from independent sources. Its processors
-- turn them into a canonical view that can be taken back: blocks connect and disconnect, forks die,
-- transactions enter and leave an observer's mempool, and every change comes out as a numbered
-- revision that a consumer can replay. The processors do no I/O; connectors feed them and services
-- store what they give back. Connectors write what they see to a log before it is published. This
-- library models the log and the processors below, one module for each.
--
-- Prelude and its children: names of the libraries passed on, Boolean tests on numbers, the trait
--   Eq, saturating and checked additions of u64, lists, and white space in texts.
-- Dict: HashMap and BTreeMap as a sealed type with the laws of get, insert, remove, keys and any.
-- Exec and Exec/Rules: methods that change an object and may fail. The state comes back beside every
--   outcome, so that what was written before an error stays written. Outcomes are a value, an error,
--   a panic, and running on, which is what the model says where the fuel of a loop is used up.
--
-- Evm: processors/evm-canonicality/src/lib.rs and the statuses of crates/evm-domain/src/lib.rs.
--   Evm/Block has ExecutionBlock and the loop of is_ancestor, which both trackers write out;
--   Evm/Line and Evm/Ancestry what the two maps of known blocks and canonical heights mean;
--   Evm/Segment the check of a segment. Evm/Ethereum is EthereumCanonicality (commit_segment, reorg,
--   observe_checkpoint) and Evm/Bsc is BscCanonicality (commit_segment, reorg, observe_finalized,
--   finality_health); under each, Loops has the loops, Valid the invariant, Commit, Reorg and
--   Checkpoint or Observe one operation each, Calls all operations together, and History
--   the replay of the revisions.
-- Mempool: processors/bitcoin-mempool/src. Mempool/Membership has the revisions
--   and errors (membership.rs, error.rs), Mempool/Sets the ordered sets, Mempool/Epoch the bytes that
--   name an epoch, Mempool/Observer is ObserverMempool (state.rs: add, remove, apply_snapshot,
--   set_health), Mempool/Aggregate is aggregate_membership (aggregate.rs), and Mempool/Graph is
--   MempoolGraph (graph.rs) with add and remove; package is not modelled.
-- Bitcoin: processors/bitcoin-canonicality/src and what it takes from crates/bitcoin-domain/src.
--   Bitcoin/Domain has blocks, transactions and outpoints, Bitcoin/Work the addition and the order
--   of works byte by byte (BlockWork of block.rs), Bitcoin/Error the errors and transitions
--   (error.rs, transition.rs). Bitcoin/Utxo is UtxoState (utxo.rs: apply_block, revert_block,
--   rollback_partial): Undo says what an undo list is worth, Tracked what holds along
--   apply_transactions, Blocks what whole blocks do, Invariant that all applied blocks can be
--   reverted. Bitcoin/Dag is CanonicalityState (dag.rs: observe_block with its walks): Chain has
--   the chain of a block, Walk and Reorganize the walks of reorganize_to, Announces the transitions
--   one by one, Placed and Insert where a new block stands, Rooted that only the genesis block has
--   no parent, Observe the whole call, Target and Rejects that it can only end in transitions or in
--   a rejection. Bitcoin/State is BitcoinState (state.rs), which applies the transitions of the one
--   to the other on copies and keeps them only if all succeed; Phases, Transitions and Sound show
--   that they agree.
-- Wal: crates/wal/src. Wal/Format has the frames, the commit hash and the errors (format.rs,
--   error.rs), Wal/Reader the scan of a segment (reader.rs), Wal/Recovery what its frames say was
--   committed (recovery.rs), Wal/Writer is FileWal (writer.rs: open, append, group_commit, seal,
--   committed), with the segment's bytes as a list. Scan and Replay say what reading and replaying
--   frames gives, Written what holds of a segment between calls, Append, Commit
--   (with Covered), Seal, Reopen and Created one operation each, Calls all operations together.
-- Solana: processors/solana-canonicality/src/lib.rs and the identities of
--   crates/solana-domain/src/lib.rs. Solana/Fork has the values, Solana/Accounts the account
--   projection with its undo records, Solana/State the state of SolanaCanonicality with its paths,
--   Solana/Activate the switch of the projection (activate), Solana/Tracker the other calls
--   (observe_slot, observe_commitment, mark_dead, record_transaction, record_account_write; its child
--   Descent says which forks descend from a fork), and Solana/Evidence the pre-execution signals and the evidence of recoveries.
--
-- Numbers. Hashes, keys and signatures are numbers; u64 counters keep their bound where the source
-- checks or saturates it. Texts are the language's own.
-- Fuel. is_ancestor of the EVM trackers has the number of the lower block as fuel: known blocks are
-- one above their parents. path_to_root of the Solana tracker has one more than the fork's slot:
-- parents have lower slots. That the fuel is enough is among the results.
-- The walks of the Bitcoin DAG have two more than the height of the block that they start from.
-- The scan of a segment has one more than the number of its bytes: every frame takes some.
-- Parameters. The crate bitcoin is the record Consensus of Bitcoin/Domain: the genesis hashes, the
-- test of a header against a target, and a network's retargeting; IsStandard of Bitcoin/Dag/Target
-- is what it documents of them. SHA-256 of the mempool is a function that the theorems take as an
-- argument. What the EVM networks guarantee of their hashes is the record Headers of Evm/Line: a
-- hash has one block behind it, which is one above its parent, and numbers do not reach the end of
-- u64. The record Codec of Wal/Format has crc32c, blake3 and the Protobuf messages of prost, and
-- IsCodec what is documented of them: a 32-bit checksum, a digest of 32 bytes, messages that decode
-- to what was encoded, and the size of a commit's message.
-- Not modelled: failures of the file system under the log, the renaming of a segment that open puts
-- into quarantine, and the texts of the decoder's errors; getters, which are the fields of the
-- records; state_hash of the Solana tracker, which only reads; state_hash and the checkpoint of
-- BitcoinState, which only read, and its backfill; the other crates, connectors and services.
mod Prelude
pub mod Dict
pub mod Exec
pub mod Evm
pub mod Bitcoin
pub mod Wal
pub mod Mempool
pub mod Solana
