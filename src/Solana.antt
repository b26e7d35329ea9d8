-- ===== src/Solana.antt =====
-- Solana's forks: commitment of each fork, and one account projection that follows the active fork
-- and can be taken back (processors/solana-canonicality/src/lib.rs).
pub mod Fork
pub mod Accounts
pub mod State
pub mod Activate
pub mod Tracker
pub mod Evidence
