-- ===== src/Store.antt =====
-- The files that agent_relay_runtime/state_store.py reads and writes, and the ways in which its
-- methods touch them: the lock, the read of a STATE.md and its replacement.
pub mod Base
pub mod Laws
pub mod Fields
pub mod Again
