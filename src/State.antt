-- ===== src/State.antt =====
-- agent_relay_runtime/state_store.py: the methods of `StateStore`, each in a module of its own.
pub mod Types
pub mod Parts
pub mod Transition
pub mod Stage
pub mod Wake
pub mod Claim
pub mod Finish
pub mod Report
pub mod Lease
