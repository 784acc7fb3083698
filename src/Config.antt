-- ===== src/Config.antt =====
-- agent_relay_runtime/config.py.
pub mod Sections
pub mod Policies
pub mod Valid
