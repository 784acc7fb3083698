-- ===== src/Reporting.antt =====
-- agent_relay_runtime/reporting.py: the coordinator that wakes the Planner for the final report.
pub mod World
pub mod Tick
pub mod Quiet
pub mod Requests
