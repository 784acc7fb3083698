-- ===== src/Supervisor.antt =====
-- `ProjectSupervisor` of agent_relay_runtime/supervisor.py: one tick, with what it reads and starts.
pub mod Base
pub mod Start
pub mod End
pub mod Tick
pub mod Waiting
pub mod Reused
pub mod Started
pub mod Steps
pub mod Recorded
pub mod Released
