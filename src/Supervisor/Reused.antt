-- ===== src/Supervisor/Reused.antt =====
-- A run that supervisor.py finds under way after a restart, beside the decision of recovery.py.
use agent_relay_auto.Value.{Value}
use agent_relay_auto.Recovery
