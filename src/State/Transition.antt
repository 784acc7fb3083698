-- ===== src/State/Transition.antt =====
-- `StateStore.transition` of agent_relay_runtime/state_store.py.
pub mod Effect
use agent_relay_auto.Prelude.{
  String, Bool, true, false, not, Option, none, some, [], ◌∷◌, ◌++◌, ◌==◌, Dict,
}
use agent_relay_auto.Prelude.Int.{ℤ, succ_ℤ}
use agent_relay_auto.Value.{Value, int, str, get, is_int}
use agent_relay_auto.Outcome.{
  revision_conflict, illegal_transition, Result, ok, err, ◌>>=◌, ◌>>◌, raise_if, or_raise,
}
use agent_relay_auto.Markdown.{root}
use agent_relay_auto.Markdown.Write.{Updates}
use agent_relay_auto.Store.Base.{Action, Plan, update_task}
use agent_relay_auto.State.Types.{TransitionResult, transitions, find_status, bump_if}

-- `if "current_role" in payload: values[("current_role",)] = payload["current_role"]`
unfoldable pub payload_role : Option Value → Updates
payload_role none = []
payload_role (some v) = (root "current_role", v) ∷ []

-- the mapping `values` of the method, in its order
unfoldable pub transition_updates : String → ℤ → String → Updates → Updates → Option Value → Updates
unfolding payload_role
transition_updates new expected now rework replan role =
    (root "status", str new)
    ∷ (root "revision", int (succ_ℤ expected))
    ∷ (root "updated_at", str now)
    ∷ (rework ++ (replan ++ payload_role role))

unfoldable pub transition_plan :
    String → ℤ → String → Option Value → String → Dict Value → Plan TransitionResult
unfolding find_status bump_if transition_updates
transition_plan task expected event role now m = do
  raise_if (not (is_int (get m "revision") expected)) revision_conflict
  new ← or_raise (find_status transitions (get m "status") event) illegal_transition
  rework ← bump_if (event == "changes_requested") "rework_round" m
  replan ← bump_if (event == "replan_required") "auto_replan_count" m
  ok (
    some (transition_updates new expected now rework replan role),
    record {
      task_id = task;
      old_status = get m "status";
      new_status = str new;
      input_revision = expected;
      output_revision = succ_ℤ expected;
      idempotent_replay = false;
    },
  )

unfoldable pub transition : String → ℤ → String → Option Value → Action TransitionResult
unfolding transition_plan update_task
transition task expected event role = update_task task (transition_plan task expected event role)
