-- ===== src/State/Finish.antt =====
-- `classify_run_result` and `StateStore.finish_run` of agent_relay_runtime/state_store.py.
pub mod Effect
use Prim.Native.String.{◌++◌ as ◌<>◌}
use agent_relay_auto.Prelude.{
  String, Bool, true, false, not, Option, none, some, [], ◌∷◌, ◌++◌, ◌==◌, if◌then◌else◌, Dict,
  lookup,
}
use agent_relay_auto.Prelude.Int.{ℤ, pos, succ_ℤ, leb_ℤ, eq_ℤ}
use agent_relay_auto.Value.{Value, null, int, str, get, truthy, is_str, to_text}
use agent_relay_auto.Outcome.{store_error, Result, ok, err, ◌>>=◌, ◌>>◌, raise_if}
use agent_relay_auto.Markdown.{root}
use agent_relay_auto.Markdown.Write.{Updates}
use agent_relay_auto.Store.Base.{Action, Plan, update_task}
use agent_relay_auto.State.Types.{RunFinalization, int_of}

-- `moved` is `current_status != start_status`
unfoldable pub classify_run_result : Bool → ℤ → String → String
classify_run_result moved exit_code reason =
    if moved
    then "completed"
    else if reason == "timeout"
    then "timeout"
    else if reason == "interrupted"
    then "interrupted"
    else if eq_ℤ exit_code (pos 0)
    then "protocol_failure"
    else "agent_failure"

-- `str(v) != s`
unfoldable pub differs : Value → String → Bool
unfolding to_text
differs v s = elim (to_text v) [ none ↦ true | some t ↦ not (t == s) ]

-- The call with no start status only releases the lease.
unfoldable pub run_result : Option String → Value → ℤ → String → String
unfolding classify_run_result differs
run_result none status exit_code reason = "completed"
run_result (some start) status exit_code reason =
    classify_run_result (differs status start) exit_code reason

-- `int(state.get("agent_failure_count", 0))`
unfoldable pub failures_of : Dict Value → Result ℤ
unfolding lookup int_of
failures_of m = elim (lookup "agent_failure_count" m) [ none ↦ ok (pos 0) | some v ↦ int_of v ]

pub record Consequence : Type 0 where
  pub action : String
  pub run_status : String
  pub rest : Updates

-- What follows from the result, given `max_agent_retries` and the failures before this run.
unfoldable pub consequence : ℤ → ℤ → String → Consequence
consequence max_retries failures result =
    if result == "completed"
    then record { action = "completed"; run_status = "finished"; rest = [] }
    else if leb_ℤ (succ_ℤ failures) max_retries
    then record {
      action = "retry";
      run_status = "idle";
      rest = (root "agent_failure_count", int (succ_ℤ failures)) ∷ [];
    }
    else record {
      action = "blocked";
      run_status = "finished";
      rest =
          (root "agent_failure_count", int (succ_ℤ failures))
          ∷ (root "status", str "BLOCKED")
          ∷ (
            root "blocked_reason",
            str (
                result
                <> (": " <> (if result == "protocol_failure" then "no_handoff" else result))),
          )
          ∷ (
            root "unblock_condition",
            str "inspect run logs and resume or replace the assigned Agent",
          )
          ∷ [];
    }

-- the mapping `values` of the method, in its order
unfoldable pub finish_updates : Consequence → String → ℤ → String → ℤ → String → Updates
finish_updates outcome run exit_code result revision now =
    (root "run_status", str outcome.run_status)
    ∷ (root "run_exit_code", int exit_code)
    ∷ (root "last_finished_run_id", str run)
    ∷ (root "last_run_result", str result)
    ∷ (root "run_id", null)
    ∷ (root "writer_session", null)
    ∷ (outcome.rest
        ++ ((root "last_run_action", str outcome.action)
            ∷ (root "revision", int (succ_ℤ revision))
            ∷ (root "updated_at", str now)
            ∷ []))

unfoldable pub finish_plan :
    ℤ → String → String → ℤ → Option String → String → String → Dict Value → Plan RunFinalization
unfolding run_result failures_of consequence finish_updates truthy
finish_plan max_retries task run exit_code start reason now m = do
  revision ← int_of (get m "revision")
  let last = get m "last_run_action"
  if is_str (get m "last_finished_run_id") run
      then ok (
        none,
        record {
          action = if truthy last then last else str "already_finalized";
          task_id = task;
          run_id = run;
          input_revision = revision;
          output_revision = revision;
          idempotent_replay = true;
        },
      )
      else (do
        raise_if (not (is_str (get m "run_id") run)) store_error
        let result = run_result start (get m "status") exit_code reason
        failures ← failures_of m
        let outcome = consequence max_retries failures result
        ok (
          some (finish_updates outcome run exit_code result revision now),
          record {
            action = str outcome.action;
            task_id = task;
            run_id = run;
            input_revision = revision;
            output_revision = succ_ℤ revision;
            idempotent_replay = false;
          },
        ))

unfoldable pub finish_run :
    ℤ → String → String → ℤ → Option String → String → Action RunFinalization
unfolding finish_plan update_task
finish_run max_retries task run exit_code start reason =
    update_task task (finish_plan max_retries task run exit_code start reason)
