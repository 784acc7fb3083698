-- ===== src/Supervisor/End.antt =====
-- The end of a run: `_finalize`, `_finalize_durable` and `_reconcile_durable` of supervisor.py.
use agent_relay_auto.Prelude.{
  String, Bool, false, ◌||◌, Option, none, some, [], ◌∷◌, ◌==◌, if◌then◌else◌, Dict, lookup,
}
use agent_relay_auto.Prelude.Int.{ℤ, pos}
use agent_relay_auto.Value.{Value, null, obj, Fields, get_field, find_field, is_str, to_int}
use agent_relay_auto.Value.Show.{show}
use agent_relay_auto.Outcome.{os_error, value_error, attribute_error, Result, ok, err}
use agent_relay_auto.Store.Base.{Action}
use agent_relay_auto.State.Types.{RunFinalization, int_of, is_in}
use agent_relay_auto.State.Finish.{finish_run}
use agent_relay_auto.Runs.{
  JsonFile, missing, blank, damaged, json, read_run, read_process, read_exit, finish,
  mark_protocol_result,
}
use agent_relay_auto.Supervisor.Base.{
  ManagedProcess, Outside, SupervisorDecision, Step, pure, lift, ◌>>=◌, ◌>>◌, on_disk, on_runs,
  from_runs, at_clock,
}

-- `d.pop(k, None)` of a dictionary with distinct keys
unfoldable pub remove {ℓ} : {V : Type ℓ} → String → Dict V → Dict V
remove k [] = []
remove k ((j, v) ∷ d) = if j == k then d else (j, v) ∷ remove k d

unfoldable pub decision : String → String → Option String → Bool → SupervisorDecision
decision action task run report = record {
  action = action;
  task_id = some task;
  run_id = run;
  report = report;
}

-- the table of the actions of a finalization
unfoldable pub action_of : Value → String
unfolding is_str
action_of v =
    if is_str v "completed"
    then "finished"
    else if is_str v "retry"
    then "retry_scheduled"
    else if is_str v "blocked"
    then "blocked"
    else "protocol_failure"

-- the result is written to protocol.json, and looked up in the table
unfoldable pub conclude : String → String → RunFinalization → Step SupervisorDecision
unfolding ◌>>=◌ pure lift on_runs mark_protocol_result show is_in action_of decision
conclude task run final = do
  on_runs (mark_protocol_result run (show final.action))
  known ← lift (is_in final.action [])
  pure (decision (action_of final.action) task (some run) (action_of final.action == "blocked"))

-- `self._active.pop` and `self._start_status.pop`
unfoldable pub forget : String → Step String
unfolding remove lookup
forget task s = (
  ok (elim (lookup task s.start_status) [ none ↦ "" | some status ↦ status ]),
  record s { active = remove task s.active; start_status = remove task s.start_status },
)

-- `json.loads` of metadata.json
unfoldable pub loaded : JsonFile → Result Value
loaded missing = err os_error
loaded blank = err value_error
loaded damaged = err value_error
loaded (json v) = ok v

-- `o.get(k, default)` of an object that stands as a value, as a text
unfoldable pub text_at : String → String → Value → Result String
unfolding find_field show
text_at k default (obj fs) = ok (elim (find_field fs k) [ none ↦ default | some v ↦ show v ])
text_at k default _ = err attribute_error

-- `int(o.get(k, default))`
unfoldable pub int_at : String → ℤ → Value → Result ℤ
unfolding find_field int_of
int_at k default (obj fs) = elim (find_field fs k) [ none ↦ ok default | some v ↦ int_of v ]
int_at k default _ = err attribute_error

module _ (o : Outside) (task : String) where
  unfoldable pub finish_and_conclude : String → ℤ → String → String → Step SupervisorDecision
  unfolding ◌>>=◌ on_disk finish_run conclude
  finish_and_conclude run exit_code start reason = do
    final ← on_disk (finish_run o.max_agent_retries task run exit_code (some start) reason)
    conclude task run final

  unfoldable pub finalized_by :
      Option (String → String → ℤ → Action (Unit {0}))
      → String
      → ℤ
      → String
      → String
      → Step SupervisorDecision
  unfolding ◌>>=◌ pure on_disk on_runs mark_protocol_result decision finish_and_conclude
  finalized_by none run exit_code start reason = finish_and_conclude run exit_code start reason
  finalized_by (some on_result) run exit_code start reason = do
    on_disk (on_result task run exit_code)
    on_runs (mark_protocol_result run "completed")
    pure (decision "finished" task (some run) false)

  -- `_finalize`
  unfoldable pub finalize : ManagedProcess → ℤ → String → Step SupervisorDecision
  unfolding ◌>>=◌ forget at_clock finish finalized_by
  finalize managed exit_code reason = do
    start ← forget task
    at_clock (λ now. finish now managed.run_id exit_code none)
    finalized_by o.on_result managed.run_id exit_code start reason

  -- `_finalize_durable`
  unfoldable pub finalize_durable : String → ℤ → String → Step SupervisorDecision
  unfolding ◌>>=◌ lift from_runs read_run loaded at_clock finish text_at finish_and_conclude
  finalize_durable run exit_code reason = do
    metadata ← from_runs (read_run run (λ f. loaded f.metadata))
    at_clock (λ now. finish now run exit_code none)
    start ← lift (text_at "start_status" "" metadata)
    finish_and_conclude run exit_code start reason

  -- one of the two process ids of process.json, if `os.kill` finds that process
  unfoldable pub is_live : Fields → String → Bool
  unfolding find_field to_int
  is_live fs k = elim (find_field fs k) [
    | none ↦ false
    | some v ↦ elim (to_int v) [ none ↦ false | some pid ↦ o.is_alive pid ]
  ]

  -- whether process.json is of this run and names a live process
  unfoldable pub is_running : String → Option Value → Result Bool
  unfolding get_field is_str is_live
  is_running run none = ok false
  is_running run (some null) = ok false
  is_running run (some (obj fs)) = ok (
      if is_str (get_field fs "run_id") run
      then is_live fs "worker_pid" || is_live fs "agent_pid"
      else false)
  is_running run (some _) = err attribute_error

  unfoldable pub reconcile_exit : String → Value → Step SupervisorDecision
  unfolding ◌>>=◌ lift int_at text_at finalize_durable
  reconcile_exit run record' = do
    exit_code ← lift (int_at "exit_code" (pos 1) record')
    reason ← lift (text_at "termination_reason" "exit" record')
    finalize_durable run exit_code reason

  unfoldable pub reconcile_process : String → Step SupervisorDecision
  unfolding ◌>>=◌ pure lift from_runs read_process is_running decision finalize_durable
  reconcile_process run = do
    process ← from_runs (read_process run)
    live ← lift (is_running run process)
    if live
        then pure (decision "already_running" task (some run) false)
        else finalize_durable run (pos 1) "interrupted"

  unfoldable pub reconcile_with : String → Option Value → Step SupervisorDecision
  unfolding reconcile_exit reconcile_process
  reconcile_with run none = reconcile_process run
  reconcile_with run (some null) = reconcile_process run
  reconcile_with run (some v) = reconcile_exit run v

  -- `_reconcile_durable`
  unfoldable pub reconcile_durable : String → Step SupervisorDecision
  unfolding ◌>>=◌ from_runs read_exit reconcile_with
  reconcile_durable run = do exit ← from_runs (read_exit run); reconcile_with run exit
