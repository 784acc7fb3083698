-- ===== src/Supervisor/Tick.antt =====
-- `ProjectSupervisor.tick` of supervisor.py.
use agent_relay_auto.Prelude.{
  ℕ, String, true, false, ◌||◌, ◌*◌, ◌-◌, leb, Option, none, some, [], ◌∷◌, ◌==◌, if◌then◌else◌,
  Dict, lookup,
}
use agent_relay_auto.Value.{Value, null, str, obj, arr, item, get, get_field, truthy, is_str}
use agent_relay_auto.Value.Show.{show}
use agent_relay_auto.Outcome.{format_error, type_error, key_error, Result, ok, err, or_raise}
use agent_relay_auto.Outcome.{◌>>=◌ as ◌>>>◌}
use agent_relay_auto.Markdown.{parse_fenced_yaml}
use agent_relay_auto.State.Types.{is_in}
use agent_relay_auto.State.Report.{recover_pending_transactions}
use agent_relay_auto.Queue.{tasks_or_empty}
use agent_relay_auto.Reporting.World.{ReportingDecision}
use agent_relay_auto.Reporting.Tick.{Coordinator}
use agent_relay_auto.Reporting.Tick as Reporting
use agent_relay_auto.Runs.{read_exit}
use agent_relay_auto.Runs.Rotate.{append}
use agent_relay_auto.Supervisor.Base.{
  ManagedProcess, ProcessResult, Outside, SupervisorDecision, Step, pure, lift, ◌>>=◌, ◌>>◌,
  on_disk, on_runs, from_runs,
}
use agent_relay_auto.Supervisor.End.{decision, finalize, text_at, reconcile_durable}
use agent_relay_auto.Supervisor.Start.{read_state, role_of, start_run}

unfoldable pub project_decision : String → SupervisorDecision
project_decision action = record { action = action; task_id = none; run_id = none; report = false }

-- `task_ids[0] if task_ids else None`
unfoldable pub first_of : Value → Result Value
unfolding truthy
first_of (arr (item x xs)) = ok x
first_of (str (String.◌∷◌ c s)) = ok (str (String.◌∷◌ c String.[]))
first_of v = if truthy v then (elim v [ obj _ ↦ err key_error | _ ↦ err type_error ]) else ok null

-- the task at hand, from the mapping of the project
unfoldable pub task_at_hand : Dict Value → Result Value
unfolding tasks_or_empty get get_field truthy first_of
task_at_hand m = tasks_or_empty (get m "tasks") >>> λ tasks.
    (let active = get m "active_task" in
      if truthy active then ok active else first_of (get_field tasks "active"))

-- `self._active.get(task_id)`
unfoldable pub managed_of : Value → Dict ManagedProcess → Result (Option ManagedProcess)
unfolding lookup
managed_of (str s) d = ok (lookup s d)
managed_of (arr xs) d = err type_error
managed_of (obj fs) d = err type_error
managed_of v d = ok none

-- `read_exit(…) or {}`, and its `termination_reason`
unfoldable pub reason_of : Option Value → Result String
unfolding truthy text_at
reason_of none = ok "exit"
reason_of (some v) = if truthy v then text_at "termination_reason" "exit" v else ok "exit"

module _ (o : Outside) (task : String) where
  unfoldable pub log_output : String → String → String → Step (Unit {0})
  unfolding pure on_runs append
  log_output run stream text =
      if text == "" then pure tt else on_runs (append o.safe run stream text)

  -- the output of a process without a folder of its own
  unfoldable pub log_result : ManagedProcess → ProcessResult → Step (Unit {0})
  unfolding ◌>>=◌ pure log_output
  log_result managed result =
      if managed.in_run_dir
      then pure tt
      else (log_output managed.run_id "stdout" result.stdout
          >> log_output managed.run_id "stderr" result.stderr)

  unfoldable pub tick_ended : ManagedProcess → ProcessResult → Step SupervisorDecision
  unfolding ◌>>=◌ pure lift log_result from_runs read_exit reason_of finalize
  tick_ended managed result = do
    log_result managed result
    exit ← from_runs (read_exit managed.run_id)
    reason ← lift (reason_of exit)
    finalize o task managed result.exit_code reason

  -- a process that has not ended, after so many seconds
  unfoldable pub tick_alive : ManagedProcess → ℕ → Step SupervisorDecision
  unfolding ◌>>=◌ pure lift decision finalize
  tick_alive managed elapsed =
      if leb (o.agent_timeout_minutes * 60) elapsed
      then (do
        result ← lift (o.interrupt managed o.interrupt_grace_seconds)
        finalize o task managed result.exit_code "timeout")
      else pure (decision "already_running" task (some managed.run_id) false)

  unfoldable pub tick_polled : ManagedProcess → Option ProcessResult → Step SupervisorDecision
  unfolding tick_alive tick_ended
  tick_polled managed none s = tick_alive managed (s.world.now - managed.process_started_at) s
  tick_polled managed (some result) s = tick_ended managed result s

  unfoldable pub tick_managed : ManagedProcess → Step SupervisorDecision
  unfolding ◌>>=◌ lift tick_polled
  tick_managed managed = do result ← lift (o.poll managed); tick_polled managed result

  -- `self.reporting.tick(…)` and the decision that follows from its own
  unfoldable pub reporting_decision : ReportingDecision → SupervisorDecision
  unfolding decision
  reporting_decision r =
      decision r.action task none ((r.action == "blocked") || (r.action == "report_completed"))

  unfoldable pub tick_report : Option Coordinator → Step SupervisorDecision
  unfolding pure decision reporting_decision
  tick_report none s = (ok (decision "blocked" task none true), s)
  tick_report (some c) s = (
    ok (reporting_decision (Reporting.tick c task s.world).0),
    record s { world = (Reporting.tick c task s.world).1 },
  )

  unfoldable pub tick_role : Dict Value → Option String → Step SupervisorDecision
  unfolding pure decision start_run
  tick_role m none = pure (decision "waiting" task none false)
  tick_role m (some role) = start_run o task role m

  -- from `status` on
  unfoldable pub tick_status : Dict Value → Step SupervisorDecision
  unfolding ◌>>=◌ pure lift is_str get is_in role_of decision tick_report tick_role
  tick_status m =
      if is_str (get m "status") "PLANNING"
      then pure (decision "waiting_foreground_planner" task none true)
      else if is_str (get m "status") "REPORTING"
      then tick_report o.reporting
      else (do known ← lift (is_in (get m "status") []); tick_role m (role_of (get m "status")))

  -- a task without a process of this supervisor
  unfoldable pub tick_unmanaged : Step SupervisorDecision
  unfolding ◌>>=◌ lift read_state is_in get show reconcile_durable tick_status
  tick_unmanaged = do
    m ← read_state task
    running ← lift (is_in (get m "run_status") ("starting" ∷ "running" ∷ []))
    if running then reconcile_durable o task (show (get m "run_id")) else tick_status m

  unfoldable pub tick_task : Option ManagedProcess → Step SupervisorDecision
  unfolding tick_managed tick_unmanaged
  tick_task none = tick_unmanaged
  tick_task (some managed) = tick_managed managed

module _ (o : Outside) where
  unfoldable pub tick_found : Value → Step SupervisorDecision
  unfolding ◌>>=◌ pure lift truthy show managed_of tick_task project_decision
  tick_found task s =
      if truthy task
      then (lift (managed_of task s.active) >>= tick_task o (show task)) s
      else pure (project_decision "idle") s

  unfoldable pub tick_project : Step SupervisorDecision
  unfolding ◌>>=◌ pure lift parse_fenced_yaml task_at_hand tick_found project_decision
  tick_project s = elim s.world.disk.project [
    | none ↦ pure (project_decision "uninitialized") s
    | some doc ↦
        (lift (or_raise (parse_fenced_yaml doc) format_error >>> task_at_hand) >>= tick_found) s
  ]

  -- `tick`
  unfoldable pub tick : Step SupervisorDecision
  unfolding ◌>>=◌ on_disk recover_pending_transactions tick_project
  tick = do recovered ← on_disk recover_pending_transactions; tick_project
