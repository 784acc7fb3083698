-- ===== src/Supervisor/Waiting.antt =====
-- A tick of supervisor.py over a task that waits for its Planner.
use agent_relay_auto.Prelude.{
  String, ◌≡◌, ◌∙◌, ap, false, true, Option, none, some, List, [], ◌∷◌, arith, ◌==◌, Dict, lookup,
}
use agent_relay_auto.Value.{Fields, Value, str, get}
use agent_relay_auto.Outcome.{format_error, Result, ok, or_raise}
use agent_relay_auto.Outcome.{◌>>=◌ as ◌>>>◌}
use agent_relay_auto.Markdown.{Doc, parse_fenced_yaml}
use agent_relay_auto.Store.Base.{Disk, read_task}
use agent_relay_auto.State.Types.{is_in}
use agent_relay_auto.State.Report.{recover_pending_transactions}
use agent_relay_auto.Queue.{tasks_or_empty}
use agent_relay_auto.Supervisor.Base.{
  Service, Outside, SupervisorDecision, pure, lift, ◌>>=◌, on_disk,
}
use agent_relay_auto.Supervisor.End.{decision}
use agent_relay_auto.Supervisor.Start.{read_state}
use agent_relay_auto.Supervisor.Steps.{step-bind}
use agent_relay_auto.Supervisor.Tick.{
  task_at_hand, project_decision, tick_status, tick_unmanaged, tick_found, tick_project, tick,
}

-- A repository with no report under way, whose index names the task as the active one, and whose task
-- is in PLANNING with no run; `mapping` is what its STATE.md holds.
pub record IsPlanning (task : String) (mapping : Dict Value) (d : Disk) : Type 0 where
  pub index : Doc
  pub project : Dict Value
  pub lists : Fields
  pub doc : Doc
  pub named : (task == "") ≡ false
  pub settled : d.transactions ≡ none
  pub indexed : d.project ≡ some index
  pub index_legible : parse_fenced_yaml index ≡ some project
  pub has_lists : tasks_or_empty (get project "tasks") ≡ ok lists
  pub at_hand : get project "active_task" ≡ str task
  pub on_disk : lookup task d.tasks ≡ some doc
  pub legible : parse_fenced_yaml doc ≡ some mapping
  pub waiting : get mapping "status" ≡ str "PLANNING"
  pub idle : is_in (get mapping "run_status") ("starting" ∷ "running" ∷ []) ≡ ok false

recovers-none : (d : Disk) → d.transactions ≡ none → recover_pending_transactions d ≡ (ok [], d)
unfolding recover_pending_transactions
recovers-none d h = ground arith

module _ (o : Outside) (task : String) (m : Dict Value) (s : Service)
    (p : IsPlanning task m s.world.disk) where
  status-planning :
      tick_status o task m s ≡ (ok (decision "waiting_foreground_planner" task none true), s)
  unfolding tick_status
  status-planning = rw p.waiting

  reads : read_task task s.world.disk ≡ ok (p.doc, m)
  unfolding read_task
  reads = ground (arith, p.on_disk, p.legible)

  reads_state : read_state task s ≡ (ok m, s)
  unfolding read_state
  reads_state = ground (arith, reads)

  unmanaged-planning :
      tick_unmanaged o task s ≡ (ok (decision "waiting_foreground_planner" task none true), s)
  unfolding tick_unmanaged
  unmanaged-planning =
      step-bind (read_state task) _ s s m reads_state
      ∙ (step-bind (lift (is_in (get m "run_status") ("starting" ∷ "running" ∷ []))) _ s s false
            (unfold lift in ap (λ x. (x, s)) p.idle)
          ∙ status-planning)

  found-planning :
      lookup task s.active ≡ none
      → tick_found o (str task) s ≡ (ok (decision "waiting_foreground_planner" task none true), s)
  unfolding tick_found
  found-planning free = rw (p.named, free) unmanaged-planning

  hand : task_at_hand p.project ≡ ok (str task)
  unfolding task_at_hand
  hand = rw (p.has_lists, p.at_hand, p.named)

  project-planning :
      lookup task s.active ≡ none
      → tick_project o s ≡ (ok (decision "waiting_foreground_planner" task none true), s)
  unfolding tick_project
  project-planning free =
      let read : (or_raise (parse_fenced_yaml p.index) format_error >>> task_at_hand)
          ≡ ok (str task) =
        rw p.index_legible hand in
      let one : (lift (or_raise (parse_fenced_yaml p.index) format_error >>> task_at_hand)
              >>= tick_found o)
            s
          ≡ (ok (decision "waiting_foreground_planner" task none true), s) =
        step-bind (lift (or_raise (parse_fenced_yaml p.index) format_error >>> task_at_hand))
          (tick_found o) s s (str task) (unfold lift in ap (λ x. (x, s)) read)
        ∙ found-planning free in
      let step : Option Doc → Result SupervisorDecision × Service = λ x. elim x [
        | none ↦ pure (project_decision "uninitialized") s
        | some doc ↦
            (lift (or_raise (parse_fenced_yaml doc) format_error >>> task_at_hand) >>= tick_found o)
              s
      ] in
      ap step p.indexed ∙ one

  -- With no process of its own for the task, the supervisor reports that the Planner is waited for, and
  -- changes nothing.
  pub tick-planning :
      lookup task s.active ≡ none
      → tick o s ≡ (ok (decision "waiting_foreground_planner" task none true), s)
  unfolding tick
  tick-planning free =
      let none_left : recover_pending_transactions s.world.disk ≡ (ok [], s.world.disk) =
        recovers-none s.world.disk p.settled in
      step-bind (on_disk recover_pending_transactions) (λ r. tick_project o) s s []
        (unfold on_disk in
          ap
            (λ (x : Result (List String) × Disk).
              (x.0, record s { world = record (s.world) { disk = x.1 } }))
            none_left)
      ∙ project-planning free
