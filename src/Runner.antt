-- ===== src/Runner.antt =====
-- `RelayRunner` of agent_relay_runtime/runner.py: one pass over the registered projects.
pub mod Pass
use Prim.Native.String.{◌++◌ as ◌<>◌}
use agent_relay_auto.Prelude.{
  String, Bool, true, false, not, ◌&&◌, Option, none, some, List, [], ◌∷◌, ◌==◌, if◌then◌else◌,
  Dict, lookup, elem,
}
use agent_relay_auto.Prelude.Int.{ℤ, pos}
use agent_relay_auto.Value.{Items}
use agent_relay_auto.Outcome.{Error, format_error, Result, ok, err, or_raise, ◌>>=◌}
use agent_relay_auto.Markdown.{parse_fenced_yaml}
use agent_relay_auto.Reporting.World.{World}
use agent_relay_auto.Registry.{enabled_projects}
use agent_relay_auto.Launch.{int_or}
use agent_relay_auto.Runs.{RunStore}
use agent_relay_auto.Notices.{NotificationKey, NoticeJournal, emit_once}
use agent_relay_auto.Supervisor.Base.{ManagedProcess, Service, Outside, SupervisorDecision}
use agent_relay_auto.Supervisor.Tick.{tick, project_decision}

-- What a supervisor holds in memory.
pub record Watched : Type 0 where
  pub active : Dict ManagedProcess
  pub start_status : Dict String

-- A project: its files, the supervisor that was made for it, and the detail of its last error.
pub record Project : Type 0 where
  pub world : World
  pub runs : RunStore
  pub notices : NoticeJournal
  pub supervisor : Option Watched
  pub error : Option String

-- What the notifier was called with, without the reason.
pub record Notice : Type 0 where
  pub key : NotificationKey
  pub state_path : String

-- `shown` are the notices, the last one first.
pub record Runner : Type 0 where
  pub projects : String → Project
  pub shown : List Notice

-- What a pass is told: whether `load_runtime_config` and the factory of the adapter return for a
-- project, what its supervisor asks, the name of a path, a status in capitals, the text
-- of a path from its text, and the text of an
-- exception.
pub record Surroundings : Type 0 where
  pub configure : String → Result (Unit {0})
  pub outside : String → Outside
  pub name : String → String
  pub upper : String → String
  pub path : String → String
  pub describe : String → Error → String

unfoldable pub put_project : String → Project → Runner → Runner
put_project repo p r = record r {
  projects = λ other. if repo == other then p else r.projects other;
}

-- `_supervisor`
unfoldable pub supervisor_of : Surroundings → String → Project → Result Watched
supervisor_of s repo p = elim p.supervisor [
  | some w ↦ ok w
  | none ↦ s.configure repo >>= λ done. ok (record { active = []; start_status = [] })
]

unfoldable pub service_of : Project → Watched → Service
service_of p w = record {
  world = p.world;
  runs = p.runs;
  active = w.active;
  start_status = w.start_status;
}

-- the project behind a tick that returned
unfoldable pub ticked : Service → Project → Project
ticked t p = record p {
  world = t.world;
  runs = t.runs;
  supervisor = some (record { active = t.active; start_status = t.start_status });
  error = none;
}

-- the handler of `except`: the supervisor is given up, what it wrote stays
unfoldable pub failed : String → World → RunStore → Project → SupervisorDecision × Project
failed detail w rs p = (
  record {
    action = "project_error";
    task_id = none;
    run_id = none;
    report = elim p.error [ none ↦ true | some d ↦ not (d == detail) ];
  },
  record p { world = w; runs = rs; supervisor = none; error = some detail },
)

-- a tick that raised or returned, with what it left
unfoldable pub after_tick :
    Surroundings
    → String
    → Project
    → Result SupervisorDecision
    → Service
    → SupervisorDecision × Project
unfolding ticked failed
after_tick s repo p (err e) t = failed (s.describe repo e) t.world t.runs p
after_tick s repo p (ok d) t = (d, ticked t p)

unfoldable pub attempt_with :
    Surroundings → String → Project → Result Watched → SupervisorDecision × Project
unfolding service_of tick after_tick failed
attempt_with s repo p (err e) = failed (s.describe repo e) p.world p.runs p
attempt_with s repo p (ok w) =
    after_tick s repo p (tick (s.outside repo) (service_of p w)).0
      (tick (s.outside repo) (service_of p w)).1

-- the block of `try`, with its handler
unfoldable pub attempt : Surroundings → String → Project → SupervisorDecision × Project
unfolding supervisor_of attempt_with
attempt s repo p = attempt_with s repo p (supervisor_of s repo p)

abbrev pub attention : List String
attention =
    "waiting_foreground_planner" ∷ "waiting_user" ∷ "blocked" ∷ "done" ∷ "project_error" ∷ []

unfoldable pub wants_attention : SupervisorDecision → Bool
unfolding elem
wants_attention d = elem d.action attention && d.report

-- the revision of the task that a decision names: 0 where it names none or there is no STATE.md
unfoldable pub revision_of : Option String → World → Result ℤ
unfolding lookup parse_fenced_yaml int_or
revision_of none w = ok (pos 0)
revision_of (some task) w = if task == "" then ok (pos 0) else elim (lookup task w.disk.tasks) [
  | none ↦ ok (pos 0)
  | some doc ↦ or_raise (parse_fenced_yaml doc) format_error >>= int_or "revision" (pos 0)
]

-- `decision.task_id or "Runner"`, and the path of its STATE.md
unfoldable pub task_name : Option String → String
task_name none = "Runner"
task_name (some task) = if task == "" then "Runner" else task

unfoldable pub state_path : String → Option String → String
state_path repo none = ""
state_path repo (some task) =
    if task == "" then "" else repo <> ("/docs/agent/tasks/" <> (task <> "/STATE.md"))

unfoldable pub notice_key : Surroundings → String → SupervisorDecision → ℤ → NotificationKey
unfolding task_name
notice_key s repo d revision = record {
  project = s.name repo;
  task_id = task_name d.task_id;
  state = s.upper d.action;
  revision = revision;
}

-- what `emit_once` has written, and the notice if it is new
unfoldable pub noted : NotificationKey → String → String → Runner → Bool × NoticeJournal → Runner
unfolding put_project
noted key path repo r (true, j) =
    let written = put_project repo (record (r.projects repo) { notices = j }) r in
    record written { shown = record { key = key; state_path = path } ∷ r.shown }
noted key path repo r (false, j) = put_project repo (record (r.projects repo) { notices = j }) r

unfoldable pub announce_key :
    Surroundings → String → SupervisorDecision → ℤ → Runner → Result Runner
unfolding notice_key emit_once state_path noted
announce_key s repo d revision r =
    let key = notice_key s repo d revision in
    let path = state_path repo d.task_id in
    emit_once key path (r.projects repo).notices >>= λ out. ok (noted key path repo r out)

-- the notification of a decision; what raises here is not caught
unfoldable pub announce : Surroundings → String → SupervisorDecision → Runner → Result Runner
unfolding wants_attention revision_of announce_key
announce s repo d r =
    if wants_attention d
    then (do
      revision ← revision_of d.task_id (r.projects repo).world
      announce_key s repo d revision r)
    else ok r

-- a round of the loop whose notification raised or returned
unfoldable pub after_notice :
    SupervisorDecision → Runner → Result Runner → Result SupervisorDecision × Runner
after_notice d r (err e) = (err e, r)
after_notice d r (ok r') = (ok d, r')

unfoldable pub visit_with :
    Surroundings
    → String
    → Runner
    → SupervisorDecision × Project
    → Result SupervisorDecision × Runner
unfolding put_project announce after_notice
visit_with s repo r (d, p) =
    after_notice d (put_project repo p r) (announce s repo d (put_project repo p r))

-- one round of the loop
unfoldable pub visit : Surroundings → String → Runner → Result SupervisorDecision × Runner
unfolding attempt visit_with
visit s repo r = visit_with s repo r (attempt s repo (r.projects repo))

-- the rest of the loop, behind a round that returned
unfoldable pub next :
    Result SupervisorDecision × Runner
    → (Runner → Result (List SupervisorDecision) × Runner)
    → Result (List SupervisorDecision) × Runner
next (err e, r) rest = (err e, r)
next (ok d, r) rest =
    let (ds, r') = rest r in (elim ds [ err e ↦ err e | ok more ↦ ok (d ∷ more) ], r')

unfoldable pub visit_all :
    Surroundings → List String → Runner → Result (List SupervisorDecision) × Runner
unfolding visit next
visit_all s [] r = (ok [], r)
visit_all s (repo ∷ repos) r = next (visit s repo r) (λ r'. visit_all s repos r')

-- `run_once`
unfoldable pub run_once : Surroundings → Items → Runner → Result (List SupervisorDecision) × Runner
unfolding enabled_projects visit_all
run_once s entries r = elim (enabled_projects s.path entries) [
  | err e ↦ (err e, r)
  | ok repos ↦ visit_all s repos r
]
