-- ===== src/Tests/Runner.antt =====
-- A Runner with two projects: one that waits for its Planner with a revision that is no number, and one
-- whose configuration cannot be read.
use agent_relay_auto.Prelude.{◌≡◌, refl, Dict, none, some, [], ◌∷◌, ◌==◌, if◌then◌else◌}
use agent_relay_auto.Value.{Value, null, str}
use agent_relay_auto.Outcome.{ok, err, value_error}
use agent_relay_auto.Markdown.{Doc, entry}
use agent_relay_auto.Supervisor.Base.{SupervisorDecision}
use agent_relay_auto.Runner.{Watched, Project, Runner, Surroundings, attempt, visit}
use agent_relay_auto.Runner.Pass.{error_once}
use agent_relay_auto.Tests.Supervisor.{service, outside}

abbrev planning : Doc
planning =
    entry "status" (str "PLANNING") ∷ entry "revision" null ∷ entry "run_status" (str "idle") ∷ []

abbrev project : Project
project = record {
  world = record (service.world) {
    disk = record (service.world.disk) { tasks = ("TASK-1", planning) ∷ [] };
  };
  runs = service.runs;
  notices = [];
  supervisor = none;
  error = some "bad policy";
}

abbrev runner : Runner
runner = record { projects = λ repo. project; shown = [] }

abbrev around : Surroundings
around = record {
  configure = λ repo. if repo == "/bad" then err value_error else ok tt;
  outside = λ repo. outside;
  name = λ repo. repo;
  upper = λ s. s;
  path = λ s. s;
  describe = λ repo e. "bad policy";
}

error_once_example :
    (d : SupervisorDecision) × ((visit around "/bad" runner).0 ≡ ok d)
    × (d.action ≡ "project_error")
    × ((visit around "/bad" runner).1.shown ≡ [])
    × (((visit around "/bad" runner).1.projects "/bad").error ≡ some "bad policy")
unfolding attempt
error_once_example = error_once around "/bad" "bad policy" runner refl refl

abbrev idle : Watched
idle = record { active = []; start_status = [] }

abbrev planning_state : Dict Value
planning_state = ("status", str "PLANNING") ∷ ("revision", null) ∷ ("run_status", str "idle") ∷ []
