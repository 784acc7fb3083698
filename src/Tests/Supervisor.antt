-- ===== src/Tests/Supervisor.antt =====
-- A supervisor that starts a run of the Implementer.
use agent_relay_auto.Runs.{Folder, json, find_run, new_folder}
use agent_relay_auto.Recovery
use agent_relay_auto.Markdown.Laws.{flat}
use agent_relay_auto.Markdown.Write.{all_flat, value_at}
use agent_relay_auto.Prelude.{◌≡◌, refl, true, false, none, some, [], ◌∷◌, lookup, Dict}
use agent_relay_auto.Prelude.Int.{pos}
use agent_relay_auto.Value.{
  Value, Fields, no_members, field as member, null, int, str, obj, is_str, is_int,
}
use agent_relay_auto.Outcome.{ok, err, os_error}
use agent_relay_auto.Markdown.{Doc, entry, reread}
use agent_relay_auto.Store.Fields.{field, is_state}
use agent_relay_auto.State.Claim.Effect.{holds_run}
use agent_relay_auto.Launch.{LaunchRequest}
use agent_relay_auto.Supervisor.Base.{ManagedProcess, Service, Outside}
use agent_relay_auto.Supervisor.Start.{claim_and_launch}
use agent_relay_auto.State.Types.{ClaimKey}
use agent_relay_auto.State.Claim.{claim, claim_outcome}
use agent_relay_auto.Supervisor.Base.{on_disk}
use agent_relay_auto.Supervisor.Start.{try_launch}
use agent_relay_auto.Supervisor.Released.{failed_start_releases}
use agent_relay_auto.Supervisor.Started.{start_effect}

abbrev state : Doc
state =
    entry "status" (str "IMPLEMENTING")
    ∷ entry "revision" (int (pos 4))
    ∷ entry "stage_round" (int (pos 2))
    ∷ entry "run_id" null
    ∷ entry "run_status" (str "idle")
    ∷ entry "current_participant" (str "implementer-main")
    ∷ entry "writer_session" null
    ∷ []

abbrev mapping : Dict Value
mapping =
    ("status", str "IMPLEMENTING")
    ∷ ("revision", int (pos 4))
    ∷ ("stage_round", int (pos 2))
    ∷ ("current_participant", str "implementer-main")
    ∷ []

abbrev pub service : Service
service = record {
  world = record {
    disk = record {
      locked = false;
      project = some (entry "active_task" (str "TASK-1") ∷ []);
      tasks = ("TASK-1", state) ∷ [];
      transactions = none;
      clock = "2026-01-01";
      files = [];
    };
    journal = [];
    channel = none;
    now = 0;
    requests = [];
  };
  runs = record { max_log_bytes = 10; keep_rotations = 5; runs = [] };
  active = [];
  start_status = [];
}

abbrev pub outside : Outside
outside = record {
  max_agent_retries = pos 1;
  agent_timeout_minutes = 30;
  interrupt_grace_seconds = 30;
  adapter_name = "Codex";
  new_run_id = "run-1";
  quote = λ s. s;
  safe = λ s. [];
  reporting = none;
  poll = λ p. ok none;
  interrupt = λ p n. ok (record { exit_code = pos 1; stdout = ""; stderr = "" });
  is_alive = λ pid. false;
  is_noninteractive = λ r. ok true;
  build_command = λ r c. ok ("codex" ∷ []);
  start_worker = λ c p. ok (record { run_id = "run-1"; process_started_at = 0; in_run_dir = true });
  on_result = none;
}

abbrev request : LaunchRequest
request = record {
  task_id = "TASK-1";
  role = "implementer";
  participant_id = "implementer-main";
  model = "default";
  reasoning = null;
  run_id = "run-1";
  expected_revision = pos 4;
}

start_effect_example :
    let t = (claim_and_launch outside "TASK-1" "implementer" mapping request service).1 in
    (holds_run "TASK-1" service.world.disk ≡ false)
    × (field "TASK-1" "run_id" t.world.disk ≡ str "run-1")
    × (field "TASK-1" "run_status" t.world.disk ≡ str "running")
    × (field "TASK-1" "writer_session" t.world.disk ≡ str "run-1")
    × (field "TASK-1" "status" t.world.disk ≡ field "TASK-1" "status" service.world.disk)
    × ((managed : ManagedProcess) × (lookup "TASK-1" t.active ≡ some managed))
unfolding is_state lookup all_flat flat reread is_str field value_at claim_and_launch is_int
start_effect_example =
    start_effect outside "TASK-1" "implementer" mapping request service _ _ refl refl refl refl

-- a state with the counters of an earlier run, and a process that does not start
abbrev counted : Service
counted = record service {
  world = record (service.world) {
    disk = record (service.world.disk) {
      tasks = ("TASK-1", entry "agent_failure_count" (int (pos 0)) ∷ state) ∷ [];
    };
  };
}

abbrev broken : Outside
broken = record outside { start_worker = λ c p. err os_error }

abbrev first_claim : ClaimKey
first_claim = record {
  task_id = "TASK-1";
  expected_revision = pos 4;
  participant_id = "implementer-main";
  stage_round = pos 2;
}

failed_start_releases_example :
    let t = (on_disk (claim (λ s. s) first_claim "run-1") counted).1 in
    let claimed = claim_outcome first_claim mapping false in
    let u = (try_launch broken "TASK-1" "implementer" mapping request claimed t).1 in
    (field "TASK-1" "run_id" u.world.disk ≡ null)
    × (field "TASK-1" "writer_session" u.world.disk ≡ null)
    × (field "TASK-1" "status" u.world.disk ≡ field "TASK-1" "status" counted.world.disk)
unfolding is_state lookup all_flat flat reread is_str field value_at find_run on_disk claim is_int
    try_launch
failed_start_releases_example =
    failed_start_releases broken "TASK-1" "implementer" mapping request first_claim
      (claim_outcome first_claim mapping false) (pos 0) counted
      (on_disk (claim (λ s. s) first_claim "run-1") counted).1 _ os_error refl refl refl refl refl
      refl refl refl refl

-- the record of the worker, and the one of the run with the worker's process id
abbrev worker_record : Fields
worker_record = member "run_id" (str "run-1") (member "worker_pid" (int (pos 7)) no_members)

abbrev run_record : Fields
run_record = member "pid" (int (pos 7)) (member "process_started_at" (int (pos 100)) no_members)

abbrev run_folder : Folder
run_folder = record (new_folder "2026-01-01" no_members) { process = json (obj worker_record) }

-- a supervisor that was started again, on a machine where every process id is taken
abbrev restarted : Service
restarted = record service {
  runs = record {
    max_log_bytes = 10;
    keep_rotations = 5;
    runs = (("TASK-1", "run-1"), run_folder) ∷ [];
  };
}

abbrev crowded : Outside
crowded = record outside { is_alive = λ pid. true }
