-- ===== src/Supervisor/Base.antt =====
-- What `ProjectSupervisor` of agent_relay_runtime/supervisor.py works on: the files, the run store, the
-- processes that it started, and what it asks of the adapter and of the operating system.
use agent_relay_auto.Prelude.{ℕ, String, Bool, Option, List, Dict}
use agent_relay_auto.Prelude.Int.{ℤ}
use agent_relay_auto.Outcome.{Result, ok, err}
use agent_relay_auto.Store.Base.{Action}
use agent_relay_auto.Reporting.World.{World}
use agent_relay_auto.Reporting.Tick.{Coordinator}
use agent_relay_auto.Runs.{RunStore, RunPath, Method}
use agent_relay_auto.Launch.{LaunchRequest, LaunchContext}

-- `ManagedProcess` of process_manager.py, as far as the supervisor reads it; times are whole
-- seconds, and `in_run_dir` says whether `run_dir` is given.
pub record ManagedProcess : Type 0 where
  pub run_id : String
  pub process_started_at : ℕ
  pub in_run_dir : Bool

pub record ProcessResult : Type 0 where
  pub exit_code : ℤ
  pub stdout : String
  pub stderr : String

-- The state of a supervisor with all that it changes.
pub record Service : Type 0 where
  pub world : World
  pub runs : RunStore
  pub active : Dict ManagedProcess
  pub start_status : Dict String

-- What a tick is told: the limits in whole minutes and seconds, the name of the new run, the answers
-- of the processes and of the adapter. `is_alive` is `os.kill(pid, 0)` that finds a process, which
-- may belong to another user; `on_result` is `none` where the adapter has no such method.
pub record Outside : Type 0 where
  pub max_agent_retries : ℤ
  pub agent_timeout_minutes : ℕ
  pub interrupt_grace_seconds : ℕ
  pub adapter_name : String
  pub new_run_id : String
  pub quote : String → String
  pub safe : String → List ℕ
  pub reporting : Option Coordinator
  pub poll : ManagedProcess → Result (Option ProcessResult)
  pub interrupt : ManagedProcess → ℕ → Result ProcessResult
  pub is_alive : ℤ → Bool
  pub is_noninteractive : LaunchRequest → Result Bool
  pub build_command : LaunchRequest → LaunchContext → Result (List String)
  pub start_worker : List String → RunPath → Result ManagedProcess
  pub on_result : Option (String → String → ℤ → Action (Unit {0}))

-- `detail`, a text for people, is not kept.
pub record SupervisorDecision : Type 0 where
  pub action : String
  pub task_id : Option String
  pub run_id : Option String
  pub report : Bool

abbrev pub Step {ℓ} : Type ℓ → Type ℓ
Step A = Service → Result A × Service

unfoldable pub pure {ℓ} : {A : Type ℓ} → A → Step A
pure a s = (ok a, s)

unfoldable pub lift {ℓ} : {A : Type ℓ} → Result A → Step A
lift r s = (r, s)

-- the rest of a step, if it returned
abbrev pub follow {ℓ κ} : {A : Type ℓ} {B : Type κ} → (A → Step B) → Result A → Step B
follow f (ok a) s = f a s
follow f (err e) s = (err e, s)

infixl 5 ◌>>=◌ ◌>>◌
unfoldable pub ◌>>=◌ {ℓ κ} : {A : Type ℓ} {B : Type κ} → Step A → (A → Step B) → Step B
◌>>=◌ m f s = follow f (m s).0 (m s).1

abbrev pub ◌>>◌ {ℓ} : {B : Type ℓ} → Step (Unit {0}) → Step B → Step B
m >> k = m >>= λ _. k

-- a method of the state store
unfoldable pub on_disk {ℓ} : {A : Type ℓ} → Action A → Step A
on_disk act s =
    ((act s.world.disk).0, record s { world = record (s.world) { disk = (act s.world.disk).1 } })

-- a method of the run store
unfoldable pub on_runs {ℓ} : {A : Type ℓ} → Method A → Step A
on_runs act s = ((act s.runs).0, record s { runs = (act s.runs).1 })

-- a reading of the run store
unfoldable pub from_runs {ℓ} : {A : Type ℓ} → (RunStore → Result A) → Step A
from_runs read s = (read s.runs, s)

-- the time that a record of the run store takes
unfoldable pub at_clock {ℓ} : {A : Type ℓ} → (String → Method A) → Step A
unfolding on_runs
at_clock act s = on_runs (act s.world.disk.clock) s
