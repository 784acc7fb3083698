-- ===== src/Store/Base.antt =====
-- `_lock_path`, `_state_lock`, `StateStore._read_task` and `StateStore._write_state` of
-- agent_relay_runtime/state_store.py over the files of one repository.
use agent_relay_auto.Prelude.{
  String, Bool, true, false, Option, none, some, if◌then◌else◌, Dict, lookup, insert,
}
use agent_relay_auto.Value.{Value}
use agent_relay_auto.Outcome.{
  lock_error, store_error, format_error, Result, ok, err, ◌>>=◌, or_raise,
}
use agent_relay_auto.Markdown.{Doc, parse_fenced_yaml}
use agent_relay_auto.Markdown.Write.{Updates, write_values}

-- `project` is docs/agent/PROJECT_STATUS.md, `tasks` the STATE.md of each task, `transactions` the
-- files report-<task>.json of .agent-relay-auto/transactions by that name, with the `task_id` inside
-- (`none` if the file does not give one), where the directory is there; `clock` is what `now_iso()`
-- returns, `files` the texts of the other files by their paths, of which those of
-- a task's folder are written below docs/agent/tasks.
pub record Disk : Type 0 where
  pub locked : Bool
  pub project : Option Doc
  pub tasks : Dict Doc
  pub transactions : Option (Dict (Option String))
  pub clock : String
  pub files : Dict String

-- A method: what was written before a raise stays written.
abbrev pub Action {ℓ} : Type ℓ → Type ℓ
Action A = Disk → Result A × Disk

-- `with _state_lock(repo, operation): …`, the lock file given up on every way out.
unfoldable pub with_lock {ℓ} : {A : Type ℓ} → Action A → Action A
with_lock body d =
    if d.locked
    then (err lock_error, d)
    else let (r, d') = body (record d { locked = true }) in (r, record d' { locked = false })

-- `_read_task`: the block of a task's STATE.md and its mapping.
unfoldable pub read_task : String → Disk → Result (Doc × Dict Value)
unfolding lookup parse_fenced_yaml
read_task task d = do
  doc ← or_raise (lookup task d.tasks) store_error
  m ← or_raise (parse_fenced_yaml doc) format_error
  ok (doc, m)

-- `_write_state(path, text, values)` for the STATE.md of a task whose text is `doc`.
unfoldable pub write_task : String → Doc → Updates → Disk → Disk
unfolding insert write_values
write_task task doc us d = record d { tasks = insert task (write_values us doc) d.tasks }

-- what a method decides from a task's mapping: an exception, or a result and the values that it
-- writes before it returns (`none` where it returns without a write)
abbrev pub Plan {ℓ} : Type ℓ → Type ℓ
Plan A = Result (Option Updates × A)

unfoldable pub carry_out {ℓ} : {A : Type ℓ} → String → Doc → Plan A → Action A
unfolding write_task
carry_out task doc (err e) d = (err e, d)
carry_out task doc (ok (none, a)) d = (ok a, d)
carry_out task doc (ok (some us, a)) d = (ok a, write_task task doc us d)

-- the body of a method that reads one task and writes it once at most
unfoldable pub decide_task {ℓ} : {A : Type ℓ} → String → (String → Dict Value → Plan A) → Action A
unfolding read_task carry_out
decide_task task plan d = elim (read_task task d) [
  | err e ↦ (err e, d)
  | ok p ↦ carry_out task p.0 (plan d.clock p.1) d
]

unfoldable pub update_task {ℓ} : {A : Type ℓ} → String → (String → Dict Value → Plan A) → Action A
unfolding with_lock decide_task
update_task task plan = with_lock (decide_task task plan)
