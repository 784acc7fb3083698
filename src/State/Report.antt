-- ===== src/State/Report.antt =====
-- `StateStore.complete_report`, `_complete_project_index` and `recover_pending_transactions` of
-- agent_relay_runtime/state_store.py: a write of three files, with a journal of the intention.
pub mod Recovery
pub mod Delivery
use Prim.Native.String.{compare, ◌++◌ as ◌<>◌}
use Prim.Native.Nat.{Ordering}
use text.Mathlib.Text.{find?}
use agent_relay_auto.Prelude.{
  String, Bool, true, false, not, ◌&&◌, ◌||◌, Option, none, some, List, [], ◌∷◌, ◌++◌, ◌==◌,
  if◌then◌else◌, Dict, lookup, insert, is_some,
}
use agent_relay_auto.Prelude.Int.{ℤ, pos, succ_ℤ}
use agent_relay_auto.Value.{
  Value, null, int, str, arr, Items, no_items, item, Fields, get, get_field, find_field,
  mapping_or_empty, truthy, is_int, is_str, is_null, items_of, without, holds, append_item,
}
use agent_relay_auto.Outcome.{
  Error, revision_conflict, illegal_transition, store_error, format_error, type_error, os_error,
  Result, ok, err, ◌>>=◌, ◌>>◌, raise_if, or_raise,
}
use agent_relay_auto.Markdown.{Doc, root, under, parse_fenced_yaml}
use agent_relay_auto.Markdown.Write.{Updates, write_values}
use agent_relay_auto.Store.Base.{Disk, Action, with_lock, read_task, write_task}
use agent_relay_auto.State.Types.{TransitionResult, bump}
use agent_relay_auto.State.Wake.{reporting_of}

-- `tasks.get(key, [])`, iterated over
unfoldable pub listed : String → Fields → Result Items
unfolding find_field items_of
listed key tasks = elim (find_field tasks key) [
  | none ↦ ok no_items
  | some v ↦ or_raise (items_of v) type_error
]

-- `None if project.get("active_task") == task_id else project.get("active_task")`
unfoldable pub next_active : String → Dict Value → Value
unfolding get is_str
next_active task project =
    if is_str (get project "active_task") task then null else get project "active_task"

unfoldable pub with_task : String → Items → Items
unfolding holds append_item
with_task task xs = if holds task xs then xs else append_item xs (str task)

-- the values that the index gets
unfoldable pub index_plan : String → Dict Value → Result Updates
unfolding listed next_active with_task without mapping_or_empty get
index_plan task project = do
  active ← listed "active" (mapping_or_empty (get project "tasks"))
  completed ← listed "completed" (mapping_or_empty (get project "tasks"))
  ok (
      (root "active_task", next_active task project)
      ∷ (under "tasks" "active", arr (without task active))
      ∷ (under "tasks" "completed", arr (with_task task completed))
      ∷ [])

-- the index with its text and its mapping
unfoldable pub read_project : Disk → Result (Doc × Dict Value)
unfolding parse_fenced_yaml
read_project d = do
  doc ← or_raise d.project os_error
  m ← or_raise (parse_fenced_yaml doc) format_error
  ok (doc, m)

-- `_complete_project_index`
unfoldable pub complete_index : String → Disk → Result Disk
complete_index task d = do
  p ← read_project d
  us ← index_plan task p.1
  ok (record d { project = some (write_values us p.0) })

-- `atomic_write_text(transaction_path, …)`; the directory is made if it is missing
unfoldable pub begin_report : String → Disk → Disk
unfolding insert
begin_report task d = record d {
  transactions = some (insert task (some task) (elim d.transactions [ none ↦ [] | some ts ↦ ts ]));
}

unfoldable pub drop_key : String → Dict (Option String) → Dict (Option String)
drop_key k [] = []
drop_key k ((j, v) ∷ ts) = if j == k then ts else (j, v) ∷ drop_key k ts

-- `transaction_path.unlink()`
unfoldable pub end_report : String → Disk → Disk
unfolding drop_key
end_report task d = record d {
  transactions = elim d.transactions [ none ↦ none | some ts ↦ some (drop_key task ts) ];
}

pub record Completion : Type 0 where
  pub task_id : String
  pub expected_revision : ℤ
  pub participant_id : String
  pub wake_key : String
  pub review_delivery_id : String
  pub review_ref : String
  pub report_ref : String

-- `"runner" in participant_id.lower()`; `lower` is Python's `str.lower`
unfoldable pub is_runner : (String → String) → String → Bool
is_runner lower participant = is_some (find? (lower participant) "runner")

-- the tests of `complete_report`, in their order
unfoldable pub check_report : (String → String) → Completion → Dict Value → Result (Unit {0})
unfolding is_runner reporting_of get_field mapping_or_empty truthy
check_report lower c m = do
  raise_if (not (is_str (get m "task") c.task_id)) illegal_transition
  raise_if (not (is_int (get m "revision") c.expected_revision)) revision_conflict
  raise_if (not (is_str (get m "status") "REPORTING")) illegal_transition
  raise_if (is_runner lower c.participant_id) illegal_transition
  raise_if
      (not (is_str (get m "current_role") "planner")
        || not (is_str (get m "current_participant") c.participant_id)
        || not (
            is_str (get_field (mapping_or_empty (get m "assignments")) "planner") c.participant_id))
      illegal_transition
  raise_if (not (is_str (get_field (reporting_of m) "wake_key") c.wake_key)) illegal_transition
  raise_if (not (is_str (get m "delivery_id") c.review_delivery_id)) illegal_transition
  raise_if (not (truthy (get m "review_ref")) || not (is_str (get m "review_ref") c.review_ref))
      illegal_transition

-- the values of the STATE.md, before and behind the key under `reporting`
abbrev pub head_updates : Completion → Updates
head_updates c =
    (root "status", str "DONE")
    ∷ (root "previous_role", str "planner")
    ∷ (root "previous_participant", str c.participant_id)
    ∷ (root "previous_progress", str c.report_ref)
    ∷ (root "report_ref", str c.report_ref)
    ∷ []

abbrev pub tail_updates : Completion → ℤ → String → Updates
tail_updates c round now =
    (root "current_role", str "planner")
    ∷ (root "current_participant", str c.participant_id)
    ∷ (root "run_id", null)
    ∷ (root "run_status", str "idle")
    ∷ (root "writer_session", null)
    ∷ (root "execution", str "idle")
    ∷ (root "stage_round", int round)
    ∷ (root "revision", int (succ_ℤ c.expected_revision))
    ∷ (root "updated_at", str now)
    ∷ []

unfoldable pub done_updates : Completion → ℤ → String → Updates
done_updates c round now =
    head_updates c ++ ((under "reporting" "phase", str "completed") ∷ tail_updates c round now)

-- The files once the transaction and the STATE.md are written. The round is read only then: if it
-- is no number the transaction stays behind.
unfoldable pub write_done : Completion → Doc → Dict Value → Disk → Result Disk × Disk
write_done c doc m d =
    let begun = begin_report c.task_id d in
    elim (bump "stage_round" (pos 1) m) [
      | err e ↦ (err e, begun)
      | ok round ↦ (
        ok (write_task c.task_id doc (done_updates c round d.clock) begun),
        write_task c.task_id doc (done_updates c round d.clock) begun,
      )
    ]

unfoldable pub report_result : Completion → TransitionResult
report_result c = record {
  task_id = c.task_id;
  old_status = str "REPORTING";
  new_status = str "DONE";
  input_revision = c.expected_revision;
  output_revision = succ_ℤ c.expected_revision;
  idempotent_replay = false;
}

-- the index and the end of the transaction
unfoldable pub settle : Completion → Disk → Result TransitionResult × Disk
settle c d = elim (complete_index c.task_id d) [
  | err e ↦ (err e, d)
  | ok d' ↦ (ok (report_result c), end_report c.task_id d')
]

unfoldable pub report_body : (String → String) → Completion → Action TransitionResult
report_body lower c d = elim (read_task c.task_id d) [
  | err e ↦ (err e, d)
  | ok p ↦ elim (check_report lower c p.1) [
    | err e ↦ (err e, d)
    | ok _ ↦
        let (w, d') = write_done c p.0 p.1 d in
        elim w [ err e ↦ (err e, d') | ok d'' ↦ settle c d'' ]
  ]
]

unfoldable pub complete_report : (String → String) → Completion → Action TransitionResult
complete_report lower c = with_lock (report_body lower c)

-- the order of the file names `report-<id>.json`
abbrev before : String → String → Bool
before a b = elim (compare ("report-" <> (a <> ".json")) ("report-" <> (b <> ".json"))) [
  | Ordering.gt ↦ false
  | _ ↦ true
]

unfoldable place : String → Option String → Dict (Option String) → Dict (Option String)
place k v [] = (k, v) ∷ []
place k v ((j, w) ∷ ts) = if before k j then (k, v) ∷ (j, w) ∷ ts else (j, w) ∷ place k v ts

-- `sorted(transaction_root.glob("report-*.json"))`
unfoldable pub in_order : Dict (Option String) → Dict (Option String)
unfolding place
in_order [] = []
in_order ((k, v) ∷ ts) = place k v (in_order ts)

-- one transaction: the index is completed if the task is DONE, and the file goes
unfoldable pub recover_one : String → Option String → Disk → Result (List String × Disk)
recover_one name none d = err store_error
recover_one name (some task) d = if task == "" then err store_error else (do
  p ← read_task task d
  if is_str (get p.1 "status") "DONE"
      then (do d' ← complete_index task d; ok (task ∷ [], end_report name d'))
      else ok ([], end_report name d))

-- the loop; a transaction that raises leaves those before it done
unfoldable pub recover_all : Dict (Option String) → List String → Action (List String)
recover_all [] done d = (ok done, d)
recover_all ((name, content) ∷ ts) done d = elim (recover_one name content d) [
  | err e ↦ (err e, d)
  | ok p ↦ recover_all ts (done ++ p.0) p.1
]

unfoldable pub recover_pending_transactions : Action (List String)
recover_pending_transactions d = elim d.transactions [
  | none ↦ (ok [], d)
  | some ts ↦ with_lock (recover_all (in_order ts) []) d
]
