-- ===== src/Queue.antt =====
-- agent_relay_runtime/queue.py: `activate_next_queued_task`.
pub mod Serial
use agent_relay_auto.Prelude.{
  String, Bool, true, false, not, ◌&&◌, Option, none, some, [], ◌∷◌, ◌++◌, if◌then◌else◌, Dict,
}
use agent_relay_auto.Prelude.Int.{ℤ, succ_ℤ}
use agent_relay_auto.Value.{
  Fields, no_members, Items, no_items, item, Value, int, str, obj, arr, get, get_field, truthy,
  items_of, is_null, is_int,
}
use agent_relay_auto.Outcome.{
  value_error, type_error, attribute_error, Result, ok, err, ◌>>=◌, ◌>>◌, raise_if, or_raise,
}
use agent_relay_auto.Markdown.{root, under}
use agent_relay_auto.Markdown.Write.{Updates, write_values}
use agent_relay_auto.Store.Base.{Disk, Action, with_lock}
use agent_relay_auto.State.Report.{read_project}

-- `project.get("tasks") or {}`, which must have a method `get`
unfoldable pub tasks_or_empty : Value → Result Fields
unfolding truthy
tasks_or_empty (obj fs) = ok fs
tasks_or_empty v = if truthy v then err attribute_error else ok no_members

-- `list(v or [])`
unfoldable pub list_or_empty : Value → Result Items
unfolding truthy items_of
list_or_empty v = if truthy v then or_raise (items_of v) type_error else ok no_items

-- `if active or not queued: return None`, and `queued.pop(0)` with what it leaves
unfoldable pub next_task : Items → Items → Option (Value × Items)
next_task (item _ _) queued = none
next_task no_items no_items = none
next_task no_items (item task rest) = some (task, rest)

unfoldable pub revision_update : Value → ℤ → Updates
unfolding is_null
revision_update actual expected =
    if is_null actual then [] else (root "project_revision", int (succ_ℤ expected)) ∷ []

unfoldable pub activation_updates : String → ℤ → Value → Value → Items → Updates
unfolding revision_update
activation_updates now expected actual task rest =
    (under "tasks" "active", arr (item task no_items))
    ∷ (under "tasks" "queued", arr rest)
    ∷ (root "active_task", task)
    ∷ (revision_update actual expected ++ ((root "updated_at", str now) ∷ []))

-- the two lists of the index, once its revision is the expected one or is missing
unfoldable pub read_lists : ℤ → Dict Value → Result (Items × Items)
unfolding get get_field is_null is_int tasks_or_empty list_or_empty
read_lists expected m = do
  raise_if
      (not (is_null (get m "project_revision")) && not (is_int (get m "project_revision") expected))
      value_error
  tasks ← tasks_or_empty (get m "tasks")
  active ← list_or_empty (get_field tasks "active")
  queued ← list_or_empty (get_field tasks "queued")
  ok (active, queued)

unfoldable pub activate : ℤ → Action (Option Value)
unfolding read_project read_lists next_task activation_updates
activate expected d = elim (read_project d) [
  | err e ↦ (err e, d)
  | ok p ↦ elim (read_lists expected p.1) [
    | err e ↦ (err e, d)
    | ok l ↦ elim (next_task l.0 l.1) [
      | none ↦ (ok none, d)
      | some t ↦ (
        ok (some t.0),
        record d {
          project = some (
              write_values
                (activation_updates d.clock expected (get p.1 "project_revision") t.0 t.1) p.0);
        },
      )
    ]
  ]
]

unfoldable pub activate_next_queued_task : ℤ → Action (Option Value)
unfolding with_lock activate
activate_next_queued_task expected = with_lock (activate expected)
