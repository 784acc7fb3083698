-- ===== src/Schema.antt =====
-- agent_relay_runtime/schema.py: `validate_project_state` and `validate_active_task_mirror`.
pub mod Queue
pub mod Task
pub mod Raises
use agent_relay_auto.Prelude.{
  ℕ, String, Bool, true, false, not, ◌&&◌, ◌||◌, Option, none, some, List, [], ◌∷◌, ◌+◌, ltb,
  nat_eq, ◌==◌, if◌then◌else◌, Dict, lookup, insert, elem,
}
use agent_relay_auto.Value.{
  Fields, Items, no_items, item, Value, arr, obj, str, get, find_field, is_str, is_null,
}
use agent_relay_auto.Outcome.{schema_error, Result, ok, err, ◌>>=◌, ◌>>◌, raise_if, or_raise}

pub record ProjectQueue : Type 0 where
  pub active : List String
  pub queued : List String
  pub blocked : List String
  pub completed : List String

-- `len` of a list
unfoldable pub length {ℓ} : {A : Type ℓ} → List A → ℕ
length [] = 0
length (_ ∷ xs) = length xs + 1

-- `set(xs)`: each text once
unfoldable pub to_set : List String → List String
unfolding elem
to_set [] = []
to_set (x ∷ xs) = let rest = to_set xs in if elem x xs then rest else x ∷ rest

-- the items of a list where all are texts and none is empty
unfoldable pub ids_of : Items → Option (List String)
ids_of no_items = some []
ids_of (item (str s) xs) = elim (ids_of xs) [
  | none ↦ none
  | some ids ↦ if s == "" then none else some (s ∷ ids)
]
ids_of (item _ xs) = none

unfoldable pub task_list : Value → Result (List String)
unfolding ids_of to_set length
task_list (arr xs) = do
  ids ← or_raise (ids_of xs) schema_error
  raise_if (not (nat_eq (length (to_set ids)) (length ids))) schema_error
  ok ids
task_list _ = err schema_error

-- `tasks.get(key, [])`
unfoldable pub listed_under : Fields → String → Value
unfolding find_field
listed_under fs key = elim (find_field fs key) [ none ↦ arr no_items | some v ↦ v ]

-- `tasks = data.get("tasks")`, which must be a mapping
unfoldable pub tasks_of : Dict Value → Result Fields
unfolding get
tasks_of m = elim (get m "tasks") [ obj fs ↦ ok fs | _ ↦ err schema_error ]

-- the inner loop over one list: `previous = memberships.setdefault(task_id, key)`
unfoldable pub enrol : String → List String → Dict String → Result (Dict String)
unfolding lookup insert
enrol key [] memberships = ok memberships
enrol key (x ∷ xs) memberships = elim (lookup x memberships) [
  | none ↦ enrol key xs (insert x key memberships)
  | some previous ↦ raise_if (not (previous == key)) schema_error >> enrol key xs memberships
]

-- the outer loop, over the four lists in the order of `_QUEUE_KEYS`
unfoldable pub enrol_all : ProjectQueue → Result (Dict String)
unfolding enrol
enrol_all q = do
  after_active ← enrol "active" q.active []
  after_queued ← enrol "queued" q.queued after_active
  after_blocked ← enrol "blocked" q.blocked after_queued
  enrol "completed" q.completed after_blocked

-- the four lists as the mapping gives them, each valid on its own
unfoldable pub read_queue : Fields → Result ProjectQueue
unfolding listed_under task_list
read_queue tasks = do
  active ← task_list (listed_under tasks "active")
  queued ← task_list (listed_under tasks "queued")
  blocked ← task_list (listed_under tasks "blocked")
  completed ← task_list (listed_under tasks "completed")
  ok (record { active = active; queued = queued; blocked = blocked; completed = completed })

unfoldable pub validate_project_state : Dict Value → Result ProjectQueue
unfolding tasks_of read_queue enrol_all length
validate_project_state m = do
  tasks ← tasks_of m
  q ← read_queue tasks
  memberships ← enrol_all q
  raise_if (ltb 1 (length q.active)) schema_error
  ok q

-- `mirror != (queue.active[0] if queue.active else None)`, negated
unfoldable pub mirrors : Value → List String → Bool
unfolding is_str is_null
mirrors mirror [] = is_null mirror
mirrors mirror (x ∷ _) = is_str mirror x

unfoldable pub validate_active_task_mirror : Dict Value → Result (Unit {0})
unfolding validate_project_state mirrors get
validate_active_task_mirror m = do
  q ← validate_project_state m
  raise_if (not (mirrors (get m "active_task") q.active)) schema_error
