-- ===== src/Relay.antt =====
-- relay_state.py: the commands that change a task under the lock with a text beside it. Files of a
-- task's folder are named by their paths.

pub mod Stage
pub mod Run
pub mod Question
pub mod Terminal
use Prim.Native.String.{◌++◌ as ◌<>◌}
use agent_relay_auto.Prelude.{
  String, Bool, true, false, not, ◌&&◌, ◌||◌, Option, none, some, List, [], ◌∷◌, ◌++◌, ◌==◌,
  if◌then◌else◌, Dict, lookup, insert, elem,
}
use agent_relay_auto.Prelude.Int.{ℤ, succ_ℤ}
use agent_relay_auto.Value.{Value, null, int, str, get, truthy, is_int, is_str}
use agent_relay_auto.Outcome.{
  revision_conflict, illegal_transition, value_error, Result, ok, err, ◌>>=◌, ◌>>◌, raise_if,
  or_raise,
}
use agent_relay_auto.Markdown.{root}
use agent_relay_auto.Markdown.Write.{Updates}
use agent_relay_auto.Store.Base.{Disk, Action, Plan, read_task, update_task}
use agent_relay_auto.State.Types.{is_in}

-- what a command prints, and the texts that it leaves beside the STATE.md
abbrev pub Payload : Type 0
Payload = Dict Value

abbrev pub terminal : List String
terminal = "DONE" ∷ "CANCELLED" ∷ []

-- `state_path.parent / name`
unfoldable pub task_file : String → String → String
task_file task name = "docs/agent/tasks/" <> (task <> ("/" <> name))

unfoldable pub add_files : Dict String → Disk → Disk
unfolding insert
add_files [] d = d
add_files ((path, text) ∷ fs) d = add_files fs (record d { files = insert path text d.files })

-- A command's texts are written behind its last check, so they are there exactly if it returned.
unfoldable pub publish : Result (Payload × Dict String) × Disk → Result Payload × Disk
unfolding add_files
publish (err e, d) = (err e, d)
publish (ok (payload, fs), d) = (ok payload, add_files fs d)

-- `_require_revision`
unfoldable pub require_revision : Dict Value → ℤ → Result (Unit {0})
require_revision m expected = raise_if (not (is_int (get m "revision") expected)) revision_conflict

unfoldable pub refuse_terminal : Dict Value → Result (Unit {0})
refuse_terminal m = is_in (get m "status") terminal >>= λ t. raise_if t illegal_transition

unfoldable pub wait_updates : ℤ → String → String → String → Value → Updates
wait_updates expected role id ref status =
    (root "status", str "WAITING_USER")
    ∷ (root "suspended_status", status)
    ∷ (root "resume_role", str role)
    ∷ (root "question_id", str id)
    ∷ (root "question_ref", str ref)
    ∷ (root "revision", int (succ_ℤ expected))
    ∷ []

-- `id` is the `Q-…` drawn from uuid4, and `text` the question's.
unfoldable pub wait_plan :
    String → ℤ → String → String → String → String → Dict Value → Plan (Payload × Dict String)
wait_plan task expected role id text now m = do
  require_revision m expected
  refuse_terminal m
  let ref = "questions/" <> (id <> ".md")
  ok (
    some (wait_updates expected role id ref (get m "status")),
    (
      ("task", str task)
          ∷ ("question_id", str id)
          ∷ ("output_revision", int (succ_ℤ expected))
          ∷ [],
      (task_file task ref, text) ∷ [],
    ),
  )

-- `_wait_user`
unfoldable pub wait_user : String → ℤ → String → String → String → Action Payload
wait_user task expected question_file role id d = elim (lookup question_file d.files) [
  | none ↦ (err value_error, d)
  | some text ↦ publish (update_task task (wait_plan task expected role id text) d)
]

-- a text that was given and is not empty
unfoldable pub given : Option String → Bool
given none = false
given (some s) = not (s == "")

abbrev pub decision_values : Dict (List String)
decision_values = ("subagent_policy", "USE" ∷ "DO_NOT_USE" ∷ []) ∷ []

unfoldable pub allows : Option (List String) → Option String → Bool
unfolding elem
allows (some allowed) (some value) = elem value allowed
allows _ _ = false

-- the tests on `--decision-key` and `--decision-value`
unfoldable pub check_decision : Option String → Option String → Result (Unit {0})
unfolding given allows lookup
check_decision key value =
    if given key
    then (if given value
        then raise_if
            (not (allows (elim key [ none ↦ none | some k ↦ lookup k decision_values ]) value))
            value_error
        else err value_error)
    else (if given value then err value_error else ok tt)

unfoldable pub decision_updates : Option String → Option String → String → Updates
decision_updates (some key) (some value) ref =
    if key == "subagent_policy"
    then (root "subagent_policy", str value) ∷ (root "subagent_decision_ref", str ref) ∷ []
    else []
decision_updates _ _ ref = []

-- `state.get("suspended_status") or "PLANNING"`
unfoldable pub resumed : Dict Value → Value
unfolding truthy
resumed m = if truthy (get m "suspended_status") then get m "suspended_status" else str "PLANNING"

unfoldable pub answer_updates : ℤ → Value → Updates → Updates
answer_updates expected status decision =
    (root "status", status)
    ∷ (root "suspended_status", null)
    ∷ (root "resume_role", null)
    ∷ (root "question_id", null)
    ∷ (root "question_ref", null)
    ∷ (root "revision", int (succ_ℤ expected))
    ∷ decision

-- `display` is Python's `str` of a value
unfoldable pub decision_text : (Value → String) → String → Dict Value → String → String
decision_text display id m text =
    "# Decision "
    <> (id <> ("\n\nQuestion: " <> (display (get m "question_ref") <> ("\n\n" <> (text <> "\n")))))

unfoldable pub answer_plan :
    (Value → String)
    → String
    → ℤ
    → String
    → Option String
    → Option String
    → String
    → String
    → Dict Value
    → Plan (Payload × Dict String)
unfolding decision_text
answer_plan display task expected id key value text now m = do
  require_revision m expected
  raise_if (not (is_str (get m "status") "WAITING_USER") || not (is_str (get m "question_id") id))
      illegal_transition
  let ref = "decisions/" <> (id <> ".md")
  ok (
    some (answer_updates expected (resumed m) (decision_updates key value ref)),
    (
      ("task", str task)
          ∷ ("output_revision", int (succ_ℤ expected))
          ∷ ("answer_ref", str ref)
          ∷ [],
      (task_file task ref, decision_text display id m text) ∷ [],
    ),
  )

-- `_answer`
unfoldable pub answer :
    (Value → String) → String → ℤ → String → String → Option String → Option String → Action Payload
answer display task expected id answer_file key value d = elim (lookup answer_file d.files) [
  | none ↦ (err value_error, d)
  | some text ↦ elim (check_decision key value) [
    | err e ↦ (err e, d)
    | ok _ ↦ publish (update_task task (answer_plan display task expected id key value text) d)
  ]
]

unfoldable pub cancel_plan :
    String → ℤ → String → String → Dict Value → Plan (Payload × Dict String)
cancel_plan task expected authorization now m = do
  require_revision m expected
  refuse_terminal m
  ok (
    some (
        (root "status", str "CANCELLED")
        ∷ (root "blocked_reason", str authorization)
        ∷ (root "revision", int (succ_ℤ expected))
        ∷ []),
    (
      ("task", str task)
          ∷ ("status", str "CANCELLED")
          ∷ ("output_revision", int (succ_ℤ expected))
          ∷ [],
      [],
    ),
  )

-- `_cancel`
unfoldable pub cancel : String → ℤ → String → Action Payload
cancel task expected authorization d =
    publish (update_task task (cancel_plan task expected authorization) d)

-- `_status`
unfoldable pub status : String → Action Payload
unfolding read_task
status task d = elim (read_task task d) [
  | err e ↦ (err e, d)
  | ok p ↦ (
    ok (
        ("task", str task)
        ∷ ("status", get p.1 "status")
        ∷ ("revision", get p.1 "revision")
        ∷ ("run_id", get p.1 "run_id")
        ∷ []),
    d,
  )
]
