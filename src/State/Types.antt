-- ===== src/State/Types.antt =====
-- The records and tables of agent_relay_runtime/state_store.py.
use agent_relay_auto.Prelude.{
  String, Bool, true, false, ◌&&◌, Option, none, some, List, [], ◌∷◌, ◌==◌, if◌then◌else◌, Dict,
  lookup,
}
use agent_relay_auto.Prelude.Int.{ℤ, pos, succ_ℤ}
use agent_relay_auto.Value.{Value, int, str, arr, obj, is_str, is_one_of, to_int}
use agent_relay_auto.Outcome.{Error, type_error, value_error, Result, ok, err, ◌>>=◌, or_raise}
use agent_relay_auto.Markdown.{root}
use agent_relay_auto.Markdown.Write.{Updates}

pub record TransitionResult : Type 0 where
  pub task_id : String
  pub old_status : Value
  pub new_status : Value
  pub input_revision : ℤ
  pub output_revision : ℤ
  pub idempotent_replay : Bool

pub record StageEvidence : Type 0 where
  pub progress_ref : String
  pub delivery_ref : Option String
  pub review_ref : Option String
  pub report_ref : Option String
  pub delivery_id : Option String

pub record RunFinalization : Type 0 where
  pub action : Value
  pub task_id : String
  pub run_id : String
  pub input_revision : ℤ
  pub output_revision : ℤ
  pub idempotent_replay : Bool

pub record ClaimKey : Type 0 where
  pub task_id : String
  pub expected_revision : ℤ
  pub participant_id : String
  pub stage_round : ℤ

-- `_TRANSITIONS`: a status, an event and the status that follows.
abbrev pub transitions : List (String × String × String)
transitions =
    ("PLANNING", "plan_completed", "IMPLEMENTING")
    ∷ ("IMPLEMENTING", "implementation_completed", "REVIEWING")
    ∷ ("REVIEWING", "review_passed", "REPORTING")
    ∷ ("REVIEWING", "changes_requested", "IMPLEMENTING")
    ∷ ("REVIEWING", "replan_required", "PLANNING")
    ∷ ("REPORTING", "report_completed", "DONE")
    ∷ []

unfoldable pub find_status : List (String × String × String) → Value → String → Option String
find_status [] status event = none
find_status ((s, e, new) ∷ rows) status event =
    if is_str status s && (e == event) then some new else find_status rows status event

-- `_ROLE_EVENTS`: a role, an event, and the expected status, the new one and the next role.
pub record Rule : Type 0 where
  pub expected_status : String
  pub new_status : String
  pub next_role : String

abbrev rule : String → String → String → Rule
rule expected new next = record { expected_status = expected; new_status = new; next_role = next }

abbrev pub role_events : List (String × String × Rule)
role_events =
    ("planner", "plan_completed", rule "PLANNING" "IMPLEMENTING" "implementer")
    ∷ ("implementer", "implementation_completed", rule "IMPLEMENTING" "REVIEWING" "reviewer")
    ∷ ("reviewer", "review_passed", rule "REVIEWING" "REPORTING" "planner")
    ∷ ("reviewer", "changes_requested", rule "REVIEWING" "IMPLEMENTING" "implementer")
    ∷ ("reviewer", "replan_required", rule "REVIEWING" "PLANNING" "planner")
    ∷ ("planner", "report_completed", rule "REPORTING" "DONE" "planner")
    ∷ []

unfoldable pub find_rule : List (String × String × Rule) → String → String → Option Rule
find_rule [] role event = none
find_rule ((r, e, x) ∷ rows) role event =
    if (r == role) && (e == event) then some x else find_rule rows role event

-- The exception of `int(v)` on a value that it refuses.
unfoldable pub int_error : Value → Error
int_error (str s) = value_error
int_error _ = type_error

unfoldable pub int_of : Value → Result ℤ
unfolding to_int int_error
int_of v = or_raise (to_int v) (int_error v)

-- `int(state.get(k, default)) + 1`
unfoldable pub bump : String → ℤ → Dict Value → Result ℤ
unfolding lookup int_of
bump k default m = elim (lookup k m) [
  | none ↦ ok (succ_ℤ default)
  | some v ↦ int_of v >>= λ n. ok (succ_ℤ n)
]

-- `if test: values[(k,)] = int(state.get(k, 0)) + 1`
unfoldable pub bump_if : Bool → String → Dict Value → Result Updates
unfolding bump
bump_if false k m = ok []
bump_if true k m = bump k (pos 0) m >>= λ n. ok ((root k, int n) ∷ [])

-- `if value is not None: values[(k,)] = value`
unfoldable pub put_if : String → Option String → Updates
put_if k none = []
put_if k (some s) = (root k, str s) ∷ []

-- `v in {…}` for a set of texts; a list and a mapping are not hashable.
unfoldable pub is_in : Value → List String → Result Bool
unfolding is_one_of
is_in (arr xs) ss = err type_error
is_in (obj fs) ss = err type_error
is_in v ss = ok (is_one_of v ss)
