-- ===== src/Relay/Stage.antt =====
-- relay_state.py: the commands that complete a stage, each with its evidence files.
use text.Mathlib.Text.{find?}
use agent_relay_auto.Prelude.{
  String, Bool, true, not, ◌&&◌, Option, none, some, List, [], ◌∷◌, ◌++◌, ◌==◌, if◌then◌else◌,
  lookup, is_some,
}
use agent_relay_auto.Prelude.Int.{ℤ}
use agent_relay_auto.Value.{int, bool, str}
use agent_relay_auto.Outcome.{value_error, Result, ok, err, ◌>>=◌, ◌>>◌, raise_if, or_raise}
use agent_relay_auto.Store.Base.{Disk, Action}
use agent_relay_auto.State.Types.{TransitionResult, StageEvidence}
use agent_relay_auto.State.Stage.{complete_stage}
use agent_relay_auto.State.Report.{Completion, complete_report}
use agent_relay_auto.Relay.{Payload, task_file}

-- What the commands use of Python's texts: `blank` is `not text.strip()`, `before_hash` the first
-- part of `text.split("#", 1)`, `lower` is `str.lower`, and `delivery_id_in` the first group of the
-- first match of the regular expression for `delivery_id`, and `path` is `str(Path(text))`.
pub record Texts : Type 0 where
  pub blank : String → Bool
  pub before_hash : String → String
  pub is_absolute : String → Bool
  pub lower : String → String
  pub delivery_id_in : String → Option String
  pub path : String → String

-- `result.__dict__`
unfoldable pub result_payload : TransitionResult → Payload
result_payload r =
    ("task_id", str r.task_id)
    ∷ ("old_status", r.old_status)
    ∷ ("new_status", r.new_status)
    ∷ ("input_revision", int r.input_revision)
    ∷ ("output_revision", int r.output_revision)
    ∷ ("idempotent_replay", bool r.idempotent_replay)
    ∷ []

-- a payload with more members, or the exception
unfoldable pub with_members : Payload → Result TransitionResult × Disk → Result Payload × Disk
unfolding result_payload
with_members more (err e, d) = (err e, d)
with_members more (ok r, d) = (ok (result_payload r ++ more), d)

-- A command checks its files, and then it calls the store.
unfoldable pub after {ℓ κ} : {A : Type ℓ} {B : Type κ} → Result A → (A → Action B) → Action B
after checked call d = elim checked [ err e ↦ (err e, d) | ok a ↦ call a d ]

unfoldable pub verdict_event : String → Option String
verdict_event verdict =
    if verdict == "PASS"
    then some "review_passed"
    else if verdict == "CHANGES_REQUESTED"
    then some "changes_requested"
    else if verdict == "REPLAN_REQUIRED"
    then some "replan_required"
    else none

abbrev pub report_terms : List String
report_terms =
    "goal" ∷ "delivery" ∷ "tests" ∷ "reviewer" ∷ "limitations" ∷ "usage" ∷ "not executed" ∷ []

-- `not [term for term in required if term not in content]`
unfoldable pub has_terms : List String → String → Bool
has_terms [] content = true
has_terms (t ∷ ts) content = is_some (find? content t) && has_terms ts content

unfoldable pub verdict_evidence : String → String → StageEvidence
verdict_evidence evidence delivery_ref = record {
  progress_ref = evidence;
  delivery_ref = some delivery_ref;
  review_ref = some evidence;
  report_ref = none;
  delivery_id = none;
}

unfoldable pub plan_evidence : String → StageEvidence
plan_evidence progress = record {
  progress_ref = progress;
  delivery_ref = none;
  review_ref = none;
  report_ref = none;
  delivery_id = none;
}

unfoldable pub delivery_evidence : String → String → String → StageEvidence
delivery_evidence progress delivery_ref id = record {
  progress_ref = progress;
  delivery_ref = some delivery_ref;
  review_ref = none;
  report_ref = none;
  delivery_id = some id;
}

module _ (texts : Texts) where
  -- `_require_file`: the text of a file that is there and not blank
  unfoldable pub require_file : String → Disk → Result String
  unfolding lookup
  require_file path d = do
    text ← or_raise (lookup path d.files) value_error
    raise_if (texts.blank text) value_error
    ok text

  -- `_require_task_reference`
  unfoldable pub require_reference : String → String → Disk → Result String
  unfolding require_file task_file
  require_reference task reference d =
      let path = texts.before_hash reference in
      require_file (if texts.is_absolute path then path else task_file task path) d

  unfoldable pub verdict_checked : String → String → String → String → Disk → Result String
  unfolding verdict_event require_file require_reference
  verdict_checked task verdict evidence delivery_ref d = do
    text ← require_file (texts.path evidence) d
    event ← or_raise (verdict_event verdict) value_error
    delivery ← require_reference task delivery_ref d
    ok event

  -- `_verdict`
  unfoldable pub verdict : String → ℤ → String → String → String → String → String → Action Payload
  unfolding verdict_checked after verdict_evidence
  verdict task expected given evidence participant run delivery_ref d = with_members [] (
      after (verdict_checked task given evidence delivery_ref d)
        (λ event.
          complete_stage task expected "reviewer" participant (some run) event
            (verdict_evidence (texts.path evidence) delivery_ref))
        d)

  unfoldable pub report_checked : Completion → Disk → Result String
  unfolding has_terms require_reference lookup
  report_checked c d = do
    content ← or_raise (lookup c.report_ref d.files) value_error
    raise_if (not (has_terms report_terms (texts.lower content))) value_error
    require_reference c.task_id c.review_ref d

  -- `_report_done`
  unfoldable pub report_done : Completion → Action Payload
  unfolding report_checked after
  report_done c d =
      with_members [] (after (report_checked c d) (λ _. complete_report texts.lower c) d)

  unfoldable pub plan_checked : String → String → String → String → Disk → Result String
  unfolding require_file require_reference
  plan_checked task plan approval_ref progress d = do
    plan_text ← require_file plan d
    progress_text ← require_file progress d
    require_reference task approval_ref d

  -- `_plan_done`
  unfoldable pub plan_done : String → ℤ → String → String → String → String → Action Payload
  unfolding plan_checked after plan_evidence
  plan_done task expected participant plan approval_ref progress d =
      with_members (("plan", str plan) ∷ ("approval_ref", str approval_ref) ∷ []) (
        after (plan_checked task plan approval_ref progress d)
          (λ _.
            complete_stage task expected "planner" participant none "plan_completed"
              (plan_evidence progress))
          d)

  unfoldable pub delivery_checked : String → String → String → String → Disk → Result String
  unfolding require_file require_reference
  delivery_checked task execution delivery_ref progress d = do
    execution_text ← require_file execution d
    progress_text ← require_file progress d
    delivery ← require_reference task delivery_ref d
    or_raise (texts.delivery_id_in execution_text) value_error

  -- `_implementation_done`
  unfoldable pub implementation_done :
      String → ℤ → String → String → String → String → String → Action Payload
  unfolding delivery_checked after delivery_evidence
  implementation_done task expected participant run execution delivery_ref progress d =
      with_members (("execution", str execution) ∷ ("delivery_ref", str delivery_ref) ∷ []) (
        after (delivery_checked task execution delivery_ref progress d)
          (λ id.
            complete_stage task expected "implementer" participant (some run)
              "implementation_completed" (delivery_evidence progress delivery_ref id))
          d)
