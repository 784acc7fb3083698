-- ===== src/Tests/Schema.antt =====
-- The validators on a small project and on the state of one task.
use agent_relay_auto.Prelude.{String, ◌≡◌, refl, true, none, [], ◌∷◌, ◌≤◌, Dict}
use agent_relay_auto.Prelude.Int.{pos}
use agent_relay_auto.Value.{Value, int, str, obj, arr, no_items, item, no_members, field}
use agent_relay_auto.Outcome.{ok, err, schema_error}
use agent_relay_auto.State.Types.{StageEvidence, Rule, ClaimKey}
use agent_relay_auto.Schema.{
  ProjectQueue, length, validate_project_state, validate_active_task_mirror,
}
use agent_relay_auto.Schema.Queue.{lists_with, valid_is_serial}
use agent_relay_auto.Schema.Task.{validate_task_state}
use agent_relay_auto.Schema.Raises.{
  raises_only, is_stage_refusal, is_claim_refusal, is_finish_refusal, valid_raises,
}
use agent_relay_auto.State.Stage.{stage_plan}
use agent_relay_auto.State.Claim.{claim_plan}
use agent_relay_auto.State.Finish.{finish_plan}

abbrev project : Dict Value
project =
    ("active_task", str "T-1")
    ∷ (
      "tasks",
      obj (
          field "active" (arr (item (str "T-1") no_items))
            (field "queued" (arr (item (str "T-2") (item (str "T-3") no_items))) no_members)),
    )
    ∷ []

abbrev queue : ProjectQueue
queue = record { active = "T-1" ∷ []; queued = "T-2" ∷ "T-3" ∷ []; blocked = []; completed = [] }

project_is_valid : validate_project_state project ≡ ok queue
unfolding validate_project_state
project_is_valid = refl

mirror_is_valid : validate_active_task_mirror project ≡ ok tt
unfolding validate_active_task_mirror
mirror_is_valid = refl

-- a task in two lists
twice_listed :
    validate_project_state (
      (
        "tasks",
        obj (
            field "queued"
              (arr (item (str "T-1") no_items))
              (field "blocked" (arr (item (str "T-1") no_items)) no_members)),
      )
      ∷ [])
    ≡ err schema_error
unfolding validate_project_state
twice_listed = refl

valid_is_serial_example : (length queue.active ≤ 1) × ((x : String) → lists_with x queue ≤ 1)
valid_is_serial_example = valid_is_serial project queue project_is_valid

abbrev task_state : Dict Value
task_state =
    ("task", str "T-1")
    ∷ ("status", str "REPORTING")
    ∷ ("revision", int (pos 7))
    ∷ ("stage_round", int (pos 3))
    ∷ ("run_attempt", int (pos 2))
    ∷ ("rework_round", int (pos 0))
    ∷ ("auto_replan_count", int (pos 0))
    ∷ ("agent_failure_count", int (pos 1))
    ∷ ("run_status", str "finished")
    ∷ ("run_id", str "run-1")
    ∷ ("reporting", obj (field "phase" (str "pending") (field "wake_key" (str "k") no_members)))
    ∷ []

state_is_valid : validate_task_state task_state ≡ ok tt
unfolding validate_task_state
state_is_valid = refl

-- the mapping that is left when the wake key is lost
without_wake_key :
    validate_task_state
      (("reporting", obj (field "phase" (str "completed") no_members)) ∷ task_state)
    ≡ err schema_error
unfolding validate_task_state
without_wake_key = refl

abbrev stage_evidence : StageEvidence
stage_evidence = record {
  progress_ref = "progress.md";
  delivery_ref = none;
  review_ref = none;
  report_ref = none;
  delivery_id = none;
}

abbrev to_review : Rule
to_review = record {
  expected_status = "IMPLEMENTING";
  new_status = "REVIEWING";
  next_role = "reviewer";
}

abbrev claim_key : ClaimKey
claim_key = record {
  task_id = "T-1";
  expected_revision = pos 7;
  participant_id = "reviewer-main";
  stage_round = pos 3;
}

valid_raises_example :
    (raises_only is_stage_refusal (
        stage_plan "T-1"
          (pos 7)
          "implementer"
          "implementer-main"
          none
          "implementation_completed"
          stage_evidence
          to_review
          "2026-01-01"
          task_state)
      ≡ true)
    × (raises_only is_claim_refusal (claim_plan (λ s. s) claim_key "run-2" "2026-01-01" task_state)
        ≡ true)
    × (raises_only is_finish_refusal
          (finish_plan (pos 1) "T-1" "run-2" (pos 0) none "exit" "2026-01-01" task_state)
        ≡ true)
valid_raises_example =
    valid_raises task_state state_is_valid (λ s. s) claim_key (pos 1) (pos 7) "T-1" "implementer"
      "implementer-main" "run-2" "implementation_completed" "exit" "2026-01-01" none none (pos 0)
      stage_evidence to_review
