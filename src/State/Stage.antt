-- ===== src/State/Stage.antt =====
-- `StateStore.complete_stage` of agent_relay_runtime/state_store.py.
pub mod Effect
use Prim.Native.String.{◌++◌ as ◌<>◌}
use agent_relay_auto.Prelude.{
  String, Bool, true, false, not, ◌&&◌, ◌||◌, Option, none, some, [], ◌∷◌, ◌++◌, ◌==◌,
  if◌then◌else◌, Dict, is_some,
}
use agent_relay_auto.Prelude.Int.{ℤ, pos, succ_ℤ}
use agent_relay_auto.Value.{
  Value, null, int, str, get, get_field, mapping_or_empty, truthy, is_int, is_str,
}
use agent_relay_auto.Outcome.{
  revision_conflict, illegal_transition, Result, ok, err, ◌>>=◌, ◌>>◌, raise_if,
}
use agent_relay_auto.Markdown.{root}
use agent_relay_auto.Markdown.Write.{Updates}
use agent_relay_auto.Store.Base.{Action, Plan, update_task}
use agent_relay_auto.State.Types.{
  TransitionResult, StageEvidence, Rule, role_events, find_rule, bump, bump_if, put_if,
}

-- The lease test: a background role must hold the run, the Planner must not carry one.
unfoldable pub run_refused : String → Option String → Dict Value → Bool
unfolding get is_str
run_refused role run m =
    if (role == "implementer") || (role == "reviewer")
    then (elim run [
      | none ↦ true
      | some r ↦
          (r == "") || not (is_str (get m "run_id") r) || not (is_str (get m "writer_session") r)
    ])
    else is_some run

unfoldable pub next_participant : String → String → String → Dict Value → Value
unfolding get get_field mapping_or_empty truthy
next_participant next role participant m =
    let assigned = get_field (mapping_or_empty (get m "assignments")) next in
    if truthy assigned
    then assigned
    else if next == role
    then str participant
    else str (next <> "-main")

unfoldable pub evidence_updates : StageEvidence → Updates
unfolding put_if
evidence_updates e =
    put_if "code_delivery_ref" e.delivery_ref
    ++ (put_if "delivery_id" e.delivery_id
        ++ (put_if "review_ref" e.review_ref ++ put_if "report_ref" e.report_ref))

unfoldable pub release_if : Bool → Updates
release_if false = []
release_if true = (root "writer_session", null) ∷ (root "execution", str "idle") ∷ []

-- the mapping `values` of the method, in its order
unfoldable pub stage_updates :
    Rule → ℤ → String → String → StageEvidence → String → ℤ → Updates → Updates → Value → Updates
unfolding evidence_updates release_if
stage_updates rule expected role participant evidence now round rework replan next =
    (root "status", str rule.new_status)
    ∷ (root "previous_role", str role)
    ∷ (root "previous_participant", str participant)
    ∷ (root "previous_progress", str evidence.progress_ref)
    ∷ (root "current_role", str rule.next_role)
    ∷ (root "current_participant", next)
    ∷ (root "stage_round", int round)
    ∷ (root "revision", int (succ_ℤ expected))
    ∷ (root "updated_at", str now)
    ∷ (evidence_updates evidence ++ (rework ++ (replan ++ release_if (role == "planner"))))

unfoldable pub stage_plan :
    String
    → ℤ
    → String
    → String
    → Option String
    → String
    → StageEvidence
    → Rule
    → String
    → Dict Value
    → Plan TransitionResult
unfolding run_refused next_participant stage_updates bump bump_if
stage_plan task expected role participant run event evidence rule now m = do
  raise_if (not (is_int (get m "revision") expected)) revision_conflict
  raise_if (not (is_str (get m "status") rule.expected_status)) illegal_transition
  raise_if
      (not (is_str (get m "current_role") role)
        || not (is_str (get m "current_participant") participant))
      illegal_transition
  raise_if (run_refused role run m) illegal_transition
  round ← bump "stage_round" (pos 1) m
  rework ← bump_if (event == "changes_requested") "rework_round" m
  replan ← bump_if (event == "replan_required") "auto_replan_count" m
  ok (
    some (
        stage_updates rule expected role participant evidence now round rework replan
          (next_participant rule.next_role role participant m)),
    record {
      task_id = task;
      old_status = str rule.expected_status;
      new_status = str rule.new_status;
      input_revision = expected;
      output_revision = succ_ℤ expected;
      idempotent_replay = false;
    },
  )

unfoldable pub complete_stage :
    String → ℤ → String → String → Option String → String → StageEvidence → Action TransitionResult
unfolding find_rule stage_plan update_task
complete_stage task expected role participant run event evidence d =
    elim (find_rule role_events role event) [
      | none ↦ (err illegal_transition, d)
      | some rule ↦
          update_task task (stage_plan task expected role participant run event evidence rule) d
    ]
