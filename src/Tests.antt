-- ===== src/Tests.antt =====
-- Runs on a small repository, and the theorems at concrete inputs.
mod Schema
mod Queue
mod Relay
mod Delivery
mod Reporting
mod Registry
mod Runs
mod Supervisor
mod Runner
mod Watch
mod Config
use mathlib.Core.Path.{subst}
use mathlib.Core.Option.{some-injective}
use agent_relay_auto.Prelude.{
  String, ◌≡◌, refl, true, false, none, some, [], ◌∷◌, ◌==◌, if◌then◌else◌, Dict, lookup, elem,
}
use agent_relay_auto.Prelude.Int.{pos, succ_ℤ}
use agent_relay_auto.Value.{
  Value, null, int, str, arr, obj, no_items, item, no_members, field as member, get, is_str, is_int,
}
use agent_relay_auto.Outcome.{Error, store_error, lock_error, ok, err}
use agent_relay_auto.Markdown.{
  Doc, entry, section, nested, root, reread, parse_from, parse_fenced_yaml,
}
use agent_relay_auto.Markdown.View.{seen, parse_from-seen}
use agent_relay_auto.Markdown.Laws.{flat}
use agent_relay_auto.Markdown.Write.{
  write_values, last_write, overlay_value, covers, all_flat, value_at, value_at-write,
}
use agent_relay_auto.Store.Base.{Disk, read_task, with_lock, write_task}
use agent_relay_auto.Store.Fields.{field, is_state}
use agent_relay_auto.State.Types.{
  StageEvidence, ClaimKey, TransitionResult, RunFinalization, transitions, find_status, bump,
}
use agent_relay_auto.State.Transition.{transition, transition_plan}
use agent_relay_auto.State.Transition.Effect.{transition_effect}
use agent_relay_auto.State.Claim.{claim}
use agent_relay_auto.State.Claim.Effect.{claim_effect, claim_exclusive, claim_again, holds_run}
use agent_relay_auto.State.Lease.{lease_ends}
use agent_relay_auto.State.Finish.{finish_run, run_result, consequence}
use agent_relay_auto.State.Finish.Effect.{finish_effect, finish_again, is_exhausted}
use agent_relay_auto.State.Report.{
  Completion, complete_report, report_body, check_report, write_done, settle, complete_index,
  report_result, begin_report, end_report, recover_pending_transactions, done_updates, read_project,
  index_plan,
}
use agent_relay_auto.State.Report.Recovery.{
  report_keys, cut_short, recovery_completes, wake_key_lost,
}

-- A STATE.md of the template's form, in the stage of the implementer.
abbrev implementing : Doc
implementing =
    entry "task" (str "TASK-1")
    ∷ entry "status" (str "IMPLEMENTING")
    ∷ entry "revision" (int (pos 4))
    ∷ entry "stage_round" (int (pos 2))
    ∷ entry "run_id" null
    ∷ entry "run_status" (str "idle")
    ∷ entry "run_attempt" (int (pos 0))
    ∷ entry "agent_failure_count" (int (pos 1))
    ∷ section "assignments"
    ∷ nested "planner" (str "planner-main")
    ∷ nested "implementer" (str "implementer-main")
    ∷ nested "reviewer" (str "reviewer-b")
    ∷ entry "current_role" (str "implementer")
    ∷ entry "current_participant" (str "implementer-main")
    ∷ entry "writer_session" null
    ∷ entry "reporting" null
    ∷ []

-- The same with a run that holds the lease.
abbrev leased : Doc
leased =
    entry "task" (str "TASK-1")
    ∷ entry "status" (str "IMPLEMENTING")
    ∷ entry "revision" (int (pos 5))
    ∷ entry "stage_round" (int (pos 2))
    ∷ entry "run_id" (str "run-a1")
    ∷ entry "run_status" (str "running")
    ∷ entry "agent_failure_count" (int (pos 1))
    ∷ section "assignments"
    ∷ nested "reviewer" (str "reviewer-b")
    ∷ entry "current_role" (str "implementer")
    ∷ entry "current_participant" (str "implementer-main")
    ∷ entry "writer_session" (str "run-a1")
    ∷ []

-- A task whose report is due, with the inline mapping of `prepare_reporting_wake`.
abbrev reporting : Doc
reporting =
    entry "task" (str "TASK-1")
    ∷ entry "status" (str "REPORTING")
    ∷ entry "revision" (int (pos 9))
    ∷ entry "stage_round" (int (pos 4))
    ∷ section "assignments"
    ∷ nested "planner" (str "planner-main")
    ∷ entry "current_role" (str "planner")
    ∷ entry "current_participant" (str "planner-main")
    ∷ entry "delivery_id" (str "delivery-1")
    ∷ entry "review_ref" (str "review.md")
    ∷ entry "reporting" (
        obj (member "phase" (str "submitted") (member "wake_key" (str "TASK-1:9:p:00") no_members)))
    ∷ []

abbrev index : Doc
index =
    entry "active_task" (str "TASK-1")
    ∷ section "tasks"
    ∷ nested "active" (arr (item (str "TASK-1") no_items))
    ∷ nested "completed" (arr no_items)
    ∷ []

abbrev disk : Doc → Disk
disk doc = record {
  locked = false;
  project = some index;
  tasks = ("TASK-1", doc) ∷ [];
  transactions = some [];
  clock = "2026-01-01T00:00:00+00:00";
  files = [];
}

abbrev evidence : StageEvidence
evidence = record {
  progress_ref = "progress/001.md";
  delivery_ref = some "delivery.md";
  review_ref = none;
  report_ref = none;
  delivery_id = some "delivery-1";
}

abbrev quoted : String → String
quoted s = s

abbrev key : ClaimKey
key = record {
  task_id = "TASK-1";
  expected_revision = pos 4;
  participant_id = "implementer-main";
  stage_round = pos 2;
}

abbrev completion : Completion
completion = record {
  task_id = "TASK-1";
  expected_revision = pos 9;
  participant_id = "planner-main";
  wake_key = "TASK-1:9:p:00";
  review_delivery_id = "delivery-1";
  review_ref = "review.md";
  report_ref = "report.md";
}

reported :
    complete_report quoted completion (disk reporting)
    ≡ (ok (report_result completion), (complete_report quoted completion (disk reporting)).1)
unfolding complete_report report_body with_lock read_task check_report write_done settle
    complete_index report_result begin_report end_report read_project index_plan done_updates
    write_task write_values is_int bump parse_fenced_yaml
reported = refl

recovery_completes_example :
    (recover_pending_transactions (cut_short completion (disk reporting))
      ≡ (err lock_error, cut_short completion (disk reporting)))
    × (recover_pending_transactions
          (record (cut_short completion (disk reporting)) { locked = false })
        ≡ (ok ("TASK-1" ∷ []), (complete_report quoted completion (disk reporting)).1))
unfolding lookup all_flat flat
recovery_completes_example =
    recovery_completes quoted completion (disk reporting) (report_result completion)
      (complete_report quoted completion (disk reporting)).1 reported refl refl
      (λ doc e. subst (λ x. all_flat report_keys x ≡ true) (some-injective reporting doc e) refl)

wake_key_lost_example :
    value_at "reporting" (write_values (done_updates completion (pos 5) "t") reporting)
    ≡ obj (member "phase" (str "completed") no_members)
unfolding all_flat flat
wake_key_lost_example = wake_key_lost completion (pos 5) "t" reporting refl refl

claimed : claim quoted key "run-a1" (disk implementing) ≡ (
  ok (record {
    task_id = "TASK-1";
    old_status = str "IMPLEMENTING";
    new_status = str "IMPLEMENTING";
    input_revision = pos 4;
    output_revision = pos 5;
    idempotent_replay = false;
  }),
  (claim quoted key "run-a1" (disk implementing)).1,
)
unfolding claim is_int succ_ℤ
claimed = refl

claim_effect_example :
    let d' = (claim quoted key "run-a1" (disk implementing)).1 in
    (is_int (field "TASK-1" "revision" (disk implementing)) (pos 4) ≡ true)
    × (holds_run "TASK-1" (disk implementing) ≡ false)
    × (field "TASK-1" "run_id" d' ≡ str "run-a1")
    × (field "TASK-1" "run_status" d' ≡ str "running")
    × (field "TASK-1" "writer_session" d' ≡ str "run-a1")
    × (field "TASK-1" "revision" d' ≡ int (succ_ℤ (pos 4)))
    × (field "TASK-1" "status" d' ≡ field "TASK-1" "status" (disk implementing))
    × (is_state "TASK-1" d' ≡ true)
unfolding is_state reread lookup all_flat flat
claim_effect_example =
    claim_effect quoted key "run-a1" (disk implementing) _ _ refl refl claimed refl

claim_again_example :
    (b : TransitionResult) × (claim quoted key "run-a1"
        (claim quoted key "run-a1" (disk implementing)).1
      ≡ (ok b, (claim quoted key "run-a1" (disk implementing)).1))
    × (b.idempotent_replay ≡ true)
    × (b.output_revision ≡ succ_ℤ (pos 4))
unfolding is_state reread lookup all_flat flat
claim_again_example = claim_again quoted key "run-a1" (disk implementing) _ _ refl refl claimed refl

claim_exclusive_example :
    (e : Error) × (claim quoted key "run-b2" (disk leased) ≡ (err e, disk leased))
unfolding holds_run field lookup value_at seen is_str
claim_exclusive_example = claim_exclusive quoted key "run-b2" (disk leased) refl refl

transition_effect_example :
    let d' = (transition "TASK-1" (pos 5) "implementation_completed" none (disk leased)).1 in
    (new : String) × (is_int (field "TASK-1" "revision" (disk leased)) (pos 5) ≡ true)
    × (find_status transitions (field "TASK-1" "status" (disk leased)) "implementation_completed"
        ≡ some new)
    × (field "TASK-1" "status" d' ≡ str new)
    × (field "TASK-1" "revision" d' ≡ int (succ_ℤ (pos 5)))
    × (is_state "TASK-1" d' ≡ true)
unfolding transition is_state lookup all_flat flat is_int get is_str
transition_effect_example =
    transition_effect "TASK-1" (pos 5) "implementation_completed" none (disk leased) _ _ refl refl

-- The second failure of a run, one retry allowed: the task is blocked.
finish_effect_example :
    let d' =
      (finish_run (pos 1) "TASK-1" "run-a1" (pos 3) (some "IMPLEMENTING") "exit" (disk leased)).1 in
    let result =
      run_result (some "IMPLEMENTING") (field "TASK-1" "status" (disk leased)) (pos 3) "exit" in
    (is_str (field "TASK-1" "run_id" (disk leased)) "run-a1" ≡ true)
    × (field "TASK-1" "run_id" d' ≡ null)
    × (field "TASK-1" "writer_session" d' ≡ null)
    × (field "TASK-1" "status" d' ≡ (
        if is_exhausted (pos 1) (pos 1) result
        then str "BLOCKED"
        else field "TASK-1" "status" (disk leased)))
    × (field "TASK-1" "agent_failure_count" d'
        ≡ int (if result == "completed" then pos 1 else succ_ℤ (pos 1)))
    × (str "blocked" ≡ str (consequence (pos 1) (pos 1) result).action)
    × (is_state "TASK-1" d' ≡ true)
unfolding finish_run is_state lookup all_flat flat field value_at seen get is_str succ_ℤ
    is_exhausted
finish_effect_example =
    finish_effect (pos 1) "TASK-1" "run-a1" (pos 3) (some "IMPLEMENTING") "exit" (pos 1)
      (disk leased) _ _ refl refl refl refl

finish_again_example :
    let d' =
      (finish_run (pos 1) "TASK-1" "run-a1" (pos 3) (some "IMPLEMENTING") "exit" (disk leased)).1 in
    (b : RunFinalization) × (finish_run
        (pos 1)
        "TASK-1"
        "run-a1"
        (pos 0)
        (some "IMPLEMENTING")
        "timeout"
        d'
      ≡ (ok b, d'))
    × (b.idempotent_replay ≡ true)
    × (b.action ≡ str "blocked")
unfolding finish_run is_state lookup all_flat flat field value_at seen reread get is_str succ_ℤ
    is_exhausted
finish_again_example =
    finish_again (pos 1) "TASK-1" "run-a1" (pos 3) (some "IMPLEMENTING") "exit" (pos 1)
      (disk leased) _ _ (pos 0) "timeout" refl refl refl refl refl

value_at-write_example :
    value_at "status"
      (write_values ((root "status", str "DONE") ∷ (root "run_id", null) ∷ []) leased)
    ≡ overlay_value
        (last_write "status" ((root "status", str "DONE") ∷ (root "run_id", null) ∷ []))
        (value_at "status" leased)
unfolding covers elem all_flat flat
value_at-write_example =
    value_at-write ("status" ∷ "run_id" ∷ []) "status"
      ((root "status", str "DONE") ∷ (root "run_id", null) ∷ []) leased refl refl

abbrev small : Doc
small = entry "status" (str "DONE") ∷ section "tasks" ∷ nested "active" null ∷ []

abbrev no_keys : Dict Value
no_keys = []

abbrev small_mapping : Dict Value
small_mapping = ("status", str "DONE") ∷ ("tasks", obj (member "active" null no_members)) ∷ []

parse_from-seen_example :
    lookup "tasks" small_mapping ≡ seen "tasks" none (lookup "tasks" no_keys) small
unfolding parse_from
parse_from-seen_example = parse_from-seen "tasks" none no_keys small refl

lease_ends_example :
    let d' = (claim quoted key "run-a1" (disk implementing)).1 in
    (b : RunFinalization) × (d'' : Disk) × (finish_run
        (pos 1)
        "TASK-1"
        "run-a1"
        (pos 1)
        none
        "exit"
        d'
      ≡ (ok b, d''))
    × (field "TASK-1" "run_id" d'' ≡ null)
    × (field "TASK-1" "writer_session" d'' ≡ null)
    × (field "TASK-1" "status" d'' ≡ field "TASK-1" "status" (disk implementing))
unfolding is_state reread lookup all_flat flat field value_at seen is_str
lease_ends_example =
    lease_ends (pos 1) "run-a1" (pos 1) "exit" quoted key (pos 1) (disk implementing) _ _ refl refl
      claimed refl refl refl
