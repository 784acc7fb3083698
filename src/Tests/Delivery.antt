-- ===== src/Tests/Delivery.antt =====
-- A delivery id made of digits.
use agent_relay_auto.Markdown.Laws.{flat}
use agent_relay_auto.Markdown.Write.{all_flat}
use agent_relay_auto.Prelude.{◌≡◌, refl, false, none, some, [], ◌∷◌}
use agent_relay_auto.Prelude.Int.{pos}
use agent_relay_auto.Value.{int, str, is_int}
use agent_relay_auto.Outcome.{Error, err}
use agent_relay_auto.Markdown.{entry, reread}
use agent_relay_auto.Store.Base.{Disk}
use agent_relay_auto.Store.Fields.{is_state}
use agent_relay_auto.State.Types.{StageEvidence, find_rule}
use agent_relay_auto.State.Stage.{complete_stage}
use agent_relay_auto.State.Report.{Completion, complete_report}
use agent_relay_auto.State.Report.Delivery.{numeric_delivery_stuck}

abbrev disk : Disk
disk = record {
  locked = false;
  project = none;
  tasks =
      (
        "T-1",
        entry "task" (str "T-1")
            ∷ entry "status" (str "IMPLEMENTING")
            ∷ entry "revision" (int (pos 5))
            ∷ entry "run_id" (str "run-a1")
            ∷ entry "current_role" (str "implementer")
            ∷ entry "current_participant" (str "implementer-main")
            ∷ entry "writer_session" (str "run-a1")
            ∷ [],
      )
      ∷ [];
  transactions = none;
  clock = "2026-01-01T00:00:00+00:00";
  files = [];
}

abbrev evidence : StageEvidence
evidence = record {
  progress_ref = "progress/001.md";
  delivery_ref = some "delivery.md";
  review_ref = none;
  report_ref = none;
  delivery_id = some "20240131";
}

abbrev done : Disk
done =
    (complete_stage "T-1" (pos 5) "implementer" "implementer-main" (some "run-a1")
      "implementation_completed" evidence disk).1

abbrev completion : Completion
completion = record {
  task_id = "T-1";
  expected_revision = pos 9;
  participant_id = "planner-main";
  wake_key = "k";
  review_delivery_id = "20240131";
  review_ref = "review.md";
  report_ref = "report.md";
}

numeric_delivery_stuck_example :
    (x : Error) × (complete_report (λ s. s) completion done ≡ (err x, done))
unfolding find_rule is_state reread complete_stage all_flat flat is_int
numeric_delivery_stuck_example =
    numeric_delivery_stuck "T-1" (pos 5) "implementer" "implementer-main" (some "run-a1")
      "implementation_completed" evidence
      (record {
        expected_status = "IMPLEMENTING";
        new_status = "REVIEWING";
        next_role = "reviewer";
      })
      "20240131" (pos 20240131) disk _ done refl refl refl refl refl done (λ s. s) completion refl
      refl
