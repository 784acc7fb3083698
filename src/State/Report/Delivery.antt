-- ===== src/State/Report/Delivery.antt =====
-- The delivery id that `complete_stage` writes and `complete_report` compares with.
use mathlib.Core.Bool.{false≢true}
use agent_relay_auto.Prelude.{
  String, ◌≡◌, ◌∙◌, true, Option, some, arith, Dict, lookup, inl, inr, Bool-cases, Option-cases,
}
use agent_relay_auto.Prelude.Int.{ℤ}
use agent_relay_auto.Value.{Value, int, str, get, is_str}
use agent_relay_auto.Outcome.{Error, store_error, format_error, lock_error, ok, err, Result-cases}
use agent_relay_auto.Markdown.{reread, parse_fenced_yaml}
use agent_relay_auto.Markdown.Write.{get-parse}
use agent_relay_auto.Store.Base.{Disk, read_task, with_lock}
use agent_relay_auto.Store.Fields.{field, is_state}
use agent_relay_auto.State.Types.{TransitionResult, StageEvidence, Rule, role_events, find_rule}
use agent_relay_auto.State.Stage.{complete_stage}
use agent_relay_auto.State.Stage.Effect.{stage_delivery}
use agent_relay_auto.State.Report.{Completion, check_report, report_body, complete_report}

-- A report that passes the checks names the delivery of the task.
check_report-delivery :
    (lower : String → String) (c : Completion) (m : Dict Value) (u : Unit {0})
    → check_report lower c m ≡ ok u
    → is_str (get m "delivery_id") c.review_delivery_id ≡ true
unfolding check_report
check_report-delivery lower c m u h = ground arith

module _ (lower : String → String) (c : Completion) (i : ℤ) where
  -- No report completes a task whose delivery id reads as a number.
  number_refused :
      (d : Disk)
      → field c.task_id "delivery_id" d ≡ int i
      → (e : Error) × (complete_report lower c d ≡ (err e, d))
  unfolding complete_report with_lock report_body read_task field is_str
  number_refused d h = elim (Bool-cases d.locked) [
    | inl l ↦ (lock_error, ground arith)
    | inr l ↦ elim (Option-cases (lookup c.task_id d.tasks)) [
      | inl n ↦ (store_error, ground arith)
      | inr (doc, n) ↦ elim (Option-cases (parse_fenced_yaml doc)) [
        | inl p ↦ (format_error, ground arith)
        | inr (m, p) ↦ elim (Result-cases (check_report lower c m)) [
          | inl (e, q) ↦ (e, ground arith)
          | inr (u, q) ↦
              let named = check_report-delivery lower c m u q in
              let number : get m "delivery_id" ≡ int i =
                ground (arith, get-parse doc "delivery_id" p) in
              absurd (false≢true (rw number at named))
        ]
      ]
    ]
  ]

-- A stage that records a delivery id which reads back as a number, such as 20240131, succeeds, and
-- from then on, while the id is not written again, no report completes the task.
pub numeric_delivery_stuck :
    (task : String) (expected : ℤ) (role participant : String) (run : Option String)
    (event : String) (e : StageEvidence) (rule : Rule) (id : String) (i : ℤ) (d : Disk)
    (a : TransitionResult) (d' : Disk)
    → find_rule role_events role event ≡ some rule
    → e.delivery_id ≡ some id
    → reread (str id) ≡ int i
    → is_state task d ≡ true
    → complete_stage task expected role participant run event e d ≡ (ok a, d')
    → (later : Disk) (lower : String → String) (c : Completion) → c.task_id ≡ task
    → field task "delivery_id" later ≡ field task "delivery_id" d'
    → (x : Error) × (complete_report lower c later ≡ (err x, later))
numeric_delivery_stuck task expected role participant run event e rule id i d a d' known given
      number s h later lower c same kept =
    number_refused lower c i later (
      rw same (
        kept
        ∙ (stage_delivery task expected role participant run event e rule id d a d' known given s h
            ∙ number)))
