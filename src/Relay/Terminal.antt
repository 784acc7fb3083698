-- ===== src/Relay/Terminal.antt =====
-- What the commands refuse, and what a refused command leaves behind.
pub mod Final
use agent_relay_auto.Prelude.{
  ℕ, String, ◌≡◌, ◌≢◌, refl, sym, ◌∙◌, Bool, true, false, ◌||◌, Option, none, some, [], ◌∷◌, arith,
  Dict, elem, lookup, inl, inr, Option-cases, ◌⊎◌,
}
use agent_relay_auto.Prelude.Int.{ℤ}
use agent_relay_auto.Value.{Value, str, get, is_one_of}
use agent_relay_auto.Outcome.{
  Error, Result, ok, err, value_error, illegal_transition, revision_conflict, Result-cases,
}
use agent_relay_auto.Markdown.Write.{Updates}
use agent_relay_auto.Store.Base.{Disk, Action, Plan, read_task, update_task}
use agent_relay_auto.Store.Laws.{Returned, update_task_ok, update_task_err, update_task-cases}
use agent_relay_auto.Store.Fields.{field, get-field}
use agent_relay_auto.State.Types.{TransitionResult, StageEvidence, role_events, find_rule}
use agent_relay_auto.State.Stage.{stage_plan, complete_stage}
use agent_relay_auto.Relay.{
  Payload, publish, wait_plan, wait_user, check_decision, answer_plan, answer, cancel_plan, cancel,
  status, refuse_terminal, require_revision, terminal,
}
use agent_relay_auto.Relay.Stage.{
  Texts, with_members, after, verdict, plan_done, implementation_done, verdict_checked,
  plan_checked, delivery_checked, verdict_evidence, plan_evidence, delivery_evidence,
}
use agent_relay_auto.Relay.Run.{
  Command, status_command, wait_command, answer_command, plan_command, implementation_command,
  verdict_command, report_command, cancel_command, handle, main,
}

-- A call that raises leaves the files as they were.
abbrev Careful {ℓ} : {A : Type ℓ} → Result A × Disk → Disk → Type ℓ
Careful r d = (e : Error) → r.0 ≡ err e → r.1 ≡ d

update_task-Careful {ℓ} :
    {A : Type ℓ} (task : String) (plan : String → Dict Value → Plan A) (d : Disk)
    → Careful (update_task task plan d) d
update_task-Careful task plan d e h =
    update_task_err task plan d e (update_task task plan d).1
      (λ i. (h i, (update_task task plan d).1))

publish-Careful :
    (x : Result (Payload × Dict String) × Disk) (d : Disk) → Careful x d → Careful (publish x) d
unfolding publish
publish-Careful (err e', d') d c e h = c e' refl
publish-Careful (ok a, d') d c e h = absurd (ground arith)

with_members-Careful :
    (more : Payload) (x : Result TransitionResult × Disk) (d : Disk)
    → Careful x d
    → Careful (with_members more x) d
unfolding with_members
with_members-Careful more (err e', d') d c e h = c e' refl
with_members-Careful more (ok a, d') d c e h = absurd (ground arith)

after-Careful {ℓ κ} :
    {A : Type ℓ} {B : Type κ} (r : Result A) (call : A → Action B) (d : Disk)
    → ((a : A) → Careful (call a d) d)
    → Careful (after r call d) d
unfolding after
after-Careful (err e') call d c e h = refl
after-Careful (ok a) call d c e h = c a e h

staged-Careful {ℓ} :
    {A : Type ℓ} (more : Payload) (r : Result A) (call : A → Action TransitionResult) (d : Disk)
    → ((a : A) → Careful (call a d) d)
    → Careful (with_members more (after r call d)) d
staged-Careful more r call d c =
    with_members-Careful more (after r call d) d (after-Careful r call d c)

complete_stage-Careful :
    (task : String) (expected : ℤ) (role participant : String) (run : Option String)
    (event : String) (evidence : StageEvidence) (d : Disk)
    → Careful (complete_stage task expected role participant run event evidence d) d
unfolding complete_stage
complete_stage-Careful task expected role participant run event evidence d e h =
    elim (Option-cases (find_rule role_events role event)) [
      | inl n ↦ ground arith
      | inr (rule, n) ↦
          let plan = stage_plan task expected role participant run event evidence rule in
          let same : complete_stage task expected role participant run event evidence d
              ≡ update_task task plan d =
            ground arith in
          rw same (update_task-Careful task plan d e (rw same at h))
    ]

wait_user-Careful :
    (task : String) (expected : ℤ) (file role id : String) (d : Disk)
    → Careful (wait_user task expected file role id d) d
unfolding wait_user
wait_user-Careful task expected file role id d e h = elim (Option-cases (lookup file d.files)) [
  | inl n ↦ ground arith
  | inr (text, n) ↦
      let plan = wait_plan task expected role id text in
      let same : wait_user task expected file role id d ≡ publish (update_task task plan d) =
        ground arith in
      rw same (
        publish-Careful (update_task task plan d) d (update_task-Careful task plan d) e
          (rw same at h))
]

answer-Careful :
    (display : Value → String) (task : String) (expected : ℤ) (id file : String)
    (key value : Option String) (d : Disk)
    → Careful (answer display task expected id file key value d) d
unfolding answer
answer-Careful display task expected id file key value d e h =
    elim (Option-cases (lookup file d.files)) [
      | inl n ↦ ground arith
      | inr (text, n) ↦ elim (Result-cases (check_decision key value)) [
        | inl (x, c) ↦ ground arith
        | inr (u, c) ↦
            let plan = answer_plan display task expected id key value text in
            let same : answer display task expected id file key value d
                ≡ publish (update_task task plan d) =
              ground arith in
            rw same (
              publish-Careful (update_task task plan d) d (update_task-Careful task plan d) e
                (rw same at h))
      ]
    ]

status-Careful : (task : String) (d : Disk) → Careful (status task d) d
unfolding status
status-Careful task d e h = ground (arith, Result-cases (read_task task d))

-- the command completes a report, which writes three files
unfoldable pub is_report : Command → Bool
is_report (report_command _) = true
is_report _ = false

module _ (texts : Texts) (display : Value → String) (id : String) where
  handle-Careful :
      (c : Command) (d : Disk) → is_report c ≡ false → Careful (handle texts display id c d) d
  unfolding handle is_report cancel verdict plan_done implementation_done
  handle-Careful (status_command task) d n = status-Careful task d
  handle-Careful (wait_command task expected question role) d n =
      wait_user-Careful task expected question role id d
  handle-Careful (answer_command task expected question text key value) d n =
      answer-Careful display task expected question text key value d
  handle-Careful (plan_command task expected participant plan approval progress) d n =
      staged-Careful (("plan", str plan) ∷ ("approval_ref", str approval) ∷ [])
        (plan_checked texts task plan approval progress d)
        (λ _.
          complete_stage task expected "planner" participant none "plan_completed"
            (plan_evidence progress))
        d
        (λ a.
          complete_stage-Careful task expected "planner" participant none "plan_completed"
            (plan_evidence progress) d)
  handle-Careful (implementation_command task expected participant run execution delivery progress)
        d n =
      staged-Careful (("execution", str execution) ∷ ("delivery_ref", str delivery) ∷ [])
        (delivery_checked texts task execution delivery progress d)
        (λ id.
          complete_stage task expected "implementer" participant (some run)
            "implementation_completed" (delivery_evidence progress delivery id))
        d
        (λ a.
          complete_stage-Careful task expected "implementer" participant (some run)
            "implementation_completed" (delivery_evidence progress delivery a) d)
  handle-Careful (verdict_command task expected given evidence participant run delivery) d n =
      staged-Careful [] (verdict_checked texts task given evidence delivery d)
        (λ event.
          complete_stage task expected "reviewer" participant (some run) event
            (verdict_evidence (texts.path evidence) delivery))
        d
        (λ a.
          complete_stage-Careful task expected "reviewer" participant (some run) a
            (verdict_evidence (texts.path evidence) delivery) d)
  handle-Careful (report_command c) d n = absurd (ground arith)
  handle-Careful (cancel_command task expected authorization) d n =
      publish-Careful (update_task task (cancel_plan task expected authorization) d) d
        (update_task-Careful task (cancel_plan task expected authorization) d)

  -- A command other than report-done that exits with a code other than 0 prints nothing and leaves
  -- every file as it was.
  pub refused_unchanged :
      (c : Command) (d : Disk) (code : ℕ) (out : Option Payload) (d' : Disk)
      → is_report c ≡ false
      → main texts display id c d ≡ ((code, out), d')
      → code ≢ 0
      → (out ≡ none) × (d' ≡ d)
  unfolding main
  refused_unchanged c d code out d' n h failed =
      elim (Result-cases (handle texts display id c d).0) [
        | inl (e, r) ↦
            let same : (handle texts display id c d).1 ≡ d = handle-Careful c d n e r in
            (ground arith, ground arith)
        | inr (p, r) ↦ absurd (failed (ground arith))
      ]
