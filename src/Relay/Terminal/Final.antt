-- ===== src/Relay/Terminal/Final.antt =====
-- A task that is DONE or CANCELLED takes no more commands.
use agent_relay_auto.Prelude.{
  ℕ, String, ◌≡◌, ◌≢◌, refl, Bool, true, false, Option, none, some, List, [], ◌∷◌, arith, ◌==◌,
  Dict, lookup, inl, inr, Option-cases, Bool-cases, eq_iff, ◌⊎◌,
}
use agent_relay_auto.Prelude.Int.{ℤ}
use agent_relay_auto.Value.{Value, str, get, is_str, is_int}
use agent_relay_auto.Outcome.{Error, Result, ok, err, value_error, illegal_transition, Result-cases}
use agent_relay_auto.Markdown.Write.{Updates}
use agent_relay_auto.Store.Base.{Disk, Action, Plan, update_task}
use agent_relay_auto.Store.Laws.{Returned, update_task_ok, update_task-cases}
use agent_relay_auto.Store.Fields.{field, get-field}
use agent_relay_auto.State.Types.{
  TransitionResult, StageEvidence, Rule, role_events, find_rule, is_in,
}
use agent_relay_auto.State.Stage.{stage_plan, complete_stage}
use agent_relay_auto.Relay.{
  Payload, publish, wait_plan, wait_user, check_decision, answer_plan, answer, cancel_plan, cancel,
  refuse_terminal, require_revision,
}
use agent_relay_auto.Relay.Stage.{
  Texts, with_members, after, verdict, plan_done, implementation_done, verdict_checked,
  plan_checked, delivery_checked, verdict_evidence, plan_evidence, delivery_evidence,
}
use agent_relay_auto.Relay.Run.{
  Command, status_command, wait_command, answer_command, plan_command, implementation_command,
  verdict_command, report_command, cancel_command, handle, main, exit_code,
}

exit_code-ne-zero : (e : Error) → exit_code e ≢ 0
unfolding exit_code
exit_code-ne-zero e h = ground arith

abbrev IsFinal : Value → Type 0
IsFinal v = (v ≡ str "DONE") ⊎ (v ≡ str "CANCELLED")

-- A call raises and leaves the files as they were.
abbrev Refused {ℓ} : {A : Type ℓ} → Result A × Disk → Disk → Type ℓ
Refused x d = (e : Error) × (x ≡ (err e, d))

-- A method whose plan never succeeds on a final status is refused on a final task.
update_task-Refused {ℓ} :
    {A : Type ℓ} (task : String) (plan : String → Dict Value → Plan A)
    → ((now : String) (m : Dict Value) (x : Option Updates × A)
        → plan now m ≡ ok x
        → ¬ IsFinal (get m "status"))
    → (d : Disk) → IsFinal (field task "status" d)
    → Refused (update_task task plan d) d
update_task-Refused task plan never d final = elim (update_task-cases task plan d) [
  | inl r ↦ r
  | inr (a, d', h) ↦
      let r : Returned task plan d a d' = update_task_ok task plan d a d' h in
      absurd (
        never d.clock r.mapping (r.updates, a) r.decided
          (rw (get-field task plan "status" r) final))
]

publish-Refused :
    (x : Result (Payload × Dict String) × Disk) (d : Disk) → Refused x d → Refused (publish x) d
unfolding publish
publish-Refused x d (e, h) = (e, rw h)

with_members-Refused :
    (more : Payload) (x : Result TransitionResult × Disk) (d : Disk)
    → Refused x d
    → Refused (with_members more x) d
unfolding with_members
with_members-Refused more x d (e, h) = (e, rw h)

staged-Refused {ℓ} :
    {A : Type ℓ} (more : Payload) (r : Result A) (call : A → Action TransitionResult) (d : Disk)
    → ((a : A) → Refused (call a d) d)
    → Refused (with_members more (after r call d)) d
unfolding after
staged-Refused more (err e) call d c = with_members-Refused more (err e, d) d (e, refl)
staged-Refused more (ok a) call d c = with_members-Refused more (call a d) d (c a)

wait_never :
    (task : String) (expected : ℤ) (role id text now : String) (m : Dict Value)
    (x : Option Updates × (Payload × Dict String))
    → wait_plan task expected role id text now m ≡ ok x
    → ¬ IsFinal (get m "status")
unfolding wait_plan require_revision refuse_terminal is_in
wait_never task expected role id text now m x h (inl s) = ground arith
wait_never task expected role id text now m x h (inr s) = ground arith

cancel_never :
    (task : String) (expected : ℤ) (authorization now : String) (m : Dict Value)
    (x : Option Updates × (Payload × Dict String))
    → cancel_plan task expected authorization now m ≡ ok x
    → ¬ IsFinal (get m "status")
unfolding cancel_plan require_revision refuse_terminal is_in
cancel_never task expected authorization now m x h (inl s) = ground arith
cancel_never task expected authorization now m x h (inr s) = ground arith

answer_never :
    (display : Value → String) (task : String) (expected : ℤ) (id : String)
    (key value : Option String) (text now : String) (m : Dict Value)
    (x : Option Updates × (Payload × Dict String))
    → answer_plan display task expected id key value text now m ≡ ok x
    → ¬ IsFinal (get m "status")
unfolding answer_plan require_revision is_str
answer_never display task expected id key value text now m x h (inl s) = ground arith
answer_never display task expected id key value text now m x h (inr s) = ground arith

abbrev IsOpen : List (String × String × Rule) → Type 0
IsOpen [] = Unit
IsOpen ((_, _, x) ∷ rows) =
    ((x.expected_status == "DONE") ≡ false)
    × ((x.expected_status == "CANCELLED") ≡ false)
    × IsOpen rows

find_rule-open :
    (rows : List (String × String × Rule)) (role event : String) (rule : Rule)
    → IsOpen rows
    → find_rule rows role event ≡ some rule
    → ((rule.expected_status == "DONE") ≡ false) × ((rule.expected_status == "CANCELLED") ≡ false)
unfolding find_rule
find_rule-open [] role event rule o h = cc
find_rule-open ((s, e, y) ∷ rows) role event rule o h =
    ground (arith, find_rule-open rows role event rule o.2)

-- No row of the table starts at a final status.
role_events-IsOpen : IsOpen role_events
role_events-IsOpen =
    (refl, refl, (refl, refl, (refl, refl, (refl, refl, (refl, refl, (refl, refl, tt))))))

stage_never :
    (task : String) (expected : ℤ) (role participant : String) (run : Option String)
    (event : String) (evidence : StageEvidence) (rule : Rule) (now : String) (m : Dict Value)
    (x : Option Updates × TransitionResult)
    → find_rule role_events role event ≡ some rule
    → stage_plan task expected role participant run event evidence rule now m ≡ ok x
    → ¬ IsFinal (get m "status")
unfolding stage_plan
stage_never task expected role participant run event evidence rule now m x f h final =
    let expected_here : is_str (get m "status") rule.expected_status ≡ true = stage_expects in
    let (o, o') = find_rule-open role_events role event rule role_events-IsOpen f in
    elim final [
      | inl s ↦ closed "DONE" s o expected_here
      | inr s ↦ closed "CANCELLED" s o' expected_here
    ]
  where
    stage_expects : is_str (get m "status") rule.expected_status ≡ true
    stage_expects = elim (Bool-cases (is_str (get m "status") rule.expected_status)) [
      | inl t ↦ t
      | inr t ↦ absurd (ground (arith, Bool-cases (is_int (get m "revision") expected)))
    ]

    closed :
        (v : String)
        → get m "status" ≡ str v
        → (rule.expected_status == v) ≡ false
        → is_str (get m "status") rule.expected_status ≡ true
        → ⊥
    closed v s o h = ground (arith, eq_iff v rule.expected_status, eq_iff rule.expected_status v)

complete_stage-Refused :
    (task : String) (expected : ℤ) (role participant : String) (run : Option String)
    (event : String) (evidence : StageEvidence) (d : Disk)
    → IsFinal (field task "status" d)
    → Refused (complete_stage task expected role participant run event evidence d) d
unfolding complete_stage
complete_stage-Refused task expected role participant run event evidence d final =
    elim (Option-cases (find_rule role_events role event)) [
      | inl n ↦ (illegal_transition, ground arith)
      | inr (rule, n) ↦
          let plan = stage_plan task expected role participant run event evidence rule in
          let (e, h) =
            update_task-Refused task plan
              (λ now m x.
                stage_never task expected role participant run event evidence rule now m x n)
              d final in
          (e, ground arith)
    ]

wait_user-Refused :
    (task : String) (expected : ℤ) (file role id : String) (d : Disk)
    → IsFinal (field task "status" d)
    → Refused (wait_user task expected file role id d) d
unfolding wait_user
wait_user-Refused task expected file role id d final = elim (Option-cases (lookup file d.files)) [
  | inl n ↦ (value_error, ground arith)
  | inr (text, n) ↦
      let plan = wait_plan task expected role id text in
      let (e, h) =
        publish-Refused (update_task task plan d) d
          (update_task-Refused task plan (wait_never task expected role id text) d final) in
      (e, ground arith)
]

answer-Refused :
    (display : Value → String) (task : String) (expected : ℤ) (id file : String)
    (key value : Option String) (d : Disk)
    → IsFinal (field task "status" d)
    → Refused (answer display task expected id file key value d) d
unfolding answer
answer-Refused display task expected id file key value d final =
    elim (Option-cases (lookup file d.files)) [
      | inl n ↦ (value_error, ground arith)
      | inr (text, n) ↦ elim (Result-cases (check_decision key value)) [
        | inl (x, c) ↦ (x, ground arith)
        | inr (u, c) ↦
            let plan = answer_plan display task expected id key value text in
            let (e, h) = publish-Refused (update_task task plan d) d (
              update_task-Refused task plan (answer_never display task expected id key value text) d
                final) in
            (e, ground arith)
      ]
    ]

-- the command would change the task; a report is not among them
unfoldable pub changes : String → Command → Bool
changes task (status_command t) = false
changes task (report_command c) = false
changes task (wait_command t _ _ _) = t == task
changes task (answer_command t _ _ _ _ _) = t == task
changes task (plan_command t _ _ _ _ _) = t == task
changes task (implementation_command t _ _ _ _ _ _) = t == task
changes task (verdict_command t _ _ _ _ _ _) = t == task
changes task (cancel_command t _ _) = t == task

module _ (texts : Texts) (display : Value → String) (id : String) (task : String) (d : Disk)
    (final : IsFinal (field task "status" d)) where
  same_task : (t : String) → (t == task) ≡ true → IsFinal (field t "status" d)
  same_task t h = let e : t ≡ task = (eq_iff t task).0 h in rw e final

  handle-Refused : (c : Command) → changes task c ≡ true → Refused (handle texts display id c d) d
  unfolding handle changes cancel verdict plan_done implementation_done
  handle-Refused (status_command t) h = absurd (ground arith)
  handle-Refused (report_command c) h = absurd (ground arith)
  handle-Refused (wait_command t expected question role) h =
      wait_user-Refused t expected question role id d (same_task t h)
  handle-Refused (answer_command t expected question text key value) h =
      answer-Refused display t expected question text key value d (same_task t h)
  handle-Refused (plan_command t expected participant plan approval progress) h =
      staged-Refused (("plan", str plan) ∷ ("approval_ref", str approval) ∷ [])
        (plan_checked texts t plan approval progress d)
        (λ _.
          complete_stage t expected "planner" participant none "plan_completed"
            (plan_evidence progress))
        d
        (λ a.
          complete_stage-Refused t expected "planner" participant none "plan_completed"
            (plan_evidence progress) d (same_task t h))
  handle-Refused (implementation_command t expected participant run execution delivery progress) h =
      staged-Refused (("execution", str execution) ∷ ("delivery_ref", str delivery) ∷ [])
        (delivery_checked texts t execution delivery progress d)
        (λ i.
          complete_stage t expected "implementer" participant (some run) "implementation_completed"
            (delivery_evidence progress delivery i))
        d
        (λ i.
          complete_stage-Refused t expected "implementer" participant (some run)
            "implementation_completed" (delivery_evidence progress delivery i) d (same_task t h))
  handle-Refused (verdict_command t expected given evidence participant run delivery) h =
      staged-Refused [] (verdict_checked texts t given evidence delivery d)
        (λ event.
          complete_stage t expected "reviewer" participant (some run) event
            (verdict_evidence (texts.path evidence) delivery))
        d
        (λ event.
          complete_stage-Refused t expected "reviewer" participant (some run) event
            (verdict_evidence (texts.path evidence) delivery) d (same_task t h))
  handle-Refused (cancel_command t expected authorization) h =
      publish-Refused (update_task t (cancel_plan t expected authorization) d) d (
        update_task-Refused t (cancel_plan t expected authorization)
          (cancel_never t expected authorization) d (same_task t h))

  -- A task that is DONE or CANCELLED is final: every command on it but status and report-done exits
  -- with a code other than 0, prints nothing and leaves the files as they were.
  pub final_is_final :
      (c : Command)
      → changes task c ≡ true
      → (code : ℕ) × (main texts display id c d ≡ ((code, none), d)) × (code ≢ 0)
  unfolding main
  final_is_final c h =
      let (e, r) = handle-Refused c h in (exit_code e, ground arith, exit_code-ne-zero e)
