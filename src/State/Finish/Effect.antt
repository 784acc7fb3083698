-- ===== src/State/Finish/Effect.antt =====
-- What `finish_run` makes of a run's end: the lease is given up, failures are counted, and the task
-- is blocked once the retries are used up.
use mathlib.Core.Path.{subst}
use agent_relay_auto.Prelude.{
  String, ◌≡◌, refl, sym, ◌∙◌, ◌⊎◌, Bool, true, false, not, Option, none, some, arith, ◌==◌,
  eq_refl, if◌then◌else◌, Dict, elem, inl, inr,
}
use agent_relay_auto.Prelude.Int.{ℤ, succ_ℤ, leb_ℤ}
use agent_relay_auto.Value.{Value, null, int, str, get, truthy, is_str}
use agent_relay_auto.Outcome.{ok, Result-cases}
use agent_relay_auto.Markdown.{reread}
use agent_relay_auto.Markdown.Write.{Updates, last_write, covers}
use agent_relay_auto.Store.Base.{Disk}
use agent_relay_auto.Store.Laws.{Returned, update_task_ok}
use agent_relay_auto.Store.Fields.{
  field, state_keys, is_state, covers-append, get-field, field-update, is_state-update,
}
use agent_relay_auto.Store.Again.{Readable-update, get-Readable, update_task-none}
use agent_relay_auto.State.Types.{RunFinalization, int_of}
use agent_relay_auto.State.Finish.{
  run_result, failures_of, consequence, finish_updates, finish_plan, finish_run,
}

-- The run failed, and the failures with this one are more than the retries.
unfoldable pub is_exhausted : ℤ → ℤ → String → Bool
is_exhausted max failures result =
    if result == "completed" then false else not (leb_ℤ (succ_ℤ failures) max)

covers-consequence :
    (max failures : ℤ) (result : String)
    → covers state_keys (consequence max failures result).rest ≡ true
unfolding covers consequence elem
covers-consequence max failures result = ground arith

-- A text that is read back as it is written, and is not empty.
abbrev IsFixed : String → Type 0
IsFixed s = (reread (str s) ≡ str s) × ((s == "") ≡ false)

module _ (max : ℤ) (task run : String) (exit_code : ℤ) (start : Option String)
    (reason : String) where
  record Finished (now : String) (m : Dict Value) (u : Option Updates) (a : RunFinalization)
      : Type 0 where
    revision : ℤ
    failures : ℤ
    counted : int_of (get m "revision") ≡ ok revision
    failed : failures_of m ≡ ok failures
    held : is_str (get m "run_id") run ≡ true
    writes :
        u
        ≡ some (
            finish_updates
              (consequence max failures (run_result start (get m "status") exit_code reason))
              run
              exit_code
              (run_result start (get m "status") exit_code reason)
              revision
              now)
    action :
        a.action
        ≡ str (consequence max failures (run_result start (get m "status") exit_code reason)).action

  plan-Finished :
      (now : String) (m : Dict Value) (u : Option Updates) (a : RunFinalization)
      → finish_plan max task run exit_code start reason now m ≡ ok (u, a)
      → a.idempotent_replay ≡ false
      → Finished now m u a
  unfolding finish_plan
  plan-Finished now m u a h new = elim (Result-cases (int_of (get m "revision"))) [
    | inl (x, e) ↦ absurd (ground arith)
    | inr (revision, e) ↦ elim (Result-cases (failures_of m)) [
      | inl (x, f) ↦ absurd (ground arith)
      | inr (failures, f) ↦ record {
        revision = revision;
        failures = failures;
        counted = e;
        failed = f;
        held = ground arith;
        writes = ground arith;
        action = ground arith;
      }
    ]
  ]

  covers-finish :
      (failures revision : ℤ) (result now : String)
      → covers state_keys
          (finish_updates (consequence max failures result) run exit_code result revision now)
        ≡ true
  unfolding covers finish_updates elem
  covers-finish failures revision result now =
      covers-append state_keys (consequence max failures result).rest _
        (covers-consequence max failures result) refl

  module _ (failures revision : ℤ) (result now : String) where
    abbrev written : Updates
    written = finish_updates (consequence max failures result) run exit_code result revision now

    last_write-status :
        last_write "status" written
        ≡ (if is_exhausted max failures result then some (str "BLOCKED") else none)
    unfolding last_write finish_updates consequence is_exhausted
    last_write-status = ground arith

    last_write-failures :
        last_write "agent_failure_count" written
        ≡ (if result == "completed" then none else some (int (succ_ℤ failures)))
    unfolding last_write finish_updates consequence
    last_write-failures = ground arith

    last_write-run :
        (last_write "run_id" written ≡ some null)
        × (last_write "writer_session" written ≡ some null)
        × (last_write "last_finished_run_id" written ≡ some (str run))
        × (last_write "revision" written ≡ some (int (succ_ℤ revision)))
        × (last_write "last_run_action" written
            ≡ some (str (consequence max failures result).action))
    unfolding last_write finish_updates consequence
    last_write-run = (ground arith, ground arith, ground arith, ground arith, ground arith)

  pub failures-counted :
      (m : Dict Value) (failures : ℤ)
      → get m "agent_failure_count" ≡ int failures
      → failures_of m ≡ ok failures
  unfolding failures_of get
  failures-counted m failures h = ground arith

  -- The same with the status and the count as the readers see them.
  plan-written :
      (now : String) (m : Dict Value) (u : Option Updates) (a : RunFinalization) (status : Value)
      (failures : ℤ)
      → Finished now m u a
      → get m "status" ≡ status
      → get m "agent_failure_count" ≡ int failures
      → (revision : ℤ) × (u
          ≡ some (written failures revision (run_result start status exit_code reason) now))
        × (a.action
            ≡ str (consequence max failures (run_result start status exit_code reason)).action)
  plan-written now m u a status failures c st count =
      let same : c.failures ≡ failures = cc (c.failed, failures-counted m failures count) in
      (c.revision, cc (c.writes, st, same), cc (c.action, st, same))

  -- A run that ends gives the lease up. If it failed the failures are counted up, and the task is
  -- BLOCKED exactly if they are then more than `max_agent_retries`; otherwise the status stays.
  pub finish_effect :
      (failures : ℤ) (d : Disk) (a : RunFinalization) (d' : Disk)
      → is_state task d ≡ true
      → field task "agent_failure_count" d ≡ int failures
      → finish_run max task run exit_code start reason d ≡ (ok a, d')
      → a.idempotent_replay ≡ false
      → let result = run_result start (field task "status" d) exit_code reason in
        (is_str (field task "run_id" d) run ≡ true)
        × (field task "run_id" d' ≡ null)
        × (field task "writer_session" d' ≡ null)
        × (field task "status" d'
            ≡ (if is_exhausted max failures result then str "BLOCKED" else field task "status" d))
        × (field task "agent_failure_count" d'
            ≡ int (if result == "completed" then failures else succ_ℤ failures))
        × (a.action ≡ str (consequence max failures result).action)
        × (is_state task d' ≡ true)
  finish_effect failures d a d' s count h new =
      let plan = finish_plan max task run exit_code start reason in
      let r : Returned task plan d a d' =
        update_task_ok task plan d a d' (unfold finish_run in h) in
      let c = plan-Finished d.clock r.mapping r.updates a r.decided new in
      let result = run_result start (field task "status" d) exit_code reason in
      let (revision, writes, action) =
        plan-written d.clock r.mapping r.updates a (field task "status" d) failures c
          (get-field task plan "status" r) (get-field task plan "agent_failure_count" r ∙ count) in
      let us = written failures revision result d.clock in
      let cov = covers-finish failures revision result d.clock in
      let runs = last_write-run failures revision result d.clock in
      (
        rw (get-field task plan "run_id" r) at c.held,
        rw (field-update task plan "run_id" us r writes cov s, runs.0) (unfold reread in refl),
        rw (field-update task plan "writer_session" us r writes cov s, runs.1)
            (unfold reread in refl),
        rw
            (
              field-update task plan "status" us r writes cov s,
              last_write-status failures revision result d.clock,
            )
            (unfold reread in ground arith),
        rw
            (
              field-update task plan "agent_failure_count" us r writes cov s,
              last_write-failures failures revision result d.clock,
              count,
            )
            (unfold reread in ground arith),
        action,
        is_state-update task plan us r writes cov s,
      )

  action-cases :
      (failures : ℤ) (result : String)
      → let action = (consequence max failures result).action in
        (action ≡ "completed") ⊎ ((action ≡ "retry") ⊎ (action ≡ "blocked"))
  unfolding consequence
  action-cases failures result = ground arith

  consequence-action :
      (failures : ℤ) (result : String) → IsFixed (consequence max failures result).action
  unfolding reread
  consequence-action failures result = elim (action-cases failures result) [
    | inl e ↦ subst IsFixed (sym e) (refl, refl)
    | inr (inl e) ↦ subst IsFixed (sym e) (refl, refl)
    | inr (inr e) ↦ subst IsFixed (sym e) (refl, refl)
  ]

  abbrev replayed : ℤ → String → ℤ → RunFinalization
  replayed code action revision = record {
    action = str action;
    task_id = task;
    run_id = run;
    input_revision = revision;
    output_revision = revision;
    idempotent_replay = true;
  }

  plan-again :
      (code : ℤ) (why now : String) (m : Dict Value) (revision : ℤ) (action : String)
      → get m "revision" ≡ int revision
      → is_str (get m "last_finished_run_id") run ≡ true
      → get m "last_run_action" ≡ str action
      → (action == "") ≡ false
      → finish_plan max task run code start why now m ≡ ok (none, replayed code action revision)
  unfolding finish_plan int_of truthy
  plan-again code why now m revision action e p q ne = ground arith

  -- A run that has been finished is not finished again: the repeated call reports the same action
  -- and changes no file, whatever exit code and reason it carries.
  pub finish_again :
      (failures : ℤ) (d : Disk) (a : RunFinalization) (d' : Disk) (code : ℤ) (why : String)
      → is_state task d ≡ true
      → reread (str run) ≡ str run
      → field task "agent_failure_count" d ≡ int failures
      → finish_run max task run exit_code start reason d ≡ (ok a, d')
      → a.idempotent_replay ≡ false
      → (b : RunFinalization) × (finish_run max task run code start why d' ≡ (ok b, d'))
        × (b.idempotent_replay ≡ true)
        × (b.action ≡ a.action)
  unfolding is_str
  finish_again failures d a d' code why s stable count h new =
      let plan = finish_plan max task run exit_code start reason in
      let r : Returned task plan d a d' =
        update_task_ok task plan d a d' (unfold finish_run in h) in
      let c = plan-Finished d.clock r.mapping r.updates a r.decided new in
      let result = run_result start (field task "status" d) exit_code reason in
      let (revision, writes, action) =
        plan-written d.clock r.mapping r.updates a (field task "status" d) failures c
          (get-field task plan "status" r) (get-field task plan "agent_failure_count" r ∙ count) in
      let us = written failures revision result d.clock in
      let cov = covers-finish failures revision result d.clock in
      let runs = last_write-run failures revision result d.clock in
      let done = consequence-action failures result in
      let q = Readable-update task plan us r writes cov s in
      (
        replayed code (consequence max failures result).action (succ_ℤ revision),
        unfold finish_run in
            update_task-none task (finish_plan max task run code start why) q (
              plan-again code why d'.clock q.mapping (succ_ℤ revision)
                (consequence max failures result).action
                (rw
                  (
                    get-Readable task "revision" q,
                    field-update task plan "revision" us r writes cov s,
                    runs.3,
                  )
                  (unfold reread in refl))
                (rw
                  (
                    get-Readable task "last_finished_run_id" q,
                    field-update task plan "last_finished_run_id" us r writes cov s,
                    runs.2,
                    stable,
                  )
                  (eq_refl run))
                (rw
                  (
                    get-Readable task "last_run_action" q,
                    field-update task plan "last_run_action" us r writes cov s,
                    runs.4,
                  )
                  done.0)
                done.1),
        refl,
        sym action,
      )
