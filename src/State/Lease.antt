-- ===== src/State/Lease.antt =====
-- A lease of agent_relay_runtime/state_store.py from `claim` to `finish_run`: what was claimed can
-- always be given up.
use agent_relay_auto.Prelude.{
  String, ◌≡◌, refl, ◌∙◌, true, false, none, some, arith, eq_refl, Dict, elem,
}
use agent_relay_auto.Prelude.Int.{ℤ, succ_ℤ}
use agent_relay_auto.Value.{Value, null, int, str, get, is_str}
use agent_relay_auto.Outcome.{ok}
use agent_relay_auto.Markdown.{reread}
use agent_relay_auto.Markdown.Write.{Updates}
use agent_relay_auto.Store.Base.{Disk}
use agent_relay_auto.Store.Fields.{field, is_state}
use agent_relay_auto.Store.Again.{get-Readable, update_task-some}
use agent_relay_auto.State.Types.{TransitionResult, ClaimKey, RunFinalization, int_of}
use agent_relay_auto.State.Claim.{claim}
use agent_relay_auto.State.Claim.Effect.{claim_effect, claim-Readable}
use agent_relay_auto.State.Finish.{run_result, consequence, finish_updates, finish_plan, finish_run}
use agent_relay_auto.State.Finish.Effect.{is_exhausted, finish_effect, failures-counted}

module _ (max : ℤ) (task run : String) (exit_code : ℤ) (reason : String) where
  -- the plan to release a lease succeeds where the run is the one that the mapping names
  plan-releases :
      (now : String) (m : Dict Value) (revision failures : ℤ)
      → get m "revision" ≡ int revision
      → get m "run_id" ≡ str run
      → get m "agent_failure_count" ≡ int failures
      → is_str (get m "last_finished_run_id") run ≡ false
      → (us : Updates) × (a : RunFinalization) × (finish_plan max task run exit_code none reason now
            m
          ≡ ok (some us, a))
        × (a.idempotent_replay ≡ false)
  unfolding finish_plan int_of run_result is_str
  plan-releases now m revision failures counted held failed other =
      let same : is_str (get m "run_id") run ≡ true = rw held (eq_refl run) in
      let number : int_of (get m "revision") ≡ ok revision = rw counted refl in
      let outcome = consequence max failures "completed" in
      (
        finish_updates outcome run exit_code "completed" revision now,
        record {
          action = str outcome.action;
          task_id = task;
          run_id = run;
          input_revision = revision;
          output_revision = succ_ℤ revision;
          idempotent_replay = false;
        },
        ground (
          arith,
          eq_refl run,
          failures-counted max task run exit_code none reason m failures failed,
        ),
        refl,
      )

module _ (max : ℤ) (run : String) (exit_code : ℤ) (reason : String) where
  -- Where a run has freshly claimed a task whose failure count is an integer and whose last finished
  -- run is another one, `finish_run` without a start status succeeds for it: no run holds the task
  -- any more and the status is what it was before the claim.
  pub lease_ends :
      (quote : String → String) (key : ClaimKey) (failures : ℤ) (d : Disk) (a : TransitionResult)
      (d' : Disk)
      → is_state key.task_id d ≡ true
      → reread (str run) ≡ str run
      → claim quote key run d ≡ (ok a, d')
      → a.idempotent_replay ≡ false
      → field key.task_id "agent_failure_count" d ≡ int failures
      → is_str (field key.task_id "last_finished_run_id" d) run ≡ false
      → (b : RunFinalization) × (d'' : Disk) × (finish_run max key.task_id run exit_code none reason
            d'
          ≡ (ok b, d''))
        × (field key.task_id "run_id" d'' ≡ null)
        × (field key.task_id "writer_session" d'' ≡ null)
        × (field key.task_id "status" d'' ≡ field key.task_id "status" d)
  unfolding elem finish_run is_exhausted run_result
  lease_ends quote key failures d a d' s stable h new failed other =
      let task = key.task_id in
      let (current, free, run_at, status_at, writer, revision_at, same_status, still) =
        claim_effect quote key run d a d' s stable h new in
      let (q, kept) = claim-Readable quote key run d a d' s h new in
      let held : get q.mapping "run_id" ≡ str run = get-Readable task "run_id" q ∙ run_at in
      let counted : get q.mapping "revision" ≡ int (succ_ℤ key.expected_revision) =
        get-Readable task "revision" q ∙ revision_at in
      let failures_at : field task "agent_failure_count" d' ≡ int failures =
        kept "agent_failure_count" refl ∙ failed in
      let last : is_str (get q.mapping "last_finished_run_id") run ≡ false =
        rw (get-Readable task "last_finished_run_id" q, kept "last_finished_run_id" refl) other in
      let (us, b, planned, fresh) =
        plan-releases max task run exit_code reason d'.clock q.mapping
          (succ_ℤ key.expected_revision) failures counted held
          (get-Readable task "agent_failure_count" q ∙ failures_at) last in
      let done = update_task-some task (finish_plan max task run exit_code none reason) q planned in
      let (was, no_run, no_writer, status, count, action, rest) =
        finish_effect max task run exit_code none reason failures d' b _ still failures_at done
          fresh in
      (b, _, done, no_run, no_writer, status ∙ kept "status" refl)
