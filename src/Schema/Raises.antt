-- ===== src/Schema/Raises.antt =====
-- What agent_relay_runtime/schema.py spares agent_relay_runtime/state_store.py: the counters and the run
-- status of a valid task state are such that a method that reads them raises no error over them.
use agent_relay_auto.Prelude.{
  ℕ, String, ◌≡◌, refl, Bool, true, false, Option, not, [], ◌∷◌, ◌+◌, arith, Dict, lookup, elem,
  inl, inr, Bool-cases, Option-cases, ◌==◌,
}
use agent_relay_auto.Prelude.Int.{ℤ, pos}
use agent_relay_auto.Value.{Value, null, int, bool, obj, arr, str, get, truthy}
use agent_relay_auto.Outcome.{
  Error, revision_conflict, illegal_transition, store_error, schema_error, Result, ok, err, ◌>>◌,
  raise_if,
}
use agent_relay_auto.Markdown.{root}
use agent_relay_auto.Markdown.Write.{Updates}
use agent_relay_auto.State.Types.{StageEvidence, Rule, ClaimKey, bump, bump_if, is_in, int_of}
use agent_relay_auto.State.Stage.{stage_plan}
use agent_relay_auto.State.Claim.{has_active_run, claim_plan}
use agent_relay_auto.State.Finish.{failures_of, finish_plan}
use agent_relay_auto.Schema.Task.{
  validate_task_state, is_text, task_statuses, require_ints, run_statuses, run_status_of,
  require_member, counters, valid_counts, bump-natural,
}

-- A call returns, or it raises one of the allowed exceptions.
abbrev pub raises_only {ℓ} : {A : Type ℓ} → (Error → Bool) → Result A → Bool
raises_only allowed (ok a) = true
raises_only allowed (err e) = allowed e

-- the refusals of `complete_stage`
abbrev pub is_stage_refusal : Error → Bool
is_stage_refusal revision_conflict = true
is_stage_refusal illegal_transition = true
is_stage_refusal _ = false

-- the refusals of `claim`: a stale revision and a run that is active
abbrev pub is_claim_refusal : Error → Bool
is_claim_refusal revision_conflict = true
is_claim_refusal store_error = true
is_claim_refusal _ = false

-- the refusal of `finish_run`: another run holds the task
abbrev pub is_finish_refusal : Error → Bool
is_finish_refusal store_error = true
is_finish_refusal _ = false

fourth-ok : (a b c e r : Result (Unit {0})) → (a >> (b >> (c >> (e >> r)))) ≡ ok tt → e ≡ ok tt
fourth-ok (err x) b c e r h = absurd (ground arith)
fourth-ok (ok t) (err x) c e r h = absurd (ground arith)
fourth-ok (ok t) (ok u) (err x) e r h = absurd (ground arith)
fourth-ok (ok t) (ok u) (ok v) (err x) r h = absurd (ground arith)
fourth-ok (ok t) (ok u) (ok v) (ok w) r h = refl

hashable :
    (v : Value)
    → require_member run_statuses v ≡ ok tt
    → (b : Bool) × (is_in v ("starting" ∷ "running" ∷ []) ≡ ok b)
unfolding require_member is_in
hashable null h = (_, refl)
hashable (int i) h = (_, refl)
hashable (bool b) h = (_, refl)
hashable (str s) h = (_, refl)
hashable (obj fs) h = absurd (ground arith)
hashable (arr xs) h = absurd (ground arith)

module _ (m : Dict Value) (valid : validate_task_state m ≡ ok tt) where
  counted :
      (k : String) (default : ℤ)
      → elem k counters ≡ true
      → (n : ℕ) × (bump k default m ≡ ok (pos (n + 1)))
  counted k default e =
      let (n, p, q) = valid_counts m k valid e in (n, bump-natural m k default n p)

  counted_if :
      (b : Bool) (k : String) → elem k counters ≡ true → (u : Updates) × (bump_if b k m ≡ ok u)
  unfolding bump_if
  counted_if false k e = ([], refl)
  counted_if true k e = let (n, p) = counted k (pos 0) e in ((root k, int (pos (n + 1))) ∷ [], rw p)

  statuses : require_member run_statuses (run_status_of m) ≡ ok tt
  unfolding validate_task_state
  statuses =
      fourth-ok (raise_if (not (is_text (get m "task"))) schema_error)
        (require_member task_statuses (get m "status")) (require_ints m counters)
        (require_member run_statuses (run_status_of m)) _ valid

  run_status-hashable :
      (b : Bool) × (is_in (get m "run_status") ("starting" ∷ "running" ∷ []) ≡ ok b)
  unfolding get run_status_of is_in
  run_status-hashable = elim (Option-cases (lookup "run_status" m)) [
    | inl e ↦ (false, ground arith)
    | inr (v, e) ↦ let (b, p) = hashable v (ground (arith, statuses)) in (b, ground arith)
  ]

  active-returns : (b : Bool) × (has_active_run m ≡ ok b)
  unfolding has_active_run
  active-returns = elim (Bool-cases (truthy (get m "run_id"))) [
    | inl t ↦ let (b, p) = run_status-hashable in (b, rw t p)
    | inr f ↦ (false, rw f)
  ]

  failures-return : (i : ℤ) × (failures_of m ≡ ok i)
  unfolding failures_of int_of get
  failures-return =
      let (n, p, q) = valid_counts m "agent_failure_count" valid (unfold elem in refl) in
      elim (Option-cases (lookup "agent_failure_count" m)) [
        | inl e ↦ absurd (ground arith)
        | inr (v, e) ↦ (pos n, ground arith)
      ]

  revision-returns : (n : ℕ) × (int_of (get m "revision") ≡ ok (pos n))
  unfolding int_of
  revision-returns =
      let (n, p, q) = valid_counts m "revision" valid (unfold elem in refl) in (n, rw p)

  stage-raises :
      (task : String) (expected : ℤ) (role participant : String) (run : Option String)
      (event : String) (e : StageEvidence) (rule : Rule) (now : String)
      → raises_only is_stage_refusal
          (stage_plan task expected role participant run event e rule now m)
        ≡ true
  unfolding stage_plan elem
  stage-raises task expected role participant run event e rule now =
      let (round, p) = counted "stage_round" (pos 1) refl in
      let (rework, q) = counted_if (event == "changes_requested") "rework_round" refl in
      let (replan, r) = counted_if (event == "replan_required") "auto_replan_count" refl in
      ground arith

  claim-raises :
      (quote : String → String) (key : ClaimKey) (run now : String)
      → raises_only is_claim_refusal (claim_plan quote key run now m) ≡ true
  unfolding claim_plan elem
  claim-raises quote key run now =
      let (attempt, p) = counted "run_attempt" (pos 0) refl in
      let (b, q) = active-returns in ground arith

  finish-raises :
      (retries : ℤ) (task run : String) (exit_code : ℤ) (start : Option String)
      (reason now : String)
      → raises_only is_finish_refusal (finish_plan retries task run exit_code start reason now m)
        ≡ true
  unfolding finish_plan
  finish-raises retries task run exit_code start reason now =
      let (n, p) = revision-returns in let (i, q) = failures-return in ground arith

-- In a task state that is valid `complete_stage`, `claim` and `finish_run` refuse for their own reasons
-- alone: the first for a stale revision or a wrong stage, the second for a stale revision or an active
-- run, the third for another run's lease. None raises an error over a counter or a run status.
pub valid_raises :
    (m : Dict Value)
    → validate_task_state m ≡ ok tt
    → (quote : String → String) (key : ClaimKey) (retries expected : ℤ)
      (task role participant run event reason now : String) (lease start : Option String)
      (exit_code : ℤ) (e : StageEvidence) (rule : Rule)
    → (raises_only is_stage_refusal
          (stage_plan task expected role participant lease event e rule now m)
        ≡ true)
      × (raises_only is_claim_refusal (claim_plan quote key run now m) ≡ true)
      × (raises_only is_finish_refusal (finish_plan retries task run exit_code start reason now m)
          ≡ true)
valid_raises m valid quote key retries expected task role participant run event reason now lease
      start exit_code e rule =
    (
      stage-raises m valid task expected role participant lease event e rule now,
      claim-raises m valid quote key run now,
      finish-raises m valid retries task run exit_code start reason now,
    )
