-- ===== src/State/Claim/Effect.antt =====
-- The lease that `claim` gives: one run at a time, and the same claim again changes nothing.
use mathlib.Core.Bool.{false≢true}
use agent_relay_auto.Prelude.{
  String, ◌≡◌, refl, sym, ◌∙◌, Bool, true, false, ◌&&◌, Option, none, some, [], ◌∷◌, arith, eq_refl,
  eq_iff, Dict, elem, if◌then◌else◌, inl, inr, Bool-cases,
}
use agent_relay_auto.Prelude.Int.{ℤ, pos, succ_ℤ}
use agent_relay_auto.Value.{
  Value, int, str, get, truthy, is_int, is_str, is_one_of, null, bool, obj, arr,
}
use agent_relay_auto.Outcome.{Error, ok, err, Result-cases}
use agent_relay_auto.Markdown.{reread}
use agent_relay_auto.Markdown.Write.{Updates, last_write, covers}
use agent_relay_auto.Store.Base.{Disk}
use agent_relay_auto.Store.Laws.{Returned, update_task_ok, update_task-cases}
use agent_relay_auto.Store.Fields.{
  field, state_keys, is_state, get-field, field-update, is_state-update,
}
use agent_relay_auto.Store.Again.{Readable, Readable-update, get-Readable, update_task-none}
use agent_relay_auto.State.Types.{TransitionResult, ClaimKey, bump, is_in}
use agent_relay_auto.State.Claim.{
  claim_text, has_active_run, claim_updates, claim_outcome, claim_plan, claim,
}

-- the run that the STATE.md names is started or running
unfoldable pub holds_run : String → Disk → Bool
unfolding truthy is_one_of
holds_run task d =
    truthy (field task "run_id" d)
    && is_one_of (field task "run_status" d) ("starting" ∷ "running" ∷ [])

-- What the claim's test of the run says of the two values that it read.
free-holds :
    (id status : Value)
    → (if truthy id then is_in status ("starting" ∷ "running" ∷ []) else ok false) ≡ ok false
    → (truthy id && is_one_of status ("starting" ∷ "running" ∷ [])) ≡ false
unfolding is_in is_one_of
free-holds id null h = ground arith
free-holds id (int i) h = ground arith
free-holds id (bool b) h = ground arith
free-holds id (str s) h = ground arith
free-holds id (obj fs) h = ground arith
free-holds id (arr xs) h = ground arith

-- A claim that returned is a repetition, or a fresh one.
record Fresh (quote : String → String) (key : ClaimKey) (run now : String) (m : Dict Value)
    (u : Option Updates) : Type 0 where
  attempt : ℤ
  writes : u ≡ some (claim_updates quote key run now attempt)
  current : is_int (get m "revision") key.expected_revision ≡ true
  free : has_active_run m ≡ ok false

module _ (quote : String → String) (key : ClaimKey) (run : String) where
  covers-updates :
      (now : String) (n : ℤ) → covers state_keys (claim_updates quote key run now n) ≡ true
  unfolding covers claim_updates elem
  covers-updates now n = refl

  plan-Fresh :
      (now : String) (m : Dict Value) (u : Option Updates) (a : TransitionResult)
      → claim_plan quote key run now m ≡ ok (u, a)
      → a.idempotent_replay ≡ false
      → Fresh quote key run now m u
  unfolding claim_plan claim_outcome
  plan-Fresh now m u a h new = elim (Result-cases (bump "run_attempt" (pos 0) m)) [
    | inl (x, q) ↦ absurd (ground (arith, Result-cases (has_active_run m)))
    | inr (attempt, q) ↦ record {
      attempt = attempt;
      writes = ground arith;
      current = ground arith;
      free = ground arith;
    }
  ]

  -- A fresh claim was made for the revision on disk while no run was active; it leaves its own run
  -- as the active one and the writer, counts the revision up, and does not touch the status.
  pub claim_effect :
      (d : Disk) (a : TransitionResult) (d' : Disk)
      → is_state key.task_id d ≡ true
      → reread (str run) ≡ str run
      → claim quote key run d ≡ (ok a, d')
      → a.idempotent_replay ≡ false
      → (is_int (field key.task_id "revision" d) key.expected_revision ≡ true)
        × (holds_run key.task_id d ≡ false)
        × (field key.task_id "run_id" d' ≡ str run)
        × (field key.task_id "run_status" d' ≡ str "running")
        × (field key.task_id "writer_session" d' ≡ str run)
        × (field key.task_id "revision" d' ≡ int (succ_ℤ key.expected_revision))
        × (field key.task_id "status" d' ≡ field key.task_id "status" d)
        × (is_state key.task_id d' ≡ true)
  unfolding reread claim_updates last_write has_active_run holds_run
  claim_effect d a d' s stable h new =
      let task = key.task_id in
      let plan = claim_plan quote key run in
      let r : Returned task plan d a d' = update_task_ok task plan d a d' (unfold claim in h) in
      let c = plan-Fresh d.clock r.mapping r.updates a r.decided new in
      let us = claim_updates quote key run d.clock c.attempt in
      let cov = covers-updates d.clock c.attempt in
      (
        rw (get-field task plan "revision" r) at c.current,
        free-holds (field task "run_id" d) (field task "run_status" d)
            (rw (get-field task plan "run_status" r, get-field task plan "run_id" r) at c.free),
        rw (field-update task plan "run_id" us r c.writes cov s) stable,
        rw (field-update task plan "run_status" us r c.writes cov s),
        rw (field-update task plan "writer_session" us r c.writes cov s) stable,
        rw (field-update task plan "revision" us r c.writes cov s),
        rw (field-update task plan "status" us r c.writes cov s),
        is_state-update task plan us r c.writes cov s,
      )

  plan-replay :
      (now : String) (m : Dict Value) (u : Option Updates) (a : TransitionResult)
      → claim_plan quote key run now m ≡ ok (u, a)
      → a.idempotent_replay ≡ true
      → is_str (get m "run_id") run ≡ true
  unfolding claim_plan claim_outcome
  plan-replay now m u a h old = elim (Result-cases (bump "run_attempt" (pos 0) m)) [
    | inl (x, q) ↦ ground arith
    | inr (n, q) ↦ ground arith
  ]

  plan-repeats :
      (now : String) (m : Dict Value)
      → is_str (get m "last_claim_key") (claim_text quote key) ≡ true
      → is_str (get m "run_id") run ≡ true
      → claim_plan quote key run now m ≡ ok (none, claim_outcome key m true)
  unfolding claim_plan claim_outcome
  plan-repeats now m p q = ground arith

  -- The text of a claim begins with a brace, so it is written in quotes and read back as it is.
  reread-claim_text : reread (str (claim_text quote key)) ≡ str (claim_text quote key)
  unfolding reread claim_text
  reread-claim_text = ground arith

  -- While a run is active no claim for another run succeeds, and the refused one changes no file.
  pub claim_exclusive :
      (d : Disk)
      → holds_run key.task_id d ≡ true
      → is_str (field key.task_id "run_id" d) run ≡ false
      → (e : Error) × (claim quote key run d ≡ (err e, d))
  unfolding claim holds_run has_active_run
  claim_exclusive d busy other =
      let plan = claim_plan quote key run in
      elim (update_task-cases key.task_id plan d) [
        | inl (e, h) ↦ (e, h)
        | inr (a, d', h) ↦
            let r : Returned key.task_id plan d a d' = update_task_ok key.task_id plan d a d' h in
            elim (Bool-cases a.idempotent_replay) [
              | inl old ↦ absurd (
                  false≢true (
                    sym other
                    ∙ (rw (get-field key.task_id plan "run_id" r) at
                        (plan-replay d.clock r.mapping r.updates a r.decided old))))
              | inr new ↦ absurd (
                  false≢true (
                    sym (
                      free-holds (field key.task_id "run_id" d) (field key.task_id "run_status" d) (
                        rw
                          (
                            get-field key.task_id plan "run_status" r,
                            get-field key.task_id plan "run_id" r,
                          )
                          at (plan-Fresh d.clock r.mapping r.updates a r.decided new).free))
                    ∙ busy))
            ]
      ]

  -- The claim that succeeded afresh, for a run whose name reads back as written, succeeds as a
  -- repetition when it is made again, and changes no file.
  pub claim_again :
      (d : Disk) (a : TransitionResult) (d' : Disk)
      → is_state key.task_id d ≡ true
      → reread (str run) ≡ str run
      → claim quote key run d ≡ (ok a, d')
      → a.idempotent_replay ≡ false
      → (b : TransitionResult) × (claim quote key run d' ≡ (ok b, d'))
        × (b.idempotent_replay ≡ true)
        × (b.output_revision ≡ succ_ℤ key.expected_revision)
  unfolding claim claim_updates last_write is_str
  claim_again d a d' s stable h new =
      let task = key.task_id in
      let plan = claim_plan quote key run in
      let r : Returned task plan d a d' = update_task_ok task plan d a d' h in
      let c = plan-Fresh d.clock r.mapping r.updates a r.decided new in
      let us = claim_updates quote key run d.clock c.attempt in
      let cov = covers-updates d.clock c.attempt in
      let q = Readable-update task plan us r c.writes cov s in
      let same_key : is_str (get q.mapping "last_claim_key") (claim_text quote key) ≡ true =
        rw
          (
            get-Readable task "last_claim_key" q,
            field-update task plan "last_claim_key" us r c.writes cov s,
            reread-claim_text,
          )
          (eq_refl (claim_text quote key)) in
      let same_run : is_str (get q.mapping "run_id") run ≡ true =
        rw
          (
            get-Readable task "run_id" q,
            field-update task plan "run_id" us r c.writes cov s,
            stable,
          )
          (eq_refl run) in
      (
        claim_outcome key q.mapping true,
        update_task-none task plan q (plan-repeats d'.clock q.mapping same_key same_run),
        unfold claim_outcome in refl,
        unfold claim_outcome in refl,
      )

  -- What a fresh claim leaves is legible and unlocked, and the other keys hold what they held.
  pub claim-Readable :
      (d : Disk) (a : TransitionResult) (d' : Disk)
      → is_state key.task_id d ≡ true
      → claim quote key run d ≡ (ok a, d')
      → a.idempotent_replay ≡ false
      → Readable key.task_id d'
        × ((k : String)
            → elem k (
                "run_id" ∷ "run_status" ∷ "run_attempt" ∷ "last_claim_key" ∷ "writer_session"
                ∷ "revision" ∷ "updated_at" ∷ [])
              ≡ false
            → field key.task_id k d' ≡ field key.task_id k d)
  unfolding claim claim_updates last_write elem
  claim-Readable d a d' s h new =
      let task = key.task_id in
      let plan = claim_plan quote key run in
      let r : Returned task plan d a d' = update_task_ok task plan d a d' h in
      let c = plan-Fresh d.clock r.mapping r.updates a r.decided new in
      let us = claim_updates quote key run d.clock c.attempt in
      let cov = covers-updates d.clock c.attempt in
      (
        Readable-update task plan us r c.writes cov s,
        λ k other.
            (let untouched : last_write k us ≡ none = ground (
              arith,
              eq_iff k "run_id",
              eq_iff k "run_status",
              eq_iff k "run_attempt",
              eq_iff k "last_claim_key",
              eq_iff k "writer_session",
              eq_iff k "revision",
              eq_iff k "updated_at",
              eq_iff "run_id" k,
              eq_iff "run_status" k,
              eq_iff "run_attempt" k,
              eq_iff "last_claim_key" k,
              eq_iff "writer_session" k,
              eq_iff "revision" k,
              eq_iff "updated_at" k,
            ) in
              rw (field-update task plan k us r c.writes cov s, untouched) refl),
      )

  -- A claim for a run that the STATE.md does not name is no repetition.
  pub claim-fresh :
      (d : Disk) (a : TransitionResult) (d' : Disk)
      → is_str (field key.task_id "run_id" d) run ≡ false
      → claim quote key run d ≡ (ok a, d')
      → a.idempotent_replay ≡ false
  unfolding claim
  claim-fresh d a d' other h =
      let plan = claim_plan quote key run in
      let r : Returned key.task_id plan d a d' = update_task_ok key.task_id plan d a d' h in
      elim (Bool-cases a.idempotent_replay) [
        | inl old ↦ absurd (
            false≢true (
              sym other
              ∙ (rw (get-field key.task_id plan "run_id" r) at
                  (plan-replay d.clock r.mapping r.updates a r.decided old))))
        | inr new ↦ new
      ]
