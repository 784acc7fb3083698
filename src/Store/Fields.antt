-- ===== src/Store/Fields.antt =====
-- The keys of a task's STATE.md as a reader sees them, and what a method does to them.
use agent_relay_auto.Prelude.{
  String, ◌≡◌, refl, Bool, true, false, Option, none, some, List, [], ◌∷◌, ◌++◌, arith, ◌==◌,
  eq_refl, Dict, lookup, lookup-insert, Option-cases,
}
use agent_relay_auto.Value.{Value, null, get}
use agent_relay_auto.Markdown.{Doc, root, under}
use agent_relay_auto.Markdown.Write.{
  Updates, write_values, last_write, overlay_value, covers, all_flat, all_flat-write, value_at,
  get-parse, value_at-write,
}
use agent_relay_auto.Store.Base.{Disk, write_task, Plan}
use agent_relay_auto.Store.Laws.{after_write, Returned}

-- `state.get(key)` of the task
unfoldable pub field : String → String → Disk → Value
field task k d = elim (lookup task d.tasks) [ none ↦ null | some doc ↦ value_at k doc ]

-- The root keys that the program writes.
abbrev pub state_keys : List String
state_keys =
    "status" ∷ "revision" ∷ "updated_at" ∷ "current_role" ∷ "current_participant" ∷ "stage_round"
    ∷ "previous_role" ∷ "previous_participant" ∷ "previous_progress" ∷ "rework_round"
    ∷ "auto_replan_count" ∷ "code_delivery_ref" ∷ "delivery_id" ∷ "review_ref" ∷ "report_ref"
    ∷ "writer_session" ∷ "execution" ∷ "reporting" ∷ "run_id" ∷ "run_status" ∷ "run_attempt"
    ∷ "last_claim_key" ∷ "run_exit_code" ∷ "last_finished_run_id" ∷ "last_run_result"
    ∷ "agent_failure_count" ∷ "blocked_reason" ∷ "unblock_condition" ∷ "last_run_action"
    ∷ "suspended_status" ∷ "resume_role" ∷ "question_id" ∷ "question_ref" ∷ "subagent_policy"
    ∷ "subagent_decision_ref" ∷ []

-- Each of these keys has at most one line in the block of the task, and no section's.
unfoldable pub is_state : String → Disk → Bool
is_state task d = elim (lookup task d.tasks) [ none ↦ true | some doc ↦ all_flat state_keys doc ]

pub covers-append :
    (ks : List String) (us vs : Updates)
    → covers ks us ≡ true
    → covers ks vs ≡ true
    → covers ks (us ++ vs) ≡ true
unfolding covers
covers-append ks [] vs h g = g
covers-append ks ((root k, v) ∷ us) vs h g = ground (arith, covers-append ks us vs)
covers-append ks ((under s k, v) ∷ us) vs h g = cc

abbrev pub or_last : Option Value → Option Value → Option Value
or_last none o = o
or_last (some v) o = some v

pub last_write-append :
    (k : String) (us vs : Updates)
    → last_write k (us ++ vs) ≡ or_last (last_write k vs) (last_write k us)
unfolding last_write
last_write-append k [] vs = ground (arith, Option-cases (last_write k vs))
last_write-append k ((root j, v) ∷ us) vs = ground (arith, last_write-append k us vs)
last_write-append k ((under s j, v) ∷ us) vs = last_write-append k us vs

lookup-after_write :
    (task other : String) (doc : Doc) (us : Option Updates) (d : Disk)
    → (task == other) ≡ false
    → lookup other (after_write task doc us d).tasks ≡ lookup other d.tasks
unfolding write_task
lookup-after_write task other doc none d ne = refl
lookup-after_write task other doc (some us) d ne = rw (lookup-insert, ne)

module _ {ℓ} {A : Type ℓ} (task : String) (plan : String → Dict Value → Plan A) where
  -- The mapping that a method reads is the one that the readers see.
  pub get-field :
      (k : String) {d : Disk} {a : A} {d' : Disk} (r : Returned task plan d a d')
      → get r.mapping k ≡ field task k d
  unfolding field
  get-field k r = ground (arith, get-parse r.doc k r.legible, r.on_disk)

  -- After a method a key holds what was written to it, as it is reread, or what it held.
  pub field-update :
      (k : String) (us : Updates) {d : Disk} {a : A} {d' : Disk} (r : Returned task plan d a d')
      → r.updates ≡ some us
      → covers state_keys us ≡ true
      → is_state task d ≡ true
      → field task k d' ≡ overlay_value (last_write k us) (field task k d)
  unfolding field is_state write_task
  field-update k us {d} {a} {d'} r w c h = ground (
    arith,
    r.on_disk,
    r.written,
    lookup-insert task task (write_values us r.doc) d.tasks,
    eq_refl task,
    value_at-write state_keys k us r.doc,
  )

  pub is_state-update :
      (us : Updates) {d : Disk} {a : A} {d' : Disk} (r : Returned task plan d a d')
      → r.updates ≡ some us
      → covers state_keys us ≡ true
      → is_state task d ≡ true
      → is_state task d' ≡ true
  unfolding is_state write_task
  is_state-update us {d} {a} {d'} r w c h = ground (
    arith,
    r.on_disk,
    r.written,
    lookup-insert task task (write_values us r.doc) d.tasks,
    eq_refl task,
    all_flat-write state_keys us r.doc,
  )

  -- No other task is touched.
  pub lookup-update_ne :
      (other : String) {d : Disk} {a : A} {d' : Disk} (r : Returned task plan d a d')
      → (task == other) ≡ false
      → lookup other d'.tasks ≡ lookup other d.tasks
  unfolding write_task
  lookup-update_ne other {d} r ne =
      rw r.written (lookup-after_write task other r.doc r.updates d ne)
