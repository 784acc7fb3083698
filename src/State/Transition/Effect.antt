-- ===== src/State/Transition/Effect.antt =====
-- What `transition` requires and what it leaves in the STATE.md.
use agent_relay_auto.Prelude.{
  String, ◌≡◌, refl, true, false, Option, none, some, ◌++◌, arith, ◌==◌, Dict, elem, inl, inr,
  Option-cases,
}
use agent_relay_auto.Prelude.Int.{ℤ, succ_ℤ}
use agent_relay_auto.Value.{Value, int, str, get, is_int}
use agent_relay_auto.Outcome.{ok, Result-cases}
use agent_relay_auto.Markdown.{reread}
use agent_relay_auto.Markdown.Write.{Updates, last_write, covers}
use agent_relay_auto.Store.Base.{Disk}
use agent_relay_auto.Store.Laws.{Returned, update_task_ok}
use agent_relay_auto.Store.Fields.{
  field, state_keys, is_state, covers-append, last_write-append, get-field, field-update,
  is_state-update,
}
use agent_relay_auto.State.Types.{TransitionResult, transitions, find_status, bump_if}
use agent_relay_auto.State.Parts.{covers-bump_if, last_write-bump_if, reread-find_status}
use agent_relay_auto.State.Transition.{
  payload_role, transition_updates, transition_plan, transition,
}

-- What the plan decided, read off a run that returned.
record Decided (expected : ℤ) (event : String) (m : Dict Value) (u : Option Updates) : Type 0 where
  new : String
  updates : Updates
  writes : u ≡ some updates
  current : is_int (get m "revision") expected ≡ true
  allowed : find_status transitions (get m "status") event ≡ some new
  covered : covers state_keys updates ≡ true
  status : last_write "status" updates ≡ some (str new)
  revision : last_write "revision" updates ≡ some (int (succ_ℤ expected))

covers-payload_role : (r : Option Value) → covers state_keys (payload_role r) ≡ true
unfolding covers payload_role elem
covers-payload_role none = refl
covers-payload_role (some v) = refl

last_write-payload_role :
    (k : String) (r : Option Value)
    → ("current_role" == k) ≡ false
    → last_write k (payload_role r) ≡ none
unfolding last_write payload_role
last_write-payload_role k none h = refl
last_write-payload_role k (some v) h = rw h

module _ (new : String) (expected : ℤ) (now : String) (role : Option Value) (event : String)
    (m : Dict Value) {rework replan : Updates}
    (f : bump_if (event == "changes_requested") "rework_round" m ≡ ok rework)
    (g : bump_if (event == "replan_required") "auto_replan_count" m ≡ ok replan) where
  covers-updates : covers state_keys (transition_updates new expected now rework replan role) ≡ true
  unfolding covers transition_updates elem
  covers-updates =
      covers-append state_keys rework (replan ++ payload_role role)
        (covers-bump_if state_keys _ _ m f refl)
        (covers-append state_keys replan (payload_role role)
          (covers-bump_if state_keys _ _ m g refl) (covers-payload_role role))

  last_write-updates :
      (k : String)
      → ("rework_round" == k) ≡ false
      → ("auto_replan_count" == k) ≡ false
      → ("current_role" == k) ≡ false
      → last_write k (rework ++ (replan ++ payload_role role)) ≡ none
  last_write-updates k p q r = simp (
    last_write-append,
    last_write-bump_if k _ _ m f p,
    last_write-bump_if k _ _ m g q,
    last_write-payload_role k role r,
  )

module _ (task : String) (expected : ℤ) (event : String) (role : Option Value) where
  plan-Decided :
      (now : String) (m : Dict Value) (u : Option Updates) (a : TransitionResult)
      → transition_plan task expected event role now m ≡ ok (u, a)
      → Decided expected event m u
  unfolding transition_plan transition_updates last_write
  plan-Decided now m u a h = elim (Option-cases (find_status transitions (get m "status") event)) [
    | inl e ↦ absurd (ground arith)
    | inr (new, e) ↦ elim (Result-cases (bump_if (event == "changes_requested") "rework_round" m)) [
      | inl (x, f) ↦ absurd (ground arith)
      | inr (rework, f) ↦
          elim (Result-cases (bump_if (event == "replan_required") "auto_replan_count" m)) [
            | inl (x, g) ↦ absurd (ground arith)
            | inr (replan, g) ↦ record {
              new = new;
              updates = transition_updates new expected now rework replan role;
              writes = ground arith;
              current = ground arith;
              allowed = e;
              covered = covers-updates new expected now role event m f g;
              status = ground (
                arith,
                last_write-updates new expected now role event m f g "status" refl refl refl,
              );
              revision = ground (
                arith,
                last_write-updates new expected now role event m f g "revision" refl refl refl,
              );
            }
          ]
    ]
  ]

  -- A transition that returned was for the revision on disk and is in the table; the status and the
  -- revision are those of the table and the next one, and the block keeps its shape.
  pub transition_effect :
      (d : Disk) (a : TransitionResult) (d' : Disk)
      → is_state task d ≡ true
      → transition task expected event role d ≡ (ok a, d')
      → (new : String) × (is_int (field task "revision" d) expected ≡ true)
        × (find_status transitions (field task "status" d) event ≡ some new)
        × (field task "status" d' ≡ str new)
        × (field task "revision" d' ≡ int (succ_ℤ expected))
        × (is_state task d' ≡ true)
  unfolding reread
  transition_effect d a d' s h =
      let plan = transition_plan task expected event role in
      let r : Returned task plan d a d' =
        update_task_ok task plan d a d' (unfold transition in h) in
      let c : Decided expected event r.mapping r.updates =
        plan-Decided d.clock r.mapping r.updates a r.decided in
      let allowed = rw (get-field task plan "status" r) at c.allowed in
      (
        c.new,
        rw (get-field task plan "revision" r) at c.current,
        allowed,
        (rw (field-update task plan "status" c.updates r c.writes c.covered s, c.status)
            (reread-find_status _ event allowed)),
        rw (field-update task plan "revision" c.updates r c.writes c.covered s, c.revision),
        is_state-update task plan c.updates r c.writes c.covered s,
      )
