-- ===== src/State/Stage/Effect.antt =====
-- What `complete_stage` requires and what it leaves in the STATE.md.
use agent_relay_auto.Prelude.{
  String, ◌≡◌, refl, sym, ◌∙◌, Bool, true, false, Option, none, some, Option-cases, ◌++◌, arith,
  ◌==◌, ◌⊎◌, Dict, elem, inl, inr,
}
use agent_relay_auto.Prelude.Int.{ℤ, pos, succ_ℤ}
use agent_relay_auto.Value.{Value, int, str, get, is_int, is_str}
use agent_relay_auto.Outcome.{ok, Result-cases}
use agent_relay_auto.Markdown.{reread}
use agent_relay_auto.Markdown.Write.{Updates, last_write, covers}
use agent_relay_auto.Store.Base.{Disk, update_task}
use agent_relay_auto.Store.Laws.{Returned, update_task_ok}
use agent_relay_auto.Store.Fields.{
  field, state_keys, is_state, covers-append, or_last, last_write-append, field-update,
}
use agent_relay_auto.State.Types.{
  TransitionResult, StageEvidence, Rule, role_events, find_rule, bump, bump_if, put_if,
}
use agent_relay_auto.State.Parts.{
  covers-put_if, last_write-put_if, covers-bump_if, last_write-bump_if,
}
use agent_relay_auto.State.Stage.{
  run_refused, next_participant, evidence_updates, release_if, stage_updates, stage_plan,
  complete_stage,
}

covers-evidence : (e : StageEvidence) → covers state_keys (evidence_updates e) ≡ true
unfolding evidence_updates elem
covers-evidence e = covers-append state_keys _ _ (covers-put_if state_keys _ e.delivery_ref refl) (
    covers-append state_keys _ _ (covers-put_if state_keys _ e.delivery_id refl) (
      covers-append state_keys _ _ (covers-put_if state_keys _ e.review_ref refl)
        (covers-put_if state_keys _ e.report_ref refl)))

last_write-evidence :
    (k : String) (e : StageEvidence)
    → ("code_delivery_ref" == k) ≡ false
    → ("delivery_id" == k) ≡ false
    → ("review_ref" == k) ≡ false
    → ("report_ref" == k) ≡ false
    → last_write k (evidence_updates e) ≡ none
unfolding evidence_updates
last_write-evidence k e a b c d = simp (
  last_write-append,
  last_write-put_if k _ e.delivery_ref a,
  last_write-put_if k _ e.delivery_id b,
  last_write-put_if k _ e.review_ref c,
  last_write-put_if k _ e.report_ref d,
)

abbrev pub written_id : Option String → Option Value
written_id none = none
written_id (some s) = some (str s)

last_write-put_if_self :
    (o : Option String) → last_write "delivery_id" (put_if "delivery_id" o) ≡ written_id o
unfolding last_write put_if
last_write-put_if_self none = refl
last_write-put_if_self (some s) = refl

id_alone :
    (o : Option String) → or_last (or_last (or_last none none) (written_id o)) none ≡ written_id o
id_alone none = refl
id_alone (some s) = refl

covers-release_if : (b : Bool) → covers state_keys (release_if b) ≡ true
unfolding covers release_if elem
covers-release_if true = refl
covers-release_if false = refl

last_write-release_if :
    (k : String) (b : Bool)
    → ("writer_session" == k) ≡ false
    → ("execution" == k) ≡ false
    → last_write k (release_if b) ≡ none
unfolding last_write release_if
last_write-release_if k true p q = ground arith
last_write-release_if k false p q = refl

-- The run with which a role may complete a stage, beside the run and the writer of the STATE.md: the
-- Planner comes with none, and the others with the one that both keys name.
abbrev pub Leased : String → Option String → Value → Value → Type 0
Leased role run run_id writer =
    (((role == "planner") ≡ true) × (run ≡ none))
    ⊎ (((role == "planner") ≡ false)
        × ((r : String) × (run ≡ some r)
            × ((r == "") ≡ false)
            × (is_str run_id r ≡ true)
            × (is_str writer r ≡ true)))

-- The keys that only the tail of the updates may write.
abbrev IsOutside : String → Type 0
IsOutside k =
    (("code_delivery_ref" == k) ≡ false)
    × (("delivery_id" == k) ≡ false)
    × (("review_ref" == k) ≡ false)
    × (("report_ref" == k) ≡ false)
    × (("rework_round" == k) ≡ false)
    × (("auto_replan_count" == k) ≡ false)
    × (("writer_session" == k) ≡ false)
    × (("execution" == k) ≡ false)

module _ (role event : String) (e : StageEvidence) (m : Dict Value) {rework replan : Updates}
    (f : bump_if (event == "changes_requested") "rework_round" m ≡ ok rework)
    (g : bump_if (event == "replan_required") "auto_replan_count" m ≡ ok replan) where
  covers-tail :
      covers state_keys
        (evidence_updates e ++ (rework ++ (replan ++ release_if (role == "planner"))))
      ≡ true
  unfolding elem
  covers-tail = covers-append state_keys _ _ (covers-evidence e) (
      covers-append state_keys _ _ (covers-bump_if state_keys _ _ m f refl) (
        covers-append state_keys _ _ (covers-bump_if state_keys _ _ m g refl)
          (covers-release_if _)))

  last_write-delivery_id :
      last_write "delivery_id"
        (evidence_updates e ++ (rework ++ (replan ++ release_if (role == "planner"))))
      ≡ written_id e.delivery_id
  unfolding evidence_updates
  last_write-delivery_id =
      simp
        (
          last_write-append,
          last_write-put_if "delivery_id" "code_delivery_ref" e.delivery_ref refl,
          last_write-put_if_self e.delivery_id,
          last_write-put_if "delivery_id" "review_ref" e.review_ref refl,
          last_write-put_if "delivery_id" "report_ref" e.report_ref refl,
          last_write-bump_if "delivery_id" _ _ m f refl,
          last_write-bump_if "delivery_id" _ _ m g refl,
          last_write-release_if "delivery_id" (role == "planner") refl refl,
        )
        (id_alone e.delivery_id)

  last_write-tail :
      (k : String)
      → IsOutside k
      → last_write k (evidence_updates e ++ (rework ++ (replan ++ release_if (role == "planner"))))
        ≡ none
  last_write-tail k o = simp (
    last_write-append,
    last_write-evidence k e o.0 o.1 o.2 o.3,
    last_write-bump_if k _ _ m f o.4,
    last_write-bump_if k _ _ m g o.5,
    last_write-release_if k (role == "planner") o.6 o.7,
  )

-- What the plan decided, read off a run that returned.
record Decided (expected : ℤ) (role participant : String) (run : Option String) (e : StageEvidence)
    (rule : Rule) (m : Dict Value) (u : Option Updates) : Type 0 where
  updates : Updates
  writes : u ≡ some updates
  current : is_int (get m "revision") expected ≡ true
  in_stage : is_str (get m "status") rule.expected_status ≡ true
  on_turn : is_str (get m "current_role") role ≡ true
  identified : is_str (get m "current_participant") participant ≡ true
  leased : run_refused role run m ≡ false
  covered : covers state_keys updates ≡ true
  status : last_write "status" updates ≡ some (str rule.new_status)
  revision : last_write "revision" updates ≡ some (int (succ_ℤ expected))
  delivery_id : last_write "delivery_id" updates ≡ written_id e.delivery_id
  next_role : last_write "current_role" updates ≡ some (str rule.next_role)

module _ (task : String) (expected : ℤ) (role participant : String) (run : Option String)
    (event : String) (e : StageEvidence) (rule : Rule) where
  plan-Decided :
      (now : String) (m : Dict Value) (u : Option Updates) (a : TransitionResult)
      → stage_plan task expected role participant run event e rule now m ≡ ok (u, a)
      → Decided expected role participant run e rule m u
  unfolding stage_plan stage_updates last_write covers elem
  plan-Decided now m u a h = elim (Result-cases (bump "stage_round" (pos 1) m)) [
    | inl (x, q) ↦ absurd (ground arith)
    | inr (round, q) ↦
        elim (Result-cases (bump_if (event == "changes_requested") "rework_round" m)) [
          | inl (x, f) ↦ absurd (ground arith)
          | inr (rework, f) ↦
              elim (Result-cases (bump_if (event == "replan_required") "auto_replan_count" m)) [
                | inl (x, g) ↦ absurd (ground arith)
                | inr (replan, g) ↦ record {
                  updates =
                      stage_updates rule expected role participant e now round rework replan
                        (next_participant rule.next_role role participant m);
                  writes = ground arith;
                  current = ground arith;
                  in_stage = ground arith;
                  on_turn = ground arith;
                  identified = ground arith;
                  leased = ground arith;
                  covered = covers-tail role event e m f g;
                  status = ground (
                    arith,
                    last_write-tail role event e m f g "status"
                        (refl, refl, refl, refl, refl, refl, refl, refl),
                  );
                  delivery_id = ground (
                    arith,
                    last_write-delivery_id role event e m f g,
                    Option-cases e.delivery_id,
                  );
                  revision = ground (
                    arith,
                    last_write-tail role event e m f g "revision"
                        (refl, refl, refl, refl, refl, refl, refl, refl),
                  );
                  next_role = ground (
                    arith,
                    last_write-tail role event e m f g "current_role"
                        (refl, refl, refl, refl, refl, refl, refl, refl),
                  );
                }
              ]
        ]
  ]

  complete_stage-update :
      (d : Disk)
      → find_rule role_events role event ≡ some rule
      → complete_stage task expected role participant run event e d
        ≡ update_task task (stage_plan task expected role participant run event e rule) d
  unfolding complete_stage
  complete_stage-update d known = ground arith

  -- A stage that records a delivery leaves its id as it reads back.
  pub stage_delivery :
      (id : String) (d : Disk) (a : TransitionResult) (d' : Disk)
      → find_rule role_events role event ≡ some rule
      → e.delivery_id ≡ some id
      → is_state task d ≡ true
      → complete_stage task expected role participant run event e d ≡ (ok a, d')
      → field task "delivery_id" d' ≡ reread (str id)
  stage_delivery id d a d' known given s h =
      let plan = stage_plan task expected role participant run event e rule in
      let r : Returned task plan d a d' =
        update_task_ok task plan d a d' (sym (complete_stage-update d known) ∙ h) in
      let c = plan-Decided d.clock r.mapping r.updates a r.decided in
      rw (
        field-update task plan "delivery_id" c.updates r c.writes c.covered s,
        c.delivery_id,
        given,
      )
