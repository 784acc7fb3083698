-- ===== src/Runner/Pass.antt =====
-- A pass of runner.py over several projects: what becomes of a project that fails again, and of a pass
-- whose notification raises.
use agent_relay_auto.Prelude.{
  String, ◌≡◌, refl, sym, ap, ◌∙◌, ◌⊎◌, inl, inr, false, some, if◌then◌else◌, arith, eq_refl,
  eq_iff,
}
use agent_relay_auto.Value.{Value}
use agent_relay_auto.Outcome.{Result, ok, Result-cases, ◌>>=◌}
use agent_relay_auto.Reporting.World.{World}
use agent_relay_auto.Runs.{RunStore}
use agent_relay_auto.Supervisor.Base.{Service, SupervisorDecision}
use agent_relay_auto.Supervisor.Tick.{tick}
use agent_relay_auto.Runner.{
  Project, Runner, Surroundings, put_project, supervisor_of, service_of, ticked, failed, attempt,
  wants_attention, revision_of, announce_key, announce, visit, visit_with, after_tick, attempt_with,
  after_notice,
}

module _ (s : Surroundings) where
  -- an attempt that failed, and one that returned
  attempt-cases :
      (repo : String) (p : Project)
      → ((detail : String) × (w : World) × (rs : RunStore) × (attempt s repo p
            ≡ failed detail w rs p))
        ⊎ ((d : SupervisorDecision) × (t : Service) × (attempt s repo p ≡ (d, ticked t p)))
  unfolding attempt attempt_with after_tick
  attempt-cases repo p = elim (Result-cases (supervisor_of s repo p)) [
    | inl (e, q) ↦ inl (s.describe repo e, p.world, p.runs, ap (attempt_with s repo p) q)
    | inr (w, q) ↦
        let run = tick (s.outside repo) (service_of p w) in
        elim (Result-cases run.0) [
          | inl (e, g) ↦ inl (
            s.describe repo e,
            run.1.world,
            run.1.runs,
            ap (attempt_with s repo p) q ∙ ap (λ x. after_tick s repo p x run.1) g,
          )
          | inr (d, g) ↦
              inr (d, run.1, ap (attempt_with s repo p) q ∙ ap (λ x. after_tick s repo p x run.1) g)
        ]
  ]

  -- a decision that is not reported
  visit-quiet :
      (repo : String) (r : Runner) (x : SupervisorDecision × Project)
      → x.0.report ≡ false
      → visit_with s repo r x ≡ (ok x.0, put_project repo x.1 r)
  unfolding visit_with announce wants_attention
  visit-quiet repo r (d, p) h =
      let unwanted : wants_attention d ≡ false = ground arith in
      ap
        (λ b. after_notice d (put_project repo p r) (
          if b
          then (revision_of d.task_id ((put_project repo p r).projects repo).world >>= λ n.
              announce_key s repo d n (put_project repo p r))
          else ok (put_project repo p r)))
        unwanted

  -- A project that fails as it failed before is announced no more: the pass goes on, no notice is
  -- shown, and the error stays noted.
  pub error_once :
      (repo detail : String) (r : Runner)
      → (r.projects repo).error ≡ some detail
      → (attempt s repo (r.projects repo)).1.error ≡ some detail
      → (d : SupervisorDecision) × ((visit s repo r).0 ≡ ok d)
        × (d.action ≡ "project_error")
        × ((visit s repo r).1.shown ≡ r.shown)
        × (((visit s repo r).1.projects repo).error ≡ some detail)
  unfolding visit put_project failed ticked
  error_once repo detail r was now =
      let p = r.projects repo in
      elim (attempt-cases repo p) [
        | inl (seen, w, rs, q) ↦
            let same : some seen ≡ some detail =
              sym (ap (λ (x : SupervisorDecision × Project). x.1.error) q) ∙ now in
            let x = failed seen w rs p in
            let done : visit s repo r ≡ (ok x.0, put_project repo x.1 r) =
              ap (visit_with s repo r) q
              ∙ visit-quiet repo r x (ground (arith, was, same, eq_iff detail seen)) in
            (
              x.0,
              ap (λ (y : Result SupervisorDecision × Runner). y.0) done,
              refl,
              ap (λ (y : Result SupervisorDecision × Runner). y.1.shown) done,
              ap (λ (y : Result SupervisorDecision × Runner). (y.1.projects repo).error) done
                  ∙ (rw (eq_refl repo) same),
            )
        | inr (d, t, q) ↦
            absurd (ground (arith, now, ap (λ (x : SupervisorDecision × Project). x.1.error) q))
      ]
