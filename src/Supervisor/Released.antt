-- ===== src/Supervisor/Released.antt =====
-- A start that fails behind its claim in supervisor.py: the handler gives the lease up again.
use mathlib.Core.Path.{subst}
use mathlib.Core.Bool.{false≢true}
use agent_relay_auto.Prelude.{
  String, ◌≡◌, refl, sym, ◌∙◌, ap, Bool, true, false, none, arith, Dict, inl, inr,
}
use agent_relay_auto.Prelude.Int.{ℤ, pos}
use agent_relay_auto.Value.{Value, null, int, str, is_str}
use agent_relay_auto.Outcome.{Result, ok, err, Error, Result-cases}
use agent_relay_auto.Markdown.{reread}
use agent_relay_auto.Store.Base.{Disk}
use agent_relay_auto.Store.Fields.{field, is_state}
use agent_relay_auto.State.Types.{TransitionResult, ClaimKey, RunFinalization}
use agent_relay_auto.State.Claim.{claim}
use agent_relay_auto.State.Claim.Effect.{claim-fresh}
use agent_relay_auto.State.Finish.{finish_run}
use agent_relay_auto.State.Lease.{lease_ends}
use agent_relay_auto.Reporting.World.{World}
use agent_relay_auto.Runs.{RunPath, find_run, create, write_launch_context}
use agent_relay_auto.Launch.{LaunchRequest, LaunchContext, from_state, as_dict}
use agent_relay_auto.Supervisor.Base.{
  ManagedProcess, Service, Outside, Step, ◌>>=◌, follow, on_disk, on_runs, lift, pure, at_clock,
}
use agent_relay_auto.Supervisor.Steps.{pair, bind-ok}
use agent_relay_auto.Supervisor.Start.{
  prepare, launch, launch_or_give_up, give_up, close_run, try_launch, read_state, run_metadata,
}
use agent_relay_auto.Supervisor.Started.{Aside-prepare, Aside-launch}
use agent_relay_auto.Supervisor.Recorded.{
  Recorded, finish-Recorded, Recorded-write_launch_context, Recorded-create, Still-lift, bind-stays,
  Still-bind, read_state-stays,
}

module _ (o : Outside) (task role : String) (m : Dict Value) where
  abbrev run : String
  run = o.new_run_id

  -- the folder is there once the first part of the block returned
  Recorded-prepare :
      (request : LaunchRequest) (claimed : TransitionResult) (s : Service)
      (p : LaunchContext × RunPath) (t : Service)
      → find_run run s.runs.runs ≡ none
      → prepare o task role m request claimed s ≡ (ok p, t)
      → Recorded run t.runs
  unfolding prepare lift pure at_clock on_runs
  Recorded-prepare request claimed s p t absent h =
      let make : Step RunPath =
        at_clock (λ now. create now task run (run_metadata o task role m request claimed)) in
      let (state, u, was_read, rest) =
        bind-ok (read_state task)
          (λ state.
            (lift (from_state request state) >>= λ context. (make >>= λ dir. pure (context, dir))))
          s p t h in
      let (context, v, same, more) =
        bind-ok (lift (from_state request state)) (λ context. (make >>= λ dir. pure (context, dir)))
          u p t rest in
      let (dir, w, made, last) = bind-ok make (λ dir. pure (context, dir)) v p t more in
      let start : v ≡ s =
        sym (ap (λ (x : Result LaunchContext × Service). x.1) same)
        ∙ (sym (ap (λ (x : Result (Dict Value) × Service). x.1) was_read)
            ∙ read_state-stays task s) in
      let end : (make v).1 ≡ t =
        ap (λ (x : Result RunPath × Service). x.1) made
        ∙ ap (λ (x : Result (LaunchContext × RunPath) × Service). x.1) last in
      subst (λ (x : Service). Recorded run x.runs) end
        (Recorded-create v.world.disk.clock task run (run_metadata o task role m request claimed)
          v.runs (ap (λ (x : Service). find_run run x.runs.runs) start ∙ absent))

  Recorded-launch :
      (request : LaunchRequest) (p : LaunchContext × RunPath) (s : Service)
      → Recorded run s.runs
      → Recorded run (launch o task role m request p s).1.runs
  unfolding launch on_runs
  Recorded-launch request p s r =
      subst (λ (x : Service). Recorded run x.runs)
        (sym (
          bind-stays (on_runs (write_launch_context run (as_dict p.0)))
            (λ u.
              lift (o.build_command request p.0) >>= λ command. lift (o.start_worker command p.1))
            (λ u. search (Still-bind, Still-lift) depth 4) s))
        (Recorded-write_launch_context run (as_dict p.0) s.runs r)

  close_run-ok :
      (created : Bool) (s : Service)
      → (created ≡ true → Recorded run s.runs)
      → (close_run o task role m created s).0 ≡ ok tt
  unfolding close_run at_clock on_runs pure
  close_run-ok true s r = finish-Recorded s.world.disk.clock run (pos 1) s.runs (r refl)
  close_run-ok false s r = refl

  close_run-world :
      (created : Bool) (s : Service) → (close_run o task role m created s).1.world ≡ s.world
  unfolding close_run at_clock on_runs pure
  close_run-world true s = refl
  close_run-world false s = refl

  -- what `give_up` leaves of the files
  give_up-disk :
      (created : Bool) (e : Error) (s : Service) (b : RunFinalization) (d : Disk)
      → (created ≡ true → Recorded run s.runs)
      → finish_run o.max_agent_retries task run (pos 1) none "exit" s.world.disk ≡ (ok b, d)
      → (give_up o task role m {A = ManagedProcess} created e s).1.world.disk ≡ d
  unfolding give_up ◌>>=◌ on_disk lift
  give_up-disk created e s b d recorded h =
      let act = finish_run o.max_agent_retries task run (pos 1) none "exit" in
      let u = (close_run o task role m created s).1 in
      let done : act u.world.disk ≡ (ok b, d) =
        ap (λ (w : World). act w.disk) (close_run-world created s) ∙ h in
      let raise_again : RunFinalization → Step ManagedProcess = λ final. lift (err e) in
      ap (λ r. (follow (λ x. (on_disk act >>= raise_again)) r u).1.world.disk)
        (close_run-ok created s recorded)
      ∙ ap
          (λ (x : Result RunFinalization × Disk).
            (follow raise_again x.0
              (record u { world = record (u.world) { disk = x.1 } })).1.world.disk)
          done

  -- behind the second part
  continue : Service → Result ManagedProcess → Result ManagedProcess × Service
  continue s (err x) = give_up o task role m true x s
  continue s (ok n) = (ok n, s)

  ok≢err : {n : ManagedProcess} {e : Error} → ok n ≡ err e → ⊥
  ok≢err h = ground arith

  -- the store is what the claim made it where the handler starts
  try_launch-disk :
      (request : LaunchRequest) (claimed : TransitionResult) (s : Service) (e : Error) (t : Service)
      (b : RunFinalization) (d : Disk)
      → find_run run s.runs.runs ≡ none
      → finish_run o.max_agent_retries task run (pos 1) none "exit" s.world.disk ≡ (ok b, d)
      → try_launch o task role m request claimed s ≡ (err e, t)
      → t.world.disk ≡ d
  unfolding try_launch launch_or_give_up continue
  try_launch-disk request claimed s e t b d absent finishes h =
      let act = finish_run o.max_agent_retries task run (pos 1) none "exit" in
      let first = prepare o task role m request claimed s in
      let same : first.1.world ≡ s.world = (Aside-prepare o task role m request claimed).keeps s in
      elim (Result-cases first.0) [
        | inl (x, q) ↦
            let raised = sym (ap (λ r. launch_or_give_up o task role m request r first.1) q) ∙ h in
            sym (ap (λ (y : Result ManagedProcess × Service). y.1.world.disk) raised)
            ∙ give_up-disk false x first.1 b d (λ c. absurd (false≢true c))
                (ap (λ (w : World). act w.disk) same ∙ finishes)
        | inr (p, q) ↦
            let second = launch o task role m request p first.1 in
            let h' = sym (ap (λ r. launch_or_give_up o task role m request r first.1) q) ∙ h in
            let same' : second.1.world ≡ s.world =
              (Aside-launch o task role m request p).keeps first.1 ∙ same in
            elim (Result-cases second.0) [
              | inl (x, g) ↦
                  let raised = sym (ap (continue second.1) g) ∙ h' in
                  sym (ap (λ (y : Result ManagedProcess × Service). y.1.world.disk) raised)
                  ∙ give_up-disk true x second.1 b d
                      (λ c.
                        Recorded-launch request p first.1
                          (Recorded-prepare request claimed s p first.1 absent (pair first q refl)))
                      (ap (λ (w : World). act w.disk) same' ∙ finishes)
              | inr (n, g) ↦ absurd (
                  ok≢err (
                    ap (λ (y : Result ManagedProcess × Service). y.0)
                      (sym (ap (continue second.1) g) ∙ h')))
            ]
      ]

  -- A start that raises behind a fresh claim, for a task whose failure count is an integer and whose
  -- last finished run is another one, leaves the task to no run, with the status that it had before.
  pub failed_start_releases :
      (request : LaunchRequest) (key : ClaimKey) (claimed : TransitionResult) (failures : ℤ)
      (s t u : Service) (e : Error)
      → key.task_id ≡ task
      → is_state key.task_id s.world.disk ≡ true
      → reread (str run) ≡ str run
      → is_str (field key.task_id "run_id" s.world.disk) run ≡ false
      → is_str (field key.task_id "last_finished_run_id" s.world.disk) run ≡ false
      → field key.task_id "agent_failure_count" s.world.disk ≡ int failures
      → find_run run s.runs.runs ≡ none
      → on_disk (claim o.quote key run) s ≡ (ok claimed, t)
      → try_launch o task role m request claimed t ≡ (err e, u)
      → (field task "run_id" u.world.disk ≡ null)
        × (field task "writer_session" u.world.disk ≡ null)
        × (field task "status" u.world.disk ≡ field task "status" s.world.disk)
  unfolding on_disk
  failed_start_releases request key claimed failures s t u e at flat stable new last failed absent h
        raised =
      let d = s.world.disk in
      let claims : claim o.quote key run d ≡ (ok claimed, t.world.disk) =
        pair (claim o.quote key run d) (ap (λ (x : Result TransitionResult × Service). x.0) h)
          (ap (λ (x : Result TransitionResult × Service). x.1.world.disk) h) in
      let (b, d', done, no_run, no_writer, status) =
        lease_ends o.max_agent_retries run (pos 1) "exit" o.quote key failures d claimed
          t.world.disk flat stable claims
          (claim-fresh o.quote key run d claimed t.world.disk new claims) failed last in
      let same : u.world.disk ≡ d' =
        try_launch-disk request claimed t e u b d'
          (ap (λ (x : Result TransitionResult × Service). find_run run x.1.runs.runs) (sym h)
            ∙ absent)
          (subst
            (λ k.
              finish_run o.max_agent_retries k run (pos 1) none "exit" t.world.disk ≡ (ok b, d'))
            at done)
          raised in
      (
        subst (λ k. field k "run_id" u.world.disk ≡ null) at
            (ap (field key.task_id "run_id") same ∙ no_run),
        subst (λ k. field k "writer_session" u.world.disk ≡ null) at
            (ap (field key.task_id "writer_session") same ∙ no_writer),
        subst (λ k. field k "status" u.world.disk ≡ field k "status" d) at
            (ap (field key.task_id "status") same ∙ status),
      )
