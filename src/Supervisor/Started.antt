-- ===== src/Supervisor/Started.antt =====
-- What the start of a run in supervisor.py leaves behind: the run holds the task and is watched.
use mathlib.Core.Path.{subst}
use agent_relay_auto.Prelude.{
  String, ◌≡◌, refl, sym, ◌∙◌, ap, Bool, true, false, some, arith, eq_refl, Dict, lookup, insert,
  lookup-insert, inl, inr,
}
use agent_relay_auto.Prelude.Int.{pos}
use agent_relay_auto.Value.{Value, str, is_str}
use agent_relay_auto.Outcome.{Result, ok, err, Error, Result-cases}
use agent_relay_auto.Markdown.{reread}
use agent_relay_auto.Store.Fields.{field, is_state}
use agent_relay_auto.State.Types.{TransitionResult, ClaimKey}
use agent_relay_auto.State.Claim.{claim}
use agent_relay_auto.State.Claim.Effect.{holds_run, claim_effect, claim-fresh}
use agent_relay_auto.Reporting.World.{World}
use agent_relay_auto.Runs.{RunPath}
use agent_relay_auto.Launch.{LaunchRequest, LaunchContext, int_or}
use agent_relay_auto.Supervisor.Base.{
  ManagedProcess, Service, Outside, SupervisorDecision, ◌>>=◌, ◌>>◌, on_disk, lift, pure,
}
use agent_relay_auto.Supervisor.Steps.{
  pair, bind-ok, Aside, Raises, Raises-bind, Raises-lift, aside_steps,
}
use agent_relay_auto.Supervisor.End.{decision}
use agent_relay_auto.Supervisor.Start.{
  prepare, launch, launch_or_give_up, give_up, try_launch, remember, claim_key, claim_and_launch,
  claim_with, start_claimed,
}

module _ (o : Outside) (task role : String) (m : Dict Value) where
  pub Aside-prepare :
      (request : LaunchRequest) (claimed : TransitionResult)
      → Aside (prepare o task role m request claimed)
  unfolding prepare
  Aside-prepare request claimed = search aside_steps depth 8

  pub Aside-launch :
      (request : LaunchRequest) (p : LaunchContext × RunPath)
      → Aside (launch o task role m request p)
  unfolding launch
  Aside-launch request p = search aside_steps depth 8

  Raises-give_up :
      (created : Bool) (x : Error) → Raises (give_up o task role m {A = ManagedProcess} created x)
  unfolding give_up
  Raises-give_up created x = search (Raises-bind, Raises-lift) depth 6

  -- the handler of `except` raises again, or raises on its own
  pub give_up-raises :
      (created : Bool) (x : Error) (s : Service) (managed : ManagedProcess) (t : Service)
      → give_up o task role m created x s ≡ (ok managed, t)
      → ⊥
  give_up-raises created x s managed t h =
      let (e, q) = (Raises-give_up created x).raises s in ground arith

  try_launch-world :
      (request : LaunchRequest) (claimed : TransitionResult) (s : Service)
      (managed : ManagedProcess) (t : Service)
      → try_launch o task role m request claimed s ≡ (ok managed, t)
      → t.world ≡ s.world
  unfolding try_launch launch_or_give_up
  try_launch-world request claimed s managed t h =
      let first = prepare o task role m request claimed s in
      elim (Result-cases first.0) [
        | inl (e, q) ↦ absurd (
            give_up-raises false e first.1 managed t
              (sym (ap (λ r. launch_or_give_up o task role m request r first.1) q) ∙ h))
        | inr (p, q) ↦
            let second = launch o task role m request p first.1 in
            let h' = sym (ap (λ r. launch_or_give_up o task role m request r first.1) q) ∙ h in
            elim (Result-cases second.0) [
              | inl (e, g) ↦ absurd (
                  give_up-raises true e second.1 managed t (
                    sym (
                      ap
                        (λ r. elim r [
                          | err x ↦ give_up o task role m true x second.1
                          | ok n ↦ (ok n, second.1)
                        ])
                        g)
                    ∙ h'))
              | inr (n, g) ↦
                  sym (
                    ap (λ (x : Result ManagedProcess × Service). x.1.world)
                      (sym (
                          ap
                            (λ r. elim r [
                              | err x ↦ give_up o task role m true x second.1
                              | ok n ↦ (ok n, second.1)
                            ])
                            g)
                        ∙ h'))
                  ∙ ((Aside-launch request p).keeps first.1
                      ∙ (Aside-prepare request claimed).keeps s)
            ]
      ]

  claim_key-task :
      (request : LaunchRequest) (key : ClaimKey)
      → claim_key o task role m request ≡ ok key
      → key.task_id ≡ task
  unfolding claim_key
  claim_key-task request key h = elim (Result-cases (int_or "stage_round" (pos 1) m)) [
    | inl (e, q) ↦ absurd (ground arith)
    | inr (n, q) ↦ ground arith
  ]

  -- what a start that returned has done: a claim, and a process for it
  record Launched (request : LaunchRequest) (s t : Service) : Type 0 where
    key : ClaimKey
    claimed : TransitionResult
    managed : ManagedProcess
    keyed : claim_key o task role m request ≡ ok key
    claims : claim o.quote key o.new_run_id s.world.disk ≡ (ok claimed, t.world.disk)
    watched : lookup task t.active ≡ some managed

  start_fields :
      (key : ClaimKey) (claimed : TransitionResult) (s t : Service)
      → key.task_id ≡ task
      → claim o.quote key o.new_run_id s.world.disk ≡ (ok claimed, t.world.disk)
      → is_state task s.world.disk ≡ true
      → reread (str o.new_run_id) ≡ str o.new_run_id
      → is_str (field task "run_id" s.world.disk) o.new_run_id ≡ false
      → (managed : ManagedProcess) → lookup task t.active ≡ some managed
      → (holds_run task s.world.disk ≡ false)
        × (field task "run_id" t.world.disk ≡ str o.new_run_id)
        × (field task "run_status" t.world.disk ≡ str "running")
        × (field task "writer_session" t.world.disk ≡ str o.new_run_id)
        × (field task "status" t.world.disk ≡ field task "status" s.world.disk)
        × ((managed : ManagedProcess) × (lookup task t.active ≡ some managed))
  start_fields key claimed s t e h flat stable new managed watched =
      let d = s.world.disk in
      let d' = t.world.disk in
      let fresh =
        claim-fresh o.quote key o.new_run_id d claimed d'
          (subst (λ k. is_str (field k "run_id" d) o.new_run_id ≡ false) (sym e) new) h in
      let (current, free, run, status, writer, revision, same, still) =
        claim_effect o.quote key o.new_run_id d claimed d'
          (subst (λ k. is_state k d ≡ true) (sym e) flat) stable h fresh in
      (
        subst (λ k. holds_run k d ≡ false) e free,
        subst (λ k. field k "run_id" d' ≡ str o.new_run_id) e run,
        subst (λ k. field k "run_status" d' ≡ str "running") e status,
        subst (λ k. field k "writer_session" d' ≡ str o.new_run_id) e writer,
        subst (λ k. field k "status" d' ≡ field k "status" d) e same,
        (managed, watched),
      )

  -- the three steps of a start, one after another
  steps-Launched :
      (request : LaunchRequest) (key : ClaimKey) (claimed : TransitionResult)
      (managed : ManagedProcess) (dec : SupervisorDecision) (s u v w t : Service)
      → lift (claim_key o task role m request) s ≡ (ok key, u)
      → on_disk (claim o.quote key o.new_run_id) u ≡ (ok claimed, v)
      → w.world ≡ v.world
      → (remember o task role m managed >> pure (decision "started" task (some o.new_run_id) false))
          w
        ≡ (ok dec, t)
      → Launched request s t
  unfolding lift on_disk remember pure ◌>>=◌
  steps-Launched request key claimed managed dec s u v w t keyed claims same last =
      let act = claim o.quote key o.new_run_id in
      let start : s ≡ u = ap (λ (x : Result ClaimKey × Service). x.1) keyed in
      let disk : w.world.disk ≡ t.world.disk =
        ap (λ (x : Result SupervisorDecision × Service). x.1.world.disk) last in
      let active : insert task managed w.active ≡ t.active =
        ap (λ (x : Result SupervisorDecision × Service). x.1.active) last in
      let written : (act u.world.disk).1 ≡ v.world.disk =
        ap (λ (x : Result TransitionResult × Service). x.1.world.disk) claims in
      record {
        key = key;
        claimed = claimed;
        managed = managed;
        keyed = ap (λ (x : Result ClaimKey × Service). x.0) keyed;
        claims =
            pair (act s.world.disk)
              (ap (λ (x : Service). (act x.world.disk).0) start
                ∙ ap (λ (x : Result TransitionResult × Service). x.0) claims)
              (ap (λ (x : Service). (act x.world.disk).1) start
                ∙ (written ∙ (sym (ap (λ (x : World). x.disk) same) ∙ disk)));
        watched =
            ap (lookup task) (sym active)
            ∙ (lookup-insert task task managed w.active ∙ rw (eq_refl task) refl);
      }

  launched :
      (request : LaunchRequest) (s : Service) (dec : SupervisorDecision) (t : Service)
      → claim_and_launch o task role m request s ≡ (ok dec, t)
      → Launched request s t
  unfolding claim_and_launch claim_with start_claimed
  launched request s dec t h =
      let (key, u, keyed, rest) =
        bind-ok (lift (claim_key o task role m request)) (claim_with o task role m request) s dec t
          h in
      let (claimed, v, claims, more) =
        bind-ok (on_disk (claim o.quote key o.new_run_id)) (start_claimed o task role m request) u
          dec t rest in
      let (managed, w, tried, last) =
        bind-ok (try_launch o task role m request claimed)
          (λ n.
            (remember o task role m n >> pure (decision "started" task (some o.new_run_id) false)))
          v dec t more in
      steps-Launched request key claimed managed dec s u v w t keyed claims
        (try_launch-world request claimed v managed w tried) last

  -- A start that returns, of a run whose name is read back as written and is not in the STATE.md, had
  -- found no run active; now the STATE.md names the new run, as running and as the writer, the status
  -- is what it was, and the supervisor watches a process for the task.
  pub start_effect :
      (request : LaunchRequest) (s : Service) (dec : SupervisorDecision) (t : Service)
      → is_state task s.world.disk ≡ true
      → reread (str o.new_run_id) ≡ str o.new_run_id
      → is_str (field task "run_id" s.world.disk) o.new_run_id ≡ false
      → claim_and_launch o task role m request s ≡ (ok dec, t)
      → (holds_run task s.world.disk ≡ false)
        × (field task "run_id" t.world.disk ≡ str o.new_run_id)
        × (field task "run_status" t.world.disk ≡ str "running")
        × (field task "writer_session" t.world.disk ≡ str o.new_run_id)
        × (field task "status" t.world.disk ≡ field task "status" s.world.disk)
        × ((managed : ManagedProcess) × (lookup task t.active ≡ some managed))
  start_effect request s dec t flat stable new h =
      let l = launched request s dec t h in
      start_fields l.key l.claimed s t (claim_key-task request l.key l.keyed) l.claims flat stable
        new l.managed l.watched
