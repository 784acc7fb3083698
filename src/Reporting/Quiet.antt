-- ===== src/Reporting/Quiet.antt =====
-- The steps of a tick that hand no request to the adapter.
use agent_relay_auto.Prelude.{
  String, ◌≡◌, refl, ◌∙◌, Bool, true, false, Option, none, some, arith, if◌then◌else◌,
}
use agent_relay_auto.Prelude.Int.{ℤ, pos, succ_ℤ}
use agent_relay_auto.Value.{Value, str}
use agent_relay_auto.Outcome.{Result, ok, err, Result-cases}
use agent_relay_auto.Store.Base.{Action}
use agent_relay_auto.Channel.{PlannerChannel}
use agent_relay_auto.Journal.{Event, append_event}
use agent_relay_auto.Reporting.World.{
  World, M, follow, ◌>>=◌, pure, lift, raise, on_disk, look_up, look_for, append, Adapter,
  SubmissionReceipt, ObservationResult,
}
use agent_relay_auto.Reporting.Tick.{
  Coordinator, read_state, set_phase, decide, presented, present, present_due, present_again,
  present_submitted, done_after, tick_done, model_failed, conclude, observe_submitted, submit_again,
  reconciled, reconcile_by, reconcile, report_after, has_status,
}

-- A step that hands over no request.
pub record Quiet {ℓ} {A : Type ℓ} (m : M A) : Type 0 where
  pub keeps : (w : World) → (m w).1.requests ≡ w.requests

pub Quiet-append : (e : Event) → Quiet (append e)
unfolding append
Quiet-append e = record { keeps = λ w. ground (arith, Result-cases (append_event e w.journal)) }

pub Quiet-set_phase :
    (task : String) (n : ℤ) (key : Value) (phase : String) → Quiet (set_phase task n key phase)
unfolding set_phase on_disk raise
Quiet-set_phase task n (str s) phase = record { keeps = λ w. refl }
Quiet-set_phase task n _ phase = record { keeps = λ w. refl }

module _ {ℓ κ} {A : Type ℓ} {B : Type κ} (m : M A) (f : A → M B) where
  pub follow-requests :
      ((a : A) → Quiet (f a)) → (r : Result A) (w : World) → (follow f r w).1.requests ≡ w.requests
  follow-requests q (ok a) w = (q a).keeps w
  follow-requests q (err e) w = refl

  pub Quiet-bind : Quiet m → ((a : A) → Quiet (f a)) → Quiet (m >>= f)
  unfolding ◌>>=◌
  Quiet-bind p q = record { keeps = λ w. follow-requests q (m w).0 (m w).1 ∙ p.keeps w }

pub Quiet-if {ℓ} :
    {A : Type ℓ} (b : Bool) (m n : M A) → Quiet m → Quiet n → Quiet (if b then m else n)
Quiet-if true m n p q = p
Quiet-if false m n p q = q

pub Quiet-unless {ℓ} :
    {A : Type ℓ} (b b' : Bool) (m n o : M A)
    → Quiet m
    → Quiet o
    → b' ≡ false
    → Quiet (if b then m else if b' then n else o)
Quiet-unless true b' m n o p q h = p
Quiet-unless false true m n o p q h = cc
Quiet-unless false false m n o p q h = q

pub Quiet-lift {ℓ} : {A : Type ℓ} (r : Result A) → Quiet (lift r)
unfolding lift
Quiet-lift r = record { keeps = λ w. refl }

pub Quiet-pure {ℓ} : {A : Type ℓ} (a : A) → Quiet (pure a)
unfolding pure
Quiet-pure a = record { keeps = λ w. refl }

pub Quiet-on_disk {ℓ} : {A : Type ℓ} (act : Action A) → Quiet (on_disk act)
unfolding on_disk
Quiet-on_disk act = record { keeps = λ w. refl }

pub Quiet-look_for : (key : Value) → Quiet (look_for key)
unfolding look_for
Quiet-look_for key = record { keeps = λ w. refl }

pub Quiet-look_up : (key : Value) → Quiet (look_up key)
unfolding look_up
Quiet-look_up key = record { keeps = λ w. refl }

pub Quiet-read_state : (task : String) → Quiet (read_state task)
unfolding read_state
Quiet-read_state task = record { keeps = λ w. refl }

pub Quiet-decide :
    (c : Coordinator) (task action : String) (key : Value) → Quiet (decide c task action key)
unfolding decide pure
Quiet-decide c task action key = record { keeps = λ w. refl }

pub ruleset quiet = (
  Quiet-if, Quiet-bind, Quiet-lift, Quiet-on_disk, Quiet-look_for, Quiet-look_up, Quiet-read_state,
  Quiet-decide, Quiet-append, Quiet-set_phase,
)

module _ (c : Coordinator) (task : String) (channel : PlannerChannel) (adapter : Adapter)
    (key : Value) where
  pub Quiet-presented :
      (n : ℤ) (r : Result (Unit {0})) → Quiet (presented c task channel adapter key n r)
  unfolding presented append decide ◌>>=◌ pure
  Quiet-presented n (ok u) = record { keeps = λ w. ground arith }
  Quiet-presented n (err e) = record { keeps = λ w. ground arith }

  pub Quiet-present : (n : ℤ) → Quiet (present c task channel adapter key n)
  unfolding present
  Quiet-present n = record {
    keeps = λ w.
        (Quiet-presented n (adapter.present channel w.disk).0).keeps
          (record w { disk = (adapter.present channel w.disk).1 });
  }

  pub Quiet-model_failed :
      (n : ℤ) (s : String) → Quiet (model_failed c task channel adapter key n s)
  unfolding model_failed append decide ◌>>=◌ pure
  Quiet-model_failed n s = record { keeps = λ w. ground arith }

  pub Quiet-present_due : (n at : ℤ) → Quiet (present_due c task channel adapter key n at)
  unfolding present_due decide pure
  Quiet-present_due n at = record {
    keeps = λ w. ground (arith, (Quiet-present (succ_ℤ n)).keeps w);
  }

  pub Quiet-present_again : (e : Event) → Quiet (present_again c task channel adapter key e)
  unfolding present_again
  Quiet-present_again e = search (quiet, Quiet-present_due)

  pub Quiet-present_submitted :
      (e : Option Event) → Quiet (present_submitted c task channel adapter key e)
  unfolding present_submitted
  Quiet-present_submitted none = Quiet-decide c task "report_completed" key
  Quiet-present_submitted (some e) = Quiet-present (pos 1)

  pub Quiet-done_after : (e : Option Event) → Quiet (done_after c task channel adapter key e)
  unfolding done_after
  Quiet-done_after none = Quiet-decide c task "report_completed" key
  Quiet-done_after (some e) = search (quiet, Quiet-present_again, Quiet-present_submitted)

  pub Quiet-tick_done : Quiet (tick_done c task channel adapter key)
  unfolding tick_done
  Quiet-tick_done = search (quiet, Quiet-done_after)

  pub Quiet-conclude :
      (n : ℤ) (e : Event) (o : ObservationResult)
      → Quiet (conclude c task channel adapter key n e o)
  unfolding conclude
  Quiet-conclude n e o = search (quiet, Quiet-present, Quiet-model_failed)

  pub Quiet-observe_submitted :
      (n : ℤ) (e : Option Event) → Quiet (observe_submitted c task channel adapter key n e)
  unfolding observe_submitted
  Quiet-observe_submitted n none = Quiet-decide c task "blocked" key
  Quiet-observe_submitted n (some e) = search (quiet, Quiet-conclude)

  pub Quiet-reconciled :
      (n : ℤ) (e : Event) (r : Option SubmissionReceipt)
      → Quiet (reconciled c task channel adapter key n e r)
  unfolding reconciled
  Quiet-reconciled n e none = Quiet-decide c task "blocked" key
  Quiet-reconciled n e (some receipt) = search (quiet, Quiet-observe_submitted)

  pub Quiet-reconcile_by :
      (n : ℤ) (e : Event)
      (ask : Option (PlannerChannel → Value → Action (Option SubmissionReceipt)))
      → Quiet (reconcile_by c task channel adapter key n e ask)
  unfolding reconcile_by
  Quiet-reconcile_by n e none = Quiet-reconciled n e none
  Quiet-reconcile_by n e (some ask) = search (quiet, Quiet-reconciled)

  pub Quiet-reconcile : (n : ℤ) (e : Event) → Quiet (reconcile c task channel adapter key n e)
  unfolding reconcile
  Quiet-reconcile n e = Quiet-reconcile_by n e adapter.reconcile

  -- A wake that is under way is not requested again: whatever the journal says last of its key, but
  -- that the model failed, the rest of the tick hands over no request.
  pub under_way_unrequested :
      (n : ℤ) (e : Event) (w : World)
      → has_status "model_failed" e ≡ false
      → (report_after c task channel adapter key n (some e) w).1.requests ≡ w.requests
  unfolding report_after
  under_way_unrequested n e w h =
      (Quiet-unless (has_status "submitting" e) (has_status "model_failed" e)
          (reconcile c task channel adapter key n e) (submit_again c task channel adapter key n e)
          (look_for key >>= observe_submitted c task channel adapter key n) (Quiet-reconcile n e)
          (search (quiet, Quiet-observe_submitted)) h).keeps
        w
