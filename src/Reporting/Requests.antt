-- ===== src/Reporting/Requests.antt =====
-- How many requests a tick hands to the adapter.
use agent_relay_auto.Prelude.{
  String, ◌≡◌, refl, ap, ◌∙◌, Bool, true, false, Option, none, some, ◌∷◌, if◌then◌else◌, Dict, ◌⊎◌,
  inl, inr,
}
use agent_relay_auto.Prelude.Int.{ℤ}
use agent_relay_auto.Value.{Value, null}
use agent_relay_auto.Outcome.{Result, ok, err}
use agent_relay_auto.Channel.{PlannerChannel}
use agent_relay_auto.Journal.{Event}
use agent_relay_auto.Reporting.World.{World, M, follow, ◌>>=◌, hand_over, Adapter, WakeRequest}
use agent_relay_auto.Reporting.Tick.{
  Coordinator, submit, submit_first, submit_again, report_after, tick_reporting, tick_bound,
  read_channel, tick_state, tick_body, tick,
}
use agent_relay_auto.Reporting.Quiet.{
  Quiet, Quiet-decide, Quiet-lift, Quiet-look_up, Quiet-observe_submitted, Quiet-on_disk,
  Quiet-present, Quiet-pure, Quiet-read_state, Quiet-reconcile, Quiet-tick_done, follow-requests,
  quiet,
}

-- A step that hands over one request at most.
record Single {ℓ} {A : Type ℓ} (m : M A) : Type 0 where
  hands :
      (w : World)
      → ((m w).1.requests ≡ w.requests) ⊎ ((r : WakeRequest) × ((m w).1.requests ≡ r ∷ w.requests))

Single-Quiet {ℓ} : {A : Type ℓ} {m : M A} → Quiet m → Single m
Single-Quiet q = record { hands = λ w. inl (q.keeps w) }

Single-hand_over :
    (adapter : Adapter) (channel : PlannerChannel) (r : WakeRequest)
    → Single (hand_over adapter channel r)
unfolding hand_over
Single-hand_over adapter channel r = record { hands = λ w. inr (r, refl) }

module _ {ℓ κ} {A : Type ℓ} {B : Type κ} {m : M A} {f : A → M B} where
  -- the request is in the first part, or in the rest
  Single-first : Single m → ((a : A) → Quiet (f a)) → Single (m >>= f)
  unfolding ◌>>=◌
  Single-first s q = record {
    hands = λ w. hands w (follow-requests m f q (m w).0 (m w).1) (s.hands w);
  }
    where
      hands :
          (w : World)
          → (follow f (m w).0 (m w).1).1.requests ≡ (m w).1.requests
          → ((m w).1.requests ≡ w.requests)
            ⊎ ((r : WakeRequest) × ((m w).1.requests ≡ r ∷ w.requests))
          → ((follow f (m w).0 (m w).1).1.requests ≡ w.requests)
            ⊎ ((r : WakeRequest) × ((follow f (m w).0 (m w).1).1.requests ≡ r ∷ w.requests))
      hands w e (inl h) = inl (e ∙ h)
      hands w e (inr (r, h)) = inr (r, e ∙ h)

  Single-rest : Quiet m → ((a : A) → Single (f a)) → Single (m >>= f)
  unfolding ◌>>=◌
  Single-rest q s = record { hands = λ w. rest_hands w (m w).1 (q.keeps w) (m w).0 }
    where
      rest_hands :
          (w w' : World)
          → w'.requests ≡ w.requests
          → (r : Result A)
          → ((follow f r w').1.requests ≡ w.requests)
            ⊎ ((x : WakeRequest) × ((follow f r w').1.requests ≡ x ∷ w.requests))
      rest_hands w w' e (err x) = inl e
      rest_hands w w' e (ok a) = elim ((s a).hands w') [
        | inl h ↦ inl (h ∙ e)
        | inr (x, h) ↦ inr (x, h ∙ ap (λ l. x ∷ l) e)
      ]

Single-if {ℓ} :
    {A : Type ℓ} (b : Bool) (m n : M A) → Single m → Single n → Single (if b then m else n)
Single-if true m n p q = p
Single-if false m n p q = q

ruleset single = (Single-first, Single-rest, Single-if, Single-Quiet, Single-hand_over)

module _ (c : Coordinator) (task : String) where
  module _ (channel : PlannerChannel) (adapter : Adapter) (key : Value) where
    Single-submit : (n a : ℤ) → Single (submit c task channel adapter key n a)
    unfolding submit
    Single-submit n a =
        search (Single-rest, Single-first, Single-hand_over, quiet, Quiet-pure) depth 9

    Single-report_after :
        (n : ℤ) (e : Option Event) → Single (report_after c task channel adapter key n e)
    unfolding report_after submit_first submit_again
    Single-report_after n none = search (Single-first, Single-submit, quiet, Quiet-present) depth 9
    Single-report_after n (some e) =
        search
          (
            Single-if, Single-rest, Single-first, Single-Quiet, Single-submit, quiet,
            Quiet-reconcile, Quiet-observe_submitted,
          )
          depth 12

  Single-tick_reporting :
      (channel : PlannerChannel) (state : Dict Value) → Single (tick_reporting c task channel state)
  unfolding tick_reporting
  Single-tick_reporting channel state =
      search (Single-rest, Quiet-lift, Quiet-on_disk, Quiet-look_up, Single-report_after) depth 12

  Single-tick_bound :
      (state : Dict Value) (o : Option PlannerChannel) → Single (tick_bound c task state o)
  unfolding tick_bound
  Single-tick_bound state none = Single-Quiet (Quiet-decide c task "blocked" null)
  Single-tick_bound state (some channel) = search (
    Single-if, Single-rest, Single-Quiet, Quiet-lift, Quiet-decide, Quiet-tick_done,
    Single-tick_reporting,
  )

  Single-read_channel : (state : Dict Value) → Single (read_channel c task state)
  unfolding read_channel
  Single-read_channel state = record {
    hands = λ w. (Single-rest (Quiet-lift _) (Single-tick_bound state)).hands w;
  }

  Single-tick_state : (state : Dict Value) → Single (tick_state c task state)
  unfolding tick_state
  Single-tick_state state =
      search (Single-if, Single-rest, Single-Quiet, Quiet-lift, Quiet-decide, Single-read_channel)
        depth 12

  Single-tick_body : Single (tick_body c task)
  unfolding tick_body
  Single-tick_body = search (Single-rest, Quiet-on_disk, Quiet-read_state, Single-tick_state)

  -- A tick hands over one request at most, whatever the files, the journal and the adapter do.
  pub tick_requests :
      (w : World)
      → ((tick c task w).1.requests ≡ w.requests)
        ⊎ ((r : WakeRequest) × ((tick c task w).1.requests ≡ r ∷ w.requests))
  unfolding tick
  tick_requests w = Single-tick_body.hands w
