-- ===== src/Reporting/World.antt =====
-- What a tick of the reporting coordinator works on: the files of the project, the wake journal, the
-- adapter of the Planner's tool, and the steps on them.
use agent_relay_auto.Prelude.{ℕ, String, Bool, Option, List, ◌∷◌}
use agent_relay_auto.Prelude.Int.{ℤ}
use agent_relay_auto.Value.{Fields, Value}
use agent_relay_auto.Outcome.{Error, Result, ok, err}
use agent_relay_auto.Store.Base.{Disk, Action}
use agent_relay_auto.Channel.{PlannerChannel}
use agent_relay_auto.Journal.{Event, Journal, latest, find_submission, append_event}

-- The records of planner_wake/base.py; the repository of a request is the one at hand.
pub record WakeRequest : Type 0 where
  pub task_id : String
  pub expected_revision : ℤ
  pub participant_id : String
  pub wake_key : Value

pub record SubmissionReceipt : Type 0 where
  pub wake_key : Value
  pub tool : String
  pub conversation_id : String
  pub remote_id : String

pub record ObservationResult : Type 0 where
  pub status : String
  pub detail : String

-- An adapter of a Planner's tool. The Planner may change the files while it is called. `reconcile`
-- is `none` where the adapter has no such method.
pub record Adapter : Type 0 where
  pub submit_report : PlannerChannel → WakeRequest → Action SubmissionReceipt
  pub reconcile : Option (PlannerChannel → Value → Action (Option SubmissionReceipt))
  pub observe : SubmissionReceipt → Action ObservationResult
  pub present : PlannerChannel → Action (Unit {0})

-- `ReportingPolicy` of config.py, as far as a tick reads it; its times are whole seconds.
pub record ReportingPolicy : Type 0 where
  pub enabled : Bool
  pub model_retry_limit : ℕ
  pub presentation_retry_limit : ℕ
  pub presentation_retry_interval_seconds : ℕ

-- `requests` are those that an adapter was handed, the last one first; `channel` is the file of the
-- Planner's channel.
pub record World : Type 0 where
  pub disk : Disk
  pub journal : Journal
  pub channel : Option (Option Fields)
  pub now : ℕ
  pub requests : List WakeRequest

abbrev pub M {ℓ} : Type ℓ → Type ℓ
M A = World → Result A × World

unfoldable pub pure {ℓ} : {A : Type ℓ} → A → M A
pure a w = (ok a, w)

unfoldable pub raise {ℓ} : {A : Type ℓ} → Error → M A
raise e w = (err e, w)

-- the rest of a step, if it returned
abbrev pub follow {ℓ κ} : {A : Type ℓ} {B : Type κ} → (A → M B) → Result A → M B
follow f (ok a) w = f a w
follow f (err e) w = (err e, w)

infixl 5 ◌>>=◌ ◌>>◌
unfoldable pub ◌>>=◌ {ℓ κ} : {A : Type ℓ} {B : Type κ} → M A → (A → M B) → M B
◌>>=◌ m f w = follow f (m w).0 (m w).1

abbrev pub ◌>>◌ {ℓ} : {B : Type ℓ} → M (Unit {0}) → M B → M B
m >> k = m >>= λ _. k

unfoldable pub lift {ℓ} : {A : Type ℓ} → Result A → M A
lift r w = (r, w)

-- a call that works on the files alone
unfoldable pub on_disk {ℓ} : {A : Type ℓ} → Action A → M A
on_disk act w = ((act w.disk).0, record w { disk = (act w.disk).1 })

-- `self.events.latest`, `find_submission` and `append`
unfoldable pub look_up : Value → M (Option Event)
unfolding latest
look_up key w = (latest key w.journal, w)

unfoldable pub look_for : Value → M (Option Event)
unfolding find_submission
look_for key w = (find_submission key w.journal, w)

unfoldable pub append : Event → M (Unit {0})
unfolding append_event
append e w = elim (append_event e w.journal) [
  | err x ↦ (err x, w)
  | ok j ↦ (ok tt, record w { journal = j })
]

-- `adapter.submit_report`: the request is out whether the call returns or raises
unfoldable pub hand_over : Adapter → PlannerChannel → WakeRequest → M SubmissionReceipt
hand_over adapter channel request w =
    let (r, d) = adapter.submit_report channel request w.disk in
    (r, record w { disk = d; requests = request ∷ w.requests })

pub record ReportingDecision : Type 0 where
  pub action : String
  pub task_id : String
  pub wake_key : Value
