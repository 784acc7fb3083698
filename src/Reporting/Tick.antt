-- ===== src/Reporting/Tick.antt =====
-- `ReportingCoordinator` of agent_relay_runtime/reporting.py: `tick` and the methods that it calls.
use text.Mathlib.Text.{find?}
use Prim.Native.String.{◌++◌ as ◌<>◌}
use agent_relay_auto.Prelude.{
  ℕ, String, Bool, not, ◌&&◌, ◌||◌, Option, none, some, [], ◌∷◌, ◌+◌, ◌==◌, if◌then◌else◌, Dict,
  lookup, is_some,
}
use agent_relay_auto.Prelude.Int.{ℤ, pos, succ_ℤ, leb_ℤ}
use agent_relay_auto.Value.{Value, null, int, str, get, get_field, mapping_or_empty, truthy, is_str}
use agent_relay_auto.Outcome.{
  Error, value_error, key_error, format_error, Result, ok, err, or_raise,
}
use agent_relay_auto.Markdown.{parse_fenced_yaml}
use agent_relay_auto.Store.Base.{Disk, Action}
use agent_relay_auto.State.Types.{int_of, is_in}
use agent_relay_auto.State.Wake.{prepare_reporting_wake, set_reporting_phase}
use agent_relay_auto.State.Report.{recover_pending_transactions}
use agent_relay_auto.Channel.{PlannerChannel, load_channel}
use agent_relay_auto.Journal.{Event, raw_attempt, attempt_of}
use agent_relay_auto.Reporting.World.{
  World, M, pure, raise, ◌>>=◌, ◌>>◌, lift, on_disk, look_up, look_for, append, hand_over,
  SubmissionReceipt, ObservationResult, Adapter, ReportingPolicy, ReportingDecision,
}

-- `_state`: a task with no STATE.md is a ValueError here
unfoldable pub state_of : String → Disk → Result (Dict Value)
unfolding lookup parse_fenced_yaml
state_of task d = elim (lookup task d.tasks) [
  | none ↦ err value_error
  | some doc ↦ or_raise (parse_fenced_yaml doc) format_error
]

unfoldable pub read_state : String → M (Dict Value)
unfolding state_of
read_state task w = (state_of task w.disk, w)

unfoldable pub has_status : String → Event → Bool
unfolding is_str get
has_status s e = is_str (get e "status") s

-- What the store is called with; a key that is no text never comes so far, since the journal
-- refuses it.
unfoldable pub set_phase : String → ℤ → Value → String → M (Unit {0})
unfolding ◌>>=◌ pure lift on_disk set_reporting_phase
set_phase task revision (str key) phase = on_disk (set_reporting_phase task revision key phase)
set_phase task revision key phase = raise value_error

-- What the coordinator is made of: its policy, the adapters by tool, and what it uses of Python:
-- `blank` and `resolve` of planner_channel.py, `digest` the SHA-256 of a text, `cut` its first
-- digits, `display` the text of a value, `describe` that of an exception.
pub record Coordinator : Type 0 where
  pub repo : String
  pub policy : ReportingPolicy
  pub adapter_factory : String → Result Adapter
  pub blank : String → Bool
  pub resolve : String → String
  pub digest : String → String
  pub cut : ℕ → String → String
  pub display : Value → String
  pub describe : Error → String

unfoldable pub plain_event : Value → String → ℤ → Event
plain_event key s attempt = ("wake_key", key) ∷ ("status", str s) ∷ ("attempt", int attempt) ∷ []

module _ (c : Coordinator) (task : String) where
  unfoldable pub decide : String → Value → M ReportingDecision
  decide action key = pure (record { action = action; task_id = task; wake_key = key })

  module _ (channel : PlannerChannel) (adapter : Adapter) (key : Value) where
    -- `_safe_receipt_id`
    unfoldable pub safe_receipt_id : SubmissionReceipt → String
    safe_receipt_id receipt =
        if is_some (find? receipt.remote_id channel.conversation_id)
        then "sha256:" <> c.cut 16 (c.digest receipt.remote_id)
        else receipt.remote_id

    -- the members of a submitted event; the conversation is masked by `_masked_conversation`
    unfoldable pub submitted_event : Value → SubmissionReceipt → Event
    unfolding ◌>>=◌ pure lift safe_receipt_id
    submitted_event attempt receipt =
        ("wake_key", key)
        ∷ ("status", str "submitted")
        ∷ ("attempt", attempt)
        ∷ ("tool", str receipt.tool)
        ∷ ("conversation_id_masked", str ("sha256:" <> c.cut 12 (c.digest receipt.conversation_id)))
        ∷ ("receipt_id", str (safe_receipt_id receipt))
        ∷ []

    -- `_submit`
    unfoldable pub submit : ℤ → ℤ → M SubmissionReceipt
    unfolding ◌>>=◌ pure lift append hand_over submitted_event plain_event
    submit revision attempt = do
      append (plain_event key "submitting" attempt)
      receipt ← hand_over adapter channel (record {
        task_id = task;
        expected_revision = revision;
        participant_id = channel.participant_id;
        wake_key = key;
      })
      append (submitted_event (int attempt) receipt)
      pure receipt

    unfoldable pub failed_event : ℕ → ℤ → Error → Event
    failed_event now attempt e =
        ("wake_key", key)
        ∷ ("status", str "presentation_failed")
        ∷ ("attempt", int attempt)
        ∷ ("next_retry_at", int (pos (now + c.policy.presentation_retry_interval_seconds)))
        ∷ ("detail", str (c.describe e))
        ∷ []

    -- what follows a presentation that returned or raised
    unfoldable pub presented : ℤ → Result (Unit {0}) → M ReportingDecision
    unfolding ◌>>=◌ pure lift append plain_event failed_event decide
    presented attempt (ok _) w =
        (append (plain_event key "presented" attempt) >> decide "report_completed" key) w
    presented attempt (err e) w =
        (append (failed_event w.now attempt e)
            >> decide
                (if leb_ℤ (pos c.policy.presentation_retry_limit) attempt
                  then "report_completed"
                  else "report_presentation_retry")
                key)
          w

    -- `_present`: every exception of the adapter is caught
    unfoldable pub present : ℤ → M ReportingDecision
    unfolding presented
    present attempt w =
        presented attempt (adapter.present channel w.disk).0
          (record w { disk = (adapter.present channel w.disk).1 })

    -- a presentation that failed before, once its time has come
    unfoldable pub present_due : ℤ → ℤ → M ReportingDecision
    unfolding present decide
    present_due attempt at w =
        if leb_ℤ at (pos w.now)
        then present (succ_ℤ attempt) w
        else decide "report_presentation_retry" key w

    unfoldable pub present_again : Event → M ReportingDecision
    unfolding ◌>>=◌ pure lift attempt_of present_due decide lookup
    present_again e = do
      attempt ← lift (attempt_of e)
      if leb_ℤ (pos c.policy.presentation_retry_limit) attempt
          then decide "report_completed" key
          else (do
            at ← lift (elim (lookup "next_retry_at" e) [ none ↦ ok (pos 0) | some v ↦ int_of v ])
            present_due attempt at)

    unfoldable pub present_submitted : Option Event → M ReportingDecision
    unfolding present decide
    present_submitted none = decide "report_completed" key
    present_submitted (some e) = present (pos 1)

    unfoldable pub done_after : Option Event → M ReportingDecision
    unfolding ◌>>=◌ pure lift present_again present_submitted decide has_status look_for
    done_after none = decide "report_completed" key
    done_after (some e) =
        if has_status "presented" e || has_status "completed" e
        then decide "report_completed" key
        else if has_status "presentation_failed" e
        then present_again e
        else (look_for key >>= present_submitted)

    -- `_tick_done`
    unfoldable pub tick_done : M ReportingDecision
    unfolding ◌>>=◌ pure lift done_after look_up truthy
    tick_done = if truthy key then (look_up key >>= done_after) else done_after none

    -- `_receipt`
    unfoldable pub receipt_of : Event → Result SubmissionReceipt
    unfolding get lookup
    receipt_of e = elim (lookup "tool" e) [
      | none ↦ err key_error
      | some tool ↦ elim (lookup "receipt_id" e) [
        | none ↦ err key_error
        | some id ↦ ok (record {
          wake_key = str (c.display (get e "wake_key"));
          tool = c.display tool;
          conversation_id = channel.conversation_id;
          remote_id = c.display id;
        })
      ]
    ]

    -- a turn that failed, or ended with no report, for the attempt that was submitted
    unfoldable pub model_failed : ℤ → String → M ReportingDecision
    unfolding ◌>>=◌ pure lift append decide
    model_failed attempt detail = do
      append (
          ("wake_key", key)
          ∷ ("status", str "model_failed")
          ∷ ("attempt", int attempt)
          ∷ ("detail", str detail)
          ∷ [])
      decide
          (if leb_ℤ attempt (pos c.policy.model_retry_limit)
            then "report_wake_pending"
            else "blocked")
          key

    -- what follows from the status that the adapter observed
    unfoldable pub conclude : ℤ → Event → ObservationResult → M ReportingDecision
    unfolding ◌>>=◌ pure lift model_failed attempt_of append present read_state set_phase decide
        raw_attempt get is_str
    conclude revision submitted observed =
        if observed.status == "completed"
        then (do
          state ← read_state task
          if is_str (get state "status") "DONE"
              then (do
                append (
                    ("wake_key", key)
                    ∷ ("status", str "model_completed")
                    ∷ ("attempt", raw_attempt submitted)
                    ∷ [])
                present (pos 1))
              else (do
                attempt ← lift (attempt_of submitted)
                model_failed attempt "remote turn completed without guarded report-done"))
        else if observed.status == "failed"
        then (do
          attempt ← lift (attempt_of submitted)
          model_failed attempt
              (if observed.detail == "" then "remote Planner turn failed" else observed.detail))
        else if observed.status == "active"
        then (do set_phase task revision key "active"; decide "report_active" key)
        else decide "report_active" key

    unfoldable pub observe_submitted : ℤ → Option Event → M ReportingDecision
    unfolding ◌>>=◌ pure lift receipt_of conclude on_disk decide
    observe_submitted revision none = decide "blocked" key
    observe_submitted revision (some e) = do
      receipt ← lift (receipt_of e)
      observed ← on_disk (adapter.observe receipt)
      conclude revision e observed

    -- the first request for the key
    unfoldable pub submit_first : ℤ → M ReportingDecision
    unfolding ◌>>=◌ pure lift submit read_state present set_phase decide is_str get
    submit_first revision = do
      receipt ← submit revision (pos 1)
      state ← read_state task
      if is_str (get state "status") "DONE"
          then present (pos 1)
          else (do set_phase task revision key "submitted"; decide "report_submitted" key)

    -- another request for it, while the limit allows one
    unfoldable pub submit_again : ℤ → Event → M ReportingDecision
    unfolding ◌>>=◌ pure lift attempt_of submit set_phase decide
    submit_again revision e = do
      attempt ← lift (attempt_of e)
      if leb_ℤ attempt (pos c.policy.model_retry_limit)
          then (do
            receipt ← submit revision (succ_ℤ attempt)
            set_phase task revision key "submitted"
            decide "report_submitted" key)
          else decide "blocked" key

    unfoldable pub reconciled : ℤ → Event → Option SubmissionReceipt → M ReportingDecision
    unfolding ◌>>=◌ pure lift append submitted_event set_phase look_for observe_submitted decide
        raw_attempt
    reconciled revision e none = decide "blocked" key
    reconciled revision e (some receipt) = do
      append (submitted_event (raw_attempt e) receipt)
      set_phase task revision key "submitted"
      submitted ← look_for key
      observe_submitted revision submitted

    -- a request that may have been submitted, and the adapter's method, if it has one
    unfoldable pub reconcile_by :
        ℤ
        → Event
        → Option (PlannerChannel → Value → Action (Option SubmissionReceipt))
        → M ReportingDecision
    unfolding ◌>>=◌ reconciled on_disk
    reconcile_by revision e none = reconciled revision e none
    reconcile_by revision e (some ask) = on_disk (ask channel key) >>= reconciled revision e

    unfoldable pub reconcile : ℤ → Event → M ReportingDecision
    unfolding reconcile_by
    reconcile revision e = reconcile_by revision e adapter.reconcile

    unfoldable pub report_after : ℤ → Option Event → M ReportingDecision
    unfolding ◌>>=◌ pure lift submit_first submit_again reconcile look_for observe_submitted
        has_status
    report_after revision none = submit_first revision
    report_after revision (some e) =
        if has_status "submitting" e
        then reconcile revision e
        else if has_status "model_failed" e
        then submit_again revision e
        else (look_for key >>= observe_submitted revision)

  -- the wake of a task in REPORTING
  unfoldable pub tick_reporting : PlannerChannel → Dict Value → M ReportingDecision
  unfolding ◌>>=◌ pure lift on_disk prepare_reporting_wake look_up report_after lookup
  tick_reporting channel state = do
    revision ← lift (or_raise (lookup "revision" state) key_error)
    expected ← lift (int_of revision)
    wake ← on_disk (
        prepare_reporting_wake (λ s. c.cut 16 (c.digest s)) task expected channel.participant_id
          channel.conversation_id)
    latest ← look_up wake.1
    adapter ← lift (c.adapter_factory channel.tool)
    report_after channel adapter wake.1 wake.0 latest

  -- `str(reporting.get("wake_key") or "")`
  unfoldable pub key_of : Dict Value → Value
  unfolding get get_field mapping_or_empty truthy
  key_of state =
      let key = get_field (mapping_or_empty (get state "reporting")) "wake_key" in
      if truthy key then str (c.display key) else str ""

  unfoldable pub tick_bound : Dict Value → Option PlannerChannel → M ReportingDecision
  unfolding ◌>>=◌ pure lift decide tick_done tick_reporting key_of is_str get
  tick_bound state none = decide "blocked" null
  tick_bound state (some channel) =
      if not (is_str (get state "current_participant") channel.participant_id)
      then decide "blocked" null
      else if is_str (get state "status") "DONE"
      then (do
        adapter ← lift (c.adapter_factory channel.tool)
        tick_done channel adapter (key_of state))
      else tick_reporting channel state

  unfoldable pub read_channel : Dict Value → M ReportingDecision
  unfolding ◌>>=◌ pure lift load_channel tick_bound
  read_channel state w =
      ((lift (load_channel c.blank c.resolve c.repo w.channel)) >>= tick_bound state) w

  -- the evidence that the Reviewer left
  unfoldable pub is_reviewed : Dict Value → Bool
  unfolding is_str get truthy
  is_reviewed state =
      is_str (get state "current_role") "planner"
      && truthy (get state "review_ref")
      && truthy (get state "delivery_id")

  unfoldable pub tick_state : Dict Value → M ReportingDecision
  unfolding ◌>>=◌ pure lift is_in is_reviewed decide read_channel get
  tick_state state = do
    here ← lift (is_in (get state "status") ("REPORTING" ∷ "DONE" ∷ []))
    if not here
        then decide "blocked" null
        else if not c.policy.enabled
        then decide "blocked" null
        else if not (is_reviewed state)
        then decide "blocked" null
        else read_channel state

  -- the body of `try`
  unfoldable pub tick_body : M ReportingDecision
  unfolding ◌>>=◌ pure lift on_disk recover_pending_transactions read_state tick_state
  tick_body = do
    recovered ← on_disk recover_pending_transactions
    state ← read_state task
    tick_state state

  unfoldable pub decision_of : Result ReportingDecision → ReportingDecision
  decision_of (ok d) = d
  decision_of (err e) = record { action = "blocked"; task_id = task; wake_key = null }

  -- `tick`: every exception becomes the decision to block
  unfoldable pub tick : World → ReportingDecision × World
  unfolding tick_body decision_of
  tick w = (decision_of (tick_body w).0, (tick_body w).1)
