-- ===== src/State/Wake.antt =====
-- `StateStore.prepare_reporting_wake` and `StateStore.set_reporting_phase` of
-- agent_relay_runtime/state_store.py. The SHA-256 of a conversation is a parameter.
use Prim.Native.String.{◌++◌ as ◌<>◌}
use agent_relay_auto.Prelude.{String, not, ◌||◌, none, some, [], ◌∷◌, if◌then◌else◌, Dict, show_int}
use agent_relay_auto.Prelude.Int.{ℤ, succ_ℤ}
use agent_relay_auto.Value.{
  Value, int, str, obj, Fields, no_members, field, get, get_field, put_field, mapping_or_empty,
  truthy, is_int, is_str,
}
use agent_relay_auto.Value.Show.{show}
use agent_relay_auto.Outcome.{revision_conflict, illegal_transition, ok, ◌>>◌, raise_if}
use agent_relay_auto.Markdown.{root}
use agent_relay_auto.Store.Base.{Action, Plan, update_task}

-- `WakeKey.value()`, and the key that `prepare_reporting_wake` forms
unfoldable pub wake_key_text : (String → String) → String → ℤ → String → String → String
unfolding show_int
wake_key_text digest task revision participant conversation =
    task <> (":" <> (show_int revision <> (":" <> (participant <> (":" <> digest conversation)))))

-- the mapping under `reporting`, empty if it is none
unfoldable pub reporting_of : Dict Value → Fields
unfolding get mapping_or_empty
reporting_of m = mapping_or_empty (get m "reporting")

-- A key that stands already is given back, with no write.
unfoldable pub wake_plan :
    (String → String) → String → ℤ → String → String → String → Dict Value → Plan (ℤ × Value)
unfolding reporting_of wake_key_text get_field truthy
wake_plan digest task expected participant conversation now m = do
  raise_if (not (is_int (get m "revision") expected)) revision_conflict
  raise_if (not (is_str (get m "status") "REPORTING")) illegal_transition
  raise_if
      (not (is_str (get m "current_role") "planner")
        || not (is_str (get m "current_participant") participant))
      illegal_transition
  let key = wake_key_text digest task (succ_ℤ expected) participant conversation
  if truthy (get_field (reporting_of m) "wake_key")
      then ok (none, (expected, str (show (get_field (reporting_of m) "wake_key"))))
      else ok (
        some (
            (
              root "reporting",
              obj (field "phase" (str "pending") (field "wake_key" (str key) no_members)),
            )
            ∷ (root "revision", int (succ_ℤ expected))
            ∷ (root "updated_at", str now)
            ∷ []),
        (succ_ℤ expected, str key),
      )

unfoldable pub prepare_reporting_wake :
    (String → String) → String → ℤ → String → String → Action (ℤ × Value)
unfolding wake_plan update_task
prepare_reporting_wake digest task expected participant conversation =
    update_task task (wake_plan digest task expected participant conversation)

unfoldable pub phase_plan : ℤ → String → String → String → Dict Value → Plan (Unit {0})
unfolding reporting_of get_field put_field
phase_plan expected wake_key phase now m = do
  raise_if (not (is_int (get m "revision") expected)) revision_conflict
  raise_if (not (is_str (get_field (reporting_of m) "wake_key") wake_key)) illegal_transition
  ok (
    some (
        (root "reporting", obj (put_field "phase" (str phase) (reporting_of m)))
        ∷ (root "updated_at", str now)
        ∷ []),
    tt,
  )

unfoldable pub set_reporting_phase : String → ℤ → String → String → Action (Unit {0})
unfolding phase_plan update_task
set_reporting_phase task expected wake_key phase =
    update_task task (phase_plan expected wake_key phase)
