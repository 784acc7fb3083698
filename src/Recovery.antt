-- ===== src/Recovery.antt =====
-- agent_relay_runtime/recovery.py: what becomes of a run that is found after a restart.
use agent_relay_auto.Prelude.{
  ℕ, suc, String, Bool, true, false, not, ◌&&◌, Option, none, some, ◌==◌, nat_eq, if◌then◌else◌,
}
use agent_relay_auto.Prelude.Int.{pos}
use agent_relay_auto.Value.{
  Fields, no_members, field, Items, no_items, item, Value, null, int, bool, str, obj, arr,
  get_field, find_field, truthy, is_null, is_int,
}
use agent_relay_auto.Value.Show.{show}
use agent_relay_auto.Outcome.{value_error, Result, ok, err}

unfoldable count : Fields → ℕ
count no_members = 0
count (field k v fs) = suc (count fs)

unfoldable mutual
  unfolding count find_field is_int

  -- `v == w`, for mappings with distinct keys in any order
  pub eq_value : Value → Value → Bool
  eq_value null null = true
  eq_value (int i) w = is_int w i
  eq_value (bool true) w = is_int w (pos 1)
  eq_value (bool false) w = is_int w (pos 0)
  eq_value (str s) (str t) = s == t
  eq_value (arr xs) (arr ys) = eq_items xs ys
  eq_value (obj fs) (obj gs) = nat_eq (count fs) (count gs) && among fs gs
  eq_value _ _ = false

  pub eq_items : Items → Items → Bool
  eq_items no_items no_items = true
  eq_items (item x xs) (item y ys) = eq_value x y && eq_items xs ys
  eq_items _ _ = false

  -- each key of the first is in the second, with an equal value
  pub among : Fields → Fields → Bool
  among no_members gs = true
  among (field k v fs) gs =
      elim (find_field gs k) [ none ↦ false | some w ↦ eq_value v w ] && among fs gs

-- `ReconcileResult`, without its reason where that is a text for people
pub data ReconcileResult : Type 0 where
  blocked monitor interrupted : ReconcileResult
  finished : String → ReconcileResult

-- `str(exit_record.get("termination_reason", "exit"))`
unfoldable pub termination_reason : Fields → String
unfolding find_field show
termination_reason fs = elim (find_field fs "termination_reason") [
  | none ↦ "exit"
  | some v ↦ show v
]

-- a process that is there: the times of its start are whole seconds, or null
unfoldable pub reconcile_live : Fields → Value → ReconcileResult
unfolding get_field eq_value
reconcile_live run observed =
    if eq_value observed (get_field run "process_started_at") then monitor else blocked

unfoldable pub reconcile_gone : Fields → ReconcileResult
unfolding get_field truthy
reconcile_gone run = if truthy (get_field run "remote") then blocked else interrupted

-- `RecoveryManager.reconcile`
unfoldable pub reconcile : Fields → Bool → Value → Option Fields → ReconcileResult
unfolding get_field eq_value is_null termination_reason reconcile_live reconcile_gone
reconcile run exists observed (some record') =
    if eq_value (get_field record' "run_id") (get_field run "run_id")
    then finished (termination_reason record')
    else blocked
reconcile run exists observed none =
    if exists && not (is_null (get_field run "pid"))
    then reconcile_live run observed
    else reconcile_gone run

-- `RecoveryManager.resume`; a session that is missing or empty is false
unfoldable pub resume : String → Option String → Result String
resume mode session =
    let id : String = elim session [ none ↦ "" | some s ↦ s ] in
    if (mode == "native-session") && (id == "")
    then err value_error
    else if mode == "unsupported"
    then err value_error
    else if id == ""
    then ok "checkpoint-restart"
    else ok id
