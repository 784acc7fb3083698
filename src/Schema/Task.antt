-- ===== src/Schema/Task.antt =====
-- agent_relay_runtime/schema.py: `validate_task_state`.
use agent_relay_auto.Prelude.{
  ℕ, String, ◌≡◌, refl, Bool, true, false, not, none, some, List, [], ◌∷◌, ◌+◌, ◌==◌, eq_iff, arith,
  Dict, lookup, elem, inl, inr, Bool-cases, Option-cases,
}
use agent_relay_auto.Prelude.Int.{ℤ, pos, negsuc, succ_ℤ}
use agent_relay_auto.Value.{
  Value, null, int, bool, obj, arr, str, get, get_field, is_one_of, to_int,
}
use agent_relay_auto.Outcome.{schema_error, type_error, Result, ok, err, ◌>>◌, raise_if}
use agent_relay_auto.State.Types.{bump}

-- `_TASK_STATUSES`
abbrev pub task_statuses : List String
task_statuses =
    "QUEUED" ∷ "INTAKE" ∷ "PLANNING" ∷ "IMPLEMENTING" ∷ "REVIEWING" ∷ "REPORTING" ∷ "WAITING_USER"
    ∷ "BLOCKED" ∷ "DONE" ∷ "CANCELLED" ∷ []

-- `_RUN_STATUSES`
abbrev pub run_statuses : List String
run_statuses = "idle" ∷ "starting" ∷ "running" ∷ "paused" ∷ "finished" ∷ "unknown" ∷ []

abbrev pub reporting_phases : List String
reporting_phases =
    "pending" ∷ "submitted" ∷ "active" ∷ "completed" ∷ "failed" ∷ "presentation_failed" ∷ []

-- the fields that must be integers from 0 on, in the order of the calls of `_require_int`
abbrev pub counters : List String
counters =
    "revision" ∷ "stage_round" ∷ "run_attempt" ∷ "rework_round" ∷ "auto_replan_count"
    ∷ "agent_failure_count" ∷ []

-- `if v not in {…}: raise SchemaError`; a list or a mapping is not hashable
unfoldable pub require_member : List String → Value → Result (Unit {0})
unfolding is_one_of
require_member allowed (arr xs) = err type_error
require_member allowed (obj fs) = err type_error
require_member allowed v = raise_if (not (is_one_of v allowed)) schema_error

-- an integer that is no boolean, and at least 0
unfoldable pub is_natural : Value → Bool
is_natural (int (pos _)) = true
is_natural _ = false

unfoldable pub require_int : Dict Value → String → Result (Unit {0})
unfolding is_natural get
require_int m k = raise_if (not (is_natural (get m k))) schema_error

unfoldable pub require_ints : Dict Value → List String → Result (Unit {0})
unfolding require_int
require_ints m [] = ok tt
require_ints m (k ∷ ks) = require_int m k >> require_ints m ks

-- `isinstance(v, str) and v`
unfoldable pub is_text : Value → Bool
is_text (str s) = not (s == "")
is_text _ = false

unfoldable pub null_or_text : Value → Bool
unfolding is_text
null_or_text null = true
null_or_text v = is_text v

unfoldable pub check_reporting : Value → Result (Unit {0})
unfolding require_member get_field is_text
check_reporting null = ok tt
check_reporting (obj fs) =
    require_member reporting_phases (get_field fs "phase")
    >> raise_if (not (is_text (get_field fs "wake_key"))) schema_error
check_reporting _ = err schema_error

-- `data.get("run_status", "idle")`
unfoldable pub run_status_of : Dict Value → Value
unfolding lookup
run_status_of m = elim (lookup "run_status" m) [ none ↦ str "idle" | some v ↦ v ]

unfoldable pub validate_task_state : Dict Value → Result (Unit {0})
unfolding is_text get require_member require_ints run_status_of null_or_text check_reporting
validate_task_state m = do
  raise_if (not (is_text (get m "task"))) schema_error
  require_member task_statuses (get m "status")
  require_ints m counters
  require_member run_statuses (run_status_of m)
  raise_if (not (null_or_text (get m "run_id"))) schema_error
  raise_if (not (null_or_text (get m "runtime_snapshot_ref"))) schema_error
  check_reporting (get m "reporting")

natural-int : (v : Value) → is_natural v ≡ true → (n : ℕ) × (v ≡ int (pos n))
unfolding is_natural
natural-int null h = absurd (ground arith)
natural-int (int (pos n)) h = (n, refl)
natural-int (int (negsuc n)) h = absurd (ground arith)
natural-int (bool b) h = absurd (ground arith)
natural-int (obj fs) h = absurd (ground arith)
natural-int (arr xs) h = absurd (ground arith)
natural-int (str s) h = absurd (ground arith)

succ_pos : (n : ℕ) → succ_ℤ (pos n) ≡ pos (n + 1)
unfolding succ_ℤ
succ_pos n = refl

pub bump-natural :
    (m : Dict Value) (k : String) (default : ℤ) (n : ℕ)
    → get m k ≡ int (pos n)
    → bump k default m ≡ ok (pos (n + 1))
unfolding bump get to_int
bump-natural m k default n h = elim (Option-cases (lookup k m)) [
  | inl p ↦ absurd (ground arith)
  | inr (v, p) ↦ ground (arith, succ_pos n)
]

require_ints-natural :
    (m : Dict Value) (k : String) (ks : List String)
    → require_ints m ks ≡ ok tt
    → elem k ks ≡ true
    → is_natural (get m k) ≡ true
unfolding require_ints elem
require_ints-natural m k [] h e = absurd (ground arith)
require_ints-natural m k (j ∷ ks) h e = elim (Bool-cases (is_natural (get m j))) [
  | inl p ↦ elim (Bool-cases (j == k)) [
    | inl q ↦ ground (arith, eq_iff j k)
    | inr q ↦ require_ints-natural m k ks (ground arith) (ground arith)
  ]
  | inr p ↦ absurd (ground arith)
]

third-ok : (a b c r : Result (Unit {0})) → (a >> (b >> (c >> r))) ≡ ok tt → c ≡ ok tt
third-ok (err e) b c r h = absurd (ground arith)
third-ok (ok u) (err e) c r h = absurd (ground arith)
third-ok (ok u) (ok v) (err e) r h = absurd (ground arith)
third-ok (ok u) (ok v) (ok w) r h = refl

require_ints-ok : (m : Dict Value) → validate_task_state m ≡ ok tt → require_ints m counters ≡ ok tt
unfolding validate_task_state
require_ints-ok m h =
    third-ok (raise_if (not (is_text (get m "task"))) schema_error)
      (require_member task_statuses (get m "status")) (require_ints m counters) _ h

-- In a task state that is valid each of the six counters is a natural number, and counting it up
-- succeeds with the next one, so that no method of the store fails on the conversion of a counter.
pub valid_counts :
    (m : Dict Value) (k : String)
    → validate_task_state m ≡ ok tt
    → elem k counters ≡ true
    → (n : ℕ) × (get m k ≡ int (pos n)) × (bump k (pos 0) m ≡ ok (pos (n + 1)))
valid_counts m k h e =
    let (n, p) =
      natural-int (get m k) (require_ints-natural m k counters (require_ints-ok m h) e) in
    (n, p, bump-natural m k (pos 0) n p)
