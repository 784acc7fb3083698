-- ===== src/Tests/Runs.antt =====
-- A run store with a log that is rotated and a run that ends.
use Prim.Native.Nat.{ℕ, ◌≤◌, ◌*◌}
use agent_relay_auto.Prelude.{
  String, ◌≡◌, refl, ◌⊎◌, inl, true, none, some, List, [], ◌∷◌, arith, elem,
}
use agent_relay_auto.Prelude.Int.{pos}
use agent_relay_auto.Value.{Fields, no_members, field, int, str, obj, get_field}
use agent_relay_auto.Outcome.{Result, ok}
use agent_relay_auto.Runs.{
  Log, Folder, Moment, json, RunStore, no_log, find_run, create, finish, cleanup,
}
use agent_relay_auto.Runs.Rotate.{
  length, put, log_append, append_bound, append_rotates, append_all, kept_below,
}
use agent_relay_auto.Runs.Records.{finish-create, cleanup-Expired, Expired, Among}

-- a log of three bytes with one rotated file
abbrev written : Log
written = put 0 (some (1 ∷ 2 ∷ 3 ∷ [])) (put 1 (some (9 ∷ [])) no_log)

append_bound_example :
    (length {A = ℕ} (7 ∷ 8 ∷ []) ≤ 4) ⊎ (◌≡◌ {A = List ℕ} (7 ∷ 8 ∷ []) (7 ∷ 8 ∷ []))
unfolding log_append
append_bound_example = append_bound 4 2 (7 ∷ 8 ∷ []) (7 ∷ 8 ∷ []) written refl

append_rotates_example : log_append 4 (3) (7 ∷ 8 ∷ []) written 2 ≡ some (9 ∷ [])
unfolding put length
append_rotates_example =
    append_rotates 4 2 (7 ∷ 8 ∷ []) (1 ∷ 2 ∷ 3 ∷ []) written 2 refl (omega arith)

kept_below_example : append_all 4 5 ((7 ∷ 8 ∷ 9 ∷ []) ∷ (1 ∷ 2 ∷ 3 ∷ []) ∷ []) written 5 ≡ written 5
kept_below_example =
    kept_below 4 5 ((7 ∷ 8 ∷ 9 ∷ []) ∷ (1 ∷ 2 ∷ 3 ∷ []) ∷ []) written 5 (omega arith) (omega arith)

abbrev no_runs : RunStore
no_runs = record { max_log_bytes = 10; keep_rotations = 5; runs = [] }

abbrev metadata : Fields
metadata = field "start_status" (str "IMPLEMENTING") (field "status" (str "active") no_members)

abbrev over : RunStore
over =
    (finish "2026-01-02" "run-1" (pos 0) none
      (create "2026-01-01" "TASK-1" "run-1" metadata no_runs).1).1

finish-create_example :
    (f : Folder) × (fs : Fields) × (find_run "run-1" over.runs ≡ some (("TASK-1", "run-1"), f))
    × (f.metadata ≡ json (obj fs))
    × (get_field fs "status" ≡ str "finished")
    × (get_field fs "exit_code" ≡ int (pos 0))
    × (get_field fs "start_status" ≡ get_field metadata "start_status")
unfolding find_run elem
finish-create_example =
    finish-create "2026-01-01" "TASK-1" "run-1" metadata no_runs "2026-01-02" (pos 0) none
      "start_status" refl refl

-- a clock of whole days, on which the run ends at day 2
abbrev day_of : String → Result Moment
day_of s = ok (record { is_aware = true; micros = pos (2 * 86400000000) })

abbrev day_33 : Moment
day_33 = record { is_aware = true; micros = pos (33 * 86400000000) }

-- on the day 30 days later the run is not listed yet
kept_on_day_32 :
    cleanup day_of (record { is_aware = true; micros = pos (32 * 86400000000) }) over.runs ≡ ok []
unfolding cleanup finish create
kept_on_day_32 = refl

cleanup-Expired_example :
    (f : Folder) × Among (("TASK-1", "run-1"), f) over.runs × Expired day_of day_33 f
unfolding cleanup finish create
cleanup-Expired_example =
    cleanup-Expired day_of day_33 over.runs (("TASK-1", "run-1") ∷ []) refl ("TASK-1", "run-1")
      (inl refl)
