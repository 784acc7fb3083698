-- ===== src/Runs.antt =====
-- `RunStore` of agent_relay_runtime/run_store.py: the folder of each run, with its records, its events
-- and its logs. The logs are lists of bytes; what is appended to them is redacted and encoded.
pub mod Rotate
pub mod Records
use agent_relay_auto.Prelude.{
  ℕ, zero, suc, ◌+◌, ◌-◌, ◌*◌, ltb, String, Bool, true, false, ◌&&◌, Option, none, some, List, [],
  ◌∷◌, ◌++◌, ◌==◌, if◌then◌else◌, leb, nat_eq, is_some, elem,
}
use agent_relay_auto.Prelude.Int.{ℤ, pos_part, neg_part}
use agent_relay_auto.Value.{
  Fields, no_members, field, Value, int, str, obj, get_field, put_field, truthy,
}
use agent_relay_auto.Outcome.{
  value_error, os_error, attribute_error, type_error, Result, ok, err, ◌>>=◌,
}
use agent_relay_auto.State.Types.{is_in}

-- A file that holds one JSON value: it may be missing, blank, or hold what is no JSON.
pub data JsonFile : Type 0 where
  missing blank damaged : JsonFile
  json : Value → JsonFile

-- A log with its rotations: at 0 the log itself, at `i` the file with the suffix `.i`.
abbrev pub Log : Type 0
Log = ℕ → Option (List ℕ)

pub record Folder : Type 0 where
  pub metadata : JsonFile
  pub launch_context : JsonFile
  pub process : JsonFile
  pub exit_record : JsonFile
  pub protocol : JsonFile
  pub usage : JsonFile
  pub heartbeat : JsonFile
  pub events : List Fields
  pub stdout : Log
  pub stderr : Log

abbrev pub same_flag : Bool → Bool → Bool
same_flag true b = b
same_flag false true = false
same_flag false false = true

-- A run's path below the root: its task and its name.
abbrev pub RunPath : Type 0
RunPath = String × String

-- `runs` in the order in which the file system lists the folders.
pub record RunStore : Type 0 where
  pub max_log_bytes : ℕ
  pub keep_rotations : ℕ
  pub runs : List (RunPath × Folder)

abbrev pub Method {ℓ} : Type ℓ → Type ℓ
Method A = RunStore → Result A × RunStore

-- `_run_path`: the first folder of that name
unfoldable pub find_run : String → List (RunPath × Folder) → Option (RunPath × Folder)
find_run run [] = none
find_run run ((p, f) ∷ rs) = if p.1 == run then some (p, f) else find_run run rs

unfoldable pub put_run : String → Folder → List (RunPath × Folder) → List (RunPath × Folder)
put_run run f [] = []
put_run run f ((p, g) ∷ rs) = if p.1 == run then (p, f) ∷ rs else (p, g) ∷ put_run run f rs

-- a method on the folder of one run: what it returns, and the folder as it leaves it
unfoldable pub in_run {ℓ} :
    {A : Type ℓ} → String → (RunPath → Folder → Result A × Folder) → Method A
unfolding find_run put_run
in_run run body s = elim (find_run run s.runs) [
  | none ↦ (err os_error, s)
  | some p ↦ let (r, f) = body p.0 p.1 in (r, record s { runs = put_run run f s.runs })
]

-- a method that only reads the folder of one run
unfoldable pub read_run {ℓ} : {A : Type ℓ} → String → (Folder → Result A) → RunStore → Result A
unfolding find_run
read_run run body s = elim (find_run run s.runs) [ none ↦ err os_error | some p ↦ body p.1 ]

abbrev pub no_log : Log
no_log i = none

unfoldable pub has_path : RunPath → List (RunPath × Folder) → Bool
has_path p [] = false
has_path p ((q, f) ∷ rs) = if (p.0 == q.0) && (p.1 == q.1) then true else has_path p rs

-- the mapping `payload` of `create`
unfoldable pub created_metadata : String → Fields → Fields
unfolding put_field
created_metadata now metadata = put_field "created_at" (str now) metadata

unfoldable pub new_folder : String → Fields → Folder
unfolding created_metadata
new_folder now metadata = record {
  metadata = json (obj (created_metadata now metadata));
  launch_context = missing;
  process = missing;
  exit_record = missing;
  protocol = missing;
  usage = missing;
  heartbeat = blank;
  events = [];
  stdout = no_log;
  stderr = no_log;
}

-- `create` of a mapping whose `task_id` and `run_id` are the two texts
unfoldable pub create : String → String → String → Fields → Method RunPath
unfolding has_path new_folder
create now task run metadata s = if has_path (task, run) s.runs then (err os_error, s) else (
  ok (task, run),
  record s { runs = s.runs ++ (((task, run), new_folder now metadata) ∷ []) },
)

-- `write_launch_context`; the file is replaced as a whole
unfoldable pub write_launch_context : String → Fields → Method (Unit {0})
unfolding in_run
write_launch_context run context =
    in_run run (λ p f. (ok tt, record f { launch_context = json (obj context) }))

-- `_read_json_record`
unfoldable pub record_of : JsonFile → Result (Option Value)
record_of missing = ok none
record_of blank = ok none
record_of damaged = err value_error
record_of (json v) = ok (some v)

unfoldable pub read_process : String → RunStore → Result (Option Value)
unfolding read_run record_of
read_process run = read_run run (λ f. record_of f.process)

unfoldable pub read_exit : String → RunStore → Result (Option Value)
unfolding read_run record_of
read_exit run = read_run run (λ f. record_of f.exit_record)

unfoldable pub mark_protocol_result : String → String → Method (Unit {0})
unfolding in_run
mark_protocol_result run result = in_run run (λ p f. (
  ok tt,
  record f {
    protocol = json (obj (field "run_id" (str run) (field "result" (str result) no_members)));
  },
))

-- `append_event`, the event redacted
unfoldable pub append_event : String → Fields → Method (Unit {0})
unfolding in_run
append_event run event = in_run run (λ p f. (ok tt, record f { events = f.events ++ (event ∷ []) }))

unfoldable pub write_heartbeat : String → Fields → Method (Unit {0})
unfolding in_run
write_heartbeat run heartbeat =
    in_run run (λ p f. (ok tt, record f { heartbeat = json (obj heartbeat) }))

-- the keys that `finish` updates
unfoldable pub finished_metadata : String → ℤ → Fields → Fields
unfolding put_field
finished_metadata now exit_code fs =
    put_field "finished_at" (str now)
      (put_field "exit_code" (int exit_code) (put_field "status" (str "finished") fs))

unfoldable pub usage_payload : Option Fields → Fields
usage_payload none = field "status" (str "unavailable") no_members
usage_payload (some fs) = fs

unfoldable pub finish_folder : String → ℤ → Option Fields → Folder → Result (Unit {0}) × Folder
unfolding finished_metadata usage_payload
finish_folder now exit_code usage f = elim f.metadata [
  | missing ↦ (err os_error, f)
  | blank ↦ (err value_error, f)
  | damaged ↦ (err value_error, f)
  | json (obj fs) ↦ (
    ok tt,
    record f {
      metadata = json (obj (finished_metadata now exit_code fs));
      usage = json (obj (usage_payload usage));
    },
  )
  | json _ ↦ (err attribute_error, f)
]

-- `finish`
unfoldable pub finish : String → String → ℤ → Option Fields → Method (Unit {0})
unfolding in_run finish_folder
finish now run exit_code usage = in_run run (λ p f. finish_folder now exit_code usage f)

-- A `datetime`: whether it has a time zone, and the microseconds since a fixed time, in UTC if it has.
pub record Moment : Type 0 where
  pub is_aware : Bool
  pub micros : ℤ

-- `timedelta(days=30)`
abbrev pub thirty_days : ℕ
thirty_days = 30 * 24 * 3600 * 1000000

-- `a < b - timedelta(days=30)`; a time with a zone and one without do not compare
unfoldable pub is_before : Moment → Moment → Result Bool
is_before a b =
    if same_flag a.is_aware b.is_aware
    then ok (
        ltb (pos_part a.micros + neg_part b.micros + thirty_days)
          (pos_part b.micros + neg_part a.micros))
    else err type_error

-- The test of `finished_at` at the time `now`; `read_time` is `datetime.fromisoformat` of a text.
unfoldable pub is_past : (String → Result Moment) → Moment → Value → Result Bool
unfolding truthy is_before
is_past read_time now (str s) =
    if truthy (str s) then (read_time s >>= λ t. is_before t now) else ok false
is_past read_time now v = if truthy v then err type_error else ok false

-- Whether `cleanup` lists a run with that metadata.
unfoldable pub is_expired : (String → Result Moment) → Moment → JsonFile → Result Bool
unfolding get_field is_past is_in
is_expired read_time now missing = ok false
is_expired read_time now (json (obj fs)) = do
  kept ← is_in (get_field fs "status") ("active" ∷ "BLOCKED" ∷ [])
  if kept then ok false else is_past read_time now (get_field fs "finished_at")
is_expired read_time now (json v) = err attribute_error
is_expired read_time now _ = err value_error

-- `cleanup`
unfoldable pub cleanup :
    (String → Result Moment) → Moment → List (RunPath × Folder) → Result (List RunPath)
unfolding is_expired
cleanup read_time now [] = ok []
cleanup read_time now ((p, f) ∷ rs) = do
  expired ← is_expired read_time now f.metadata
  rest ← cleanup read_time now rs
  ok (if expired then p ∷ rest else rest)
