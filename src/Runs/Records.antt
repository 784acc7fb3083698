-- ===== src/Runs/Records.antt =====
-- The records of the runs in agent_relay_runtime/run_store.py: what `create` and `finish` write is
-- what a reader finds, and what `cleanup` lists.
use mathlib.Core.Path.{subst}
use agent_relay_auto.Prelude.{
  ℕ, ◌+◌, ◌-◌, ◌*◌, leb, ltb, ltb→lt, String, ◌≡◌, refl, sym, ap, ◌⊎◌, inl, inr, Bool, true, false,
  Option, none, some, List, [], ◌∷◌, ◌++◌, ◌==◌, if◌then◌else◌, arith, eq_iff, eq_refl, Bool-cases,
  elem,
}
use agent_relay_auto.Prelude.Int.{ℤ, pos, negsuc, pos_part, neg_part, ◌<ℤ◌}
use agent_relay_auto.Value.{
  Fields, no_members, field, Value, int, str, obj, null, bool, arr, no_items, item, get_field,
  put_field, truthy,
}
use agent_relay_auto.Outcome.{Result, ok, Result-cases}
use agent_relay_auto.State.Types.{is_in}
use agent_relay_auto.Runs.{
  Moment, same_flag, thirty_days, is_before, Folder, JsonFile, RunStore, json, RunPath, find_run,
  put_run, in_run, has_path, create, new_folder, created_metadata, finish, finish_folder,
  finished_metadata, is_past, is_expired, cleanup, missing, blank, damaged,
}

get_field-put_field :
    (k j : String) (v : Value) (fs : Fields)
    → get_field (put_field k v fs) j ≡ (if k == j then v else get_field fs j)
unfolding get_field put_field
get_field-put_field k j v no_members = ground (arith, eq_iff k j)
get_field-put_field k j v (field i w fs) =
    ground (arith, eq_iff k j, eq_iff i k, eq_iff i j, get_field-put_field k j v fs)

-- a run that is not there yet is found once it is added at the end
pub find_run-append :
    (run : String) (p : RunPath) (f : Folder) (rs : List (RunPath × Folder))
    → find_run run rs ≡ none
    → find_run run (rs ++ ((p, f) ∷ [])) ≡ (if p.1 == run then some (p, f) else none)
unfolding find_run
find_run-append run p f [] h = refl
find_run-append run p f ((q, g) ∷ rs) h = ground (arith, find_run-append run p f rs)

-- the folder that is found has the name
find_run-name :
    (run : String) (rs : List (RunPath × Folder)) (p : RunPath) (g : Folder)
    → find_run run rs ≡ some (p, g)
    → (p.1 == run) ≡ true
unfolding find_run
find_run-name run [] p g h = ground arith
find_run-name run ((q, k) ∷ rs) p g h = ground (arith, find_run-name run rs p g)

pub find_run-put_run :
    (run other : String) (f g : Folder) (p : RunPath) (rs : List (RunPath × Folder))
    → find_run run rs ≡ some (p, g)
    → find_run other (put_run run f rs) ≡ (if run == other then some (p, f) else find_run other rs)
unfolding find_run put_run
find_run-put_run run other f g p [] h = ground arith
find_run-put_run run other f g p ((q, k) ∷ rs) h = elim (Bool-cases (q.1 == run)) [
  | inl e ↦ ground (arith, eq_iff q.1 run, eq_iff run other, eq_iff q.1 other)
  | inr n ↦ ground (
    arith,
    eq_iff q.1 run,
    eq_iff run other,
    eq_iff q.1 other,
    find_run-name run rs p g,
    find_run-put_run run other f g p rs,
  )
]

-- a run that is not found is not there under any task
has_path-none :
    (task run : String) (rs : List (RunPath × Folder))
    → find_run run rs ≡ none
    → has_path (task, run) rs ≡ false
unfolding find_run has_path
has_path-none task run [] h = refl
has_path-none task run ((q, k) ∷ rs) h =
    ground (arith, has_path-none task run rs, eq_iff q.1 run, eq_iff run q.1)

-- what is found behind a `finish`
find_run-finish :
    (later run other : String) (exit_code : ℤ) (usage : Option Fields) (p : RunPath) (g : Folder)
    (t : RunStore)
    → find_run run t.runs ≡ some (p, g)
    → find_run other (finish later run exit_code usage t).1.runs ≡ (
        if run == other
        then some (p, (finish_folder later exit_code usage g).1)
        else find_run other t.runs)
unfolding finish in_run
find_run-finish later run other exit_code usage p g t h =
    let put = find_run-put_run run other (finish_folder later exit_code usage g).1 g p t.runs h in
    ground (arith, put)

module _ (now task run : String) (metadata : Fields) (s : RunStore) where
  -- the store behind a `create` for a new name
  pub created-runs :
      find_run run s.runs ≡ none
      → (create now task run metadata s).1.runs
        ≡ s.runs ++ (((task, run), new_folder now metadata) ∷ [])
  unfolding create
  created-runs absent = ground (arith, has_path-none task run s.runs)

  module _ (later : String) (exit_code : ℤ) (usage : Option Fields) where
    abbrev ended : Folder
    ended = (finish_folder later exit_code usage (new_folder now metadata)).1

    found-finished :
        find_run run s.runs ≡ none
        → find_run run (finish later run exit_code usage (create now task run metadata s).1).1.runs
          ≡ some ((task, run), ended)
    found-finished absent =
        let made : find_run run (create now task run metadata s).1.runs
            ≡ some ((task, run), new_folder now metadata) =
          ground (
            arith,
            created-runs absent,
            find_run-append run (task, run) (new_folder now metadata) s.runs absent,
            eq_refl run,
          ) in
        let step =
          find_run-finish later run run exit_code usage (task, run) (new_folder now metadata)
            (create now task run metadata s).1 made in
        ground (arith, step, eq_refl run)

    -- What `create` was given is still in the record of a run that has ended, with its end: the
    -- supervisor reads the start status there.
    pub finish-create :
        (key : String)
        → find_run run s.runs ≡ none
        → elem key ("created_at" ∷ "status" ∷ "exit_code" ∷ "finished_at" ∷ []) ≡ false
        → (f : Folder) × (fs : Fields) × (find_run run
              (finish later run exit_code usage (create now task run metadata s).1).1.runs
            ≡ some ((task, run), f))
          × (f.metadata ≡ json (obj fs))
          × (get_field fs "status" ≡ str "finished")
          × (get_field fs "exit_code" ≡ int exit_code)
          × (get_field fs key ≡ get_field metadata key)
    unfolding finish_folder new_folder finished_metadata created_metadata elem
    finish-create key absent other =
        let fs = finished_metadata later exit_code (created_metadata now metadata) in
        (
          ended,
          fs,
          found-finished absent,
          refl,
          simp get_field-put_field refl,
          simp get_field-put_field refl,
          simp get_field-put_field (ground arith),
        )

-- The time that many days later.
unfoldable pub after_days : ℕ → ℤ → ℤ
after_days days i =
    let ahead = pos_part i + days * 86400000000 in
    if leb (neg_part i) ahead then pos (ahead - neg_part i) else negsuc (neg_part i - ahead - 1)

-- one of the elements of a list
abbrev pub Among : {A : Type 0} → A → List A → Type 0
Among a [] = ⊥
Among a (x ∷ xs) = (a ≡ x) ⊎ Among a xs

-- a run that `cleanup` lists: it is over, for more than 30 days
pub record Expired (read_time : String → Result Moment) (now : Moment) (f : Folder) : Type 0 where
  fields : Fields
  finished_at : String
  time : Moment
  holds : f.metadata ≡ json (obj fields)
  ended : is_in (get_field fields "status") ("active" ∷ "BLOCKED" ∷ []) ≡ ok false
  at : get_field fields "finished_at" ≡ str finished_at
  read : read_time finished_at ≡ ok time
  same_kind : time.is_aware ≡ now.is_aware
  old : after_days 30 time.micros <ℤ now.micros

same_flag-eq : (a b : Bool) → same_flag a b ≡ true → a ≡ b
same_flag-eq true b h = sym h
same_flag-eq false true h = absurd (ground arith)
same_flag-eq false false h = refl

after_days_parts :
    (days : ℕ) (i : ℤ)
    → pos_part (after_days days i) + neg_part i
      ≡ pos_part i + days * 86400000000 + neg_part (after_days days i)
unfolding after_days
after_days_parts days i = ground arith

is_before-old :
    (t now : Moment)
    → is_before t now ≡ ok true
    → (t.is_aware ≡ now.is_aware) × (after_days 30 t.micros <ℤ now.micros)
unfolding is_before
is_before-old t now h = elim (Bool-cases (same_flag t.is_aware now.is_aware)) [
  | inl e ↦
      let late : ltb (pos_part t.micros + neg_part now.micros + thirty_days)
            (pos_part now.micros + neg_part t.micros)
          ≡ true =
        ground arith in
      let lt = ltb→lt _ _ late in
      (same_flag-eq _ _ e, omega (arith, lt, after_days_parts 30 t.micros))
  | inr n ↦ absurd (ground arith)
]

-- What a text at `finished_at` was read as.
record Past (read_time : String → Result Moment) (now : Moment) (v : Value) : Type 0 where
  text : String
  time : Moment
  written : v ≡ str text
  read : read_time text ≡ ok time
  before : is_before time now ≡ ok true

is_past-Past :
    (read_time : String → Result Moment) (now : Moment) (v : Value)
    → is_past read_time now v ≡ ok true
    → Past read_time now v
unfolding is_past truthy
is_past-Past read_time now (str s) h = elim (Result-cases (read_time s)) [
  | inl (e, q) ↦ absurd (ground arith)
  | inr (t, q) ↦ record { text = s; time = t; written = refl; read = q; before = ground arith }
]
is_past-Past read_time now null h = absurd (ground arith)
is_past-Past read_time now (int i) h = absurd (ground arith)
is_past-Past read_time now (bool true) h = absurd (ground arith)
is_past-Past read_time now (bool false) h = absurd (ground arith)
is_past-Past read_time now (arr no_items) h = absurd (ground arith)
is_past-Past read_time now (arr (item x xs)) h = absurd (ground arith)
is_past-Past read_time now (obj no_members) h = absurd (ground arith)
is_past-Past read_time now (obj (field k v fs)) h = absurd (ground arith)

is_expired-obj :
    (read_time : String → Result Moment) (now : Moment) (fs : Fields)
    → is_expired read_time now (json (obj fs)) ≡ ok true
    → (is_in (get_field fs "status") ("active" ∷ "BLOCKED" ∷ []) ≡ ok false)
      × (is_past read_time now (get_field fs "finished_at") ≡ ok true)
unfolding is_expired
is_expired-obj read_time now fs h =
    elim (Result-cases (is_in (get_field fs "status") ("active" ∷ "BLOCKED" ∷ []))) [
      | inl (x, e) ↦ absurd (ground arith)
      | inr (true, e) ↦ absurd (ground arith)
      | inr (false, e) ↦ (e, ground arith)
    ]

is_expired-Expired :
    (read_time : String → Result Moment) (now : Moment) (f : Folder) (m : JsonFile)
    → f.metadata ≡ m
    → is_expired read_time now m ≡ ok true
    → Expired read_time now f
unfolding is_expired
is_expired-Expired read_time now f missing e h = absurd (ground arith)
is_expired-Expired read_time now f blank e h = absurd (ground arith)
is_expired-Expired read_time now f damaged e h = absurd (ground arith)
is_expired-Expired read_time now f (json (obj fs)) e h =
    let (ended, past) = is_expired-obj read_time now fs h in
    let p = is_past-Past read_time now (get_field fs "finished_at") past in
    let (same_kind, old) = is_before-old p.time now p.before in
    record {
      fields = fs;
      finished_at = p.text;
      time = p.time;
      holds = e;
      ended = ended;
      at = p.written;
      read = p.read;
      same_kind = same_kind;
      old = old;
    }
is_expired-Expired read_time now f (json v) e h = absurd (ground arith)

ok_eq : {A : Type 0} {a b : A} → ok a ≡ ok b → a ≡ b
ok_eq h = ground arith

-- `cleanup` lists only folders whose metadata has a status other than active and BLOCKED and a time
-- of the end that lies more than 30 days before the time of the call.
pub cleanup-Expired :
    (read_time : String → Result Moment) (now : Moment) (rs : List (RunPath × Folder))
    (ps : List RunPath)
    → cleanup read_time now rs ≡ ok ps
    → (p : RunPath) → Among p ps
    → (f : Folder) × Among (p, f) rs × Expired read_time now f
unfolding cleanup
cleanup-Expired read_time now [] ps h p m = absurd (subst (Among p) (sym (ok_eq h)) m)
cleanup-Expired read_time now ((q, f) ∷ rs) ps h p m =
    let later : (rest : List RunPath)
        → cleanup read_time now rs ≡ ok rest
        → Among p rest
        → (g : Folder) × Among (p, g) ((q, f) ∷ rs) × Expired read_time now g =
      λ rest c n. (let (g, a, x) = cleanup-Expired read_time now rs rest c p n in (g, inr a, x)) in
    elim (Result-cases (is_expired read_time now f.metadata)) [
      | inl (x, e) ↦ absurd (ground arith)
      | inr (b, e) ↦ elim (Result-cases (cleanup read_time now rs)) [
        | inl (x, c) ↦ absurd (ground arith)
        | inr (rest, c) ↦ elim (Bool-cases b) [
          | inl listed ↦
              let all : ps ≡ q ∷ rest = ground arith in
              elim (subst (Among p) all m) [
                | inl here ↦ (
                  f,
                  inl (ap (λ x. (x, f)) here),
                  is_expired-Expired read_time now f f.metadata refl (ground arith),
                )
                | inr there ↦ later rest c there
              ]
          | inr kept ↦ let all : ps ≡ rest = ground arith in later rest c (subst (Among p) all m)
        ]
      ]
    ]
