-- ===== src/Runs/Rotate.antt =====
-- `RunStore._rotate` and `RunStore.append` of agent_relay_runtime/run_store.py: the size of a log, and
-- what a rotation does to the older ones.
use agent_relay_auto.Prelude.{
  ℕ, zero, suc, ◌+◌, ◌-◌, ◌≤◌, ◌<◌, String, ◌≡◌, refl, ◌∙◌, ◌⊎◌, inl, inr, Option, none, some, List,
  [], ◌∷◌, ◌++◌, ◌==◌, if◌then◌else◌, leb, nat_eq, arith, is_some, Option-cases, Bool-cases,
}
use agent_relay_auto.Outcome.{value_error, ok, err}
use agent_relay_auto.Runs.{Log, Method, in_run}

-- `len(…)`
unfoldable pub length {ℓ} : {A : Type ℓ} → List A → ℕ
length [] = 0
length (x ∷ xs) = suc (length xs)

-- the file at `i`, made or removed
unfoldable pub put : ℕ → Option (List ℕ) → Log → Log
put i file log j = if nat_eq j i then file else log j

-- `os.replace`
unfoldable pub move : ℕ → ℕ → Log → Log
unfolding put
move i j log = put i none (put j (log i) log)

-- one round of the loop: the oldest file is removed, another one takes the next number
unfoldable pub shift_one : ℕ → ℕ → Log → Log
unfolding put move
shift_one keep index log =
    if is_some (log index)
    then (if nat_eq index (keep - 1) then put index none log else move index (suc index) log)
    else log

-- `for index in range(n, 0, -1)`
unfoldable pub shift : ℕ → ℕ → Log → Log
unfolding shift_one
shift keep zero log = log
shift keep (suc n) log = shift keep n (shift_one keep (suc n) log)

-- the body of `_rotate` behind its test
unfoldable pub rotated : ℕ → Log → Log
unfolding shift move
rotated keep log = move 0 1 (shift keep (keep - 1) log)

-- `_rotate`
unfoldable pub rotate : ℕ → ℕ → ℕ → Log → Log
unfolding rotated length
rotate max keep incoming log = elim (log 0) [
  | none ↦ log
  | some bytes ↦ if leb (length bytes + incoming) max then log else rotated keep log
]

-- a write at the end of the log, which makes the file where there is none
unfoldable pub write_end : List ℕ → Log → Log
unfolding put
write_end bytes log = elim (log 0) [
  | none ↦ put 0 (some bytes) log
  | some old ↦ put 0 (some (old ++ bytes)) log
]

unfoldable pub log_append : ℕ → ℕ → List ℕ → Log → Log
unfolding rotate write_end
log_append max keep bytes log = write_end bytes (rotate max keep (length bytes) log)

-- `append`, where `safe` is the redaction of a text and its encoding
unfoldable pub append : (String → List ℕ) → String → String → String → Method (Unit {0})
unfolding in_run log_append
append safe run stream text s =
    if stream == "stdout"
    then in_run run
        (λ p f. (
          ok tt,
          record f { stdout = log_append s.max_log_bytes s.keep_rotations (safe text) f.stdout },
        ))
        s
    else if stream == "stderr"
    then in_run run
        (λ p f. (
          ok tt,
          record f { stderr = log_append s.max_log_bytes s.keep_rotations (safe text) f.stderr },
        ))
        s
    else (err value_error, s)

-- one round below the oldest file
shift_one-at :
    (keep n i : ℕ) (log : Log)
    → suc n < keep
    → shift_one keep n log i ≡ (
        if nat_eq i n
        then none
        else if nat_eq i (suc n)
        then (if is_some (log n) then log n else log (suc n))
        else log i)
unfolding shift_one move put
shift_one-at keep n i log h = elim (Option-cases (log n)) [
  | inl e ↦ ground arith
  | inr (b, e) ↦ ground arith
]

-- The rounds below the oldest file: each file up to `n` takes the next number.
shift-inner :
    (keep n i : ℕ) (log : Log)
    → suc n < keep
    → shift keep n log i ≡ (
        if nat_eq i 0
        then log 0
        else if nat_eq n 0
        then log i
        else if nat_eq i 1
        then none
        else if leb i n
        then log (i - 1)
        else if nat_eq i (suc n)
        then (if is_some (log n) then log n else log (suc n))
        else log i)
unfolding shift
shift-inner keep zero i log h = ground arith
shift-inner keep (suc n) i log h =
    rw
      (
        shift-inner keep n i (shift_one keep (suc n) log) (omega arith),
        shift_one-at keep (suc n) i log h,
        shift_one-at keep (suc n) 0 log h,
        shift_one-at keep (suc n) n log h,
        shift_one-at keep (suc n) (suc n) log h,
        shift_one-at keep (suc n) (i - 1) log h,
      )
      (ground arith)

shift_one-top :
    (k i : ℕ) (log : Log) → shift_one (suc k) k log i ≡ (if nat_eq i k then none else log i)
unfolding shift_one put
shift_one-top k i log = elim (Option-cases (log k)) [
  | inl e ↦ ground arith
  | inr (b, e) ↦ ground arith
]

-- A rotation gives every file the next number, drops the one numbered one below `keep`, and leaves
-- the files at `keep` and above.
rotated_lem :
    (k i : ℕ) (log : Log)
    → rotated (suc k) log i ≡ (
        if nat_eq i 0
        then none
        else if nat_eq i 1
        then log 0
        else if leb i k
        then log (i - 1)
        else log i)
unfolding rotated shift move put
rotated_lem zero i log = ground arith
rotated_lem (suc k) i log =
    let top = shift_one (suc (suc k)) (suc k) log in
    ground (
      arith,
      shift-inner (suc (suc k)) k 0 top (omega arith),
      shift-inner (suc (suc k)) k i top (omega arith),
      shift_one-top (suc k) i log,
      shift_one-top (suc k) 0 log,
      shift_one-top (suc k) k log,
      shift_one-top (suc k) (suc k) log,
      shift_one-top (suc k) (i - 1) log,
    )

pub length-append : (xs ys : List ℕ) → length (xs ++ ys) ≡ length xs + length ys
unfolding length
length-append [] ys = omega arith
length-append (x ∷ xs) ys = let rest = length-append xs ys in omega arith

-- What is appended fits into the limit with the rest of the log, or it stands there alone.
pub append_bound :
    (max keep : ℕ) (bytes b : List ℕ) (log : Log)
    → log_append max (suc keep) bytes log 0 ≡ some b
    → (length b ≤ max) ⊎ (b ≡ bytes)
unfolding log_append rotate write_end put
append_bound max keep bytes b log h = elim (Option-cases (log 0)) [
  | inl e ↦ inr (ground arith)
  | inr (old, e) ↦ elim (Bool-cases (leb (length old + length bytes) max)) [
    | inl fits ↦ inl (ground (arith, length-append old bytes))
    | inr over ↦ inr (ground (arith, rotated_lem keep 0 log))
  ]
]

-- An append that does not fit moves the log to `.1` as it is, each rotated file to the next number,
-- and drops the one whose number is one below `keep_rotations`.
pub append_rotates :
    (max keep : ℕ) (bytes old : List ℕ) (log : Log) (i : ℕ)
    → log 0 ≡ some old
    → max < length old + length bytes
    → log_append max (suc keep) bytes log i ≡ (
        if nat_eq i 0
        then some bytes
        else if nat_eq i 1
        then some old
        else if leb i keep
        then log (i - 1)
        else log i)
unfolding log_append rotate write_end put
append_rotates max keep bytes old log i h over =
    ground (arith, rotated_lem keep i log, rotated_lem keep 0 log)

rotated-above : (keep i : ℕ) (log : Log) → 2 ≤ i → keep ≤ i → rotated keep log i ≡ log i
rotated-above zero i log two h = unfold rotated shift move put in ground arith
rotated-above (suc k) i log two h = ground (arith, rotated_lem k i log)

log_append-above :
    (max keep : ℕ) (c : List ℕ) (log : Log) (i : ℕ)
    → 2 ≤ i
    → keep ≤ i
    → log_append max keep c log i ≡ log i
unfolding log_append rotate write_end put
log_append-above max keep c log i two above = elim (Option-cases (log 0)) [
  | inl e ↦ ground arith
  | inr (old, e) ↦ elim (Bool-cases (leb (length old + length c) max)) [
    | inl fits ↦ ground arith
    | inr over ↦ elim (Option-cases (rotated keep log 0)) [
      | inl f ↦ ground (arith, rotated-above keep i log two above)
      | inr (kept, f) ↦ ground (arith, rotated-above keep i log two above)
    ]
  ]
]

-- texts appended one after another
abbrev pub append_all : ℕ → ℕ → List (List ℕ) → Log → Log
append_all max keep [] log = log
append_all max keep (c ∷ cs) log = append_all max keep cs (log_append max keep c log)

-- However much is appended, each file with the number `keep_rotations` or above, the log itself and
-- the file numbered 1 aside, stays as it was, so that none is made.
pub kept_below :
    (max keep : ℕ) (cs : List (List ℕ)) (log : Log) (i : ℕ)
    → 2 ≤ i
    → keep ≤ i
    → append_all max keep cs log i ≡ log i
kept_below max keep [] log i two above = refl
kept_below max keep (c ∷ cs) log i two above =
    kept_below max keep cs (log_append max keep c log) i two above
    ∙ log_append-above max keep c log i two above
