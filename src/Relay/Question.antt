-- ===== src/Relay/Question.antt =====
-- A question put to the user and its answer.
pub mod Twice
use Prim.Native.String.{◌++◌ as ◌<>◌}
use agent_relay_auto.Prelude.{
  String, ◌≡◌, refl, Bool, true, false, not, Option, none, some, List, [], ◌∷◌, arith, eq_refl,
  if◌then◌else◌, ◌∙◌, ◌==◌, Dict, elem, lookup, inl, inr, Option-cases, ap,
}
use agent_relay_auto.Prelude.Int.{ℤ, succ_ℤ, eq_ℤ_refl}
use agent_relay_auto.Value.{Value, null, int, str, get, truthy, is_int, is_str}
use agent_relay_auto.Outcome.{Error, Result, ok, err, Result-cases}
use agent_relay_auto.Markdown.{reread}
use agent_relay_auto.Markdown.Write.{Updates, write_values, last_write, covers}
use agent_relay_auto.Store.Base.{Disk, Plan, write_task, update_task}
use agent_relay_auto.Store.Laws.{Returned, update_task_ok}
use agent_relay_auto.Store.Fields.{
  field, state_keys, is_state, get-field, field-update, is_state-update,
}
use agent_relay_auto.Store.Again.{Readable, Readable-update, get-Readable, update_task-some}
use agent_relay_auto.State.Types.{is_in}
use agent_relay_auto.Relay.{
  Payload, publish, add_files, terminal, require_revision, refuse_terminal, wait_updates, wait_plan,
  wait_user, answer_updates, answer_plan, resumed, task_file, decision_text, answer, check_decision,
  decision_updates,
}

-- `publish` returns exactly if the method does.
publish-ok :
    (x : Result (Payload × Dict String) × Disk) (p : Payload) (d' : Disk)
    → publish x ≡ (ok p, d')
    → (fs : Dict String) × (d1 : Disk) × (x ≡ (ok (p, fs), d1)) × (d' ≡ add_files fs d1)
unfolding publish
publish-ok (err e, d) p d' h = absurd (ground arith)
publish-ok (ok (q, fs), d) p d' h = (fs, d, ground arith, ground arith)

-- The texts beside a task change no task.
add_files-tasks : (fs : Dict String) (d : Disk) → (add_files fs d).tasks ≡ d.tasks
unfolding add_files
add_files-tasks [] d = refl
add_files-tasks ((path, text) ∷ fs) d = add_files-tasks fs _

module _ (task : String) (fs : Dict String) where
  field-add_files : (k : String) (d : Disk) → field task k (add_files fs d) ≡ field task k d
  unfolding field
  field-add_files k d = rw (add_files-tasks fs d)

  is_state-add_files : (d : Disk) → is_state task (add_files fs d) ≡ is_state task d
  unfolding is_state
  is_state-add_files d = rw (add_files-tasks fs d)

locked-add_files : (fs : Dict String) (d : Disk) → (add_files fs d).locked ≡ d.locked
unfolding add_files
locked-add_files [] d = refl
locked-add_files ((path, text) ∷ fs) d = locked-add_files fs _

Readable-add_files :
    (task : String) (fs : Dict String) {d : Disk} → Readable task d → Readable task (add_files fs d)
Readable-add_files task fs {d} r = record {
  doc = r.doc;
  mapping = r.mapping;
  free = locked-add_files fs d ∙ r.free;
  on_disk = rw (add_files-tasks fs d) r.on_disk;
  legible = r.legible;
}

-- The keys that a question and its answer write.
abbrev pub question_keys : List String
question_keys =
    "status" ∷ "suspended_status" ∷ "resume_role" ∷ "question_id" ∷ "question_ref" ∷ "revision" ∷ []

-- What a question that was put has written.
record Asked (expected : ℤ) (role id : String) (m : Dict Value) (u : Option Updates) : Type 0 where
  ref : String
  writes : u ≡ some (wait_updates expected role id ref (get m "status"))
  current : is_int (get m "revision") expected ≡ true

plan-Asked :
    (task : String) (expected : ℤ) (role id text now : String) (m : Dict Value) (u : Option Updates)
    (a : Payload × Dict String)
    → wait_plan task expected role id text now m ≡ ok (u, a)
    → Asked expected role id m u
unfolding wait_plan require_revision refuse_terminal is_in
plan-Asked task expected role id text now m u a h =
    elim (Result-cases (is_in (get m "status") terminal)) [
      | inl (e, q) ↦ absurd (ground arith)
      | inr (t, q) ↦ record {
        ref = "questions/" <> (id <> ".md");
        writes = ground arith;
        current = ground arith;
      }
    ]

covers-wait :
    (expected : ℤ) (role id ref : String) (v : Value)
    → covers state_keys (wait_updates expected role id ref v) ≡ true
unfolding covers wait_updates elem
covers-wait expected role id ref v = refl

covers-answer : (expected : ℤ) (v : Value) → covers state_keys (answer_updates expected v []) ≡ true
unfolding covers answer_updates elem
covers-answer expected v = refl

-- Neither writes another key.
last_write-wait :
    (k : String) (expected : ℤ) (role id ref : String) (v : Value)
    → elem k question_keys ≡ false
    → last_write k (wait_updates expected role id ref v) ≡ none
unfolding last_write wait_updates elem
last_write-wait k expected role id ref v h = ground arith

last_write-answer :
    (k : String) (expected : ℤ) (v : Value)
    → elem k question_keys ≡ false
    → last_write k (answer_updates expected v []) ≡ none
unfolding last_write answer_updates elem
last_write-answer k expected v h = ground arith

module _ (task : String) (expected : ℤ) (role id : String) where
  wait_user-Returned :
      (question_file : String) (d : Disk) (p : Payload) (d' : Disk)
      → wait_user task expected question_file role id d ≡ (ok p, d')
      → (text : String) × (fs : Dict String) × (d1 : Disk) × (update_task task
            (wait_plan task expected role id text)
            d
          ≡ (ok (p, fs), d1))
        × (d' ≡ add_files fs d1)
  unfolding wait_user
  wait_user-Returned question_file d p d' h = elim (Option-cases (lookup question_file d.files)) [
    | inl e ↦ absurd (ground arith)
    | inr (text, e) ↦
        let (fs, d1, q, r) =
          publish-ok (update_task task (wait_plan task expected role id text) d) p d'
            (ground arith) in
        (text, fs, d1, q, r)
  ]

  -- A question that was put leaves the task waiting under its id, the status that it had set aside,
  -- the next revision, and every other key as it was.
  waits :
      (question_file : String) (d : Disk) (p : Payload) (d' : Disk)
      → is_state task d ≡ true
      → reread (str id) ≡ str id
      → wait_user task expected question_file role id d ≡ (ok p, d')
      → Readable task d'
        × (is_state task d' ≡ true)
        × (field task "status" d' ≡ str "WAITING_USER")
        × (field task "suspended_status" d' ≡ reread (field task "status" d))
        × (field task "question_id" d' ≡ str id)
        × (field task "revision" d' ≡ int (succ_ℤ expected))
        × ((k : String) → elem k question_keys ≡ false → field task k d' ≡ field task k d)
  unfolding reread wait_updates last_write
  waits question_file d p d' s stable h =
      let (text, fs, d1, q, e) = wait_user-Returned question_file d p d' h in
      let plan = wait_plan task expected role id text in
      let r : Returned task plan d (p, fs) d1 = update_task_ok task plan d (p, fs) d1 q in
      let c = plan-Asked task expected role id text d.clock r.mapping r.updates (p, fs) r.decided in
      let us = wait_updates expected role id c.ref (get r.mapping "status") in
      let cov = covers-wait expected role id c.ref (get r.mapping "status") in
      let seen = λ (k : String). field-update task plan k us r c.writes cov s in
      (
        rw e (Readable-add_files task fs (Readable-update task plan us r c.writes cov s)),
        rw (e, is_state-add_files task fs d1) (is_state-update task plan us r c.writes cov s),
        rw (e, field-add_files task fs "status" d1, seen "status"),
        rw (e, field-add_files task fs "suspended_status" d1, seen "suspended_status")
            (ap reread (get-field task plan "status" r)),
        rw (e, field-add_files task fs "question_id" d1, seen "question_id") stable,
        rw (e, field-add_files task fs "revision" d1, seen "revision"),
        λ k ne. rw (
          e,
          field-add_files task fs k d1,
          seen k,
          last_write-wait k expected role id c.ref (get r.mapping "status") ne,
        ),
      )

-- the status that an answer gives back
abbrev pub resumed_status : String → Disk → Value
resumed_status task d =
    if truthy (field task "suspended_status" d)
    then field task "suspended_status" d
    else str "PLANNING"

resumed-field :
    (task : String) {d : Disk} (q : Readable task d) → resumed q.mapping ≡ resumed_status task d
unfolding resumed
resumed-field task q = ground (arith, get-Readable task "suspended_status" q)

-- The keys of the task once a question is answered.
abbrev pub Resumed : String → ℤ → Disk → Disk → Type 0
Resumed task expected d d' =
    (is_state task d' ≡ true)
    × (field task "status" d' ≡ reread (resumed_status task d))
    × (field task "suspended_status" d' ≡ null)
    × (field task "question_id" d' ≡ null)
    × (field task "resume_role" d' ≡ null)
    × (field task "question_ref" d' ≡ null)
    × (field task "revision" d' ≡ int (succ_ℤ expected))
    × ((k : String) → elem k question_keys ≡ false → field task k d' ≡ field task k d)

module _ (display : Value → String) (task : String) (expected : ℤ)
    (id answer_file text : String) where
  plan-answers :
      (now : String) (m : Dict Value)
      → is_int (get m "revision") expected ≡ true
      → is_str (get m "status") "WAITING_USER" ≡ true
      → is_str (get m "question_id") id ≡ true
      → (a : Payload × Dict String) × (answer_plan display task expected id none none text now m
          ≡ ok (some (answer_updates expected (resumed m) []), a))
  unfolding answer_plan require_revision decision_updates
  plan-answers now m p q r = (
    (
      ("task", str task)
          ∷ ("output_revision", int (succ_ℤ expected))
          ∷ ("answer_ref", str ("decisions/" <> (id <> ".md")))
          ∷ [],
      (task_file task ("decisions/" <> (id <> ".md")), decision_text display id m text) ∷ [],
    ),
    ground arith,
  )

  answer-runs :
      (d : Disk) (a : Payload × Dict String) (d1 : Disk)
      → lookup answer_file d.files ≡ some text
      → update_task task (answer_plan display task expected id none none text) d ≡ (ok a, d1)
      → answer display task expected id answer_file none none d ≡ (ok a.0, add_files a.1 d1)
  unfolding answer check_decision publish
  answer-runs d a d1 there h = ground arith

  -- The answer to the question that a task waits for succeeds, with its file there and the revision
  -- on disk, and gives back the status that was set aside.
  answers :
      (d : Disk)
      → Readable task d
      → is_state task d ≡ true
      → lookup answer_file d.files ≡ some text
      → is_int (field task "revision" d) expected ≡ true
      → is_str (field task "status" d) "WAITING_USER" ≡ true
      → is_str (field task "question_id" d) id ≡ true
      → (p : Payload) × (d' : Disk) × (answer display task expected id answer_file none none d
          ≡ (ok p, d'))
        × Resumed task expected d d'
  unfolding reread answer_updates last_write
  answers d q s there current waiting asked =
      let plan = answer_plan display task expected id none none text in
      let (a, h) =
        plan-answers d.clock q.mapping (rw (get-Readable task "revision" q) current)
          (rw (get-Readable task "status" q) waiting)
          (rw (get-Readable task "question_id" q) asked) in
      let us = answer_updates expected (resumed q.mapping) [] in
      let d1 = write_task task q.doc us d in
      let r : Returned task plan d a d1 = record {
        doc = q.doc;
        mapping = q.mapping;
        updates = some us;
        was_free = q.free;
        on_disk = q.on_disk;
        legible = q.legible;
        decided = h;
        written = refl;
      } in
      let cov = covers-answer expected (resumed q.mapping) in
      let seen =
        λ (k : String). field-add_files task a.1 k d1 ∙ field-update task plan k us r refl cov s in
      (
        a.0,
        add_files a.1 d1,
        answer-runs d a d1 there (update_task-some task plan q h),
        (
          is_state-add_files task a.1 d1 ∙ is_state-update task plan us r refl cov s,
          seen "status" ∙ ap reread (resumed-field task q),
          seen "suspended_status",
          seen "question_id",
          seen "resume_role",
          seen "question_ref",
          seen "revision",
          λ k ne. seen k ∙ rw (last_write-answer k expected (resumed q.mapping) ne) refl,
        ),
      )
