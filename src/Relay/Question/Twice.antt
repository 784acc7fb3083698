-- ===== src/Relay/Question/Twice.antt =====
-- A question and its answer taken together, once and on a task that waits already.
use mathlib.Core.Bool.{false≢true}
use agent_relay_auto.Prelude.{
  String, ◌≡◌, refl, ◌∙◌, ap, true, false, Option, none, some, arith, eq_refl, Dict, elem, lookup,
  inl, inr, Option-cases,
}
use agent_relay_auto.Prelude.Int.{ℤ, succ_ℤ, eq_ℤ_refl}
use agent_relay_auto.Value.{Value, null, int, str, get, truthy, is_int, is_str}
use agent_relay_auto.Outcome.{Error, value_error, ok, err, Result-cases}
use agent_relay_auto.Markdown.{reread}
use agent_relay_auto.Markdown.Write.{Updates}
use agent_relay_auto.Store.Base.{Disk}
use agent_relay_auto.Store.Laws.{Returned, update_task_ok, update_task-cases}
use agent_relay_auto.Store.Fields.{field, is_state, get-field}
use agent_relay_auto.Relay.{
  Payload, wait_user, answer_plan, answer, require_revision, check_decision, publish,
}
use agent_relay_auto.Relay.Question.{question_keys, waits, answers, resumed_status}

module _ (display : Value → String) (task : String) (expected : ℤ)
    (role id answer_file text : String) where
  -- A question and the answer to it without a decision, at the revision that the question left, give
  -- back the status, leave null at the four keys of a question (suspended_status, resume_role,
  -- question_id and question_ref), count the revision up twice, and leave every key but these six as
  -- it was. The status has to be one that is true and reads back as itself, the question's id one
  -- that reads back as itself, and the answer's file has to be there.
  pub answer_resumes :
      (question_file : String) (d : Disk) (p : Payload) (d' : Disk)
      → is_state task d ≡ true
      → reread (str id) ≡ str id
      → truthy (field task "status" d) ≡ true
      → reread (field task "status" d) ≡ field task "status" d
      → wait_user task expected question_file role id d ≡ (ok p, d')
      → lookup answer_file d'.files ≡ some text
      → (q : Payload) × (d'' : Disk) × (answer display task
            (succ_ℤ expected)
            id
            answer_file
            none
            none
            d'
          ≡ (ok q, d''))
        × (field task "status" d'' ≡ field task "status" d)
        × (field task "suspended_status" d'' ≡ null)
        × (field task "question_id" d'' ≡ null)
        × (field task "resume_role" d'' ≡ null)
        × (field task "question_ref" d'' ≡ null)
        × (field task "revision" d'' ≡ int (succ_ℤ (succ_ℤ expected)))
        × ((k : String) → elem k question_keys ≡ false → field task k d'' ≡ field task k d)
  unfolding is_int is_str
  answer_resumes question_file d p d' s stable runs same asked there =
      let (readable, s', waiting, aside, question, revision, rest) =
        waits task expected role id question_file d p d' s stable asked in
      let (q, d'', h, (s'', status, suspended, gone, role_gone, ref_gone, next, rest')) =
        answers display task (succ_ℤ expected) id answer_file text d' readable s' there
          (rw revision (eq_ℤ_refl (succ_ℤ expected))) (rw waiting refl)
          (rw question (eq_refl id)) in
      (
        q,
        d'',
        h,
        status ∙ (ap reread (resumes d d' runs (aside ∙ same)) ∙ same),
        suspended,
        gone,
        role_gone,
        ref_gone,
        next,
        λ k ne. rest' k ne ∙ rest k ne,
      )
    where
      resumes :
          (d d' : Disk)
          → truthy (field task "status" d) ≡ true
          → field task "suspended_status" d' ≡ field task "status" d
          → resumed_status task d' ≡ field task "status" d
      resumes d d' t e = ground arith

plan-asked :
    (display : Value → String) (task : String) (expected : ℤ) (id : String)
    (key value : Option String) (text now : String) (m : Dict Value)
    {x : Option Updates × (Payload × Dict String)}
    → answer_plan display task expected id key value text now m ≡ ok x
    → is_str (get m "question_id") id ≡ true
unfolding answer_plan require_revision
plan-asked display task expected id key value text now m h = ground arith

module _ (display : Value → String) (task : String) where
  -- A task whose question id is null is answered by no call.
  no_question :
      (d : Disk) (expected : ℤ) (id file : String) (key value : Option String)
      → field task "question_id" d ≡ null
      → (e : Error) × (answer display task expected id file key value d ≡ (err e, d))
  unfolding answer publish is_str
  no_question d expected id file key value gone = elim (Option-cases (lookup file d.files)) [
    | inl h ↦ (value_error, ground arith)
    | inr (text, h) ↦ elim (Result-cases (check_decision key value)) [
      | inl (e, c) ↦ (e, ground arith)
      | inr (u, c) ↦
          let plan = answer_plan display task expected id key value text in
          elim (update_task-cases task plan d) [
            | inl (e, r) ↦ (e, ground arith)
            | inr (a, d1, r) ↦
                let s : Returned task plan d a d1 = update_task_ok task plan d a d1 r in
                let asked =
                  plan-asked display task expected id key value text d.clock s.mapping s.decided in
                absurd (false≢true (rw (get-field task plan "question_id" s, gone) at asked))
          ]
    ]
  ]

  -- A question that is put while the task waits already overwrites the suspended status with
  -- WAITING_USER. Its answer leaves the task waiting with no question and no suspended status, and on
  -- whatever disk, as long as the task's question_id is null, every answer is refused and changes no
  -- file.
  pub asked_twice_stuck :
      (expected : ℤ) (role id question_file answer_file text : String) (d : Disk) (p : Payload)
      (d' : Disk)
      → is_state task d ≡ true
      → reread (str id) ≡ str id
      → field task "status" d ≡ str "WAITING_USER"
      → wait_user task expected question_file role id d ≡ (ok p, d')
      → lookup answer_file d'.files ≡ some text
      → (field task "suspended_status" d' ≡ str "WAITING_USER")
        × ((q : Payload) × (d'' : Disk) × (answer display task
                (succ_ℤ expected)
                id
                answer_file
                none
                none
                d'
              ≡ (ok q, d''))
            × (field task "status" d'' ≡ str "WAITING_USER")
            × (field task "suspended_status" d'' ≡ null)
            × (field task "question_id" d'' ≡ null)
            × ((later : Disk) (next : ℤ) (other file : String) (key value : Option String)
                → field task "question_id" later ≡ field task "question_id" d''
                → (e : Error) × (answer display task next other file key value later
                    ≡ (err e, later))))
  unfolding truthy reread
  asked_twice_stuck expected role id question_file answer_file text d p d' s stable waiting h
        there =
      let (readable, s', waits_now, aside, question, revision', others) =
        waits task expected role id question_file d p d' s stable h in
      let (q, d'', answered, status, suspended, gone, role_gone, ref_gone, revision, rest) =
        answer_resumes display task expected role id answer_file text question_file d p d' s stable
          (rw waiting refl) (rw waiting refl) h there in
      (
        aside ∙ ap reread waiting,
        (
          q,
          d'',
          answered,
          status ∙ waiting,
          suspended,
          gone,
          λ later next other file key value same.
              no_question later next other file key value (same ∙ gone),
        ),
      )
