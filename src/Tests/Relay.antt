-- ===== src/Tests/Relay.antt =====
-- The commands of relay_state.py on one task.
use agent_relay_auto.Markdown.Laws.{flat}
use agent_relay_auto.State.Types.{is_in}
use agent_relay_auto.Prelude.{
  ℕ, String, ◌≡◌, ◌≢◌, refl, false, Option, none, [], ◌∷◌, arith, inl, elem, lookup, ◌==◌,
}
use agent_relay_auto.Prelude.Int.{ℤ, pos, succ_ℤ}
use agent_relay_auto.Value.{Value, null, int, str, truthy, get, is_int}
use agent_relay_auto.Outcome.{Error, ok, err}
use agent_relay_auto.Markdown.{Doc, entry, reread}
use agent_relay_auto.Markdown.Write.{all_flat, value_at}
use agent_relay_auto.Store.Base.{Disk, update_task}
use agent_relay_auto.Store.Fields.{field, is_state}
use agent_relay_auto.Relay.{
  Payload, wait_user, answer, publish, wait_plan, require_revision, refuse_terminal, cancel_plan,
  cancel, task_file,
}
use agent_relay_auto.Relay.Question.{question_keys}
use agent_relay_auto.Relay.Question.Twice.{answer_resumes, asked_twice_stuck}
use agent_relay_auto.Relay.Stage.{Texts}
use agent_relay_auto.Relay.Run.{cancel_command, wait_command, main}
use agent_relay_auto.Relay.Terminal.{is_report, refused_unchanged}
use agent_relay_auto.Relay.Terminal.Final.{changes, final_is_final}

abbrev working : Doc
working =
    entry "task" (str "T-1")
    ∷ entry "status" (str "IMPLEMENTING")
    ∷ entry "revision" (int (pos 4))
    ∷ entry "current_role" (str "implementer")
    ∷ []

abbrev with_status : String → Doc
with_status s =
    entry "task" (str "T-1") ∷ entry "status" (str s) ∷ entry "revision" (int (pos 4)) ∷ []

abbrev disk : Doc → Disk
disk doc = record {
  locked = false;
  project = none;
  tasks = ("T-1", doc) ∷ [];
  transactions = none;
  clock = "2026-01-01T00:00:00+00:00";
  files = ("q.md", "Which one?") ∷ ("a.md", "The first.") ∷ [];
}

abbrev display : Value → String
display v = "questions/Q-1A2B3C4D.md"

abbrev asked : Disk → Disk
asked d = (wait_user "T-1" (pos 4) "q.md" "planner" "Q-1A2B3C4D" d).1

abbrev waiting_payload : Payload
waiting_payload =
    ("task", str "T-1") ∷ ("question_id", str "Q-1A2B3C4D") ∷ ("output_revision", int (pos 5)) ∷ []

asks_working :
    wait_user "T-1" (pos 4) "q.md" "planner" "Q-1A2B3C4D" (disk working)
    ≡ (ok waiting_payload, asked (disk working))
unfolding wait_user succ_ℤ lookup publish update_task wait_plan require_revision is_int get
    refuse_terminal is_in
asks_working = refl

asks_waiting :
    wait_user "T-1" (pos 4) "q.md" "planner" "Q-1A2B3C4D" (disk (with_status "WAITING_USER"))
    ≡ (ok waiting_payload, asked (disk (with_status "WAITING_USER")))
unfolding wait_user succ_ℤ lookup publish update_task wait_plan require_revision is_int get
    refuse_terminal is_in
asks_waiting = refl

answer_resumes_example :
    (q : Payload) × (d'' : Disk) × (answer display "T-1"
        (pos 5)
        "Q-1A2B3C4D"
        "a.md"
        none
        none
        (asked (disk working))
      ≡ (ok q, d''))
    × (field "T-1" "status" d'' ≡ str "IMPLEMENTING")
    × (field "T-1" "suspended_status" d'' ≡ null)
    × (field "T-1" "question_id" d'' ≡ null)
    × (field "T-1" "resume_role" d'' ≡ null)
    × (field "T-1" "question_ref" d'' ≡ null)
    × (field "T-1" "revision" d'' ≡ int (pos 6))
    × ((k : String)
        → elem k question_keys ≡ false
        → field "T-1" k d'' ≡ field "T-1" k (disk working))
unfolding wait_user succ_ℤ lookup publish update_task wait_plan require_revision is_int get
    refuse_terminal is_in field is_state reread truthy all_flat flat value_at task_file
answer_resumes_example =
    answer_resumes display "T-1" (pos 4) "planner" "Q-1A2B3C4D" "a.md" "The first." "q.md"
      (disk working) waiting_payload (asked (disk working)) refl refl refl refl asks_working refl

asked_twice_stuck_example :
    (field "T-1" "suspended_status" (asked (disk (with_status "WAITING_USER")))
      ≡ str "WAITING_USER")
    × ((q : Payload) × (d'' : Disk) × (answer display "T-1"
            (pos 5)
            "Q-1A2B3C4D"
            "a.md"
            none
            none
            (asked (disk (with_status "WAITING_USER")))
          ≡ (ok q, d''))
        × (field "T-1" "status" d'' ≡ str "WAITING_USER")
        × (field "T-1" "suspended_status" d'' ≡ null)
        × (field "T-1" "question_id" d'' ≡ null)
        × ((later : Disk) (next : ℤ) (other file : String) (key value : Option String)
            → field "T-1" "question_id" later ≡ field "T-1" "question_id" d''
            → (e : Error) × (answer display "T-1" next other file key value later
                ≡ (err e, later))))
unfolding wait_user succ_ℤ lookup publish update_task wait_plan require_revision is_int get
    refuse_terminal is_in field is_state reread all_flat flat value_at task_file
asked_twice_stuck_example =
    asked_twice_stuck display "T-1" (pos 4) "planner" "Q-1A2B3C4D" "q.md" "a.md" "The first."
      (disk (with_status "WAITING_USER")) waiting_payload
      (asked (disk (with_status "WAITING_USER"))) refl refl refl asks_waiting refl

abbrev texts : Texts
texts = record {
  blank = λ s. s == "";
  before_hash = λ s. s;
  is_absolute = λ s. false;
  lower = λ s. s;
  delivery_id_in = λ s. none;
  path = λ s. s;
}

stale_cancel :
    main texts display "Q-1A2B3C4D" (cancel_command "T-1" (pos 3) "user") (disk working)
    ≡ ((3, none), disk working)
unfolding main publish update_task cancel_plan require_revision is_int get cancel
stale_cancel = refl

refused_unchanged_example : (◌≡◌ {A = Option Payload} none none) × (disk working ≡ disk working)
refused_unchanged_example =
    refused_unchanged texts display "Q-1A2B3C4D" (cancel_command "T-1" (pos 3) "user")
      (disk working) 3 none (disk working) (unfold is_report in refl) stale_cancel
      (λ e. omega arith)

final_is_final_example :
    (code : ℕ) × (main texts display "Q-1A2B3C4D"
        (wait_command "T-1" (pos 4) "q.md" "planner")
        (disk (with_status "DONE"))
      ≡ ((code, none), disk (with_status "DONE")))
    × (code ≢ 0)
unfolding field changes lookup value_at
final_is_final_example =
    final_is_final texts display "Q-1A2B3C4D" "T-1" (disk (with_status "DONE")) (inl refl)
      (wait_command "T-1" (pos 4) "q.md" "planner") refl
