-- ===== src/State/Report/Recovery.antt =====
-- A `complete_report` that is cut short behind the write of the STATE.md: the lock and the
-- transaction stay on disk, and `recover_pending_transactions` does the rest.
use mathlib.Core.Path.{subst}
use agent_relay_auto.Prelude.{
  String, ◌≡◌, refl, sym, ◌∙◌, ap, true, false, Option, none, some, List, [], ◌∷◌, ◌++◌, arith,
  ◌==◌, eq_iff, eq_refl, Dict, lookup, lookup-insert, elem, inl, inr, Option-cases,
}
use agent_relay_auto.Prelude.Int.{ℤ, pos}
use agent_relay_auto.Value.{Value, null, str, obj, no_members, field as member, get, is_str}
use agent_relay_auto.Outcome.{lock_error, ok, err, Result-cases}
use agent_relay_auto.Markdown.{Doc, under, reread, set_nested, parse_fenced_yaml}
use agent_relay_auto.Markdown.View.{well_nested}
use agent_relay_auto.Markdown.Laws.{flat}
use agent_relay_auto.Markdown.Nested.{
  seen-set_nested, well_nested-set_nested, flat-set_nested, seen-set_nested_inline,
}
use agent_relay_auto.Markdown.Write.{
  Updates, write_values, last_write, covers, all_flat, all_flat-write, well_nested-write, value_at,
  value_at-write, get-parse, parse-well_nested, well_nested-parse,
}
use agent_relay_auto.Store.Base.{Disk, with_lock, read_task, write_task}
use agent_relay_auto.State.Types.{TransitionResult, bump}
use agent_relay_auto.State.Report.{
  Completion, head_updates, tail_updates, done_updates, write_done, begin_report, end_report,
  complete_index, check_report, settle, report_body, complete_report, in_order, recover_one,
  recover_all, recover_pending_transactions,
}

-- the root keys that the report writes
abbrev pub report_keys : List String
report_keys =
    "status" ∷ "previous_role" ∷ "previous_participant" ∷ "previous_progress" ∷ "report_ref"
    ∷ "current_role" ∷ "current_participant" ∷ "run_id" ∷ "run_status" ∷ "writer_session"
    ∷ "execution" ∷ "stage_round" ∷ "revision" ∷ "updated_at" ∷ []

write_values-append :
    (us vs : Updates) (d : Doc) → write_values (us ++ vs) d ≡ write_values vs (write_values us d)
unfolding write_values
write_values-append [] vs d = refl
write_values-append ((p, v) ∷ us) vs d = write_values-append us vs _

all_flat-set_nested :
    (ks : List String) (s k : String) (v : Value) (d : Doc)
    → elem s ks ≡ false
    → all_flat ks (set_nested s k v d) ≡ all_flat ks d
unfolding all_flat elem
all_flat-set_nested [] s k v d e = refl
all_flat-set_nested (j ∷ ks) s k v d e =
    ground
      (arith, eq_iff j s, eq_iff s j, all_flat-set_nested ks s k v d, flat-set_nested s k v j d)

module _ (c : Completion) (round : ℤ) (now : String) (d : Doc)
    (h : all_flat report_keys d ≡ true) where
  abbrev headed : Doc
  headed = write_values (head_updates c) d

  abbrev marked : Doc
  marked = set_nested "reporting" "phase" (str "completed") headed

  headed-flat : all_flat report_keys headed ≡ true
  unfolding covers elem
  headed-flat = all_flat-write report_keys (head_updates c) d refl h

  marked-flat : all_flat report_keys marked ≡ true
  unfolding elem
  marked-flat = all_flat-set_nested report_keys _ _ _ headed refl ∙ headed-flat

  done-eq :
      write_values (done_updates c round now) d ≡ write_values (tail_updates c round now) marked
  unfolding done_updates write_values
  done-eq =
      write_values-append (head_updates c)
        ((under "reporting" "phase", str "completed") ∷ tail_updates c round now) d

  well_nested-done :
      well_nested false d ≡ true
      → well_nested false (write_values (done_updates c round now) d) ≡ true
  unfolding covers elem
  well_nested-done w = rw done-eq (
      well_nested-write report_keys (tail_updates c round now) marked refl marked-flat (
        well_nested-set_nested _ _ _ false headed
          (well_nested-write report_keys (head_updates c) d refl h w)))

  value_at-marked :
      (k : String) → ("reporting" == k) ≡ false → value_at k marked ≡ value_at k headed
  unfolding value_at
  value_at-marked k ne =
      ap (λ (o : Option Value). elim o [ none ↦ null | some v ↦ v ])
        (seen-set_nested "reporting" "phase" (str "completed") k ne none none headed)

  status-done : value_at "status" (write_values (done_updates c round now) d) ≡ str "DONE"
  unfolding covers elem last_write reread
  status-done = rw done-eq (
      value_at-write report_keys "status" (tail_updates c round now) marked refl marked-flat
      ∙ (value_at-marked "status" refl
          ∙ value_at-write report_keys "status" (head_updates c) d refl h))

-- The files when the STATE.md has been written and the index has not.
unfoldable pub cut_short : Completion → Disk → Disk
cut_short c d = elim (read_task c.task_id d) [
  | err e ↦ d
  | ok p ↦ (write_done c p.0 p.1 (record d { locked = true })).1
]

-- What a `complete_report` that returned has read, and what it has left.
record Reported (lower : String → String) (c : Completion) (d d' : Disk) : Type 0 where
  doc : Doc
  mapping : Dict Value
  round : ℤ
  settled : Disk
  was_free : d.locked ≡ false
  on_disk : lookup c.task_id d.tasks ≡ some doc
  legible : parse_fenced_yaml doc ≡ some mapping
  checked : check_report lower c mapping ≡ ok tt
  counted : bump "stage_round" (pos 1) mapping ≡ ok round
  indexed : complete_index c.task_id (cut_short c d) ≡ ok settled
  cut :
      cut_short c d
      ≡ write_task c.task_id doc
          (done_updates c round d.clock)
          (begin_report c.task_id (record d { locked = true }))
  left : d' ≡ record (end_report c.task_id settled) { locked = false }

module _ (lower : String → String) (c : Completion) where
  complete_report-Reported :
      (d : Disk) (a : TransitionResult) (d' : Disk)
      → complete_report lower c d ≡ (ok a, d')
      → Reported lower c d d'
  unfolding complete_report report_body with_lock read_task write_done settle cut_short
  complete_report-Reported d a d' h = elim (Option-cases (lookup c.task_id d.tasks)) [
    | inl e ↦ absurd (ground arith)
    | inr (doc, e) ↦ elim (Option-cases (parse_fenced_yaml doc)) [
      | inl f ↦ absurd (ground arith)
      | inr (m, f) ↦ elim (Result-cases (bump "stage_round" (pos 1) m)) [
        | inl (x, g) ↦ absurd (ground arith)
        | inr (round, g) ↦
            let done =
              write_task c.task_id doc (done_updates c round d.clock)
                (begin_report c.task_id (record d { locked = true })) in
            elim (Result-cases (complete_index c.task_id done)) [
              | inl (x, q) ↦ absurd (ground arith)
              | inr (settled, q) ↦ record {
                doc = doc;
                mapping = m;
                round = round;
                settled = settled;
                was_free = ground arith;
                on_disk = e;
                legible = f;
                checked = ground arith;
                counted = g;
                indexed = ground arith;
                cut = ground arith;
                left = ground arith;
              }
            ]
      ]
    ]
  ]

  cut_short-transactions :
      (d : Disk) {d' : Disk} (r : Reported lower c d d')
      → d.transactions ≡ some []
      → (cut_short c d).transactions ≡ some ((c.task_id, some c.task_id) ∷ [])
  unfolding write_task begin_report
  cut_short-transactions d r none_before = rw (r.cut, none_before)

  -- What the recovery reads of the task: it is DONE.
  read_task-cut_short :
      (d : Disk) {d' : Disk} (r : Reported lower c d d')
      → all_flat report_keys r.doc ≡ true
      → (p : Doc × Dict Value) × (read_task c.task_id (cut_short c d) ≡ ok p)
        × (is_str (get p.1 "status") "DONE" ≡ true)
  unfolding read_task write_task begin_report is_str
  read_task-cut_short d r flat =
      let doc = write_values (done_updates c r.round d.clock) r.doc in
      let parsed =
        well_nested-parse doc
          (well_nested-done c r.round d.clock r.doc flat (parse-well_nested r.doc r.legible)) in
      (
        (doc, parsed.0),
        rw (r.cut, lookup-insert, eq_refl, parsed.1),
        rw (get-parse doc "status" parsed.1, status-done c r.round d.clock r.doc flat),
      )

  recover_one-done :
      (x : Disk) (task : String) (p : Doc × Dict Value) (settled : Disk)
      → read_task task x ≡ ok p
      → is_str (get p.1 "status") "DONE" ≡ true
      → (task == "") ≡ false
      → complete_index task x ≡ ok settled
      → recover_one task (some task) x ≡ ok (task ∷ [], end_report task settled)
  unfolding recover_one
  recover_one-done x task p settled read done named q =
      rw (named, read) (rw (done, recover_one) (rw (q, recover_one)))

  recover-single :
      (x : Disk) (task : String) (settled : Disk)
      → x.transactions ≡ some ((task, some task) ∷ [])
      → recover_one task (some task) (record x { locked = true })
        ≡ ok (task ∷ [], end_report task settled)
      → recover_pending_transactions (record x { locked = false })
        ≡ (ok (task ∷ []), record (end_report task settled) { locked = false })
  unfolding recover_pending_transactions with_lock recover_all in_order
  recover-single x task settled ts one = ground arith

  recover-locked :
      (x : Disk) {ts : Dict (Option String)}
      → x.locked ≡ true
      → x.transactions ≡ some ts
      → recover_pending_transactions x ≡ (err lock_error, x)
  unfolding recover_pending_transactions with_lock
  recover-locked x l t = ground arith

  relock : (x : Disk) → x.locked ≡ true → x ≡ record x { locked = true }
  relock x l = λ i. record x { locked = l i }

  cut_short-locked : (d : Disk) {d' : Disk} → Reported lower c d d' → (cut_short c d).locked ≡ true
  unfolding write_task begin_report
  cut_short-locked d r = rw r.cut

  -- Cut short behind the write of the STATE.md, a report is blocked by its lock; with the lock
  -- released the recovery leaves the very files that the uninterrupted call would have left. The
  -- directory of transactions has to be there and empty, the task id not empty, and each key that the
  -- report writes on at most one line of its own.
  pub recovery_completes :
      (d : Disk) (a : TransitionResult) (d' : Disk)
      → complete_report lower c d ≡ (ok a, d')
      → d.transactions ≡ some []
      → (c.task_id == "") ≡ false
      → ((doc : Doc) → lookup c.task_id d.tasks ≡ some doc → all_flat report_keys doc ≡ true)
      → (recover_pending_transactions (cut_short c d) ≡ (err lock_error, cut_short c d))
        × (recover_pending_transactions (record (cut_short c d) { locked = false })
            ≡ (ok (c.task_id ∷ []), d'))
  recovery_completes d a d' h none_before named flat =
      let r = complete_report-Reported d a d' h in
      let (p, read, done) = read_task-cut_short d r (flat r.doc r.on_disk) in
      let ts = cut_short-transactions d r none_before in
      let x = cut_short c d in
      let l = cut_short-locked d r in
      let one = recover_one-done x c.task_id p r.settled read done named r.indexed in
      (
        recover-locked x l ts,
        recover-single x c.task_id r.settled ts (
              subst
                (λ y.
                  recover_one c.task_id (some c.task_id) y
                  ≡ ok (c.task_id ∷ [], end_report c.task_id r.settled))
                (relock x l) one)
            ∙ ap (λ (y : Disk). (ok (c.task_id ∷ []), y)) (sym r.left),
      )

head_of-all_flat :
    (d : Doc) → all_flat ("reporting" ∷ report_keys) d ≡ true → flat "reporting" d ≡ true
unfolding all_flat
head_of-all_flat d h = ground arith

-- The inline mapping that `prepare_reporting_wake` writes does not survive `complete_report`: the
-- key under `reporting` goes into a new section, and a reader finds no wake key any more.
pub wake_key_lost :
    (c : Completion) (round : ℤ) (now : String) (d : Doc)
    → all_flat report_keys d ≡ true
    → flat "reporting" d ≡ true
    → value_at "reporting" (write_values (done_updates c round now) d)
      ≡ obj (member "phase" (str "completed") no_members)
unfolding covers elem all_flat last_write value_at reread
wake_key_lost c round now d h inline =
    let keys = "reporting" ∷ report_keys in
    let flat_head : flat "reporting" (headed c round now d h) ≡ true =
      head_of-all_flat (headed c round now d h)
        (all_flat-write keys (head_updates c) d refl (rw (inline, h))) in
    rw (done-eq c round now d h) (
      value_at-write report_keys "reporting" (tail_updates c round now) (marked c round now d h)
        refl (marked-flat c round now d h)
      ∙ ap (λ (o : Option Value). elim o [ none ↦ null | some v ↦ v ])
          (seen-set_nested_inline "reporting" "phase" (str "completed") none none
            (headed c round now d h) flat_head))
