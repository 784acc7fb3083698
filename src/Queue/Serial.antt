-- ===== src/Queue/Serial.antt =====
-- What `activate_next_queued_task` has read and written where it starts a task.
use agent_relay_auto.Prelude.{
  String, ◌≡◌, refl, ◌∙◌, ap, ◌⊎◌, ◌==◌, true, false, some, [], ◌∷◌, ◌++◌, arith, Dict, inl, inr,
  Bool-cases, Option-cases,
}
use agent_relay_auto.Prelude.Int.{ℤ, succ_ℤ}
use agent_relay_auto.Value.{
  Fields, no_members, field, Items, no_items, item, Value, null, int, bool, str, arr, obj, get,
  get_field, truthy, items_of, is_null, is_int,
}
use agent_relay_auto.Outcome.{ok, Result-cases}
use agent_relay_auto.Markdown.{Doc, root, under}
use agent_relay_auto.Markdown.Write.{Updates, write_values}
use agent_relay_auto.Store.Base.{Disk, with_lock}
use agent_relay_auto.State.Report.{read_project}
use agent_relay_auto.Queue.{
  next_task, revision_update, activation_updates, tasks_or_empty, list_or_empty, read_lists,
  activate, activate_next_queued_task,
}

-- What a call that started a task had read, and what it has written: `lists` is the mapping `tasks` of
-- the index, and `counted` the write of a revision that is there.
pub record Started (expected : ℤ) (d : Disk) (task : Value) (d' : Disk) : Type 0 where
  pub doc : Doc
  pub mapping : Dict Value
  pub lists : Fields
  pub rest : Items
  pub counted : Updates
  pub was_free : d.locked ≡ false
  pub was_read : read_project d ≡ ok (doc, mapping)
  pub current :
      ((get mapping "project_revision" ≡ null) × (counted ≡ []))
      ⊎ ((is_int (get mapping "project_revision") expected ≡ true)
          × (counted ≡ (root "project_revision", int (succ_ℤ expected)) ∷ []))
  pub indexed : get mapping "tasks" ≡ obj lists
  pub none_active : truthy (get_field lists "active") ≡ false
  pub first_queued : items_of (get_field lists "queued") ≡ some (item task rest)
  pub written : d' ≡ record d {
    project = some (
        write_values
          ((under "tasks" "active", arr (item task no_items))
            ∷ (under "tasks" "queued", arr rest)
            ∷ (root "active_task", task)
            ∷ (counted ++ ((root "updated_at", str d.clock) ∷ [])))
          doc);
  }

next_task-some :
    (active queued : Items) (task : Value) (rest : Items)
    → next_task active queued ≡ some (task, rest)
    → (active ≡ no_items) × (queued ≡ item task rest)
unfolding next_task
next_task-some no_items no_items task rest h = absurd (ground arith)
next_task-some no_items (item t r) task rest h = (refl, ground arith)
next_task-some (item t r) queued task rest h = absurd (ground arith)

no_items-falsy : (v : Value) → list_or_empty v ≡ ok no_items → truthy v ≡ false
unfolding list_or_empty truthy items_of
no_items-falsy null h = refl
no_items-falsy (int i) h = ground arith
no_items-falsy (bool b) h = ground arith
no_items-falsy (str String.[]) h = refl
no_items-falsy (str (String.◌∷◌ c s)) h = elim (Bool-cases (String.◌∷◌ c s == "")) [
  | inl e ↦ rw e refl
  | inr e ↦ let listed = (rw e at h) in absurd (ground arith)
]
no_items-falsy (arr no_items) h = refl
no_items-falsy (arr (item x xs)) h = absurd (ground arith)
no_items-falsy (obj no_members) h = refl
no_items-falsy (obj (field k v fs)) h = absurd (ground arith)

some_items-listed :
    (v : Value) (x : Value) (xs : Items)
    → list_or_empty v ≡ ok (item x xs)
    → items_of v ≡ some (item x xs)
unfolding list_or_empty
some_items-listed v x xs h = elim (Bool-cases (truthy v)) [
  | inl t ↦ elim (Option-cases (items_of v)) [
    | inl e ↦ absurd (ground arith)
    | inr (ys, e) ↦ ground arith
  ]
  | inr f ↦ absurd (ground arith)
]

listed-somewhere :
    (v : Value) (fs : Fields) (x : Value) (xs : Items)
    → tasks_or_empty v ≡ ok fs
    → items_of (get_field fs "queued") ≡ some (item x xs)
    → v ≡ obj fs
unfolding tasks_or_empty get_field items_of
listed-somewhere (obj gs) fs x xs h q = ground arith
listed-somewhere null fs x xs h q = absurd (ground arith)
listed-somewhere (int i) fs x xs h q = absurd (ground arith)
listed-somewhere (bool b) fs x xs h q = absurd (ground arith)
listed-somewhere (str s) fs x xs h q = absurd (ground arith)
listed-somewhere (arr ys) fs x xs h q = absurd (ground arith)

-- What the lists of the index were read from.
record Listed (expected : ℤ) (m : Dict Value) (active queued : Items) : Type 0 where
  lists : Fields
  current :
      (is_null (get m "project_revision") ≡ true)
      ⊎ (is_int (get m "project_revision") expected ≡ true)
  indexed : tasks_or_empty (get m "tasks") ≡ ok lists
  active_list : list_or_empty (get_field lists "active") ≡ ok active
  queued_list : list_or_empty (get_field lists "queued") ≡ ok queued

read_lists-Listed :
    (expected : ℤ) (m : Dict Value) (active queued : Items)
    → read_lists expected m ≡ ok (active, queued)
    → Listed expected m active queued
unfolding read_lists
read_lists-Listed expected m active queued h =
    elim (Result-cases (tasks_or_empty (get m "tasks"))) [
      | inl (e, t) ↦ absurd (ground arith)
      | inr (fs, t) ↦ elim (Result-cases (list_or_empty (get_field fs "active"))) [
        | inl (e, a) ↦ absurd (ground arith)
        | inr (xs, a) ↦ elim (Result-cases (list_or_empty (get_field fs "queued"))) [
          | inl (e, q) ↦ absurd (ground arith)
          | inr (ys, q) ↦ record {
            lists = fs;
            current = elim (Bool-cases (is_null (get m "project_revision"))) [
              | inl n ↦ inl n
              | inr there ↦ inr (ground arith)
            ];
            indexed = t;
            active_list = ground arith;
            queued_list = ground arith;
          }
        ]
      ]
    ]

null-only : (v : Value) → is_null v ≡ true → v ≡ null
unfolding is_null
null-only null h = refl
null-only (int i) h = absurd (ground arith)
null-only (bool b) h = absurd (ground arith)
null-only (str s) h = absurd (ground arith)
null-only (arr xs) h = absurd (ground arith)
null-only (obj fs) h = absurd (ground arith)

int-not-null : (v : Value) (i : ℤ) → is_int v i ≡ true → is_null v ≡ false
unfolding is_null is_int
int-not-null null i h = absurd (ground arith)
int-not-null (int j) i h = refl
int-not-null (bool b) i h = refl
int-not-null (str s) i h = refl
int-not-null (arr xs) i h = refl
int-not-null (obj fs) i h = refl

revision-counted :
    (v : Value) (expected : ℤ)
    → (is_null v ≡ true) ⊎ (is_int v expected ≡ true)
    → ((v ≡ null) × (revision_update v expected ≡ []))
      ⊎ ((is_int v expected ≡ true)
          × (revision_update v expected ≡ (root "project_revision", int (succ_ℤ expected)) ∷ []))
unfolding revision_update
revision-counted v expected (inl n) = inl (null-only v n, rw n refl)
revision-counted v expected (inr i) = inr (i, rw (int-not-null v expected i) refl)

with_lock-free :
    (expected : ℤ) (d : Disk) (task : Value) (d' : Disk)
    → activate_next_queued_task expected d ≡ (ok (some task), d')
    → d.locked ≡ false
unfolding activate_next_queued_task with_lock
with_lock-free expected d task d' h = elim (Bool-cases d.locked) [
  | inl l ↦ absurd (ground arith)
  | inr f ↦ f
]

-- A call that starts a task has read, from an index that was not locked, the expected revision or
-- none, no active task and that task first in the queue. It has changed the index alone: the task is
-- the one active task, the queue is the rest, and a revision that is there is counted up.
pub activation_is_serial :
    (expected : ℤ) (d : Disk) (task : Value) (d' : Disk)
    → activate_next_queued_task expected d ≡ (ok (some task), d')
    → Started expected d task d'
unfolding activate_next_queued_task activate activation_updates
activation_is_serial expected d task d' h = elim (Result-cases (read_project d)) [
  | inl (e, p) ↦ absurd (ground arith)
  | inr ((doc, m), p) ↦ elim (Result-cases (read_lists expected m)) [
    | inl (e, q) ↦ absurd (ground arith)
    | inr ((active, queued), q) ↦ elim (Option-cases (next_task active queued)) [
      | inl r ↦ absurd (ground arith)
      | inr ((t, rest), r) ↦
          let same : t ≡ task = ground arith in
          let parts = next_task-some active queued t rest r in
          let l = read_lists-Listed expected m active queued q in
          let queue : items_of (get_field l.lists "queued") ≡ some (item task rest) =
            some_items-listed (get_field l.lists "queued") task rest
              (l.queued_list ∙ ap ok (parts.1 ∙ ap (λ (x : Value). item x rest) same)) in
          record {
            doc = doc;
            mapping = m;
            lists = l.lists;
            rest = rest;
            counted = revision_update (get m "project_revision") expected;
            was_free = with_lock-free expected d task d' h;
            was_read = p;
            current = revision-counted (get m "project_revision") expected l.current;
            indexed = listed-somewhere (get m "tasks") l.lists task rest l.indexed queue;
            none_active =
                no_items-falsy (get_field l.lists "active") (l.active_list ∙ ap ok parts.0);
            first_queued = queue;
            written = ground arith;
          }
    ]
  ]
]
