-- ===== src/Schema/Queue.antt =====
-- What `validate_project_state` accepts: a queue that is serial.
use agent_relay_auto.Prelude.{
  ℕ, String, ◌≡◌, true, false, Option, some, List, [], ◌∷◌, ◌+◌, ◌≤◌, arith, ◌⊎◌, ◌==◌, eq_iff,
  Dict, lookup, insert, lookup-insert, elem, inl, inr, Bool-cases, Option-cases,
}
use agent_relay_auto.Value.{Value}
use agent_relay_auto.Outcome.{ok, Result-cases}
use agent_relay_auto.Schema.{
  ProjectQueue, length, enrol, enrol_all, tasks_of, read_queue, validate_project_state,
}

module _ (key : String) where
  -- A task that is enrolled stays enrolled under its key.
  enrol-keeps :
      (y : String) (p : String) (xs : List String) (ms ms' : Dict String)
      → lookup y ms ≡ some p
      → enrol key xs ms ≡ ok ms'
      → lookup y ms' ≡ some p
  unfolding enrol
  enrol-keeps y p [] ms ms' h e = ground arith
  enrol-keeps y p (x ∷ xs) ms ms' h e = elim (Option-cases (lookup x ms)) [
    | inl q ↦
        enrol-keeps y p xs (insert x key ms) ms'
          (ground (arith, eq_iff x y, lookup-insert x y key ms)) (ground arith)
    | inr (r, q) ↦ enrol-keeps y p xs ms ms' h (ground arith)
  ]

  enrol-has :
      (y : String) (xs : List String) (ms ms' : Dict String)
      → elem y xs ≡ true
      → enrol key xs ms ≡ ok ms'
      → lookup y ms' ≡ some key
  unfolding enrol elem
  enrol-has y [] ms ms' h e = absurd (ground arith)
  enrol-has y (x ∷ xs) ms ms' h e = elim (Bool-cases (x == y)) [
    | inl s ↦ elim (Option-cases (lookup x ms)) [
      | inl q ↦
          enrol-keeps y key xs (insert x key ms) ms' (ground (arith, lookup-insert x y key ms))
            (ground arith)
      | inr (r, q) ↦
          enrol-keeps y key xs ms ms' (ground (arith, eq_iff x y, eq_iff r key)) (ground arith)
    ]
    | inr s ↦ elim (Option-cases (lookup x ms)) [
      | inl q ↦ enrol-has y xs (insert x key ms) ms' (ground arith) (ground arith)
      | inr (r, q) ↦ enrol-has y xs ms ms' (ground arith) (ground arith)
    ]
  ]

-- 1 where the task is in the list, and 0 where it is not
unfoldable pub in_list : String → List String → ℕ
unfolding elem
in_list x xs = elim (elem x xs) [ true ↦ 1 | false ↦ 0 ]

-- in how many of the four lists a task is
unfoldable pub lists_with : String → ProjectQueue → ℕ
unfolding in_list
lists_with x q =
    in_list x q.active + in_list x q.queued + in_list x q.blocked + in_list x q.completed

-- A task that a list holds has the list's key in the memberships.
in_list-key :
    (x : String) (xs : List String) (found : Option String) (key : String)
    → (elem x xs ≡ true → found ≡ some key)
    → (in_list x xs ≡ 0) ⊎ ((in_list x xs ≡ 1) × (found ≡ some key))
unfolding in_list
in_list-key x xs found key h = elim (Bool-cases (elem x xs)) [
  | inl p ↦ inr (ground arith, h p)
  | inr p ↦ inl (ground arith)
]

-- A task in two lists would be enrolled under two keys.
at_most_one :
    (a b c d : ℕ) (found : Option String)
    → (a ≡ 0) ⊎ ((a ≡ 1) × (found ≡ some "active"))
    → (b ≡ 0) ⊎ ((b ≡ 1) × (found ≡ some "queued"))
    → (c ≡ 0) ⊎ ((c ≡ 1) × (found ≡ some "blocked"))
    → (d ≡ 0) ⊎ ((d ≡ 1) × (found ≡ some "completed"))
    → a + b + c + d ≤ 1
at_most_one a b c d found p q r s = ground (
  arith,
  eq_iff "active" "queued",
  eq_iff "active" "blocked",
  eq_iff "active" "completed",
  eq_iff "queued" "blocked",
  eq_iff "queued" "completed",
  eq_iff "blocked" "completed",
)

enrol_all-disjoint :
    (q : ProjectQueue) (ms : Dict String) → enrol_all q ≡ ok ms → (x : String) → lists_with x q ≤ 1
unfolding enrol_all lists_with
enrol_all-disjoint q ms h x = elim (Result-cases (enrol "active" q.active [])) [
  | inl (e, p) ↦ absurd (ground arith)
  | inr (m1, p) ↦ elim (Result-cases (enrol "queued" q.queued m1)) [
    | inl (e, r) ↦ absurd (ground arith)
    | inr (m2, r) ↦ elim (Result-cases (enrol "blocked" q.blocked m2)) [
      | inl (e, s) ↦ absurd (ground arith)
      | inr (m3, s) ↦
          let t : enrol "completed" q.completed m3 ≡ ok ms = ground arith in
          at_most_one _ _ _ _ (lookup x ms)
            (in_list-key x q.active (lookup x ms) "active" (λ i.
              enrol-keeps "completed" x "active" q.completed m3 ms
                (enrol-keeps "blocked" x "active" q.blocked m2 m3
                  (enrol-keeps "queued" x "active" q.queued m1 m2
                    (enrol-has "active" x q.active [] m1 i p) r)
                  s)
                t))
            (in_list-key x q.queued (lookup x ms) "queued" (λ i.
              enrol-keeps "completed" x "queued" q.completed m3 ms
                (enrol-keeps "blocked" x "queued" q.blocked m2 m3
                  (enrol-has "queued" x q.queued m1 m2 i r) s)
                t))
            (in_list-key x q.blocked (lookup x ms) "blocked" (λ i.
              enrol-keeps "completed" x "blocked" q.completed m3 ms
                (enrol-has "blocked" x q.blocked m2 m3 i s) t))
            (in_list-key x q.completed (lookup x ms) "completed"
              (λ i. enrol-has "completed" x q.completed m3 ms i t))
    ]
  ]
]

-- A project that is valid is serial: at most one task is active, and no task is in two of the four
-- lists.
pub valid_is_serial :
    (m : Dict Value) (q : ProjectQueue)
    → validate_project_state m ≡ ok q
    → (length q.active ≤ 1) × ((x : String) → lists_with x q ≤ 1)
unfolding validate_project_state
valid_is_serial m q h = elim (Result-cases (tasks_of m)) [
  | inl (e, p) ↦ absurd (ground arith)
  | inr (tasks, p) ↦ elim (Result-cases (read_queue tasks)) [
    | inl (e, r) ↦ absurd (ground arith)
    | inr (q', r) ↦ elim (Result-cases (enrol_all q')) [
      | inl (e, s) ↦ absurd (ground arith)
      | inr (ms, s) ↦
          let same : q' ≡ q = ground arith in (ground arith, enrol_all-disjoint q ms (rw same at s))
    ]
  ]
]
