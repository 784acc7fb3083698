-- ===== src/Notices.antt =====
-- `NotificationKey` and `NotificationJournal` of agent_relay_runtime/notifications.py: a notice is
-- written down before it is shown, and is shown once.
use mathlib.Core.Path.{subst}
use agent_relay_auto.Prelude.{
  ℕ, ◌+◌, ◌≤◌, String, ◌≡◌, refl, inl, inr, Bool, true, false, not, ◌&&◌, Option, none, some, List,
  [], ◌∷◌, ◌++◌, ◌==◌, if◌then◌else◌, arith, eq_refl, eq_iff, Bool-cases,
}
use agent_relay_auto.Prelude.Int.{ℤ, eq_ℤ, eq_ℤ_refl, eq_ℤ-eq}
use agent_relay_auto.Value.{
  Fields, no_members, field, Value, int, str, obj, arr, find_field, is_str, is_int,
}
use agent_relay_auto.Outcome.{
  value_error, key_error, type_error, Result, ok, err, ◌>>=◌, or_raise, Result-cases,
}

pub record NotificationKey : Type 0 where
  pub project : String
  pub task_id : String
  pub state : String
  pub revision : ℤ

-- The lines of the file that are not blank, in their order: the value of each, `none` where it is no
-- JSON. A file that is missing has no lines.
abbrev pub NoticeJournal : Type 0
NoticeJournal = List (Option Value)

-- `item[k]` as a member of a tuple that goes into a set
unfoldable pub member_of : Fields → String → Result Value
unfolding find_field
member_of fs k = or_raise (find_field fs k) key_error

unfoldable pub hashable : Value → Result Value
hashable (arr xs) = err type_error
hashable (obj fs) = err type_error
hashable v = ok v

-- whether the tuple of a line is that of the key
unfoldable pub is_notice : NotificationKey → Option Value → Result Bool
unfolding member_of hashable is_str is_int
is_notice key none = err value_error
is_notice key (some (obj fs)) = do
  project ← member_of fs "project"
  task ← member_of fs "task_id"
  state ← member_of fs "state"
  revision ← member_of fs "revision"
  p ← hashable project
  t ← hashable task
  s ← hashable state
  r ← hashable revision
  ok (
      is_str p key.project
      && (is_str t key.task_id && (is_str s key.state && is_int r key.revision)))
is_notice key (some _) = err type_error

-- `identity in existing`: every line is read
unfoldable pub is_known : NotificationKey → NoticeJournal → Result Bool
unfolding is_notice
is_known key [] = ok false
is_known key (line ∷ lines) = do
  here ← is_notice key line
  rest ← is_known key lines
  ok (if here then true else rest)

-- `{**asdict(key), "state_path": state_path}`
unfoldable pub notice : NotificationKey → String → Fields
notice key path = field "project" (str key.project) (
    field "task_id" (str key.task_id) (
      field "state" (str key.state)
        (field "revision" (int key.revision) (field "state_path" (str path) no_members))))

-- `emit_once`
unfoldable pub emit_once : NotificationKey → String → NoticeJournal → Result (Bool × NoticeJournal)
unfolding is_known notice
emit_once key path j = do
  known ← is_known key j
  ok (if known then (false, j) else (true, j ++ (some (obj (notice key path)) ∷ [])))

unfoldable pub same_notice : NotificationKey → NotificationKey → Bool
same_notice a b =
    (a.project == b.project)
    && ((a.task_id == b.task_id) && ((a.state == b.state) && eq_ℤ a.revision b.revision))

is_notice-notice :
    (a b : NotificationKey) (path : String)
    → is_notice b (some (obj (notice a path))) ≡ ok (same_notice a b)
unfolding is_notice notice same_notice member_of find_field hashable is_str is_int
is_notice-notice a b path = refl

-- what is known behind one more line
is_known-append :
    (key : NotificationKey) (line : Option Value) (here known : Bool) (j : NoticeJournal)
    → is_notice key line ≡ ok here
    → is_known key j ≡ ok known
    → is_known key (j ++ (line ∷ [])) ≡ ok (if known then true else here)
unfolding is_known
is_known-append key line here known [] h k = ground (arith, h, k)
is_known-append key line here known (l ∷ ls) h k = elim (Result-cases (is_notice key l)) [
  | inl (e, q) ↦ absurd (ground arith)
  | inr (first, q) ↦ elim (Result-cases (is_known key ls)) [
    | inl (e, r) ↦ absurd (ground arith)
    | inr (rest, r) ↦ ground (arith, is_known-append key line here rest ls h r)
  ]
]

same_notice_refl : (a : NotificationKey) → same_notice a a ≡ true
unfolding same_notice
same_notice_refl a =
    ground (arith, eq_refl a.project, eq_refl a.task_id, eq_refl a.state, eq_ℤ_refl a.revision)

same_notice-eq : (a b : NotificationKey) → same_notice a b ≡ true → a ≡ b
unfolding same_notice
same_notice-eq a b h =
    let p : a.project ≡ b.project = (eq_iff a.project b.project).0 (ground arith) in
    let t : a.task_id ≡ b.task_id = (eq_iff a.task_id b.task_id).0 (ground arith) in
    let s : a.state ≡ b.state = (eq_iff a.state b.state).0 (ground arith) in
    let r : a.revision ≡ b.revision = eq_ℤ-eq a.revision b.revision (ground arith) in
    λ i. record { project = p i; task_id = t i; state = s i; revision = r i }

-- Over a legible journal `emit_once` is the insertion into a set of keys: it shows the notice exactly
-- if the key is new, and behind it the key is known, with all that was known before and no more.
pub emit_refines :
    (key other : NotificationKey) (path : String) (j : NoticeJournal) (known before : Bool)
    → is_known key j ≡ ok known
    → is_known other j ≡ ok before
    → (j' : NoticeJournal) × (emit_once key path j ≡ ok (not known, j'))
      × (is_known other j' ≡ ok (if same_notice key other then true else before))
unfolding emit_once
emit_refines key other path j true before h k = (
  j,
  ground arith,
  elim (Bool-cases (same_notice key other)) [
    | inl e ↦
        let here = subst (λ x. is_known x j ≡ ok true) (same_notice-eq key other e) h in
        ground arith
    | inr n ↦ ground arith
  ],
)
emit_refines key other path j false before h k =
    let j' = j ++ (some (obj (notice key path)) ∷ []) in
    let after =
      is_known-append other (some (obj (notice key path))) (same_notice key other) before j
        (is_notice-notice key other path) k in
    (j', ground arith, ground (arith, after))

-- the notices that a sequence of calls shows
unfoldable pub emit_all :
    List (NotificationKey × String) → NoticeJournal → Result (List NotificationKey × NoticeJournal)
unfolding emit_once
emit_all [] j = ok ([], j)
emit_all ((key, path) ∷ calls) j = do
  p ← emit_once key path j
  rest ← emit_all calls p.1
  ok (if p.0 then (key ∷ rest.0, rest.1) else rest)

unfoldable pub times : NotificationKey → List NotificationKey → ℕ
unfolding same_notice
times key [] = 0
times key (k ∷ ks) = (if same_notice k key then 1 else 0) + times key ks

shown_step :
    (key first : NotificationKey) (more shown : List NotificationKey) (known b : Bool)
    (j : NoticeJournal)
    → shown ≡ (if not b then first ∷ more else more)
    → (same_notice first key ≡ true → is_known key j ≡ ok b)
    → is_known key j ≡ ok known
    → times key more + (if (if same_notice first key then true else known) then 1 else 0) ≤ 1
    → times key shown + (if known then 1 else 0) ≤ 1
unfolding times
shown_step key first more shown known b j e same k rest =
    elim (Bool-cases (same_notice first key)) [
      | inl s ↦ let agree = same s in ground arith
      | inr n ↦ ground arith
    ]

-- Whatever calls are made, a notice that is not in the journal yet is shown once at most, and one
-- that is there is not shown.
pub shown_once :
    (key : NotificationKey) (calls : List (NotificationKey × String)) (j j' : NoticeJournal)
    (shown : List NotificationKey) (known : Bool)
    → is_known key j ≡ ok known
    → emit_all calls j ≡ ok (shown, j')
    → times key shown + (if known then 1 else 0) ≤ 1
unfolding emit_all times
shown_once key [] j j' shown known k h = ground arith
shown_once key ((first, path) ∷ calls) j j' shown known k h =
    elim (Result-cases (is_known first j)) [
      | inl (e, q) ↦ absurd (unfold emit_once in ground arith)
      | inr (b, q) ↦
          let (j1, emitted, after) = emit_refines first key path j b known q k in
          elim (Result-cases (emit_all calls j1)) [
            | inl (e, r) ↦ absurd (ground arith)
            | inr ((more, j2), r) ↦
                shown_step key first more shown known b j (ground (arith, emitted, r))
                  (λ e. subst (λ x. is_known x j ≡ ok b) (same_notice-eq first key e) q) k
                  (shown_once key calls j1 j2 more (if same_notice first key then true else known)
                    after r)
          ]
    ]
