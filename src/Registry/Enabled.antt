-- ===== src/Registry/Enabled.antt =====
-- What registering a project does to the projects that are served.
use agent_relay_auto.Prelude.{
  String, ◌≡◌, Bool, true, false, ◌&&◌, eq_iff, ◌∙◌, if◌then◌else◌, refl, some, List, arith, ◌==◌,
  elem, Bool-cases, Option-cases, inl, inr,
}
use agent_relay_auto.Value.{
  Fields, no_members, field, Items, no_items, item, Value, null, int, bool, str, obj, arr,
  get_field, find_field, put_field, is_str,
}
use agent_relay_auto.Outcome.{ok, Result-cases}
use agent_relay_auto.Registry.{
  is_entry, new_entry, enable_entry, register, unregister, is_true, path_of, enabled_projects,
}

and-left : (a b : Bool) → (a && b) ≡ true → a ≡ true
and-left a b h = ground arith

and-right : (a b : Bool) → (a && b) ≡ true → b ≡ true
and-right a b h = ground arith

get_field-find :
    (fs : Fields) (k : String) (v : Value) → find_field fs k ≡ some v → get_field fs k ≡ v
unfolding find_field get_field
get_field-find no_members k v h = cc
get_field-find (field j w fs) k v h = ground (arith, get_field-find fs k v)

-- The text of an entry's `repo` is the one of its path, as `register` writes it.
abbrev pub plain_repo : (String → String) → Value → Bool
plain_repo path (str s) = path s == s
plain_repo path _ = true

abbrev pub all_plain : (String → String) → Items → Bool
all_plain path no_items = true
all_plain path (item (obj fs) xs) = plain_repo path (get_field fs "repo") && all_plain path xs
all_plain path (item _ xs) = all_plain path xs

module _ (path : String → String) where
  path-ne :
      (fs : Fields) (s repo : String)
      → plain_repo path (get_field fs "repo") ≡ true
      → path_of path fs ≡ ok s
      → is_str (get_field fs "repo") repo ≡ false
      → (s == repo) ≡ false
  unfolding path_of is_str
  path-ne fs s repo plain h n = elim (Option-cases (find_field fs "repo")) [
    | inl e ↦ absurd (ground arith)
    | inr (v, e) ↦ named v e
  ]
    where
      named : (v : Value) → find_field fs "repo" ≡ some v → (s == repo) ≡ false
      named (str t) e =
          ground (arith, get_field-find fs "repo" (str t), eq_iff (path t) t, eq_iff s repo)
      named _ e = absurd (ground arith)

  kept :
      (repo : String) (fs : Fields) (rest : Items) (paths : List String)
      → plain_repo path (get_field fs "repo") ≡ true
      → is_str (get_field fs "repo") repo ≡ false
      → ((others : List String) → enabled_projects path rest ≡ ok others → elem repo others ≡ false)
      → enabled_projects path (item (obj fs) rest) ≡ ok paths
      → elem repo paths ≡ false
  unfolding enabled_projects elem
  kept repo fs rest paths plain n ih e = elim (Result-cases (enabled_projects path rest)) [
    | inl (x, q) ↦ absurd (ground (arith, Result-cases (path_of path fs)))
    | inr (others, q) ↦ elim (Result-cases (path_of path fs)) [
      | inl (x, r) ↦ ground (arith, ih others)
      | inr (s, r) ↦ ground (arith, ih others, path-ne fs s repo)
    ]
  ]

  -- A project that is unregistered is served no more, if each entry holds the text of its path, as
  -- `register` writes it.
  pub unregister-enabled :
      (repo : String) (xs ys : Items) (paths : List String)
      → all_plain path xs ≡ true
      → unregister repo xs ≡ ok ys
      → enabled_projects path ys ≡ ok paths
      → elem repo paths ≡ false
  unfolding unregister is_entry enabled_projects elem
  unregister-enabled repo no_items ys paths pl h e = ground arith
  unregister-enabled repo (item (obj fs) xs) ys paths pl h e =
      elim (Result-cases (unregister repo xs)) [
        | inl (x, q) ↦ absurd (ground arith)
        | inr (rest, q) ↦ elim (Bool-cases (is_str (get_field fs "repo") repo)) [
          | inl here ↦ unregister-enabled repo xs ys paths (and-right _ _ pl) (ground arith) e
          | inr other ↦
              let same : ys ≡ item (obj fs) rest = ground arith in
              kept repo fs rest paths (and-left _ _ pl) other
                (λ others f. unregister-enabled repo xs rest others (and-right _ _ pl) q f)
                (rw same at e)
        ]
      ]
  unregister-enabled repo (item null xs) ys paths pl h e = absurd (ground arith)
  unregister-enabled repo (item (int i) xs) ys paths pl h e = absurd (ground arith)
  unregister-enabled repo (item (bool b) xs) ys paths pl h e = absurd (ground arith)
  unregister-enabled repo (item (arr a) xs) ys paths pl h e = absurd (ground arith)
  unregister-enabled repo (item (str s) xs) ys paths pl h e = absurd (ground arith)

find_field-put_field :
    (k j : String) (v : Value) (fs : Fields)
    → find_field (put_field k v fs) j ≡ (if k == j then some v else find_field fs j)
unfolding find_field put_field
find_field-put_field k j v no_members = ground (arith, eq_iff k j)
find_field-put_field k j v (field i w fs) =
    ground (arith, eq_iff k j, eq_iff i k, eq_iff i j, find_field-put_field k j v fs)

find_field-get :
    (fs : Fields) (k s : String) → is_str (get_field fs k) s ≡ true → find_field fs k ≡ some (str s)
unfolding find_field get_field is_str
find_field-get no_members k s h = absurd (ground arith)
find_field-get (field j (str t) fs) k s h = ground (arith, eq_iff t s, find_field-get fs k s)
find_field-get (field j v fs) k s h = ground (arith, find_field-get fs k s)

module _ (path : String → String) where
  -- the entry of a path that is enabled, at the head of the list
  head-served :
      (repo : String) (fs : Fields) (xs : Items) (paths : List String)
      → path repo ≡ repo
      → find_field fs "repo" ≡ some (str repo)
      → find_field fs "enabled" ≡ some (bool true)
      → enabled_projects path (item (obj fs) xs) ≡ ok paths
      → elem repo paths ≡ true
  unfolding enabled_projects path_of elem is_true
  head-served repo fs xs paths plain named enabled e =
      let on = get_field-find fs "enabled" (bool true) enabled in
      elim (Result-cases (enabled_projects path xs)) [
        | inl (x, q) ↦ absurd (ground arith)
        | inr (others, q) ↦ ground (arith, eq_iff (path repo) repo)
      ]

  tail-served :
      (repo : String) (x : Value) (xs : Items) (paths : List String)
      → ((others : List String) → enabled_projects path xs ≡ ok others → elem repo others ≡ true)
      → enabled_projects path (item x xs) ≡ ok paths
      → elem repo paths ≡ true
  unfolding enabled_projects elem
  tail-served repo (obj fs) xs paths ih e = elim (Result-cases (enabled_projects path xs)) [
    | inl (x, q) ↦ absurd (ground (arith, Result-cases (path_of path fs)))
    | inr (others, q) ↦ elim (Result-cases (path_of path fs)) [
      | inl (x, r) ↦ ground (arith, ih others)
      | inr (s, r) ↦ ground (arith, ih others)
    ]
  ]
  tail-served repo null xs paths ih e = absurd (ground arith)
  tail-served repo (int i) xs paths ih e = absurd (ground arith)
  tail-served repo (bool b) xs paths ih e = absurd (ground arith)
  tail-served repo (arr a) xs paths ih e = absurd (ground arith)
  tail-served repo (str s) xs paths ih e = absurd (ground arith)

  -- A project that is registered under the text of its path is served, also where it had an entry that
  -- was disabled, whenever the entries can be read.
  pub register-enabled :
      (repo : String) (xs ys : Items) (paths : List String)
      → path repo ≡ repo
      → register repo xs ≡ ok ys
      → enabled_projects path ys ≡ ok paths
      → elem repo paths ≡ true
  unfolding register is_entry enable_entry new_entry
  register-enabled repo no_items ys paths plain h e =
      let made : ys
          ≡ item (obj (field "repo" (str repo) (field "enabled" (bool true) no_members))) no_items =
        ground arith in
      head-served repo (field "repo" (str repo) (field "enabled" (bool true) no_members)) no_items
        paths plain (unfold find_field in refl) (unfold find_field in refl) (rw made at e)
  register-enabled repo (item (obj fs) xs) ys paths plain h e =
      elim (Bool-cases (is_str (get_field fs "repo") repo)) [
        | inl here ↦
            let made : ys ≡ item (obj (put_field "enabled" (bool true) fs)) xs = ground arith in
            head-served repo (put_field "enabled" (bool true) fs) xs paths plain
              (find_field-put_field "enabled" "repo" (bool true) fs
                ∙ find_field-get fs "repo" repo here)
              (find_field-put_field "enabled" "enabled" (bool true) fs) (rw made at e)
        | inr other ↦ elim (Result-cases (register repo xs)) [
          | inl (x, q) ↦ absurd (ground arith)
          | inr (rest, q) ↦
              let made : ys ≡ item (obj fs) rest = ground arith in
              tail-served repo (obj fs) rest paths
                (λ others f. register-enabled repo xs rest others plain q f) (rw made at e)
        ]
      ]
  register-enabled repo (item null xs) ys paths plain h e = absurd (ground arith)
  register-enabled repo (item (int i) xs) ys paths plain h e = absurd (ground arith)
  register-enabled repo (item (bool b) xs) ys paths plain h e = absurd (ground arith)
  register-enabled repo (item (arr a) xs) ys paths plain h e = absurd (ground arith)
  register-enabled repo (item (str s) xs) ys paths plain h e = absurd (ground arith)
