-- ===== src/Value.antt =====
-- The dynamic values of Python that the Relay's state files hold: what `_parse_value` of
-- agent_relay_runtime/markdown_state.py returns, and the operations of Python on them.
pub mod Show
use agent_relay_auto.Prelude.{
  String, Bool, true, false, not, Option, none, some, List, [], ◌∷◌, ◌==◌, if◌then◌else◌, Dict,
  lookup, python_int, show_int,
}
use agent_relay_auto.Prelude.Int.{ℤ, pos, eq_ℤ}

-- `obj` is a mapping of one inline value or of one section, `arr` an inline list.
mutual
  pub data Fields : Type 0 where
    no_members : Fields
    field : String → Value → Fields → Fields

  pub data Items : Type 0 where
    no_items : Items
    item : Value → Items → Items

  pub data Value : Type 0 where
    null : Value
    int : ℤ → Value
    bool : Bool → Value
    obj : Fields → Value
    arr : Items → Value
    str : String → Value

-- A parsed mapping. `state.get(k)` gives `None` for a key that is absent.
unfoldable pub get : Dict Value → String → Value
unfolding lookup
get m k = elim (lookup k m) [ none ↦ null | some v ↦ v ]

-- `o.get(k)` on an object that stands as a value.
unfoldable pub get_field : Fields → String → Value
get_field no_members k = null
get_field (field j v fs) k = if j == k then v else get_field fs k

-- `o[k]` of an object that stands as a value, if the key is there
unfoldable pub find_field : Fields → String → Option Value
find_field no_members k = none
find_field (field j v fs) k = if j == k then some v else find_field fs k

-- `x if isinstance(x, Mapping) else {}`
unfoldable pub mapping_or_empty : Value → Fields
mapping_or_empty (obj fs) = fs
mapping_or_empty _ = no_members

-- `o[k] = v` on such an object.
unfoldable pub put_field : String → Value → Fields → Fields
put_field k v no_members = field k v no_members
put_field k v (field j w fs) = if j == k then field k v fs else field j w (put_field k v fs)

-- `bool(v)`
unfoldable pub truthy : Value → Bool
truthy null = false
truthy (bool b) = b
truthy (int i) = not (eq_ℤ i (pos 0))
truthy (str s) = not (s == "")
truthy (arr no_items) = false
truthy (arr (item _ _)) = true
truthy (obj no_members) = false
truthy (obj (field _ _ _)) = true

-- `v == s` for a text `s`
unfoldable pub is_str : Value → String → Bool
is_str (str s) t = s == t
is_str _ t = false

-- `v in {…}` for a set of texts
unfoldable pub is_one_of : Value → List String → Bool
unfolding is_str
is_one_of v [] = false
is_one_of v (s ∷ ss) = if is_str v s then true else is_one_of v ss

-- `v == i` for an integer `i`: `True` equals 1 and `False` equals 0.
unfoldable pub is_int : Value → ℤ → Bool
is_int (int j) i = eq_ℤ j i
is_int (bool true) i = eq_ℤ (pos 1) i
is_int (bool false) i = eq_ℤ (pos 0) i
is_int _ i = false

-- `int(v)`; `none` is a TypeError or a ValueError.
unfoldable pub to_int : Value → Option ℤ
unfolding python_int
to_int (int i) = some i
to_int (bool true) = some (pos 1)
to_int (bool false) = some (pos 0)
to_int (str s) = python_int s
to_int _ = none

-- `v is None`
unfoldable pub is_null : Value → Bool
is_null null = true
is_null _ = false

-- `str(v)`, and `none` where that is the display of a list or a mapping, which equals no text that
-- the program compares it with.
unfoldable pub to_text : Value → Option String
unfolding show_int
to_text null = some "None"
to_text (bool true) = some "True"
to_text (bool false) = some "False"
to_text (int i) = some (show_int i)
to_text (str s) = some s
to_text _ = none

abbrev pub text_or_null : Option String → Value
text_or_null none = null
text_or_null (some s) = str s

-- the characters of a text, as iteration over it gives them
unfoldable pub characters : String → Items
characters String.[] = no_items
characters (String.◌∷◌ c s) = item (str (String.◌∷◌ c String.[])) (characters s)

-- the keys of a mapping, as iteration over it gives them
unfoldable pub field_names : Fields → Items
field_names no_members = no_items
field_names (field k v fs) = item (str k) (field_names fs)

-- `list(v)`; `none` is the TypeError of a value that cannot be iterated over
unfoldable pub items_of : Value → Option Items
unfolding characters field_names
items_of (arr xs) = some xs
items_of (str s) = some (characters s)
items_of (obj fs) = some (field_names fs)
items_of _ = none

-- `[x for x in xs if x != s]`
unfoldable pub without : String → Items → Items
unfolding is_str
without s no_items = no_items
without s (item x xs) = let rest = without s xs in if is_str x s then rest else item x rest

-- `s in xs`
unfoldable pub holds : String → Items → Bool
unfolding is_str
holds s no_items = false
holds s (item x xs) = if is_str x s then true else holds s xs

-- `xs.append(v)`
unfoldable pub append_item : Items → Value → Items
append_item no_items v = item v no_items
append_item (item x xs) v = item x (append_item xs v)
