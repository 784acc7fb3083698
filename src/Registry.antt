-- ===== src/Registry.antt =====
-- agent_relay_runtime/registry.py: the list of projects that the Runner serves.
pub mod Enabled
use agent_relay_auto.Prelude.{
  String, Bool, true, false, not, Option, none, some, List, [], ◌∷◌, ◌++◌, ◌==◌, if◌then◌else◌,
}
use agent_relay_auto.Value.{
  Fields, no_members, field, Items, no_items, item, Value, bool, str, obj, arr, get_field,
  put_field, find_field, is_str,
}
use agent_relay_auto.Outcome.{key_error, type_error, attribute_error, Result, ok, err, ◌>>=◌}

-- `_read`: no file, or the value of its JSON; what is no list counts as empty
unfoldable pub read_entries : Option Value → Items
read_entries (some (arr xs)) = xs
read_entries _ = no_items

-- `entry.get("repo") == normalized`; an entry that is no mapping has no `get`
unfoldable pub is_entry : String → Value → Result Bool
unfolding is_str get_field
is_entry repo (obj fs) = ok (is_str (get_field fs "repo") repo)
is_entry repo _ = err attribute_error

unfoldable pub new_entry : String → Value
new_entry repo = obj (field "repo" (str repo) (field "enabled" (bool true) no_members))

unfoldable pub enable_entry : Value → Value
unfolding put_field
enable_entry (obj fs) = obj (put_field "enabled" (bool true) fs)
enable_entry v = v

-- the loop of `register` with its `append`; `repo` is the resolved path's text
unfoldable pub register : String → Items → Result Items
unfolding is_entry new_entry enable_entry
register repo no_items = ok (item (new_entry repo) no_items)
register repo (item x xs) = elim (is_entry repo x) [
  | err e ↦ err e
  | ok true ↦ ok (item (enable_entry x) xs)
  | ok false ↦ register repo xs >>= λ rest. ok (item x rest)
]

-- `unregister`
unfoldable pub unregister : String → Items → Result Items
unfolding is_entry
unregister repo no_items = ok no_items
unregister repo (item x xs) = do
  here ← is_entry repo x
  rest ← unregister repo xs
  ok (if here then rest else item x rest)

-- `entry.get("enabled") is True`
unfoldable pub is_true : Value → Bool
is_true (bool b) = b
is_true _ = false

-- `Path(entry["repo"])`, a path as its text; `path` is `str(Path(text))`
unfoldable pub path_of : (String → String) → Fields → Result String
unfolding find_field
path_of path fs = elim (find_field fs "repo") [
  | none ↦ err key_error
  | some (str s) ↦ ok (path s)
  | some _ ↦ err type_error
]

-- `enabled_projects`
unfoldable pub enabled_projects : (String → String) → Items → Result (List String)
unfolding get_field is_true path_of
enabled_projects path no_items = ok []
enabled_projects path (item (obj fs) xs) =
    if is_true (get_field fs "enabled")
    then (do repo ← path_of path fs; rest ← enabled_projects path xs; ok (repo ∷ rest))
    else enabled_projects path xs
enabled_projects path (item _ xs) = err attribute_error
