-- ===== src/Markdown.antt =====
-- agent_relay_runtime/markdown_state.py: the fenced block of a state file, line by line. A line
-- stands with its key and the value that `_parse_value` reads from it; what `_format_value` writes
-- is the line whose value is `reread`.
pub mod View
pub mod Laws
pub mod Write
pub mod Nested
use agent_relay_auto.Prelude.{
  ℕ, String, Bool, true, false, not, ◌&&◌, ◌||◌, Option, none, some, List, [], ◌∷◌, ◌==◌,
  if◌then◌else◌, Dict, lookup, insert, leb, nat_eq, is_digit, codes, lower_codes, same_codes,
  int_literal,
}
use agent_relay_auto.Value.{
  Value, null, bool, int, str, arr, obj, Fields, no_members, put_field, mapping_or_empty,
}

-- `entry k v` is `k: v` with a text behind the colon, `section k` is `k:` alone, `nested k v` is
-- `  k: v`, `remark` is a blank line or a comment at the margin, and `malformed` any line that
-- `_KEY` does not match or whose value `_parse_value` refuses (a missing fence too).
pub data Line : Type 0 where
  entry : String → Value → Line
  section : String → Line
  nested : String → Value → Line
  remark : Line
  malformed : Line

abbrev pub Doc : Type 0
Doc = List Line

-- the class `[A-Za-z0-9_.:/+-]` of `_format_value`
unfoldable pub is_plain_code : ℕ → Bool
is_plain_code c =
    is_digit c
    || leb 65 c && leb c 90
    || leb 97 c && leb c 122
    || nat_eq c 95
    || nat_eq c 46
    || nat_eq c 58
    || nat_eq c 47
    || nat_eq c 43
    || nat_eq c 45

unfoldable pub all_plain : List ℕ → Bool
unfolding is_plain_code
all_plain [] = true
all_plain (c ∷ cs) = is_plain_code c && all_plain cs

-- a text that `_format_value` writes with no quotes
unfoldable pub is_plain : String → Bool
unfolding all_plain
is_plain s = not (s == "") && all_plain (codes s)

-- `_parse_value` of a text of that class
unfoldable pub parse_plain : String → Value
unfolding int_literal
parse_plain s =
    if s == "null"
    then null
    else if same_codes (lower_codes s) (codes "true")
    then bool true
    else if same_codes (lower_codes s) (codes "false")
    then bool false
    else elim (int_literal s) [ some i ↦ int i | none ↦ str s ]

-- `_parse_value(_format_value(v))`: JSON gives every other value back. A quoted text has none of the
-- separators U+0085, U+2028 and U+2029, at which `splitlines` cuts.
unfoldable pub reread : Value → Value
unfolding is_plain parse_plain
reread (str s) = if is_plain s then parse_plain s else str s
reread v = v

-- the mapping that stands as a value in the root, empty where there is none
unfoldable pub fields_seen : Option Value → Fields
unfolding mapping_or_empty
fields_seen none = no_members
fields_seen (some v) = mapping_or_empty v

-- `current[key] = …` on the mapping that stands under `section` in the root
unfoldable pub put_nested : String → String → Value → Dict Value → Dict Value
unfolding lookup insert put_field fields_seen
put_nested s k v root = insert s (obj (put_field k v (fields_seen (lookup s root)))) root

-- The loop of `parse_fenced_yaml`, its variables `current_key` and `root` as arguments; `none` is a
-- StateFormatError.
unfoldable pub parse_from : Option String → Dict Value → Doc → Option (Dict Value)
unfolding put_nested
parse_from cur root [] = some root
parse_from cur root (entry k v ∷ ls) = parse_from none (insert k v root) ls
parse_from cur root (section k ∷ ls) = parse_from (some k) (insert k (obj no_members) root) ls
parse_from none root (nested k v ∷ ls) = none
parse_from (some s) root (nested k v ∷ ls) = parse_from (some s) (put_nested s k v root) ls
parse_from cur root (remark ∷ ls) = parse_from cur root ls
parse_from cur root (malformed ∷ ls) = none

unfoldable pub parse_fenced_yaml : Doc → Option (Dict Value)
unfolding parse_from
parse_fenced_yaml = parse_from none []

-- `set_yaml_value(text, (key,), value)`: the first line that starts with `key:` is replaced, a
-- section's line too; without one a line is added at the end.
unfoldable pub set_root : String → Value → Doc → Doc
unfolding reread
set_root k v [] = entry k (reread v) ∷ []
set_root k v (entry j w ∷ ls) =
    if j == k then entry k (reread v) ∷ ls else entry j w ∷ set_root k v ls
set_root k v (section j ∷ ls) =
    if j == k then entry k (reread v) ∷ ls else section j ∷ set_root k v ls
set_root k v (l ∷ ls) = l ∷ set_root k v ls

-- does the run of indented lines hold the key?
unfoldable pub run_has : String → Doc → Bool
run_has k (nested j w ∷ ls) = if j == k then true else run_has k ls
run_has k _ = false

-- the run of indented lines behind a section's line: the last line of the key is replaced, or a
-- line is added at the end of the run
unfoldable pub set_in_run : String → Value → Doc → Doc
unfolding reread run_has
set_in_run k v [] = nested k (reread v) ∷ []
set_in_run k v (nested j w ∷ ls) =
    if (j == k) && not (run_has k ls)
    then nested k (reread v) ∷ ls
    else nested j w ∷ set_in_run k v ls
set_in_run k v (l ∷ ls) = nested k (reread v) ∷ l ∷ ls

-- `set_yaml_value(text, (section, key), value)`
unfoldable pub set_nested : String → String → Value → Doc → Doc
unfolding set_in_run
set_nested s k v [] = section s ∷ nested k (reread v) ∷ []
set_nested s k v (section j ∷ ls) =
    if j == s then section j ∷ set_in_run k v ls else section j ∷ set_nested s k v ls
set_nested s k v (l ∷ ls) = l ∷ set_nested s k v ls

-- a key path of `_write_state`
pub data KeyPath : Type 0 where
  root : String → KeyPath
  under : String → String → KeyPath

unfoldable pub set_yaml_value : KeyPath → Value → Doc → Doc
unfolding set_root set_nested
set_yaml_value (root k) v d = set_root k v d
set_yaml_value (under s k) v d = set_nested s k v d
