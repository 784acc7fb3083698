-- ===== src/Value/Show.antt =====
-- `str(v)` of a value that the Relay's files hold, with Python's display of lists and mappings over
-- ASCII texts without control characters other than the tab and the line ends.
use Prim.Native.Char.{code}
use Prim.Native.String.{◌++◌ as ◌<>◌}
use agent_relay_auto.Prelude.{
  ℕ, String, Bool, true, false, not, ◌&&◌, List, [], ◌∷◌, codes, nat_eq, if◌then◌else◌, show_int,
}
use agent_relay_auto.Value.{
  Value, null, int, bool, str, obj, arr, Fields, no_members, field, Items, no_items, item,
}

-- `c in s`
unfoldable has_code : ℕ → List ℕ → Bool
has_code c [] = false
has_code c (x ∷ xs) = if nat_eq x c then true else has_code c xs

-- a character of a display: the backslash, the quote, and the white space that `repr` escapes
unfoldable escape : ℕ → Bool → String → String
escape c quote s =
    if nat_eq c 92
    then "\\\\"
    else if nat_eq c 10
    then "\\n"
    else if nat_eq c 13
    then "\\r"
    else if nat_eq c 9
    then "\\t"
    else if nat_eq c 39 && quote
    then "\\'"
    else s

unfoldable escapes : Bool → String → String
unfolding escape
escapes quote String.[] = ""
escapes quote (String.◌∷◌ c s) = escape (code c) quote (String.◌∷◌ c String.[]) <> escapes quote s

-- `repr(s)`: in double quotes exactly if the text has a single quote and no double one
unfoldable pub repr_text : String → String
unfolding has_code escapes
repr_text s =
    let single = has_code 39 (codes s) in
    let double = has_code 34 (codes s) in
    if single && not double
    then "\"" <> (escapes false s <> "\"")
    else "'" <> (escapes true s <> "'")

unfoldable mutual
  unfolding repr_text show_int

  -- `repr(v)`
  pub repr : Value → String
  repr null = "None"
  repr (bool true) = "True"
  repr (bool false) = "False"
  repr (int i) = show_int i
  repr (str s) = repr_text s
  repr (arr xs) = "[" <> (repr_items xs <> "]")
  repr (obj fs) = "{" <> (repr_fields fs <> "}")

  pub repr_items : Items → String
  repr_items no_items = ""
  repr_items (item x no_items) = repr x
  repr_items (item x (item y ys)) = repr x <> (", " <> repr_items (item y ys))

  pub repr_fields : Fields → String
  repr_fields no_members = ""
  repr_fields (field k v no_members) = repr_text k <> (": " <> repr v)
  repr_fields (field k v (field j w fs)) =
      repr_text k <> (": " <> (repr v <> (", " <> repr_fields (field j w fs))))

-- `str(v)`
unfoldable pub show : Value → String
unfolding repr
show (str s) = s
show v = repr v
