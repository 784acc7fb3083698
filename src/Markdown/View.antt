-- ===== src/Markdown/View.antt =====
-- What a reader of a block sees: a description of the parser one key at a time, with no mapping
-- built up, and the shapes of blocks on which writes are exact.
use agent_relay_auto.Prelude.{
  String, ◌≡◌, refl, ap, ◌∙◌, Bool, true, false, Option, none, some, [], ◌∷◌, arith, ◌==◌, eq_iff,
  if◌then◌else◌, Dict, lookup, insert, lookup-insert, is_some, Bool-cases, inl, inr,
}
use agent_relay_auto.Value.{Value, obj, no_members, put_field}
use agent_relay_auto.Markdown.{
  entry, section, nested, remark, malformed, Doc, fields_seen, put_nested, parse_from,
}

-- The value of the key `k`, given the open section and the value so far: the last line wins.
unfoldable pub seen : String → Option String → Option Value → Doc → Option Value
seen k cur acc [] = acc
seen k cur acc (entry j v ∷ ls) = seen k none (if j == k then some v else acc) ls
seen k cur acc (section j ∷ ls) = seen k (some j) (if j == k then some (obj no_members) else acc) ls
seen k none acc (nested j v ∷ ls) = seen k none acc ls
seen k (some s) acc (nested j v ∷ ls) =
    seen k (some s) (if s == k then some (obj (put_field j v (fields_seen acc))) else acc) ls
seen k cur acc (remark ∷ ls) = seen k cur acc ls
seen k cur acc (malformed ∷ ls) = seen k cur acc ls

-- Every line is legible, and an indented line stands under a section.
unfoldable pub well_nested : Bool → Doc → Bool
well_nested b [] = true
well_nested b (entry k v ∷ ls) = well_nested false ls
well_nested b (section k ∷ ls) = well_nested true ls
well_nested b (nested k v ∷ ls) = if b then well_nested b ls else false
well_nested b (remark ∷ ls) = well_nested b ls
well_nested b (malformed ∷ ls) = false

module _ (k : String) where
  lookup-put_nested :
      (s j : String) (v : Value) (root : Dict Value)
      → lookup k (put_nested s j v root) ≡ (
          if s == k
          then some (obj (put_field j v (fields_seen (lookup k root))))
          else lookup k root)
  unfolding put_nested
  lookup-put_nested s j v root = elim (Bool-cases (s == k)) [
    | inl same ↦ rw lookup-insert (ground (arith, eq_iff s k))
    | inr other ↦ rw (lookup-insert, other)
  ]

  -- The parser's mapping holds at each key what a reader of that key alone sees.
  pub parse_from-seen :
      (cur : Option String) (root : Dict Value) (ls : Doc) {m : Dict Value}
      → parse_from cur root ls ≡ some m
      → lookup k m ≡ seen k cur (lookup k root) ls
  unfolding parse_from seen
  parse_from-seen cur root [] h = ap (lookup k) (cc)
  parse_from-seen cur root (entry j v ∷ ls) h =
      parse_from-seen none (insert j v root) ls h
      ∙ ap (λ o. seen k none o ls) (lookup-insert j k v root)
  parse_from-seen cur root (section j ∷ ls) h =
      parse_from-seen (some j) (insert j (obj no_members) root) ls h
      ∙ ap (λ o. seen k (some j) o ls) (lookup-insert j k (obj no_members) root)
  parse_from-seen none root (nested j v ∷ ls) h = cc
  parse_from-seen (some s) root (nested j v ∷ ls) h =
      parse_from-seen (some s) (put_nested s j v root) ls h
      ∙ ap (λ o. seen k (some s) o ls) (lookup-put_nested s j v root)
  parse_from-seen cur root (remark ∷ ls) h = parse_from-seen cur root ls h
  parse_from-seen cur root (malformed ∷ ls) h = cc

-- The parser succeeds on the well-nested blocks and on no others.
pub is_some-parse_from :
    (cur : Option String) (root : Dict Value) (ls : Doc)
    → is_some (parse_from cur root ls) ≡ well_nested (is_some cur) ls
unfolding parse_from well_nested
is_some-parse_from cur root [] = refl
is_some-parse_from cur root (entry j v ∷ ls) = is_some-parse_from none (insert j v root) ls
is_some-parse_from cur root (section j ∷ ls) =
    is_some-parse_from (some j) (insert j (obj no_members) root) ls
is_some-parse_from none root (nested j v ∷ ls) = refl
is_some-parse_from (some s) root (nested j v ∷ ls) =
    is_some-parse_from (some s) (put_nested s j v root) ls
is_some-parse_from cur root (remark ∷ ls) = is_some-parse_from cur root ls
is_some-parse_from cur root (malformed ∷ ls) = refl
