-- ===== src/Markdown/Nested.antt =====
-- Writes of a key under a section: what they leave alone, and what they do to a key that stands
-- inline.
use agent_relay_auto.Prelude.{
  String, ◌≡◌, refl, Bool, true, false, Option, none, some, [], ◌∷◌, arith, ◌==◌, eq_iff,
  if◌then◌else◌,
}
use agent_relay_auto.Value.{Value, obj, no_members, field, put_field}
use agent_relay_auto.Markdown.{
  entry, section, nested, remark, malformed, Doc, reread, fields_seen, set_in_run, set_nested,
}
use agent_relay_auto.Markdown.View.{seen, well_nested}
use agent_relay_auto.Markdown.Laws.{flat, absent, flat-absent}

module _ (s k : String) (v : Value) (j : String) (other : (s == j) ≡ false) where
  seen-set_in_run :
      (acc : Option Value) (ls : Doc)
      → seen j (some s) acc (set_in_run k v ls) ≡ seen j (some s) acc ls
  unfolding seen set_in_run
  seen-set_in_run acc [] = rw other
  seen-set_in_run acc (nested i w ∷ ls) = ground (arith, seen-set_in_run acc ls)
  seen-set_in_run acc (entry i w ∷ ls) = ground arith
  seen-set_in_run acc (section i ∷ ls) = ground arith
  seen-set_in_run acc (remark ∷ ls) = ground arith
  seen-set_in_run acc (malformed ∷ ls) = ground arith

  -- A write under a section is not seen at the other root keys.
  pub seen-set_nested :
      (cur : Option String) (acc : Option Value) (ls : Doc)
      → seen j cur acc (set_nested s k v ls) ≡ seen j cur acc ls
  unfolding seen set_nested
  seen-set_nested cur acc [] = ground arith
  seen-set_nested cur acc (entry i w ∷ ls) =
      seen-set_nested none (if i == j then some w else acc) ls
  seen-set_nested cur acc (section i ∷ ls) = ground (
    arith,
    eq_iff i s,
    seen-set_nested (some i) (if i == j then some (obj no_members) else acc) ls,
    seen-set_in_run acc ls,
  )
  seen-set_nested none acc (nested i w ∷ ls) = seen-set_nested none acc ls
  seen-set_nested (some t) acc (nested i w ∷ ls) =
      seen-set_nested (some t)
        (if t == j then some (obj (put_field i w (fields_seen acc))) else acc) ls
  seen-set_nested cur acc (remark ∷ ls) = seen-set_nested cur acc ls
  seen-set_nested cur acc (malformed ∷ ls) = seen-set_nested cur acc ls

module _ (s k : String) (v : Value) where
  well_nested-set_in_run :
      (ls : Doc) → well_nested true ls ≡ true → well_nested true (set_in_run k v ls) ≡ true
  unfolding well_nested set_in_run
  well_nested-set_in_run [] h = refl
  well_nested-set_in_run (nested i w ∷ ls) h = ground (arith, well_nested-set_in_run ls)
  well_nested-set_in_run (entry i w ∷ ls) h = h
  well_nested-set_in_run (section i ∷ ls) h = h
  well_nested-set_in_run (remark ∷ ls) h = h
  well_nested-set_in_run (malformed ∷ ls) h = h

  pub well_nested-set_nested :
      (b : Bool) (ls : Doc) → well_nested b ls ≡ true → well_nested b (set_nested s k v ls) ≡ true
  unfolding well_nested set_nested
  well_nested-set_nested b [] h = refl
  well_nested-set_nested b (entry i w ∷ ls) h = well_nested-set_nested false ls h
  well_nested-set_nested b (section i ∷ ls) h =
      ground (arith, well_nested-set_nested true ls, well_nested-set_in_run ls)
  well_nested-set_nested true (nested i w ∷ ls) h = well_nested-set_nested true ls h
  well_nested-set_nested false (nested i w ∷ ls) h = h
  well_nested-set_nested b (remark ∷ ls) h = well_nested-set_nested b ls h
  well_nested-set_nested b (malformed ∷ ls) h = h

module _ (s k : String) (v : Value) (j : String) where
  absent-set_in_run : (ls : Doc) → absent j (set_in_run k v ls) ≡ absent j ls
  unfolding absent set_in_run
  absent-set_in_run [] = refl
  absent-set_in_run (nested i w ∷ ls) = ground (arith, absent-set_in_run ls)
  absent-set_in_run (entry i w ∷ ls) = refl
  absent-set_in_run (section i ∷ ls) = refl
  absent-set_in_run (remark ∷ ls) = refl
  absent-set_in_run (malformed ∷ ls) = refl

  flat-set_in_run : (ls : Doc) → flat j (set_in_run k v ls) ≡ flat j ls
  unfolding flat set_in_run
  flat-set_in_run [] = refl
  flat-set_in_run (nested i w ∷ ls) = ground (arith, flat-set_in_run ls)
  flat-set_in_run (entry i w ∷ ls) = refl
  flat-set_in_run (section i ∷ ls) = refl
  flat-set_in_run (remark ∷ ls) = refl
  flat-set_in_run (malformed ∷ ls) = refl

  absent-set_nested : (ls : Doc) → (s == j) ≡ false → absent j (set_nested s k v ls) ≡ absent j ls
  unfolding absent set_nested
  absent-set_nested [] h = rw h
  absent-set_nested (nested i w ∷ ls) h = absent-set_nested ls h
  absent-set_nested (entry i w ∷ ls) h = ground (arith, absent-set_nested ls)
  absent-set_nested (section i ∷ ls) h = ground (arith, absent-set_nested ls, absent-set_in_run ls)
  absent-set_nested (remark ∷ ls) h = absent-set_nested ls h
  absent-set_nested (malformed ∷ ls) h = absent-set_nested ls h

  pub flat-set_nested : (ls : Doc) → (s == j) ≡ false → flat j (set_nested s k v ls) ≡ flat j ls
  unfolding flat set_nested
  flat-set_nested [] h = rw h
  flat-set_nested (nested i w ∷ ls) h = flat-set_nested ls h
  flat-set_nested (entry i w ∷ ls) h = ground (arith, flat-set_nested ls, absent-set_nested ls)
  flat-set_nested (section i ∷ ls) h = ground (arith, flat-set_nested ls, flat-set_in_run ls)
  flat-set_nested (remark ∷ ls) h = flat-set_nested ls h
  flat-set_nested (malformed ∷ ls) h = flat-set_nested ls h

-- A key that stands inline is replaced, for the reader, by a mapping that holds the one entry that
-- is written: whatever stood in the inline mapping is lost.
pub seen-set_nested_inline :
    (s k : String) (v : Value) (cur : Option String) (acc : Option Value) (ls : Doc)
    → flat s ls ≡ true
    → seen s cur acc (set_nested s k v ls) ≡ some (obj (field k (reread v) no_members))
unfolding flat seen set_nested put_field fields_seen
seen-set_nested_inline s k v cur acc [] h = ground (arith, eq_iff s s)
seen-set_nested_inline s k v cur acc (entry j w ∷ ls) h =
    seen-set_nested_inline s k v none (if j == s then some w else acc) ls
      (ground (arith, flat-absent s ls))
seen-set_nested_inline s k v cur acc (section j ∷ ls) h = ground (
  arith,
  seen-set_nested_inline s k v (some j) (if j == s then some (obj no_members) else acc) ls,
)
seen-set_nested_inline s k v none acc (nested j w ∷ ls) h =
    seen-set_nested_inline s k v none acc ls h
seen-set_nested_inline s k v (some t) acc (nested j w ∷ ls) h =
    seen-set_nested_inline s k v (some t)
      (if t == s then some (obj (put_field j w (fields_seen acc))) else acc) ls h
seen-set_nested_inline s k v cur acc (remark ∷ ls) h = seen-set_nested_inline s k v cur acc ls h
seen-set_nested_inline s k v cur acc (malformed ∷ ls) h = seen-set_nested_inline s k v cur acc ls h
