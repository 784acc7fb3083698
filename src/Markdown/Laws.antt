-- ===== src/Markdown/Laws.antt =====
-- Writes of root keys on blocks where each such key has at most one line, which is no section's.
use agent_relay_auto.Prelude.{
  String, ◌≡◌, refl, Bool, true, false, Option, none, some, [], ◌∷◌, arith, ◌==◌, eq_iff,
  if◌then◌else◌,
}
use agent_relay_auto.Value.{Value, obj, no_members, put_field}
use agent_relay_auto.Markdown.{
  entry, section, nested, remark, malformed, Doc, reread, set_root, fields_seen,
}
use agent_relay_auto.Markdown.View.{seen, well_nested}

-- no line at the margin has the key
unfoldable pub absent : String → Doc → Bool
absent k [] = true
absent k (entry j v ∷ ls) = if j == k then false else absent k ls
absent k (section j ∷ ls) = if j == k then false else absent k ls
absent k (l ∷ ls) = absent k ls

-- at most one line at the margin has the key, and it is no section's
unfoldable pub flat : String → Doc → Bool
unfolding absent
flat k [] = true
flat k (entry j v ∷ ls) = if j == k then absent k ls else flat k ls
flat k (section j ∷ ls) = if j == k then false else flat k ls
flat k (l ∷ ls) = flat k ls

-- the open section is not `k`
abbrev pub is_open : String → Option String → Bool
is_open k none = false
is_open k (some s) = s == k

module _ (k : String) where
  pub flat-absent : (ls : Doc) → absent k ls ≡ true → flat k ls ≡ true
  unfolding flat
  flat-absent [] h = refl
  flat-absent (entry j v ∷ ls) h = ground (arith, flat-absent ls)
  flat-absent (section j ∷ ls) h = ground (arith, flat-absent ls)
  flat-absent (nested j v ∷ ls) h = flat-absent ls h
  flat-absent (remark ∷ ls) h = flat-absent ls h
  flat-absent (malformed ∷ ls) h = flat-absent ls h

  seen-absent :
      (cur : Option String) (acc : Option Value) (ls : Doc)
      → absent k ls ≡ true
      → is_open k cur ≡ false
      → seen k cur acc ls ≡ acc
  unfolding absent seen
  seen-absent cur acc [] h c = refl
  seen-absent cur acc (entry j v ∷ ls) h c = ground (arith, seen-absent none acc ls)
  seen-absent cur acc (section j ∷ ls) h c = ground (arith, seen-absent (some j) acc ls)
  seen-absent none acc (nested j v ∷ ls) h c = seen-absent none acc ls h c
  seen-absent (some s) acc (nested j v ∷ ls) h c = rw c (seen-absent (some s) acc ls h c)
  seen-absent cur acc (remark ∷ ls) h c = seen-absent cur acc ls h c
  seen-absent cur acc (malformed ∷ ls) h c = seen-absent cur acc ls h c

  -- A write is read back: the reader sees the value as it is reread.
  pub seen-set_root_self :
      (v : Value) (cur : Option String) (acc : Option Value) (ls : Doc)
      → flat k ls ≡ true
      → is_open k cur ≡ false
      → seen k cur acc (set_root k v ls) ≡ some (reread v)
  unfolding flat seen set_root
  seen-set_root_self v cur acc [] h c = ground (arith, eq_iff k k)
  seen-set_root_self v cur acc (entry j w ∷ ls) h c =
      ground
        (arith, eq_iff k k, seen-absent none (some (reread v)) ls, seen-set_root_self v none acc ls)
  seen-set_root_self v cur acc (section j ∷ ls) h c =
      ground (arith, seen-set_root_self v (some j) acc ls)
  seen-set_root_self v none acc (nested j w ∷ ls) h c = seen-set_root_self v none acc ls h c
  seen-set_root_self v (some s) acc (nested j w ∷ ls) h c =
      seen-set_root_self v (some s)
        (if s == k then some (obj (put_field j w (fields_seen acc))) else acc) ls h c
  seen-set_root_self v cur acc (remark ∷ ls) h c = seen-set_root_self v cur acc ls h c
  seen-set_root_self v cur acc (malformed ∷ ls) h c = seen-set_root_self v cur acc ls h c

  -- A write leaves the block legible.
  pub well_nested-set_root :
      (v : Value) (b : Bool) (ls : Doc)
      → flat k ls ≡ true
      → well_nested b ls ≡ true
      → well_nested b (set_root k v ls) ≡ true
  unfolding flat well_nested set_root
  well_nested-set_root v b [] h w = refl
  well_nested-set_root v b (entry j u ∷ ls) h w = ground (arith, well_nested-set_root v false ls)
  well_nested-set_root v b (section j ∷ ls) h w = ground (arith, well_nested-set_root v true ls)
  well_nested-set_root v b (nested j u ∷ ls) h w = ground (arith, well_nested-set_root v b ls)
  well_nested-set_root v b (remark ∷ ls) h w = well_nested-set_root v b ls h w
  well_nested-set_root v b (malformed ∷ ls) h w = cc

module _ (k j : String) (other : (k == j) ≡ false) (v : Value) where
  -- A write of one key does not change what is seen of another.
  pub seen-set_root_ne :
      (cur : Option String) (acc : Option Value) (ls : Doc)
      → flat k ls ≡ true
      → seen j cur acc (set_root k v ls) ≡ seen j cur acc ls
  unfolding flat seen set_root
  seen-set_root_ne cur acc [] h = rw other
  seen-set_root_ne cur acc (entry i w ∷ ls) h = ground (
    arith,
    eq_iff i k,
    eq_iff i j,
    eq_iff k j,
    seen-set_root_ne none (if i == j then some w else acc) ls,
  )
  seen-set_root_ne cur acc (section i ∷ ls) h =
      ground (arith, seen-set_root_ne (some i) (if i == j then some (obj no_members) else acc) ls)
  seen-set_root_ne none acc (nested i w ∷ ls) h = seen-set_root_ne none acc ls h
  seen-set_root_ne (some s) acc (nested i w ∷ ls) h =
      seen-set_root_ne (some s)
        (if s == j then some (obj (put_field i w (fields_seen acc))) else acc) ls h
  seen-set_root_ne cur acc (remark ∷ ls) h = seen-set_root_ne cur acc ls h
  seen-set_root_ne cur acc (malformed ∷ ls) h = seen-set_root_ne cur acc ls h

  absent-set_root : (ls : Doc) → absent j ls ≡ true → absent j (set_root k v ls) ≡ true
  unfolding absent set_root
  absent-set_root [] h = rw other
  absent-set_root (entry i w ∷ ls) h =
      ground (arith, eq_iff i k, eq_iff i j, eq_iff k j, absent-set_root ls)
  absent-set_root (section i ∷ ls) h =
      ground (arith, eq_iff i k, eq_iff i j, eq_iff k j, absent-set_root ls)
  absent-set_root (nested i w ∷ ls) h = absent-set_root ls h
  absent-set_root (remark ∷ ls) h = absent-set_root ls h
  absent-set_root (malformed ∷ ls) h = absent-set_root ls h

  pub flat-set_root_ne : (ls : Doc) → flat j ls ≡ true → flat j (set_root k v ls) ≡ true
  unfolding flat set_root
  flat-set_root_ne [] h = rw other
  flat-set_root_ne (entry i w ∷ ls) h = ground (
    arith,
    eq_iff i k,
    eq_iff i j,
    eq_iff k j,
    flat-set_root_ne ls,
    absent-set_root ls,
    flat-absent j ls,
  )
  flat-set_root_ne (section i ∷ ls) h =
      ground (arith, eq_iff i k, eq_iff i j, eq_iff k j, flat-set_root_ne ls)
  flat-set_root_ne (nested i w ∷ ls) h = flat-set_root_ne ls h
  flat-set_root_ne (remark ∷ ls) h = flat-set_root_ne ls h
  flat-set_root_ne (malformed ∷ ls) h = flat-set_root_ne ls h

pub flat-set_root_self :
    (k : String) (v : Value) (ls : Doc) → flat k ls ≡ true → flat k (set_root k v ls) ≡ true
unfolding flat set_root
flat-set_root_self k v [] h = ground (arith, eq_iff k k)
flat-set_root_self k v (entry i w ∷ ls) h = ground (arith, eq_iff k k, flat-set_root_self k v ls)
flat-set_root_self k v (section i ∷ ls) h = ground (arith, flat-set_root_self k v ls)
flat-set_root_self k v (nested i w ∷ ls) h = flat-set_root_self k v ls h
flat-set_root_self k v (remark ∷ ls) h = flat-set_root_self k v ls h
flat-set_root_self k v (malformed ∷ ls) h = flat-set_root_self k v ls h
