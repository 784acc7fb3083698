-- ===== src/Markdown/Write.antt =====
-- `_write_state` of agent_relay_runtime/state_store.py and `_write_values` of relay_state.py: several
-- keys of one block, one after the other.
use agent_relay_auto.Prelude.{
  String, ◌≡◌, refl, Bool, true, false, ◌&&◌, Option, none, some, List, [], ◌∷◌, arith, ◌==◌,
  eq_iff, if◌then◌else◌, Dict, lookup, elem, inl, inr, Bool-cases, Option-cases,
}
use agent_relay_auto.Value.{Value, null, get}
use agent_relay_auto.Markdown.{
  Doc, reread, set_root, KeyPath, root, under, set_yaml_value, parse_from, parse_fenced_yaml,
}
use agent_relay_auto.Markdown.View.{seen, well_nested, parse_from-seen, is_some-parse_from}
use agent_relay_auto.Markdown.Laws.{
  flat, seen-set_root_self, seen-set_root_ne, well_nested-set_root, flat-set_root_ne,
  flat-set_root_self,
}

abbrev pub Updates : Type 0
Updates = List (KeyPath × Value)

unfoldable pub write_values : Updates → Doc → Doc
unfolding set_yaml_value
write_values [] d = d
write_values ((p, v) ∷ us) d = write_values us (set_yaml_value p v d)

-- the last value that the updates give the root key
unfoldable pub last_write : String → Updates → Option Value
last_write k [] = none
last_write k ((root j, v) ∷ us) = elim (last_write k us) [
  | some w ↦ some w
  | none ↦ if j == k then some v else none
]
last_write k ((under s j, v) ∷ us) = last_write k us

abbrev pub overlay : Option Value → Option Value → Option Value
overlay none old = old
overlay (some v) old = some (reread v)

-- all the keys are flat in the block
unfoldable pub all_flat : List String → Doc → Bool
all_flat [] d = true
all_flat (k ∷ ks) d = flat k d && all_flat ks d

-- the updates write root keys of the list only
unfoldable pub covers : List String → Updates → Bool
unfolding elem
covers ks [] = true
covers ks ((root k, v) ∷ us) = elem k ks && covers ks us
covers ks ((under s k, v) ∷ us) = false

flat-elem :
    (k : String) (ks : List String) (d : Doc)
    → elem k ks ≡ true
    → all_flat ks d ≡ true
    → flat k d ≡ true
unfolding elem all_flat
flat-elem k [] d e h = cc
flat-elem k (j ∷ ks) d e h = ground (arith, eq_iff j k, flat-elem k ks d)

flat-set_root :
    (j k : String) (v : Value) (d : Doc)
    → flat k d ≡ true
    → flat j d ≡ true
    → flat j (set_root k v d) ≡ true
flat-set_root j k v d hk hj = elim (Bool-cases (k == j)) [
  | inl same ↦ ground (arith, eq_iff k j, flat-set_root_self k v d)
  | inr other ↦ flat-set_root_ne k j other v d hj
]

all_flat-set_root :
    (ks : List String) (k : String) (v : Value) (d : Doc)
    → flat k d ≡ true
    → all_flat ks d ≡ true
    → all_flat ks (set_root k v d) ≡ true
unfolding all_flat
all_flat-set_root [] k v d hk h = refl
all_flat-set_root (j ∷ ks) k v d hk h =
    ground (arith, flat-set_root j k v d, all_flat-set_root ks k v d)

module _ (ks : List String) where
  pub all_flat-write :
      (us : Updates) (d : Doc)
      → covers ks us ≡ true
      → all_flat ks d ≡ true
      → all_flat ks (write_values us d) ≡ true
  unfolding covers write_values
  all_flat-write [] d c h = h
  all_flat-write ((root k, v) ∷ us) d c h =
      ground
        (arith, flat-elem k ks d, all_flat-set_root ks k v d, all_flat-write us (set_root k v d))
  all_flat-write ((under s k, v) ∷ us) d c h = cc

  pub well_nested-write :
      (us : Updates) (d : Doc)
      → covers ks us ≡ true
      → all_flat ks d ≡ true
      → well_nested false d ≡ true
      → well_nested false (write_values us d) ≡ true
  unfolding covers write_values
  well_nested-write [] d c h w = w
  well_nested-write ((root k, v) ∷ us) d c h w = ground (
    arith,
    flat-elem k ks d,
    all_flat-set_root ks k v d,
    well_nested-set_root k v false d,
    well_nested-write us (set_root k v d),
  )
  well_nested-write ((under s k, v) ∷ us) d c h w = cc

  seen-step :
      (j k : String) (v : Value) (d : Doc)
      → flat k d ≡ true
      → seen j none none (set_root k v d)
        ≡ overlay (if k == j then some v else none) (seen j none none d)
  seen-step j k v d h = elim (Bool-cases (k == j)) [
    | inl same ↦ ground (arith, eq_iff k j, seen-set_root_self k v none none d)
    | inr other ↦ rw other (seen-set_root_ne k j other v none none d h)
  ]

  -- After the writes a key holds the last value written to it, as it is reread, or what it held.
  pub seen-write :
      (j : String) (us : Updates) (d : Doc)
      → covers ks us ≡ true
      → all_flat ks d ≡ true
      → seen j none none (write_values us d) ≡ overlay (last_write j us) (seen j none none d)
  unfolding covers write_values last_write
  seen-write j [] d c h = refl
  seen-write j ((root k, v) ∷ us) d c h = ground (
    arith,
    flat-elem k ks d,
    all_flat-set_root ks k v d,
    seen-step j k v d,
    seen-write j us (set_root k v d),
  )
  seen-write j ((under s k, v) ∷ us) d c h = cc

-- `parse_fenced_yaml(text).get(key)`, `null` if the block is illegible
unfoldable pub value_at : String → Doc → Value
unfolding seen
value_at k d = elim (seen k none none d) [ none ↦ null | some v ↦ v ]

pub get-parse :
    (d : Doc) {m : Dict Value} (k : String) → parse_fenced_yaml d ≡ some m → get m k ≡ value_at k d
unfolding parse_fenced_yaml get value_at lookup
get-parse d {m} k h = ground (arith, parse_from-seen k none [] d h)

pub parse-well_nested :
    (d : Doc) {m : Dict Value} → parse_fenced_yaml d ≡ some m → well_nested false d ≡ true
unfolding parse_fenced_yaml
parse-well_nested d h = ground (arith, is_some-parse_from none [] d)

pub well_nested-parse :
    (d : Doc) → well_nested false d ≡ true → (m : Dict Value) × (parse_fenced_yaml d ≡ some m)
unfolding parse_fenced_yaml
well_nested-parse d w = elim (Option-cases (parse_from none [] d)) [
  | inl e ↦ absurd (ground (arith, is_some-parse_from none [] d))
  | inr (m, e) ↦ (m, e)
]

abbrev pub overlay_value : Option Value → Value → Value
overlay_value none old = old
overlay_value (some v) old = reread v

pub value_at-write :
    (ks : List String) (j : String) (us : Updates) (d : Doc)
    → covers ks us ≡ true
    → all_flat ks d ≡ true
    → value_at j (write_values us d) ≡ overlay_value (last_write j us) (value_at j d)
unfolding value_at
value_at-write ks j us d c h = ground (arith, seen-write ks j us d)
