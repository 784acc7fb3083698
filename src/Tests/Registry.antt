-- ===== src/Tests/Registry.antt =====
-- A registry of two projects.
use agent_relay_auto.Prelude.{◌≡◌, refl, true, false, [], ◌∷◌, elem}
use agent_relay_auto.Value.{Items, no_items, item, bool, str, obj, field, no_members}
use agent_relay_auto.Outcome.{ok}
use agent_relay_auto.Registry.{new_entry, register, unregister, enabled_projects}
use agent_relay_auto.Registry.Enabled.{register-enabled, unregister-enabled}

abbrev both : Items
both = item (new_entry "/a") (item (new_entry "/b") no_items)

registers : register "/b" (item (new_entry "/a") no_items) ≡ ok both
unfolding register
registers = refl

serves : enabled_projects (λ s. s) both ≡ ok ("/a" ∷ "/b" ∷ [])
unfolding enabled_projects new_entry
serves = refl

unregister-enabled_example : elem "/a" ("/b" ∷ []) ≡ false
unfolding unregister enabled_projects new_entry
unregister-enabled_example =
    unregister-enabled (λ s. s) "/a" both (item (new_entry "/b") no_items) ("/b" ∷ []) refl refl
      refl

-- an entry that was disabled by hand
abbrev disabled : Items
disabled = item (obj (field "repo" (str "/a") (field "enabled" (bool false) no_members))) no_items

enables : register "/a" disabled ≡ ok (item (new_entry "/a") no_items)
unfolding register new_entry
enables = refl

register-enabled_example : elem "/a" ("/a" ∷ []) ≡ true
unfolding enabled_projects new_entry
register-enabled_example =
    register-enabled (λ s. s) "/a" disabled (item (new_entry "/a") no_items) ("/a" ∷ []) refl
      enables refl
