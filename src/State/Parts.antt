-- ===== src/State/Parts.antt =====
-- The parts of the methods' updates: which keys they write, and what they leave alone.
use agent_relay_auto.Prelude.{
  String, ◌≡◌, refl, Bool, true, false, Option, none, some, List, [], ◌∷◌, arith, ◌==◌, Dict, elem,
  inl, inr,
}
use agent_relay_auto.Prelude.Int.{pos}
use agent_relay_auto.Value.{Value, str}
use agent_relay_auto.Outcome.{ok, Result-cases}
use agent_relay_auto.Markdown.{reread}
use agent_relay_auto.Markdown.Write.{Updates, last_write, covers}
use agent_relay_auto.State.Types.{
  transitions, find_status, Rule, role_events, find_rule, bump, bump_if, put_if,
}

pub covers-put_if :
    (ks : List String) (k : String) (o : Option String)
    → elem k ks ≡ true
    → covers ks (put_if k o) ≡ true
unfolding covers put_if
covers-put_if ks k none e = refl
covers-put_if ks k (some s) e = rw e

pub last_write-put_if :
    (j k : String) (o : Option String) → (k == j) ≡ false → last_write j (put_if k o) ≡ none
unfolding last_write put_if
last_write-put_if j k none e = refl
last_write-put_if j k (some s) e = rw e

pub covers-bump_if :
    (ks : List String) (b : Bool) (k : String) (m : Dict Value) {us : Updates}
    → bump_if b k m ≡ ok us
    → elem k ks ≡ true
    → covers ks us ≡ true
unfolding covers bump_if
covers-bump_if ks false k m h e = ground arith
covers-bump_if ks true k m {us} h e = elim (Result-cases (bump k (pos 0) m)) [
  | inl (x, f) ↦ absurd (ground arith)
  | inr (n, f) ↦ ground arith
]

pub last_write-bump_if :
    (j : String) (b : Bool) (k : String) (m : Dict Value) {us : Updates}
    → bump_if b k m ≡ ok us
    → (k == j) ≡ false
    → last_write j us ≡ none
unfolding last_write bump_if
last_write-bump_if j false k m h e = ground arith
last_write-bump_if j true k m {us} h e = elim (Result-cases (bump k (pos 0) m)) [
  | inl (x, f) ↦ absurd (ground arith)
  | inr (n, f) ↦ ground arith
]

abbrev IsStable : List (String × String × String) → Type 0
IsStable [] = Unit
IsStable ((_, _, new) ∷ rows) = (reread (str new) ≡ str new) × IsStable rows

transitions-IsStable : IsStable transitions
unfolding reread
transitions-IsStable = (refl, (refl, (refl, (refl, (refl, (refl, tt))))))

find_status-stable :
    (rows : List (String × String × String)) (v : Value) (event new : String)
    → IsStable rows
    → find_status rows v event ≡ some new
    → reread (str new) ≡ str new
unfolding find_status
find_status-stable [] v event new st h = cc
find_status-stable ((s, e, n) ∷ rows) v event new st h =
    ground (arith, find_status-stable rows v event new st.1)

-- The statuses of the table are read back as they are written.
pub reread-find_status :
    (v : Value) (event : String) {new : String}
    → find_status transitions v event ≡ some new
    → reread (str new) ≡ str new
reread-find_status v event {new} h =
    find_status-stable transitions v event new transitions-IsStable h

abbrev IsStableRule : List (String × String × Rule) → Type 0
IsStableRule [] = Unit
IsStableRule ((_, _, x) ∷ rows) =
    (reread (str x.new_status) ≡ str x.new_status)
    × (reread (str x.next_role) ≡ str x.next_role)
    × IsStableRule rows

role_events-IsStableRule : IsStableRule role_events
unfolding reread
role_events-IsStableRule =
    (refl, refl, (refl, refl, (refl, refl, (refl, refl, (refl, refl, (refl, refl, tt))))))

find_rule-stable :
    (rows : List (String × String × Rule)) (role event : String) (x : Rule)
    → IsStableRule rows
    → find_rule rows role event ≡ some x
    → (reread (str x.new_status) ≡ str x.new_status) × (reread (str x.next_role) ≡ str x.next_role)
unfolding find_rule
find_rule-stable [] role event x st h = cc
find_rule-stable ((s, e, y) ∷ rows) role event x st h =
    ground (arith, find_rule-stable rows role event x st.2)

-- So are the statuses and the roles of the other table.
pub reread-find_rule :
    (role event : String) {x : Rule}
    → find_rule role_events role event ≡ some x
    → (reread (str x.new_status) ≡ str x.new_status) × (reread (str x.next_role) ≡ str x.next_role)
reread-find_rule role event {x} h =
    find_rule-stable role_events role event x role_events-IsStableRule h
