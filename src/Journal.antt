-- ===== src/Journal.antt =====
-- agent_relay_runtime/wake_store.py: the journal of wake requests, wake-events.jsonl.
use Prim.Native.String.{◌++◌ as ◌<>◌}
use agent_relay_auto.Prelude.{
  String, Bool, false, not, ◌&&◌, Option, none, some, List, [], ◌∷◌, ◌==◌, if◌then◌else◌, Dict,
  lookup, show_int,
}
use agent_relay_auto.Prelude.Int.{ℤ, pos, leb_ℤ}
use agent_relay_auto.Value.{Value, int, str, get, is_str, is_one_of}
use agent_relay_auto.Outcome.{value_error, Result, ok, err, ◌>>=◌, ◌>>◌, raise_if}
use agent_relay_auto.State.Types.{int_of}

abbrev pub Event : Type 0
Event = Dict Value

-- The lines of the file, the last one first; `none` is a line that is no JSON object. A file that is
-- missing has no lines.
abbrev pub Journal : Type 0
Journal = List (Option Event)

unfoldable pub is_label : Value → Bool
is_label (str s) = not (s == "")
is_label _ = false

-- `_validated`
unfoldable pub validated : Event → Result Event
unfolding is_label get
validated e = do
  raise_if (not (is_label (get e "wake_key"))) value_error
  raise_if (not (is_label (get e "status"))) value_error
  ok e

-- `_events`; every exception becomes a WakeStoreError, which is a ValueError
unfoldable pub events : Journal → Result (List Event)
unfolding validated
events [] = ok []
events (none ∷ lines) = err value_error
events (some e ∷ lines) = do rest ← events lines; e' ← validated e; ok (e' ∷ rest)

-- `event["wake_key"] == wake_key`, for an event that is validated
unfoldable pub same_key : Value → Value → Bool
unfolding is_str
same_key key (str s) = is_str key s
same_key key _ = false

-- the last of the matches
unfoldable pub latest_of : Value → List Event → Option Event
unfolding same_key get
latest_of key [] = none
latest_of key (e ∷ es) = if same_key key (get e "wake_key") then some e else latest_of key es

abbrev pub submission_statuses : List String
submission_statuses = "submitted" ∷ "active" ∷ "completed" ∷ []

unfoldable pub submission_of : Value → List Event → Option Event
unfolding same_key is_one_of get
submission_of key [] = none
submission_of key (e ∷ es) =
    if same_key key (get e "wake_key") && is_one_of (get e "status") submission_statuses
    then some e
    else submission_of key es

-- `latest`, `find_submission`
unfoldable pub latest : Value → Journal → Result (Option Event)
unfolding events latest_of
latest key j = do es ← events j; ok (latest_of key es)

unfoldable pub find_submission : Value → Journal → Result (Option Event)
unfolding events submission_of
find_submission key j = do es ← events j; ok (submission_of key es)

-- `append`
unfoldable pub append_event : Event → Journal → Result Journal
unfolding validated
append_event e j = do e' ← validated e; ok (some e' ∷ j)

-- `event.get("attempt", 1)` and `int` of it
unfoldable pub raw_attempt : Event → Value
unfolding lookup
raw_attempt e = elim (lookup "attempt" e) [ none ↦ int (pos 1) | some v ↦ v ]

unfoldable pub attempt_of : Event → Result ℤ
unfolding raw_attempt int_of
attempt_of e = int_of (raw_attempt e)

pub record WakeKey : Type 0 where
  pub task_id : String
  pub revision : ℤ
  pub participant_id : String
  pub conversation_id : String

-- `WakeKey.__post_init__`
unfoldable pub check_key : WakeKey → Result (Unit {0})
check_key k = do
  raise_if (k.task_id == "") value_error
  raise_if (k.participant_id == "") value_error
  raise_if (k.conversation_id == "") value_error
  raise_if (not (leb_ℤ (pos 0) k.revision)) value_error

-- `WakeKey.value`; `digest` is the SHA-256 of a text, cut to 16 digits
unfoldable pub key_value : (String → String) → WakeKey → String
unfolding show_int
key_value digest k =
    k.task_id
    <> (":"
        <> (show_int k.revision
            <> (":" <> (k.participant_id <> (":" <> digest k.conversation_id)))))
