-- ===== src/Channel.antt =====
-- agent_relay_runtime/planner_channel.py: the foreground conversation that a project is bound to.
pub mod Saved
use agent_relay_auto.Prelude.{
  String, Bool, true, false, not, ◌&&◌, ◌||◌, Option, none, some, List, [], ◌∷◌, ◌==◌,
  if◌then◌else◌, elem,
}
use agent_relay_auto.Value.{Fields, no_members, field, Value, str, find_field}
use agent_relay_auto.Outcome.{
  value_error, type_error, Result, ok, err, ◌>>=◌, ◌>>◌, raise_if, or_raise,
}

pub record PlannerChannel : Type 0 where
  pub participant_id : String
  pub tool : String
  pub conversation_id : String
  pub project_path : String
  pub registered_at : String

abbrev pub supported_tools : List String
supported_tools = "codex" ∷ "opencode" ∷ "claude-code" ∷ "deepseek-harness" ∷ []

abbrev pub channel_fields : List String
channel_fields =
    "participant_id" ∷ "tool" ∷ "conversation_id" ∷ "project_path" ∷ "registered_at" ∷ []

-- no keyword that the constructor does not know
unfoldable pub only_known : Fields → Bool
unfolding elem
only_known no_members = true
only_known (field k v fs) = elem k channel_fields && only_known fs

-- The exceptions of `load` all become a PlannerChannelError, which is a ValueError. A field that is
-- missing is the TypeError of the constructor, and one that is no text fails its test.
unfoldable pub text_field : Fields → String → Result String
unfolding find_field
text_field fs k = elim (find_field fs k) [ some (str s) ↦ ok s | _ ↦ err value_error ]

-- `blank` is `not text.strip()`; `resolve` is `Path(…).resolve()` of a path's text.
module _ (blank : String → Bool) (resolve : String → String) where
  -- `PlannerChannel.__post_init__`
  unfoldable pub check_channel : PlannerChannel → Result (Unit {0})
  unfolding elem
  check_channel c = do
    raise_if (blank c.participant_id) value_error
    raise_if (blank c.conversation_id) value_error
    raise_if (blank c.project_path) value_error
    raise_if (blank c.registered_at) value_error
    raise_if (not (elem c.tool supported_tools)) value_error

  -- `PlannerChannel.validate_for`
  unfoldable pub validate_for : String → PlannerChannel → Result (Unit {0})
  validate_for repo c = raise_if (not (resolve c.project_path == resolve repo)) value_error

  -- `PlannerChannel(**payload)`
  unfoldable pub channel_of : Fields → Result PlannerChannel
  unfolding only_known text_field check_channel
  channel_of fs = do
    raise_if (not (only_known fs)) value_error
    participant ← text_field fs "participant_id"
    tool ← text_field fs "tool"
    conversation ← text_field fs "conversation_id"
    path ← text_field fs "project_path"
    at ← text_field fs "registered_at"
    let c : PlannerChannel = record {
      participant_id = participant;
      tool = tool;
      conversation_id = conversation;
      project_path = path;
      registered_at = at;
    }
    check_channel c
    ok c

  -- `PlannerChannelStore.load`: the file is missing, holds no JSON object, or holds one.
  unfoldable pub load_channel : String → Option (Option Fields) → Result (Option PlannerChannel)
  unfolding channel_of validate_for
  load_channel repo none = ok none
  load_channel repo (some none) = err value_error
  load_channel repo (some (some fs)) = do c ← channel_of fs; validate_for repo c; ok (some c)

  -- `asdict(channel)`
  unfoldable pub channel_payload : PlannerChannel → Fields
  channel_payload c = field "participant_id" (str c.participant_id) (
      field "tool" (str c.tool) (
        field "conversation_id" (str c.conversation_id) (
          field "project_path" (str c.project_path)
            (field "registered_at" (str c.registered_at) no_members))))

  -- `PlannerChannelStore.save`: what the file holds afterwards
  unfoldable pub save_channel : String → PlannerChannel → Result (Option (Option Fields))
  unfolding validate_for channel_payload
  save_channel repo c = validate_for repo c >> ok (some (some (channel_payload c)))
