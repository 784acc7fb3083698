-- ===== src/Launch.antt =====
-- `LaunchRequest` and `LaunchContext` of agent_relay_runtime/adapters/base.py: what a run is given.
use Prim.Native.String.{◌++◌ as ◌<>◌}
use agent_relay_auto.Prelude.{
  String, not, Option, none, some, List, [], ◌∷◌, ◌==◌, if◌then◌else◌, Dict, lookup,
}
use agent_relay_auto.Prelude.Int.{ℤ, pos}
use agent_relay_auto.Value.{
  Value, null, int, str, arr, Fields, no_members, field, Items, no_items, item, get, truthy,
  text_or_null,
}
use agent_relay_auto.Value.Show.{show}
use agent_relay_auto.Outcome.{value_error, key_error, Result, ok, ◌>>=◌, ◌>>◌, raise_if, or_raise}
use agent_relay_auto.State.Types.{int_of}

pub record LaunchRequest : Type 0 where
  pub task_id : String
  pub role : String
  pub participant_id : String
  pub model : String
  pub reasoning : Value
  pub run_id : String
  pub expected_revision : ℤ

pub record LaunchContext : Type 0 where
  pub task_id : String
  pub role : String
  pub participant_id : String
  pub run_id : String
  pub writer_session : String
  pub start_status : String
  pub start_revision : ℤ
  pub stage_round : ℤ
  pub plan_version : Option ℤ
  pub subagent_policy : Option String
  pub required_inputs : List String
  pub required_outputs : List String
  pub completion_command : String

-- `str(v or "")`
unfoldable pub text_or_empty : Value → String
unfolding truthy show
text_or_empty v = if truthy v then show v else ""

-- `int(state.get(k, default))`
unfoldable pub int_or : String → ℤ → Dict Value → Result ℤ
unfolding lookup int_of
int_or k default m = elim (lookup k m) [ none ↦ ok default | some v ↦ int_of v ]

-- `int(v) if v is not None else None`
unfoldable pub optional_int : Value → Result (Option ℤ)
unfolding int_of
optional_int null = ok none
optional_int v = int_of v >>= λ n. ok (some n)

-- `str(v) if v is not None else None`
unfoldable pub optional_text : Value → Option String
unfolding show
optional_text null = none
optional_text v = some (show v)

unfoldable pub relay_command : String → LaunchRequest → Value → String
unfolding show
relay_command name request revision =
    "python3 .agents/skills/agent-relay-auto/scripts/relay_state.py --repo . "
    <> (name
        <> (" --task "
            <> (request.task_id
                <> (" --expected-revision "
                    <> (show revision
                        <> (" --participant-id "
                            <> (request.participant_id <> (" --run-id " <> request.run_id))))))))

-- what a role reads and writes, and the subcommand that it ends with
pub record RoleFiles : Type 0 where
  pub inputs : List String
  pub outputs : List String
  pub command : String

unfoldable pub role_files : String → Option RoleFiles
role_files role =
    if role == "implementer"
    then some (record {
      inputs = "requirement.md" ∷ "plan.md" ∷ "previous_progress" ∷ [];
      outputs = "execution.md" ∷ "delivery evidence" ∷ [];
      command = "implementation-done";
    })
    else if role == "reviewer"
    then some (record {
      inputs = "requirement.md" ∷ "plan.md" ∷ "execution.md" ∷ "delivery evidence" ∷ [];
      outputs = "review.md" ∷ "verdict evidence" ∷ [];
      command = "verdict";
    })
    else none

-- `LaunchContext.from_state`
unfoldable pub from_state : LaunchRequest → Dict Value → Result LaunchContext
unfolding get lookup text_or_empty role_files relay_command int_of int_or optional_int optional_text
    show
from_state request m = do
  raise_if (not (text_or_empty (get m "writer_session") == request.run_id)) value_error
  files ← or_raise (role_files request.role) value_error
  revision ← or_raise (lookup "revision" m) key_error
  start_revision ← int_of revision
  stage_round ← int_or "stage_round" (pos 1) m
  plan_version ← optional_int (get m "plan_version")
  ok (record {
    task_id = request.task_id;
    role = request.role;
    participant_id = request.participant_id;
    run_id = request.run_id;
    writer_session = text_or_empty (get m "writer_session");
    start_status = show (get m "status");
    start_revision = start_revision;
    stage_round = stage_round;
    plan_version = plan_version;
    subagent_policy = optional_text (get m "subagent_policy");
    required_inputs = files.inputs;
    required_outputs = files.outputs;
    completion_command = relay_command files.command request revision;
  })

unfoldable pub texts : List String → Items
texts [] = no_items
texts (s ∷ ss) = item (str s) (texts ss)

unfoldable pub int_or_null : Option ℤ → Value
int_or_null none = null
int_or_null (some n) = int n

-- `LaunchContext.as_dict`
unfoldable pub as_dict : LaunchContext → Fields
unfolding texts int_or_null
as_dict c = field "task_id" (str c.task_id) (
    field "role" (str c.role) (
      field "participant_id" (str c.participant_id) (
        field "run_id" (str c.run_id) (
          field "writer_session" (str c.writer_session) (
            field "start_status" (str c.start_status) (
              field "start_revision" (int c.start_revision) (
                field "stage_round" (int c.stage_round) (
                  field "plan_version" (int_or_null c.plan_version) (
                    field "subagent_policy" (text_or_null c.subagent_policy) (
                      field "required_inputs" (arr (texts c.required_inputs)) (
                        field "required_outputs" (arr (texts c.required_outputs)) (
                          field "completion_command" (str c.completion_command)
                            no_members))))))))))))
