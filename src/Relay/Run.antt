-- ===== src/Relay/Run.antt =====
-- `main` of relay_state.py: the commands by name, and the exit code.
use agent_relay_auto.Prelude.{ℕ, String, Option, none, some}
use agent_relay_auto.Prelude.Int.{ℤ}
use agent_relay_auto.Value.{Value}
use agent_relay_auto.Outcome.{
  Error, revision_conflict, illegal_transition, store_error, lock_error, format_error, schema_error,
  value_error, key_error, type_error, attribute_error, os_error, runtime_error, Result, ok, err,
}
use agent_relay_auto.Store.Base.{Disk, Action}
use agent_relay_auto.State.Report.{Completion}
use agent_relay_auto.Relay.{Payload, wait_user, answer, cancel, status}
use agent_relay_auto.Relay.Stage.{Texts, verdict, report_done, plan_done, implementation_done}

-- the subcommands with their arguments, in the order of `parser`
pub data Command : Type 0 where
  status_command : String → Command
  wait_command : String → ℤ → String → String → Command
  answer_command : String → ℤ → String → String → Option String → Option String → Command
  plan_command : String → ℤ → String → String → String → String → Command
  implementation_command : String → ℤ → String → String → String → String → String → Command
  verdict_command : String → ℤ → String → String → String → String → String → Command
  report_command : Completion → Command
  cancel_command : String → ℤ → String → Command

-- the classes of the two `except` clauses; an exception of any other class ends the interpreter
unfoldable pub exit_code : Error → ℕ
exit_code revision_conflict = 3
exit_code illegal_transition = 3
exit_code store_error = 3
exit_code lock_error = 3
exit_code format_error = 2
exit_code schema_error = 2
exit_code value_error = 2
exit_code key_error = 2
exit_code os_error = 2
exit_code type_error = 1
exit_code attribute_error = 1
exit_code runtime_error = 1

unfoldable leave : Result Payload × Disk → (ℕ × Option Payload) × Disk
unfolding exit_code
leave (err e, d) = ((exit_code e, none), d)
leave (ok payload, d) = ((0, some payload), d)

-- `display` is Python's `str` of a value, `id` the question id that is drawn.
module _ (texts : Texts) (display : Value → String) (id : String) where
  unfoldable pub handle : Command → Action Payload
  handle (status_command task) = status task
  handle (wait_command task expected question role) = wait_user task expected question role id
  handle (answer_command task expected question text key value) =
      answer display task expected question text key value
  handle (plan_command task expected participant plan approval progress) =
      plan_done texts task expected participant plan approval progress
  handle (implementation_command task expected participant run execution delivery progress) =
      implementation_done texts task expected participant run execution delivery progress
  handle (verdict_command task expected given evidence participant run delivery) =
      verdict texts task expected given evidence participant run delivery
  handle (report_command c) = report_done texts c
  handle (cancel_command task expected authorization) = cancel task expected authorization

  -- the exit code, what is printed on standard output, and the files
  unfoldable pub main : Command → Disk → (ℕ × Option Payload) × Disk
  unfolding handle leave
  main c d = leave (handle c d)
