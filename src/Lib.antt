-- ===== src/Lib.antt =====
-- Agent Relay Auto: the durable state of the relay between Planner, Implementer and Reviewer.
--
-- The program keeps its state in Markdown files of a repository. A file holds one fenced block of
-- keys (agent_relay_runtime/markdown_state.py); the state store reads a block, decides, and writes it
-- back under a lock file with a check of the revision (agent_relay_runtime/state_store.py). The
-- scripts stand in shared/.agents/skills/agent-relay-auto/scripts, and all paths below are relative to
-- that folder.
--
-- Which file models what:
--   Prelude, Value, Outcome   Python's integers, texts, dictionaries, dynamic values and exceptions
--   Markdown                  markdown_state.py, line by line: Line is a line with the value that is
--                             read from it, parse_fenced_yaml the parser, set_yaml_value the writer,
--                             reread what a written value is read back as
--   Store                     the files of one repository, _state_lock, _read_task, _write_state
--   State                     StateStore: transition, complete_stage, prepare_reporting_wake,
--                             set_reporting_phase, claim, finish_run, complete_report,
--                             recover_pending_transactions
--   Queue                     queue.py: activate_next_queued_task
--   Schema                    schema.py: validate_project_state and validate_active_task_mirror;
--                             Schema.Task: validate_task_state; Schema.Raises: what the methods of the
--                             state store may raise on a state that it accepts
--   Relay                     relay_state.py: wait-user, answer, cancel and status (Relay), the
--                             commands that complete a stage (Relay.Stage), main (Relay.Run)
--   Channel, Journal          planner_channel.py, wake_store.py
--   Reporting                 reporting.py: a tick is a step on a World, the files with the wake
--                             journal, the channel file and the requests that were handed over
--   Registry                  registry.py
--   Runs                      run_store.py: the folders of the runs; Runs.Rotate the logs
--   Launch                    adapters/base.py: LaunchRequest and LaunchContext
--   Supervisor                supervisor.py: a tick is a step on a Service, the World with the run store
--                             and the watched processes. Supervisor.Tick is the choice of what to do,
--                             Supervisor.Start the claim and launch of a run, Supervisor.End the end of
--                             one; the processes and the adapter answer as Outside. Supervisor.Waiting
--                             is a tick over a task that waits for its Planner, Supervisor.Reused the
--                             process ids of a restart
--   Runner, Notices           runner.py: run_once; notifications.py: the journal of notices
--   Config                    config.py: the policies and load_runtime_config
--   Recovery, Output          recovery.py; the tail buffer of process_manager.py
--   Tests                     runs and instances at concrete inputs
--
-- How the code is modelled. A method that reads one task and writes it once is a plan, a function of
-- the clock and the mapping that was read into an exception or a result with the values to write
-- (none for a return without a write); update_task runs a plan under the lock. complete_report writes
-- three files, so it is a sequence of changes of the disk, and a crash is the disk between two of
-- them. Integers are unbounded, as in Python. Every loop is a recursion on a list; the one fuel, in
-- show_int, is the number itself, which has no more digits than that.
--
-- Not modelled: the regular expressions that cut a file into lines and the JSON of inline values (a
-- line stands with its value), the text of messages, processes and time. SHA-256 of a conversation,
-- json.dumps of a text, str.lower, and what relay_state.py does with the text of an evidence file are
-- arguments of the definitions that use them, and now_iso() is the clock field of the disk. An adapter
-- of a Planner's tool is an argument of a tick and may change the files. What is
-- appended to a log stands redacted and encoded. A path is its text, and str(Path(text)) an argument;
-- datetime.fromisoformat is an argument too, and a time is its microseconds with whether it has a zone.
-- Texts hold ASCII where they are read as numbers or put in capitals, and none of the line separators
-- U+0085, U+2028 and U+2029, at which splitlines cuts a quoted text. A line of the policy file
-- stands cut into its indent, key and value, and a number with a point is an exact decimal. The
-- adapters themselves are command lines of external tools, and workflow_state.py rewrites Markdown
-- tables by regular expressions over the whole text: both are not modelled.
--
-- state_keys are the root keys that the program writes. Statements about a write assume of a task's
-- block that each of these keys has at most one line at the margin and that it is no section's, as the
-- template of STATE.md has it.
pub mod Prelude
pub mod Value
pub mod Markdown
pub mod Outcome
pub mod Schema
pub mod Store
pub mod State
pub mod Queue
pub mod Relay
pub mod Channel
pub mod Journal
pub mod Reporting
pub mod Registry
pub mod Runs
pub mod Launch
pub mod Config
pub mod Output
pub mod Notices
pub mod Recovery
pub mod Supervisor
pub mod Runner
mod Tests
