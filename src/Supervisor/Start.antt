-- ===== src/Supervisor/Start.antt =====
-- The start of a run: the last part of `ProjectSupervisor.tick` of supervisor.py, from the role on.
use Prim.Native.String.{◌++◌ as ◌<>◌}
use agent_relay_auto.Prelude.{
  String, Bool, true, false, not, Option, none, some, if◌then◌else◌, Dict, lookup, insert,
}
use agent_relay_auto.Prelude.Int.{pos}
use agent_relay_auto.Value.{Value, int, str, Fields, no_members, field, get, truthy, is_str}
use agent_relay_auto.Value.Show.{show}
use agent_relay_auto.Outcome.{Error, key_error, Result, ok, err, or_raise}
use agent_relay_auto.Outcome.{◌>>=◌ as ◌>>>◌}
use agent_relay_auto.Store.Base.{read_task}
use agent_relay_auto.State.Types.{TransitionResult, ClaimKey, int_of}
use agent_relay_auto.State.Claim.{claim}
use agent_relay_auto.State.Finish.{finish_run}
use agent_relay_auto.Runs.{RunPath, create, write_launch_context, finish}
use agent_relay_auto.Launch.{LaunchRequest, LaunchContext, from_state, as_dict, int_or}
use agent_relay_auto.Supervisor.Base.{
  ManagedProcess, Outside, SupervisorDecision, Step, pure, lift, ◌>>=◌, ◌>>◌, on_disk, on_runs,
  at_clock,
}
use agent_relay_auto.Supervisor.End.{decision}

-- `self.store._read_task`, which does not take the lock
unfoldable pub read_state : String → Step (Dict Value)
unfolding read_task
read_state task s = elim (read_task task s.world.disk) [ err e ↦ (err e, s) | ok p ↦ (ok p.1, s) ]

-- the role that a status asks for in the background
unfoldable pub role_of : Value → Option String
unfolding is_str
role_of status =
    if is_str status "IMPLEMENTING"
    then some "implementer"
    else if is_str status "CHANGES_REQUESTED"
    then some "implementer"
    else if is_str status "REVIEWING"
    then some "reviewer"
    else none

-- `state.get("current_participant") or f"{role}-main"`
unfoldable pub participant_of : String → Dict Value → String
unfolding get truthy show
participant_of role m =
    let v = get m "current_participant" in if truthy v then show v else role <> "-main"

unfoldable pub text_or : String → String → Dict Value → String
unfolding lookup show
text_or k default m = elim (lookup k m) [ none ↦ default | some v ↦ show v ]

module _ (o : Outside) (task role : String) (m : Dict Value) where
  -- `request`
  unfoldable pub request_of : Result LaunchRequest
  unfolding lookup int_of participant_of text_or get
  request_of = or_raise (lookup "revision" m) key_error >>> λ v. int_of v >>> λ revision.
      ok (record {
        task_id = task;
        role = role;
        participant_id = participant_of role m;
        model = text_or "model" "default" m;
        reasoning = get m "reasoning";
        run_id = o.new_run_id;
        expected_revision = revision;
      })

  -- the argument of `self.run_store.create`
  unfoldable pub run_metadata : LaunchRequest → TransitionResult → Fields
  unfolding get show
  run_metadata request claimed = field "task_id" (str task) (
      field "role" (str role) (
        field "participant_id" (str request.participant_id) (
          field "agent" (str o.adapter_name) (
            field "model" (str request.model) (
              field "run_id" (str o.new_run_id) (
                field "start_revision" (int claimed.output_revision) (
                  field "start_status" (str (show (get m "status")))
                    (field "status" (str "active") no_members))))))))

  -- the block of `try`, up to and with `self.run_store.create`
  unfoldable pub prepare : LaunchRequest → TransitionResult → Step (LaunchContext × RunPath)
  unfolding ◌>>=◌ pure lift read_state from_state at_clock create run_metadata
  prepare request claimed = do
    state ← read_state task
    context ← lift (from_state request state)
    dir ← at_clock (λ now. create now task o.new_run_id (run_metadata request claimed))
    pure (context, dir)

  -- its rest, with the folder in place
  unfoldable pub launch : LaunchRequest → LaunchContext × RunPath → Step ManagedProcess
  unfolding ◌>>=◌ lift on_runs write_launch_context as_dict
  launch request p = do
    on_runs (write_launch_context o.new_run_id (as_dict p.0))
    command ← lift (o.build_command request p.0)
    lift (o.start_worker command p.1)

  -- the handler of `except`: the run is finished and the lease is given up
  unfoldable pub close_run : Bool → Step (Unit {0})
  unfolding pure at_clock finish
  close_run true = at_clock (λ now. finish now o.new_run_id (pos 1) none)
  close_run false = pure tt

  unfoldable pub give_up {ℓ} : {A : Type ℓ} → Bool → Error → Step A
  unfolding ◌>>=◌ lift on_disk finish_run close_run
  give_up created e = do
    close_run created
    final ← on_disk (finish_run o.max_agent_retries task o.new_run_id (pos 1) none "exit")
    lift (err e)

  unfoldable pub launch_or_give_up :
      LaunchRequest → Result (LaunchContext × RunPath) → Step ManagedProcess
  unfolding launch give_up
  launch_or_give_up request (err e) s = give_up false e s
  launch_or_give_up request (ok p) s = elim (launch request p s).0 [
    | err e ↦ give_up true e (launch request p s).1
    | ok managed ↦ (ok managed, (launch request p s).1)
  ]

  unfoldable pub try_launch : LaunchRequest → TransitionResult → Step ManagedProcess
  unfolding prepare launch_or_give_up
  try_launch request claimed s =
      launch_or_give_up request (prepare request claimed s).0 (prepare request claimed s).1

  -- `self._active[…] = managed` and `self._start_status[…] = …`
  unfoldable pub remember : ManagedProcess → Step (Unit {0})
  unfolding insert get show
  remember managed s = (
    ok tt,
    record s {
      active = insert task managed s.active;
      start_status = insert task (show (get m "status")) s.start_status;
    },
  )

  unfoldable pub claim_key : LaunchRequest → Result ClaimKey
  unfolding int_or
  claim_key request = int_or "stage_round" (pos 1) m >>> λ round. ok (record {
    task_id = task;
    expected_revision = request.expected_revision;
    participant_id = request.participant_id;
    stage_round = round;
  })

  -- behind the claim
  unfoldable pub start_claimed : LaunchRequest → TransitionResult → Step SupervisorDecision
  unfolding ◌>>=◌ pure try_launch remember decision
  start_claimed request claimed = try_launch request claimed >>= λ managed.
      (remember managed >> pure (decision "started" task (some o.new_run_id) false))

  unfoldable pub claim_with : LaunchRequest → ClaimKey → Step SupervisorDecision
  unfolding ◌>>=◌ on_disk claim start_claimed
  claim_with request key = on_disk (claim o.quote key o.new_run_id) >>= start_claimed request

  unfoldable pub claim_and_launch : LaunchRequest → Step SupervisorDecision
  unfolding ◌>>=◌ lift claim_key claim_with
  claim_and_launch request = lift (claim_key request) >>= claim_with request

  -- from `request` on
  unfoldable pub start_run : Step SupervisorDecision
  unfolding ◌>>=◌ pure lift request_of decision claim_and_launch
  start_run = do
    request ← lift request_of
    able ← lift (o.is_noninteractive request)
    if not able
        then pure (decision "blocked" task (some o.new_run_id) false)
        else claim_and_launch request
