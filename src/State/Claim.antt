-- ===== src/State/Claim.antt =====
-- `ClaimKey.as_text` and `StateStore.claim` of agent_relay_runtime/state_store.py.
pub mod Effect
use Prim.Native.String.{◌++◌ as ◌<>◌}
use agent_relay_auto.Prelude.{
  String, Bool, true, false, not, ◌&&◌, Option, none, some, [], ◌∷◌, ◌==◌, if◌then◌else◌, Dict,
  show_int,
}
use agent_relay_auto.Prelude.Int.{ℤ, pos, succ_ℤ}
use agent_relay_auto.Value.{Value, int, str, get, truthy, is_int, is_str}
use agent_relay_auto.Value.Show.{show}
use agent_relay_auto.Outcome.{
  revision_conflict, store_error, Result, ok, err, ◌>>=◌, ◌>>◌, raise_if,
}
use agent_relay_auto.Markdown.{root}
use agent_relay_auto.Markdown.Write.{Updates}
use agent_relay_auto.Store.Base.{Action, Plan, update_task}
use agent_relay_auto.State.Types.{TransitionResult, ClaimKey, bump, is_in}

-- `json.dumps` with sorted keys and no spaces; `quote` is `json.dumps` of a text.
unfoldable pub claim_text : (String → String) → ClaimKey → String
unfolding show_int
claim_text quote key = String.◌∷◌ "{" (
    "\"expected_revision\":"
    <> (show_int key.expected_revision
        <> (",\"participant_id\":"
            <> (quote key.participant_id
                <> (",\"stage_round\":"
                    <> (show_int key.stage_round
                        <> (",\"task_id\":" <> (quote key.task_id <> "}"))))))))

-- A run that has been started and not been finished. The status is looked up in a set only where
-- there is a run id; a list or a mapping is not hashable.
unfoldable pub has_active_run : Dict Value → Result Bool
unfolding get truthy is_in
has_active_run m =
    if truthy (get m "run_id")
    then is_in (get m "run_status") ("starting" ∷ "running" ∷ [])
    else ok false

-- the mapping that the method writes, in its order
unfoldable pub claim_updates : (String → String) → ClaimKey → String → String → ℤ → Updates
unfolding claim_text
claim_updates quote key run now attempt =
    (root "run_id", str run)
    ∷ (root "run_status", str "running")
    ∷ (root "run_attempt", int attempt)
    ∷ (root "last_claim_key", str (claim_text quote key))
    ∷ (root "writer_session", str run)
    ∷ (root "revision", int (succ_ℤ key.expected_revision))
    ∷ (root "updated_at", str now)
    ∷ []

unfoldable pub claim_outcome : ClaimKey → Dict Value → Bool → TransitionResult
unfolding get show
claim_outcome key m replay = record {
  task_id = key.task_id;
  old_status = str (show (get m "status"));
  new_status = str (show (get m "status"));
  input_revision = key.expected_revision;
  output_revision = succ_ℤ key.expected_revision;
  idempotent_replay = replay;
}

unfoldable pub claim_plan :
    (String → String) → ClaimKey → String → String → Dict Value → Plan TransitionResult
claim_plan quote key run now m =
    if is_str (get m "last_claim_key") (claim_text quote key) && is_str (get m "run_id") run
    then ok (none, claim_outcome key m true)
    else (do
      raise_if (not (is_int (get m "revision") key.expected_revision)) revision_conflict
      active ← has_active_run m
      raise_if active store_error
      attempt ← bump "run_attempt" (pos 0) m
      ok (some (claim_updates quote key run now attempt), claim_outcome key m false))

unfoldable pub claim : (String → String) → ClaimKey → String → Action TransitionResult
unfolding claim_plan claim_updates has_active_run bump claim_outcome update_task
claim quote key run = update_task key.task_id (claim_plan quote key run)
