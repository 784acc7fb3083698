-- ===== src/Tests/Reporting.antt =====
-- Ticks of the reporting coordinator with an adapter that accepts every request.
use agent_relay_auto.Reporting.Quiet.{under_way_unrequested}
use agent_relay_auto.Prelude.{String, ◌≡◌, refl, true, false, none, some, [], ◌∷◌, ◌==◌, ◌⊎◌}
use agent_relay_auto.Prelude.Int.{pos, succ_ℤ}
use agent_relay_auto.Value.{int, str, is_int}
use agent_relay_auto.Value.Show.{show}
use agent_relay_auto.Outcome.{ok}
use agent_relay_auto.Markdown.{Doc, entry}
use agent_relay_auto.Channel.{
  PlannerChannel, check_channel, save_channel, load_channel, channel_payload,
}
use agent_relay_auto.Channel.Saved.{load-save}
use agent_relay_auto.Reporting.World.{World, WakeRequest, Adapter}
use agent_relay_auto.Reporting.Tick.{Coordinator, has_status, report_after, tick, plain_event}
use agent_relay_auto.Reporting.Requests.{tick_requests}

abbrev channel : PlannerChannel
channel = record {
  participant_id = "planner-main";
  tool = "codex";
  conversation_id = "thread-1";
  project_path = "/repo";
  registered_at = "2026-01-01T00:00:00+00:00";
}

abbrev same : String → String
same s = s

load-save_example :
    (load_channel
        (λ s. s == "")
        same
        "/repo"
        (some (some (channel_payload (λ s. s == "") same channel)))
      ≡ ok (some channel))
    × ((same channel.project_path == same "/repo") ≡ true)
unfolding check_channel save_channel
load-save_example = load-save (λ s. s == "") same "/repo" channel _ refl refl

abbrev accepting : Adapter
accepting = record {
  submit_report = λ c r d. (
    ok (record {
      wake_key = r.wake_key;
      tool = c.tool;
      conversation_id = c.conversation_id;
      remote_id = "turn-1";
    }),
    d,
  );
  reconcile = none;
  observe = λ r d. (ok (record { status = "active"; detail = "" }), d);
  present = λ c d. (ok tt, d);
}

abbrev coordinator : Coordinator
coordinator = record {
  repo = "/repo";
  policy = record {
    enabled = true;
    model_retry_limit = 1;
    presentation_retry_limit = 3;
    presentation_retry_interval_seconds = 10;
  };
  adapter_factory = λ tool. ok accepting;
  blank = λ s. s == "";
  resolve = same;
  digest = same;
  cut = λ n s. s;
  display = λ v. "";
  describe = λ e. "";
}

abbrev task : Doc
task =
    entry "task" (str "T-1")
    ∷ entry "status" (str "REPORTING")
    ∷ entry "revision" (int (pos 9))
    ∷ entry "current_role" (str "planner")
    ∷ entry "current_participant" (str "planner-main")
    ∷ entry "review_ref" (str "review.md")
    ∷ entry "delivery_id" (str "delivery-1")
    ∷ []

abbrev world : World
world = record {
  disk = record {
    locked = false;
    project = none;
    tasks = ("T-1", task) ∷ [];
    transactions = none;
    clock = "2026-01-01T00:00:00+00:00";
    files = [];
  };
  journal = [];
  channel = some (some (channel_payload (λ s. s == "") same channel));
  now = 100;
  requests = [];
}

-- the first tick requests the wake, the second observes it
first_tick : (tick coordinator "T-1" world).0.action ≡ "report_submitted"
unfolding tick channel_payload is_int succ_ℤ
first_tick = refl

second_tick : (tick coordinator "T-1" (tick coordinator "T-1" world).1).0.action ≡ "report_active"
unfolding tick channel_payload is_int succ_ℤ show
second_tick = refl

under_way_unrequested_example :
    (report_after coordinator "T-1" channel accepting
      (str "k")
      (pos 10)
      (some (plain_event (str "k") "submitting" (pos 1)))
      world).1.requests
    ≡ []
unfolding has_status plain_event
under_way_unrequested_example =
    under_way_unrequested coordinator "T-1" channel accepting (str "k") (pos 10)
      (plain_event (str "k") "submitting" (pos 1)) world refl

tick_requests_example :
    ((tick coordinator "T-1" world).1.requests ≡ [])
    ⊎ ((r : WakeRequest) × ((tick coordinator "T-1" world).1.requests ≡ r ∷ []))
tick_requests_example = tick_requests coordinator "T-1" world
