-- ===== src/Tests/Config.antt =====
-- A policy file with two sections.
use agent_relay_auto.Prelude.{◌≡◌, refl, true, false, some, List, [], ◌∷◌, map}
use agent_relay_auto.Prelude.Int.{pos, negsuc}
use agent_relay_auto.Config.Sections.{PolicyLine, flag, whole, decimal, text, scalar_of}
use agent_relay_auto.Config.Policies.{RuntimeConfig, load_runtime_config, seconds}
use agent_relay_auto.Config.Valid.{Accepted, load_runtime_config-Accepted}

abbrev file : List PolicyLine
file =
    record { indent = 0; key = "cost_control"; value = "" }
    ∷ record { indent = 2; key = "mode"; value = "economy" }
    ∷ record { indent = 2; key = "warn_after_agent_runs"; value = "4" }
    ∷ record { indent = 0; key = "runtime"; value = "" }
    ∷ record { indent = 2; key = "heartbeat_interval_seconds"; value = "2.5" }
    ∷ []

abbrev config : RuntimeConfig
config = record {
  policy = record {
    max_rework_rounds = 3;
    max_auto_replans = 1;
    max_agent_retries = 1;
    allow_same_role_fallback = flag false;
  };
  cost = record {
    mode = "economy";
    warn_after_agent_runs = 4;
    stop_after_agent_runs = 12;
    require_confirmation_after_warning = flag false;
    record_provider_usage = flag true;
  };
  limits = record {
    agent_timeout_minutes = seconds (pos 30);
    heartbeat_interval_seconds = record { mantissa = pos 25; places = 1 };
    heartbeat_stale_seconds = seconds (pos 45);
    interrupt_grace_seconds = seconds (pos 30);
  };
  reporting = record {
    enabled = flag true;
    poll_interval_seconds = seconds (pos 45);
    reopen_original_conversation = flag true;
    launch_application_if_closed = flag true;
    require_same_conversation = flag true;
    model_retry_limit = 1;
    presentation_retry_limit = 3;
    presentation_retry_interval_seconds = seconds (pos 10);
  };
}

load_runtime_config-Accepted_example : Accepted config
unfolding load_runtime_config
load_runtime_config-Accepted_example = load_runtime_config-Accepted (some file) config refl

-- numbers as Python reads them, and texts that are none
scalars :
    map scalar_of ("2.5" ∷ "-.5e1" ∷ "1_0.2_5" ∷ "+7" ∷ "1_000" ∷ [])
    ≡ decimal (record { mantissa = pos 25; places = 1 })
      ∷ decimal (record { mantissa = negsuc 49; places = 1 })
      ∷ decimal (record { mantissa = pos 1025; places = 2 })
      ∷ whole (pos 7)
      ∷ whole (pos 1000)
      ∷ []
unfolding scalar_of
scalars = refl

no_scalars :
    map scalar_of ("." ∷ "1._5" ∷ "1.5e" ∷ "1.2.3" ∷ "1__0" ∷ "-" ∷ [])
    ≡ text "." ∷ text "1._5" ∷ text "1.5e" ∷ text "1.2.3" ∷ text "1__0" ∷ text "-" ∷ []
unfolding scalar_of
no_scalars = refl
