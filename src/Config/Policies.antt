-- ===== src/Config/Policies.antt =====
-- The policies of agent_relay_runtime/config.py with their checks, and `load_runtime_config`.
use agent_relay_auto.Prelude.{
  ℕ, zero, suc, ◌*◌, String, Bool, true, false, Option, none, some, List, [], ◌∷◌, if◌then◌else◌,
  Dict, lookup, elem, leb, ltb,
}
use agent_relay_auto.Prelude.Int.{ℤ, pos, negsuc, pos_part}
use agent_relay_auto.Outcome.{value_error, type_error, Result, ok, err, ◌>>=◌, ◌>>◌, raise_if}
use agent_relay_auto.Config.Sections.{
  Decimal, PolicyLine, Scalar, Section, decimal, flag, policy_sections, section_at, text, whole,
}

-- The four policies. What is not checked keeps the value that was read.
pub record AutomationPolicy : Type 0 where
  pub max_rework_rounds : ℕ
  pub max_auto_replans : ℕ
  pub max_agent_retries : ℕ
  pub allow_same_role_fallback : Scalar

pub record CostControl : Type 0 where
  pub mode : String
  pub warn_after_agent_runs : ℕ
  pub stop_after_agent_runs : ℕ
  pub require_confirmation_after_warning : Scalar
  pub record_provider_usage : Scalar

pub record RuntimeLimits : Type 0 where
  pub agent_timeout_minutes : Decimal
  pub heartbeat_interval_seconds : Decimal
  pub heartbeat_stale_seconds : Decimal
  pub interrupt_grace_seconds : Decimal

pub record ReportingSettings : Type 0 where
  pub enabled : Scalar
  pub poll_interval_seconds : Decimal
  pub reopen_original_conversation : Scalar
  pub launch_application_if_closed : Scalar
  pub require_same_conversation : Scalar
  pub model_retry_limit : ℕ
  pub presentation_retry_limit : ℕ
  pub presentation_retry_interval_seconds : Decimal

pub record RuntimeConfig : Type 0 where
  pub policy : AutomationPolicy
  pub cost : CostControl
  pub limits : RuntimeLimits
  pub reporting : ReportingSettings

-- a keyword that is no field is a TypeError
unfoldable pub only_fields : List String → Section → Result (Unit {0})
unfolding elem
only_fields names [] = ok tt
only_fields names ((k, v) ∷ m) = if elem k names then only_fields names m else err type_error

unfoldable pub given : String → Scalar → Section → Scalar
unfolding lookup
given k default m = elim (lookup k m) [ none ↦ default | some v ↦ v ]

-- an integer that is no Boolean and not below the bound
unfoldable pub at_least : ℕ → Scalar → Result ℕ
at_least low (whole (pos n)) = if leb low n then ok n else err value_error
at_least low _ = err value_error

unfoldable pub is_positive : ℤ → Bool
is_positive (pos n) = ltb 0 n
is_positive (negsuc n) = false

abbrev pub seconds : ℤ → Decimal
seconds i = record { mantissa = i; places = 0 }

-- a positive integer or decimal
unfoldable pub positive : Scalar → Result Decimal
unfolding is_positive
positive (whole i) = if is_positive i then ok (seconds i) else err value_error
positive (decimal d) = if is_positive d.mantissa then ok d else err value_error
positive _ = err value_error

unfoldable pub ten_to : ℕ → ℕ
ten_to zero = 1
ten_to (suc n) = 10 * ten_to n

-- `a <= b` of positive numbers
unfoldable pub leb_decimal : Decimal → Decimal → Bool
unfolding ten_to
leb_decimal a b =
    leb (pos_part a.mantissa * ten_to b.places) (pos_part b.mantissa * ten_to a.places)

abbrev pub automation_fields : List String
automation_fields =
    "max_rework_rounds" ∷ "max_auto_replans" ∷ "max_agent_retries" ∷ "allow_same_role_fallback" ∷ []

unfoldable pub automation_policy : Section → Result AutomationPolicy
unfolding only_fields at_least given
automation_policy m = do
  only_fields automation_fields m
  rework ← at_least 0 (given "max_rework_rounds" (whole (pos 3)) m)
  replans ← at_least 0 (given "max_auto_replans" (whole (pos 1)) m)
  retries ← at_least 0 (given "max_agent_retries" (whole (pos 1)) m)
  ok (record {
    max_rework_rounds = rework;
    max_auto_replans = replans;
    max_agent_retries = retries;
    allow_same_role_fallback = given "allow_same_role_fallback" (flag false) m;
  })

-- `self.mode not in {…}`
unfoldable pub cost_mode : Scalar → Result String
unfolding elem
cost_mode (text s) =
    if elem s ("economy" ∷ "balanced" ∷ "quality" ∷ "custom" ∷ []) then ok s else err value_error
cost_mode _ = err value_error

abbrev pub cost_fields : List String
cost_fields =
    "mode" ∷ "warn_after_agent_runs" ∷ "stop_after_agent_runs"
    ∷ "require_confirmation_after_warning" ∷ "record_provider_usage" ∷ []

unfoldable pub cost_control : Section → Result CostControl
unfolding only_fields at_least given cost_mode
cost_control m = do
  only_fields cost_fields m
  mode ← cost_mode (given "mode" (text "balanced") m)
  warn ← at_least 1 (given "warn_after_agent_runs" (whole (pos 8)) m)
  stop ← at_least 1 (given "stop_after_agent_runs" (whole (pos 12)) m)
  raise_if (ltb stop warn) value_error
  ok (record {
    mode = mode;
    warn_after_agent_runs = warn;
    stop_after_agent_runs = stop;
    require_confirmation_after_warning = given "require_confirmation_after_warning" (flag false) m;
    record_provider_usage = given "record_provider_usage" (flag true) m;
  })

abbrev pub limit_fields : List String
limit_fields =
    "agent_timeout_minutes" ∷ "heartbeat_interval_seconds" ∷ "heartbeat_stale_seconds"
    ∷ "interrupt_grace_seconds" ∷ []

unfoldable pub runtime_limits : Section → Result RuntimeLimits
unfolding only_fields positive given leb_decimal
runtime_limits m = do
  only_fields limit_fields m
  timeout ← positive (given "agent_timeout_minutes" (whole (pos 30)) m)
  interval ← positive (given "heartbeat_interval_seconds" (whole (pos 10)) m)
  stale ← positive (given "heartbeat_stale_seconds" (whole (pos 45)) m)
  grace ← positive (given "interrupt_grace_seconds" (whole (pos 30)) m)
  raise_if (leb_decimal stale interval) value_error
  ok (record {
    agent_timeout_minutes = timeout;
    heartbeat_interval_seconds = interval;
    heartbeat_stale_seconds = stale;
    interrupt_grace_seconds = grace;
  })

abbrev pub reporting_fields : List String
reporting_fields =
    "enabled" ∷ "poll_interval_seconds" ∷ "reopen_original_conversation"
    ∷ "launch_application_if_closed" ∷ "require_same_conversation" ∷ "model_retry_limit"
    ∷ "presentation_retry_limit" ∷ "presentation_retry_interval_seconds" ∷ []

unfoldable pub reporting_settings : Section → Result ReportingSettings
unfolding only_fields positive at_least given
reporting_settings m = do
  only_fields reporting_fields m
  poll ← positive (given "poll_interval_seconds" (whole (pos 45)) m)
  retry ← positive (given "presentation_retry_interval_seconds" (whole (pos 10)) m)
  model ← at_least 0 (given "model_retry_limit" (whole (pos 1)) m)
  shown ← at_least 0 (given "presentation_retry_limit" (whole (pos 3)) m)
  ok (record {
    enabled = given "enabled" (flag true) m;
    poll_interval_seconds = poll;
    reopen_original_conversation = given "reopen_original_conversation" (flag true) m;
    launch_application_if_closed = given "launch_application_if_closed" (flag true) m;
    require_same_conversation = given "require_same_conversation" (flag true) m;
    model_retry_limit = model;
    presentation_retry_limit = shown;
    presentation_retry_interval_seconds = retry;
  })

-- the four policies of the sections, in the order of the code
unfoldable pub config_of : Dict Section → Result RuntimeConfig
unfolding section_at automation_policy cost_control runtime_limits reporting_settings
config_of sections = do
  policy ← automation_policy (section_at "automation" sections)
  cost ← cost_control (section_at "cost_control" sections)
  limits ← runtime_limits (section_at "runtime" sections)
  reporting ← reporting_settings (section_at "reporting" sections)
  ok (record { policy = policy; cost = cost; limits = limits; reporting = reporting })

-- `load_runtime_config`: the defaults where there is no file
unfoldable pub load_runtime_config : Option (List PolicyLine) → Result RuntimeConfig
unfolding config_of policy_sections
load_runtime_config none = config_of []
load_runtime_config (some lines) = config_of (policy_sections lines)
