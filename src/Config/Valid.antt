-- ===== src/Config/Valid.antt =====
-- What a configuration that config.py accepts guarantees.
use mathlib.Core.Path.{subst}
use agent_relay_auto.Prelude.{
  ℕ, ◌≤◌, String, ◌≡◌, sym, ap, ◌∙◌, true, false, Option, none, some, List, [], ◌∷◌, arith, elem,
  inl, inr, Bool-cases, Dict,
}
use agent_relay_auto.Prelude.Int.{pos}
use agent_relay_auto.Outcome.{ok, Result-cases}
use agent_relay_auto.Config.Sections.{
  PolicyLine, Scalar, whole, flag, text, decimal, Decimal, Section, section_at, policy_sections,
}
use agent_relay_auto.Config.Policies.{
  CostControl, RuntimeLimits, ReportingSettings, RuntimeConfig, only_fields, given, at_least,
  positive, is_positive, leb_decimal, cost_mode, cost_control, runtime_limits, reporting_settings,
  automation_policy, config_of, load_runtime_config, seconds, cost_fields, limit_fields,
  reporting_fields,
}

at_least-le : (low : ℕ) (v : Scalar) (n : ℕ) → at_least low v ≡ ok n → low ≤ n
unfolding at_least
at_least-le low (whole (pos m)) n h = ground arith
at_least-le low (whole _) n h = absurd (ground arith)
at_least-le low (flag b) n h = absurd (ground arith)
at_least-le low (decimal d) n h = absurd (ground arith)
at_least-le low (text s) n h = absurd (ground arith)

positive-is_positive :
    (v : Scalar) (d : Decimal) → positive v ≡ ok d → is_positive d.mantissa ≡ true
unfolding positive
positive-is_positive (whole i) d h = elim (Bool-cases (is_positive i)) [
  | inl b ↦
      let same : seconds i ≡ d = ground arith in
      ap (λ (x : Decimal). is_positive x.mantissa) (sym same) ∙ b
  | inr b ↦ absurd (ground arith)
]
positive-is_positive (decimal e) d h = elim (Bool-cases (is_positive e.mantissa)) [
  | inl b ↦
      let same : e ≡ d = ground arith in ap (λ (x : Decimal). is_positive x.mantissa) (sym same) ∙ b
  | inr b ↦ absurd (ground arith)
]
positive-is_positive (flag b) d h = absurd (ground arith)
positive-is_positive (text s) d h = absurd (ground arith)

-- the cost modes
abbrev pub modes : List String
modes = "economy" ∷ "balanced" ∷ "quality" ∷ "custom" ∷ []

cost_mode-elem : (v : Scalar) (s : String) → cost_mode v ≡ ok s → elem s modes ≡ true
unfolding cost_mode
cost_mode-elem (text t) s h = elim (Bool-cases (elem t modes)) [
  | inl b ↦ let same : t ≡ s = ground arith in ap (λ x. elem x modes) (sym same) ∙ b
  | inr b ↦ absurd (ground arith)
]
cost_mode-elem (whole i) s h = absurd (ground arith)
cost_mode-elem (flag b) s h = absurd (ground arith)
cost_mode-elem (decimal d) s h = absurd (ground arith)

cost_control-valid :
    (m : Section) (c : CostControl)
    → cost_control m ≡ ok c
    → (elem c.mode modes ≡ true)
      × (1 ≤ c.warn_after_agent_runs)
      × (c.warn_after_agent_runs ≤ c.stop_after_agent_runs)
unfolding cost_control
cost_control-valid m c h = elim (Result-cases (only_fields cost_fields m)) [
  | inl (e, qu) ↦ absurd (ground arith)
  | inr (u, qu) ↦ elim (Result-cases (cost_mode (given "mode" (text "balanced") m))) [
    | inl (e, qmode) ↦ absurd (ground arith)
    | inr (mode, qmode) ↦
        elim (Result-cases (at_least 1 (given "warn_after_agent_runs" (whole (pos 8)) m))) [
          | inl (e, qwarn) ↦ absurd (ground arith)
          | inr (warn, qwarn) ↦
              elim (Result-cases (at_least 1 (given "stop_after_agent_runs" (whole (pos 12)) m))) [
                | inl (e, qstop) ↦ absurd (ground arith)
                | inr (stop, qstop) ↦
                    let one : mode ≡ c.mode = ground arith in
                    let two : warn ≡ c.warn_after_agent_runs = ground arith in
                    (
                      subst (λ x. elem x modes ≡ true) one
                          (cost_mode-elem (given "mode" (text "balanced") m) mode qmode),
                      subst (λ n. 1 ≤ n) two
                          (at_least-le 1 (given "warn_after_agent_runs" (whole (pos 8)) m) warn
                            qwarn),
                      ground arith,
                    )
              ]
        ]
  ]
]

runtime_limits-valid :
    (m : Section) (c : RuntimeLimits)
    → runtime_limits m ≡ ok c
    → (is_positive c.agent_timeout_minutes.mantissa ≡ true)
      × (is_positive c.heartbeat_interval_seconds.mantissa ≡ true)
      × (is_positive c.interrupt_grace_seconds.mantissa ≡ true)
      × (leb_decimal c.heartbeat_stale_seconds c.heartbeat_interval_seconds ≡ false)
unfolding runtime_limits
runtime_limits-valid m c h = elim (Result-cases (only_fields limit_fields m)) [
  | inl (e, qu) ↦ absurd (ground arith)
  | inr (u, qu) ↦
      elim (Result-cases (positive (given "agent_timeout_minutes" (whole (pos 30)) m))) [
        | inl (e, qtimeout) ↦ absurd (ground arith)
        | inr (timeout, qtimeout) ↦
            elim (Result-cases (positive (given "heartbeat_interval_seconds" (whole (pos 10)) m))) [
              | inl (e, qinterval) ↦ absurd (ground arith)
              | inr (interval, qinterval) ↦
                  elim (Result-cases
                    (positive (given "heartbeat_stale_seconds" (whole (pos 45)) m))) [
                      | inl (e, qstale) ↦ absurd (ground arith)
                      | inr (stale, qstale) ↦
                          elim (Result-cases
                            (positive (given "interrupt_grace_seconds" (whole (pos 30)) m))) [
                              | inl (e, qgrace) ↦ absurd (ground arith)
                              | inr (grace, qgrace) ↦
                                  elim (Bool-cases (leb_decimal stale interval)) [
                                    | inl late ↦ absurd (ground arith)
                                    | inr live ↦
                                        let one : timeout ≡ c.agent_timeout_minutes =
                                          ground arith in
                                        let two : interval ≡ c.heartbeat_interval_seconds =
                                          ground arith in
                                        let three : grace ≡ c.interrupt_grace_seconds =
                                          ground arith in
                                        let four : stale ≡ c.heartbeat_stale_seconds =
                                          ground arith in
                                        let IsPositive : Decimal → Type 0 =
                                          λ d. is_positive d.mantissa ≡ true in
                                        (
                                          subst IsPositive one (
                                              positive-is_positive
                                                (given "agent_timeout_minutes" (whole (pos 30)) m)
                                                timeout qtimeout),
                                          subst IsPositive two (
                                              positive-is_positive
                                                (given "heartbeat_interval_seconds" (whole (pos 10))
                                                  m)
                                                interval qinterval),
                                          subst IsPositive three (
                                              positive-is_positive
                                                (given "interrupt_grace_seconds" (whole (pos 30)) m)
                                                grace qgrace),
                                          ap (λ d. leb_decimal d c.heartbeat_interval_seconds)
                                                (sym four)
                                              ∙ (ap (leb_decimal stale) (sym two) ∙ live),
                                        )
                                  ]
                            ]
                    ]
            ]
      ]
]

reporting_settings-valid :
    (m : Section) (c : ReportingSettings)
    → reporting_settings m ≡ ok c
    → (is_positive c.poll_interval_seconds.mantissa ≡ true)
      × (is_positive c.presentation_retry_interval_seconds.mantissa ≡ true)
unfolding reporting_settings
reporting_settings-valid m c h = elim (Result-cases (only_fields reporting_fields m)) [
  | inl (e, qu) ↦ absurd (ground arith)
  | inr (u, qu) ↦
      elim (Result-cases (positive (given "poll_interval_seconds" (whole (pos 45)) m))) [
        | inl (e, qpoll) ↦ absurd (ground arith)
        | inr (poll, qpoll) ↦
            elim (Result-cases
              (positive (given "presentation_retry_interval_seconds" (whole (pos 10)) m))) [
                | inl (e, qretry) ↦ absurd (ground arith)
                | inr (retry, qretry) ↦
                    elim (Result-cases (at_least 0 (given "model_retry_limit" (whole (pos 1)) m))) [
                      | inl (e, qmodel) ↦ absurd (ground arith)
                      | inr (model, qmodel) ↦
                          elim (Result-cases
                            (at_least 0 (given "presentation_retry_limit" (whole (pos 3)) m))) [
                              | inl (e, qshown) ↦ absurd (ground arith)
                              | inr (shown, qshown) ↦
                                  let one : poll ≡ c.poll_interval_seconds = ground arith in
                                  let two : retry ≡ c.presentation_retry_interval_seconds =
                                    ground arith in
                                  let IsPositive : Decimal → Type 0 =
                                    λ d. is_positive d.mantissa ≡ true in
                                  (
                                    subst IsPositive one (
                                        positive-is_positive
                                          (given "poll_interval_seconds" (whole (pos 45)) m) poll
                                          qpoll),
                                    subst IsPositive two (
                                        positive-is_positive
                                          (given "presentation_retry_interval_seconds"
                                            (whole (pos 10)) m)
                                          retry qretry),
                                  )
                            ]
                    ]
              ]
      ]
]

-- What an accepted configuration guarantees.
pub record Accepted (c : RuntimeConfig) : Type 0 where
  mode : elem c.cost.mode modes ≡ true
  warns : 1 ≤ c.cost.warn_after_agent_runs
  stops : c.cost.warn_after_agent_runs ≤ c.cost.stop_after_agent_runs
  timeout : is_positive c.limits.agent_timeout_minutes.mantissa ≡ true
  interval : is_positive c.limits.heartbeat_interval_seconds.mantissa ≡ true
  grace : is_positive c.limits.interrupt_grace_seconds.mantissa ≡ true
  fresh : leb_decimal c.limits.heartbeat_stale_seconds c.limits.heartbeat_interval_seconds ≡ false
  poll : is_positive c.reporting.poll_interval_seconds.mantissa ≡ true
  retry : is_positive c.reporting.presentation_retry_interval_seconds.mantissa ≡ true

config_of-Accepted :
    (sections : Dict Section) (c : RuntimeConfig) → config_of sections ≡ ok c → Accepted c
unfolding config_of
config_of-Accepted sections c h =
    let m0 = section_at "automation" sections in
    let m1 = section_at "cost_control" sections in
    let m2 = section_at "runtime" sections in
    let m3 = section_at "reporting" sections in
    elim (Result-cases (automation_policy m0)) [
      | inl (e, q) ↦ absurd (ground arith)
      | inr (policy, q) ↦ elim (Result-cases (cost_control m1)) [
        | inl (e, q1) ↦ absurd (ground arith)
        | inr (cost, q1) ↦ elim (Result-cases (runtime_limits m2)) [
          | inl (e, q2) ↦ absurd (ground arith)
          | inr (limits, q2) ↦ elim (Result-cases (reporting_settings m3)) [
            | inl (e, q3) ↦ absurd (ground arith)
            | inr (reporting, q3) ↦
                let (mode, warns, stops) = cost_control-valid m1 cost q1 in
                let (timeout, interval, grace, fresh) = runtime_limits-valid m2 limits q2 in
                let (poll, retry) = reporting_settings-valid m3 reporting q3 in
                let all : record {
                  policy = policy;
                  cost = cost;
                  limits = limits;
                  reporting = reporting;
                }
                    ≡ c =
                  ground arith in
                subst Accepted all (record {
                  mode = mode;
                  warns = warns;
                  stops = stops;
                  timeout = timeout;
                  interval = interval;
                  grace = grace;
                  fresh = fresh;
                  poll = poll;
                  retry = retry;
                })
          ]
        ]
      ]
    ]

-- A configuration that `load_runtime_config` returns, from whatever file, has a known cost mode, stops
-- no earlier than it warns, and has positive times, of which the heartbeat is stale only after more
-- than its interval.
pub load_runtime_config-Accepted :
    (file : Option (List PolicyLine)) (c : RuntimeConfig)
    → load_runtime_config file ≡ ok c
    → Accepted c
unfolding load_runtime_config
load_runtime_config-Accepted none c h = config_of-Accepted [] c h
load_runtime_config-Accepted (some lines) c h = config_of-Accepted (policy_sections lines) c h
