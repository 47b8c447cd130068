-- ===== src/Detection/Decision.antt =====
-- Decision records (daemon/crates/athar-detection/src/decision.rs), signal records (signal.rs) and the
-- interface of the store that keeps both (store.rs). A fresh ULID is an argument.
use Prim.Native.String.{◌++◌ as str_append}
use athar.Prelude.{ℕ, String, Bool, not, Option, List, [], ◌∷◌, length, if◌then◌else◌}
use athar.Detection.Policy.{
  SignalKind, Signal, PolicyMode, observe, challenge, enforce, Action, FailMode, fail_open,
  fail_closed, PolicyDecision,
}
use athar.Detection.Signals.{as_str}

pub record SignalRecord (F32 : Type 0) : Type 0 where
  pub signal_id : String
  pub tenant_id : String
  pub kind : SignalKind
  pub confidence : F32
  pub value : String
  pub threshold : Option String
  pub timestamp_ms : ℕ
  pub event_id : String
  pub lifecycle_id : Option String
  pub tracker_version : String

pub record DecisionSubject : Type 0 where
  pub lifecycle_id : Option String
  pub event_id : String
  pub operation_id : Option String

pub record EngineVersions : Type 0 where
  pub detector : String
  pub policy : String
  pub resolver : String

pub record DecisionRecord (F32 : Type 0) : Type 0 where
  pub decision_id : String
  pub timestamp_ms : ℕ
  pub tenant_id : String
  pub subject : DecisionSubject
  pub policies_evaluated : List PolicyDecision
  pub signals_used : List (SignalRecord F32)
  pub action : Action
  pub reason_codes : List String
  pub mode : PolicyMode
  pub fail_mode : FailMode
  pub inputs_missing : List String
  pub coverage_gaps_overlapping : List String
  pub degradation_level : String
  pub latency_us : ℕ
  pub engine_versions : EngineVersions
  pub explanation : String

-- The methods `as_str` of `PolicyMode`, `Action` and `FailMode`.
unfoldable pub mode_str : PolicyMode → String
mode_str observe = "OBSERVE"
mode_str challenge = "CHALLENGE"
mode_str enforce = "ENFORCE"

unfoldable pub action_str : Action → String
action_str Action.allow = "ALLOW"
action_str Action.challenge = "CHALLENGE"
action_str Action.restrict = "RESTRICT"
action_str Action.block = "BLOCK"
action_str Action.alert = "ALERT"

unfoldable pub fail_mode_str : FailMode → String
fail_mode_str fail_open = "OPEN"
fail_mode_str fail_closed = "CLOSED"

unfoldable pub record_from_signal :
    {F32 : Type 0}
    → String
    → Signal F32
    → String
    → String
    → Option String
    → ℕ
    → String
    → SignalRecord F32
record_from_signal ulid signal tenant_id event_id lifecycle_id now_ms tracker_version = record {
  signal_id = str_append "sig_" ulid;
  tenant_id = tenant_id;
  kind = signal.kind;
  confidence = signal.confidence;
  value = signal.value;
  threshold = signal.threshold;
  timestamp_ms = now_ms;
  event_id = event_id;
  lifecycle_id = lifecycle_id;
  tracker_version = tracker_version;
}

-- `[String]::join`.
unfoldable pub join : String → List String → String
join sep [] = ""
join sep (x ∷ []) = x
join sep (x ∷ y ∷ ys) = str_append x (str_append sep (join sep (y ∷ ys)))

infixr 6 ◌<>◌
abbrev ◌<>◌ : String → String → String
a <> b = str_append a b

-- How a number and a confidence are spelled.
module _ {F32 : Type 0} (decimal : ℕ → String) (two_digits : F32 → String) where
  unfoldable pub summaries : List (SignalRecord F32) → List String
  unfolding as_str
  summaries [] = []
  summaries (s ∷ ss) =
      (as_str s.kind <> "=" <> s.value <> " (conf " <> two_digits s.confidence <> ")")
      ∷ summaries ss

  unfoldable pub generate_explanation : PolicyDecision → List (SignalRecord F32) → String
  unfolding summaries join mode_str action_str
  generate_explanation policy signals =
      if not policy.matched
      then "policy "
        <> policy.policy_id
        <> ":v"
        <> decimal policy.policy_version
        <> " did not match; action ALLOW ("
        <> decimal (length signals)
        <> " signal(s) evaluated)"
      else "policy "
        <> policy.policy_id
        <> ":v"
        <> decimal policy.policy_version
        <> " matched in "
        <> mode_str policy.mode
        <> " mode → "
        <> action_str policy.action
        <> ". Signals: ["
        <> join ", " (summaries signals)
        <> "]. Reason codes: ["
        <> join ", " policy.reason_codes
        <> "]."

  unfoldable pub build :
      String
      → String
      → DecisionSubject
      → PolicyDecision
      → List (SignalRecord F32)
      → ℕ
      → String
      → ℕ
      → DecisionRecord F32
  unfolding generate_explanation
  build ulid tenant_id subject policy signals now_ms degradation_level latency_us = record {
    decision_id = str_append "dec_" ulid;
    timestamp_ms = now_ms;
    tenant_id = tenant_id;
    subject = subject;
    policies_evaluated = policy ∷ [];
    signals_used = signals;
    action = policy.action;
    reason_codes = policy.reason_codes;
    mode = policy.mode;
    fail_mode = fail_open;
    inputs_missing = [];
    coverage_gaps_overlapping = [];
    degradation_level = degradation_level;
    latency_us = latency_us;
    engine_versions = record {
      detector = "signal-engine-0.1.0";
      policy = "policy-engine-0.1.0";
      resolver = "lifecycle-engine-0.1.0";
    };
    explanation = generate_explanation policy signals;
  }

-- The trait `DecisionStore` over a store type `D`. A write says whether it succeeded.
pub record DecisionStore (D F32 : Type 0) : Type 0 where
  pub write_signal : D → SignalRecord F32 → D × Bool
  pub write_decision : D → DecisionRecord F32 → D × Bool
  pub get_decision : D → String → Option (DecisionRecord F32)
  pub recent_decisions : D → ℕ → List (DecisionRecord F32)
  pub count_decisions : D → ℕ
  pub count_signals : D → ℕ
