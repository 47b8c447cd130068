-- ===== src/Detection/SignalConfig.antt =====
-- The configuration of the signal engine (daemon/crates/athar-detection/src/signal.rs), what it takes
-- from serde_json and from the formatting of numbers, and the reading of an event's data.
use athar.Prelude.{
  ℕ, String, Bool, true, false, not, Option, none, some, List, [], ◌∷◌, contains, any, str_eq,
  and_then, if◌then◌else◌,
}
use athar.Event.Types.{Event}
use athar.Detection.Velocity.{VelocityConfig, VelocityTracker}
use athar.Detection.Velocity
use athar.Detection.Targets.{TargetConfig, TargetTracker}
use athar.Detection.Targets

-- What an element of a JSON object is, as far as `extract_amount` looks: a number with its value as
-- an f64 where it has one, a text, or something else.
pub data Shape (F64 : Type 0) : Type 0 where
  number : Option F64 → Shape F64
  text : String → Shape F64
  other : Shape F64

pub record Formats (F32 F64 Json : Type 0) : Type 0 where
  pub field : Json → String → Option Json
  pub as_str : Json → Option String
  pub shape : Json → Shape F64
  pub parse_f64 : String → Option F64
  pub ge : F64 → F64 → Bool
  pub display : F64 → String
  pub two_digits : F64 → String
  pub decimal : ℕ → String
  pub hundredths : ℕ → F32
  pub thousand : F64
  pub text_lt : String → String → Bool

pub record CredentialStuffingConfig : Type 0 where
  pub event_types : List String
  pub outcome_field : String
  pub outcome_failed_values : List String
  pub window_ms : ℕ
  pub threshold : ℕ
  pub max_subjects : ℕ

-- `CredentialStuffingConfig::default()`.
abbrev pub default_credential_stuffing : CredentialStuffingConfig
default_credential_stuffing = record {
  event_types = "login.fail" ∷ "auth.fail" ∷ "signin.fail" ∷ [];
  outcome_field = "outcome";
  outcome_failed_values = "failed" ∷ "invalid_credentials" ∷ "unauthorized" ∷ [];
  window_ms = 60_000;
  threshold = 5;
  max_subjects = 10_000;
}

unfoldable pub as_velocity : CredentialStuffingConfig → VelocityConfig
as_velocity c = record {
  window_ms = c.window_ms;
  threshold = c.threshold;
  max_subjects = c.max_subjects;
}

pub record SignalEngineConfig (F64 : Type 0) : Type 0 where
  pub high_amount_floor : F64
  pub amount_field : String
  pub velocity : VelocityConfig
  pub targets : TargetConfig
  pub credential_stuffing : CredentialStuffingConfig

module _ {F32 F64 Json : Type 0} (fmt : Formats F32 F64 Json) where
  -- `SignalEngineConfig::default()`.
  unfoldable pub default_config : SignalEngineConfig F64
  default_config = record {
    high_amount_floor = fmt.thousand;
    amount_field = "amount";
    velocity = Velocity.default_config;
    targets = Targets.default_config;
    credential_stuffing = default_credential_stuffing;
  }

  abbrev listed : List String → Option String → Bool
  listed values none = false
  listed values (some v) = contains values v

  unfoldable pub qualifies : CredentialStuffingConfig → Event F64 Json → Bool
  qualifies c e =
      if any (λ t. str_eq t e.event_type) c.event_types
      then true
      else if not (str_eq c.outcome_field "")
      then listed c.outcome_failed_values
          (and_then (and_then e.payload (λ d. fmt.field d c.outcome_field)) fmt.as_str)
      else false

  abbrev amount_of : Shape F64 → Option F64
  amount_of (number n) = n
  amount_of (text s) = fmt.parse_f64 s
  amount_of other = none

  unfoldable pub extract_amount : Json → String → Option F64
  extract_amount payload name = and_then (fmt.field payload name) (λ v. amount_of (fmt.shape v))
