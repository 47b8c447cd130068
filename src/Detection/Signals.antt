-- ===== src/Detection/Signals.antt =====
-- `SignalEngine` of daemon/crates/athar-detection/src/signal.rs over the two trackers. The clock is
-- an argument, and a call is one step: the locks of its producers are not interleaved with those of
-- another call. What the code takes from serde_json and from the formatting of numbers is a record of
-- parameters.
pub mod Known
use Prim.Native.String.{◌++◌ as str_append}
use athar.Prelude.{
  ℕ, ◌++◌, String, Bool, true, false, ◌||◌, ◌&&◌, not, Option, none, some, List, [], ◌∷◌, contains,
  any, str_eq, and_then, unwrap_or, if◌then◌else◌,
}
use athar.Event.Refs.{ActorRef, ResourceRef}
use athar.Event.Types.{Event}
use athar.Detection.Policy.{
  SignalKind, new_beneficiary, high_amount, high_velocity, distinct_targets,
  credential_stuffing_pattern, Signal,
}
use athar.Detection.Velocity.{VelocityConfig, VelocityTracker}
use athar.Detection.Velocity
use athar.Detection.Targets.{TargetConfig, TargetTracker}
use athar.Detection.Targets
use athar.Detection.SignalConfig.{
  Formats, CredentialStuffingConfig, as_velocity, SignalEngineConfig, qualifies, extract_amount,
}

pub record SignalEngine (F64 : Type 0) : Type 0 where
  pub config : SignalEngineConfig F64
  pub known : List String
  pub velocity : VelocityTracker
  pub targets : TargetTracker
  pub credstuff : VelocityTracker

unfoldable pub new : {F64 : Type 0} → SignalEngineConfig F64 → SignalEngine F64
unfolding as_velocity Velocity.new Targets.new
new config = record {
  config = config;
  known = [];
  velocity = Velocity.new config.velocity;
  targets = Targets.new config.targets;
  credstuff = Velocity.new (as_velocity config.credential_stuffing);
}

unfoldable pub as_str : SignalKind → String
as_str new_beneficiary = "new_beneficiary"
as_str high_amount = "high_amount"
as_str high_velocity = "high_velocity"
as_str distinct_targets = "distinct_targets"
as_str credential_stuffing_pattern = "credential_stuffing_pattern"

abbrev pub tracker_version : String
tracker_version = "signal-engine-0.1.0"

infixr 6 ◌<>◌
abbrev ◌<>◌ : String → String → String
a <> b = str_append a b

module _ {F32 F64 Json : Type 0} (fmt : Formats F32 F64 Json) where
  abbrev pub resource_id : Event F64 Json → Option String
  resource_id e = and_then e.resource (λ r. r.id)

  -- `format!("{}:{}", event.tenant_id, rid)`.
  abbrev pub known_key : String → String → String
  known_key tenant rid = tenant <> ":" <> rid

  abbrev pub actor_id : Option (ActorRef F64) → Option String
  actor_id a = and_then a (λ r. r.id)

  unfoldable pub subject_of : Event F64 Json → String
  subject_of e = unwrap_or (actor_id e.actor) e.tenant_id

  -- The producer of `NewBeneficiary`.
  unfoldable pub see_resource :
      SignalEngine F64 → String → Option String → SignalEngine F64 × List (Signal F32)
  see_resource g tenant none = (g, [])
  see_resource g tenant (some rid) =
      let key = known_key tenant rid in
      if contains g.known key then (g, []) else (
        record g { known = key ∷ g.known },
        record {
          kind = new_beneficiary;
          confidence = fmt.hundredths 85;
          value = rid;
          threshold = none;
        }
            ∷ [],
      )

  -- The producer of `HighAmount`, with the amount of the event.
  unfoldable pub amount_signal : F64 → Option F64 → List (Signal F32)
  amount_signal floor none = []
  amount_signal floor (some amount) =
      if fmt.ge amount floor
      then record {
        kind = high_amount;
        confidence = fmt.hundredths 95;
        value = "amount=" <> fmt.display amount;
        threshold = some (">=" <> fmt.two_digits floor);
      }
        ∷ []
      else []

  -- A signal of a tracker that reports a count.
  abbrev counted : (ℕ → Signal F32) → Option ℕ → List (Signal F32)
  counted signal none = []
  counted signal (some count) = signal count ∷ []

  abbrev above : ℕ → Option String
  above n = some (">" <> fmt.decimal n)

  unfoldable pub velocity_signal : SignalEngine F64 → String → ℕ → Signal F32
  velocity_signal g subject count = record {
    kind = high_velocity;
    confidence = fmt.hundredths 90;
    value =
        "subject="
        <> subject
        <> " count="
        <> fmt.decimal count
        <> " window_ms="
        <> fmt.decimal g.config.velocity.window_ms;
    threshold = above g.config.velocity.threshold;
  }

  unfoldable pub stuffing_signal : SignalEngine F64 → String → String → ℕ → Signal F32
  stuffing_signal g subject event_type count = record {
    kind = credential_stuffing_pattern;
    confidence = fmt.hundredths 85;
    value =
        "subject="
        <> subject
        <> " failed_count="
        <> fmt.decimal count
        <> " window_ms="
        <> fmt.decimal g.config.credential_stuffing.window_ms
        <> " event_type="
        <> event_type;
    threshold = above g.config.credential_stuffing.threshold;
  }

  unfoldable pub targets_signal : SignalEngine F64 → String → ℕ → Signal F32
  targets_signal g subject count = record {
    kind = distinct_targets;
    confidence = fmt.hundredths 90;
    value =
        "subject="
        <> subject
        <> " distinct_targets="
        <> fmt.decimal count
        <> " window_ms="
        <> fmt.decimal g.config.targets.window_ms;
    threshold = above g.config.targets.threshold;
  }

  unfoldable pub see_rate : SignalEngine F64 → String → ℕ → SignalEngine F64 × List (Signal F32)
  unfolding Velocity.observe velocity_signal
  see_rate g subject now_ms =
      let (t, count) = Velocity.observe g.velocity subject now_ms in
      (record g { velocity = t }, counted (velocity_signal g subject) count)

  unfoldable pub see_failure :
      SignalEngine F64 → Event F64 Json → String → ℕ → SignalEngine F64 × List (Signal F32)
  unfolding Velocity.observe qualifies stuffing_signal
  see_failure g e subject now_ms =
      let (t, count) = Velocity.observe g.credstuff subject now_ms in
      if qualifies fmt g.config.credential_stuffing e
      then (record g { credstuff = t }, counted (stuffing_signal g subject e.event_type) count)
      else (g, [])

  unfoldable pub see_target :
      SignalEngine F64 → String → Option String → ℕ → SignalEngine F64 × List (Signal F32)
  unfolding Targets.observe targets_signal
  see_target g subject none now_ms = (g, [])
  see_target g subject (some target) now_ms =
      let (t, count) = Targets.observe fmt.text_lt g.targets subject target now_ms in
      (record g { targets = t }, counted (targets_signal g subject) count)

  unfoldable pub evaluate :
      SignalEngine F64 → Event F64 Json → ℕ → SignalEngine F64 × List (Signal F32)
  unfolding see_resource amount_signal extract_amount subject_of see_rate see_failure see_target
  evaluate g e now_ms =
      let subject = subject_of e in
      let amount = and_then e.payload (λ d. extract_amount fmt d g.config.amount_field) in
      let (g1, s1) = see_resource g e.tenant_id (resource_id e) in
      let s2 = amount_signal g.config.high_amount_floor amount in
      let (g2, s3) = see_rate g1 subject now_ms in
      let (g3, s4) = see_failure g2 e subject now_ms in
      let (g4, s5) = see_target g3 subject (actor_id e.beneficiary) now_ms in
      (g4, s1 ++ s2 ++ s3 ++ s4 ++ s5)
