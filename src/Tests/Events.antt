-- ===== src/Tests/Events.antt =====
-- Sample events, and the validation at one of them. A float is a number of thousandths here.
use athar.Prelude.{ℕ, String, [], Option, none, some, Bool, true, ◌≡◌, ◌↔◌, refl, leb}
use athar.Event.Enums.{ClockSource, Origin, Trigger, TruthStage, TrustLevel}
use athar.Event.Types.{Event, no_causality}
use athar.Event.Enums.{ResolutionStatus}
use athar.Event.Validate.{
  validate, ok, check_schema, check_nonempty, check_optional, check_actor, check_principal,
  check_trust, value_option,
}
use athar.Event.Validation.{validate_iff, PassesChecks}

abbrev pub in_unit : ℕ → Bool
in_unit n = leb n 1000

-- An event of a type, about a resource.
abbrev pub sample : String → String → Option String → Event ℕ (Unit {0})
sample event_id event_type resource = record {
  schema_version = "1.0";
  event_id = event_id;
  event_type = event_type;
  tenant_id = "tnt_a";
  timestamp = "2026-01-01T00:00:00Z";
  received_at = "2026-01-01T00:00:00Z";
  clock = record { source = ClockSource.host; skew_estimate_ms = none; monotonic_seq = 0 };
  actor = none;
  authenticated_principal = none;
  caller = none;
  service_identity = none;
  on_behalf_of = none;
  beneficiary = none;
  resource_owner = none;
  resource = some (record { id = resource; kind = "payment"; namespace = none });
  operation = none;
  lifecycle = none;
  entry_point = none;
  technical_context = none;
  provenance = record {
    origin = Origin.system;
    trigger = Trigger.webhook;
    source = "shim";
    producer = none;
    authority = none;
  };
  truth = record { stage = TruthStage.observed; asserted_by = "shim"; adapter = none };
  trust = record {
    level = TrustLevel.probable;
    confidence = record { value = 800 };
    calibration = none;
    factors = [];
  };
  causality = no_causality;
  coverage = record { complete = true; shed = []; redacted_fields = []; degradation_level = none };
  payload = none;
  attributes = none;
}

abbrev pub create_event : Event ℕ (Unit {0})
create_event = sample "evt_1" "payment.create" (some "pay_1")

abbrev pub settle_event : Event ℕ (Unit {0})
settle_event = sample "evt_2" "payment.settle" (some "pay_1")

abbrev pub retry_event : Event ℕ (Unit {0})
retry_event = sample "evt_3" "payment.retry" (some "pay_1")

-- An event that names the first one as its parent.
abbrev pub child_event : Event ℕ (Unit {0})
child_event = record (sample "evt_4" "payment.pending" none) {
  causality = record no_causality { parent_event_id = some "evt_1" };
}

validate_iff_example : (validate in_unit create_event ≡ ok) ↔ PassesChecks in_unit create_event
validate_iff_example = validate_iff in_unit create_event

-- An empty id of a resource passes.
empty_resource_id_passes : validate in_unit (sample "evt_5" "payment.create" (some "")) ≡ ok
unfolding validate check_schema check_nonempty check_optional check_principal check_trust
    value_option
empty_resource_id_passes = refl

-- So does an empty namespace of an actor.
abbrev unnamed : Event ℕ (Unit {0})
unnamed = record create_event {
  actor = some (record {
    id = some "user_1";
    kind = none;
    namespace = some "";
    resolution = ResolutionStatus.verified;
    confidence = none;
    calibration = none;
    conflicts = [];
  });
}

empty_namespace_passes : validate in_unit unnamed ≡ ok
unfolding validate check_schema check_nonempty check_optional check_actor check_principal
    check_trust value_option
empty_namespace_passes = refl
