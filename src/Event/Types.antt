-- ===== src/Event/Types.antt =====
-- `Event` and the blocks that every event has (daemon/crates/athar-event/src/lib.rs). `Json` is the
-- type `serde_json::Value`. A signed or unsigned 64-bit field is a number.
use athar.Prelude.{ℕ, String, List, [], Option, none, Bool}
use athar.Prelude.Maps.{Map}
use athar.Event.Enums.{
  ClockSource, Calibration, Origin, Trigger, TruthStage, TrustLevel, DegradationLevel,
}
use athar.Event.Refs.{
  Confidence, ActorRef, ActorRefWithAuthn, CallerRef, ServiceIdentityRef, ResourceRef, OperationRef,
  LifecycleRef, EntryPoint, TechnicalContext,
}

-- An i64 is kept as its 64-bit pattern.
pub record Clock : Type 0 where
  pub source : ClockSource
  pub skew_estimate_ms : Option ℕ
  pub monotonic_seq : ℕ

pub record Provenance : Type 0 where
  pub origin : Origin
  pub trigger : Trigger
  pub source : String
  pub producer : Option String
  pub authority : Option String

pub record Truth : Type 0 where
  pub stage : TruthStage
  pub asserted_by : String
  pub adapter : Option String

pub record Trust (F64 : Type 0) : Type 0 where
  pub level : TrustLevel
  pub confidence : Confidence F64
  pub calibration : Option Calibration
  pub factors : List String

pub record Causality : Type 0 where
  pub parent_event_id : Option String
  pub causation_id : Option String
  pub correlation_id : Option String
  pub customer_correlation_ids : Map String

pub record Coverage : Type 0 where
  pub complete : Bool
  pub shed : List String
  pub redacted_fields : List String
  pub degradation_level : Option DegradationLevel

pub record Event (F64 Json : Type 0) : Type 0 where
  pub schema_version : String
  pub event_id : String
  pub event_type : String
  pub tenant_id : String
  pub timestamp : String
  pub received_at : String
  pub clock : Clock
  pub actor : Option (ActorRef F64)
  pub authenticated_principal : Option (ActorRefWithAuthn F64)
  pub caller : Option CallerRef
  pub service_identity : Option ServiceIdentityRef
  pub on_behalf_of : Option (ActorRef F64)
  pub beneficiary : Option (ActorRef F64)
  pub resource_owner : Option (ActorRef F64)
  pub resource : Option ResourceRef
  pub operation : Option (OperationRef F64)
  pub lifecycle : Option (LifecycleRef F64)
  pub entry_point : Option EntryPoint
  pub technical_context : Option TechnicalContext
  pub provenance : Provenance
  pub truth : Truth
  pub trust : Trust F64
  pub causality : Causality
  pub coverage : Coverage
  pub payload : Option Json
  pub attributes : Option Json

-- `Causality::default()`.
abbrev pub no_causality : Causality
no_causality = record {
  parent_event_id = none;
  causation_id = none;
  correlation_id = none;
  customer_correlation_ids = [];
}
