-- ===== src/Event/Refs.antt =====
-- The references that an event carries (daemon/crates/athar-event/src/lib.rs). `F64` is the type of
-- the program's 64-bit floats. The Rust fields `type` are called `kind` here.
use athar.Prelude.{String, List, Option}
use athar.Event.Enums.{
  ResolutionStatus, Calibration, EntityType, OperationInference, LifecycleBinding, EntryPointType,
}

-- A confidence in [0.0, 1.0].
pub record Confidence (F64 : Type 0) : Type 0 where
  pub value : F64

pub record EvidenceConflict : Type 0 where
  pub value : String
  pub source : String
  pub recorded_at : Option String

pub record ActorRef (F64 : Type 0) : Type 0 where
  pub id : Option String
  pub kind : Option EntityType
  pub namespace : Option String
  pub resolution : ResolutionStatus
  pub confidence : Option (Confidence F64)
  pub calibration : Option Calibration
  pub conflicts : List EvidenceConflict

pub record ActorRefWithAuthn (F64 : Type 0) : Type 0 where
  pub actor : ActorRef F64
  pub auth_ref : Option String

pub record CallerRef : Type 0 where
  pub application_id : Option String
  pub version : Option String
  pub platform : Option String

pub record ServiceIdentityRef : Type 0 where
  pub id : Option String
  pub auth : Option String
  pub spiffe_id : Option String

pub record ResourceRef : Type 0 where
  pub id : Option String
  pub kind : String
  pub namespace : Option String

pub record OperationRef (F64 : Type 0) : Type 0 where
  pub operation_id : Option String
  pub kind : String
  pub inference : OperationInference
  pub confidence : Confidence F64
  pub calibration : Option Calibration

pub record LifecycleRef (F64 : Type 0) : Type 0 where
  pub lifecycle_id : Option String
  pub binding : LifecycleBinding
  pub confidence : Option (Confidence F64)
  pub calibration : Option Calibration

pub record EntryPoint : Type 0 where
  pub kind : EntryPointType
  pub endpoint_id : Option String
  pub method : Option String
  pub route : Option String
  pub route_template : Option String

pub record TechnicalContext : Type 0 where
  pub application_id : Option String
  pub application_version : Option String
  pub platform : Option String
  pub module_name : Option String
  pub feature : Option String
  pub service_id : Option String
  pub service_version : Option String
  pub repository : Option String
  pub build : Option String
  pub deployment_id : Option String
  pub instance_id : Option String
  pub environment : Option String
