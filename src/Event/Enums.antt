-- ===== src/Event/Enums.antt =====
-- The enumerations of daemon/crates/athar-event/src/lib.rs. How serde spells their values is not
-- modelled.
pub data ClockSource : Type 0 where
  host shim adapter : ClockSource

pub data ResolutionStatus : Type 0 where
  verified probable possible unknown conflicted revoked : ResolutionStatus

pub data Calibration : Type 0 where
  nominal_unvalidated calibrated : Calibration

pub data EntityType : Type 0 where
  user service agent system external unknown : EntityType

pub data OperationInference : Type 0 where
  explicit business_id causation resource_id actor_context semantic temporal unknown :
      OperationInference

pub data LifecycleBinding : Type 0 where
  explicit business_id causation resource_id actor_context semantic temporal unknown :
      LifecycleBinding

pub data EntryPointType : Type 0 where
  http_endpoint queue scheduler cli webhook internal unknown : EntryPointType

pub data Origin : Type 0 where
  human system external scheduled automated unknown : Origin

pub data Trigger : Type 0 where
  user_action api_request background_job queue scheduler webhook polling database_change : Trigger
  system_rule external_processor reconciliation manual_admin_action unknown : Trigger

pub data TruthStage : Type 0 where
  observed executed authorized committed approved signed audited authoritative inferred : TruthStage
  uncertain : TruthStage

pub data TrustLevel : Type 0 where
  verified probable possible unknown conflicted : TrustLevel

pub data DegradationLevel : Type 0 where
  l0 l1 l2 l3 l4 : DegradationLevel
