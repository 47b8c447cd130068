-- ===== src/Event/Validate.antt =====
-- `Event::validate` with `check_nonempty` and `check_actor`
-- (daemon/crates/athar-event/src/lib.rs). `in_unit` is the range test `(0.0..=1.0).contains`.
use athar.Prelude.{String, List, [], ◌∷◌, Option, none, some, Bool, str_eq, contains, if◌then◌else◌}
use athar.Event.Refs.{Confidence, ActorRef, ActorRefWithAuthn}
use athar.Event.Types.{Event}

pub data ValidationError (F64 : Type 0) : Type 0 where
  schema_version_mismatch : String → String → ValidationError F64
  missing_required : String → ValidationError F64
  empty_string_for_unknown : String → ValidationError F64
  reserved_unknown_token : String → String → ValidationError F64
  confidence_out_of_range : String → F64 → ValidationError F64

pub data Checked (F64 : Type 0) : Type 0 where
  ok : Checked F64
  err : ValidationError F64 → Checked F64

-- The operator `?` on a check: the next check runs if this one passes.
infixl 5 ◌>>◌
abbrev pub ◌>>◌ : {F64 : Type 0} → Checked F64 → Checked F64 → Checked F64
ok >> k = k
err e >> k = err e

abbrev pub schema_version : String
schema_version = "1.0"

abbrev pub reserved_unknown_tokens : List String
reserved_unknown_tokens = "unknown" ∷ "UNKNOWN" ∷ "null" ∷ "None" ∷ "-" ∷ []

unfoldable pub check_nonempty : {F64 : Type 0} → String → String → Checked F64
check_nonempty field value =
    if str_eq value ""
    then err (missing_required field)
    else if contains reserved_unknown_tokens value
    then err (reserved_unknown_token field value)
    else ok

unfoldable pub check_actor : {F64 : Type 0} → String → ActorRef F64 → Checked F64
check_actor field actor = elim actor.id [
  | none ↦ ok
  | some id ↦
      if str_eq id ""
      then err (empty_string_for_unknown field)
      else if contains reserved_unknown_tokens id
      then err (reserved_unknown_token field id)
      else ok
]

-- `if let Some(a) = ... { check_actor(...)? }`.
unfoldable pub check_optional : {F64 : Type 0} → String → Option (ActorRef F64) → Checked F64
check_optional field none = ok
check_optional field (some a) = check_actor field a

unfoldable pub value_option : {F64 : Type 0} → Confidence F64 → Option F64
value_option c = some c.value

unfoldable pub check_trust : {F64 : Type 0} → (F64 → Bool) → Option F64 → Checked F64
check_trust in_unit none = ok
check_trust in_unit (some t) =
    if in_unit t then ok else err (confidence_out_of_range "trust.confidence" t)

unfoldable pub check_principal : {F64 : Type 0} → Option (ActorRefWithAuthn F64) → Checked F64
check_principal none = ok
check_principal (some a) = check_actor "authenticated_principal" a.actor

unfoldable pub check_schema : {F64 : Type 0} → String → Checked F64
check_schema got =
    if str_eq got schema_version then ok else err (schema_version_mismatch schema_version got)

unfoldable pub validate : {F64 Json : Type 0} → (F64 → Bool) → Event F64 Json → Checked F64
unfolding check_optional value_option check_trust check_principal check_schema
validate in_unit e = do
  check_schema e.schema_version
  check_nonempty "event_id" e.event_id
  check_nonempty "event_type" e.event_type
  check_nonempty "tenant_id" e.tenant_id
  check_nonempty "timestamp" e.timestamp
  check_nonempty "received_at" e.received_at
  check_optional "actor" e.actor
  check_optional "on_behalf_of" e.on_behalf_of
  check_optional "beneficiary" e.beneficiary
  check_optional "resource_owner" e.resource_owner
  check_principal e.authenticated_principal
  check_trust in_unit (value_option e.trust.confidence)
