-- ===== src/Event/Validation.antt =====
-- What the validation of an event asks for.
use athar.Prelude.{
  String, Option, none, some, Bool, true, false, ◌≡◌, ◌≢◌, ◌↔◌, refl, arith, contains, eq_iff,
  Option-cases, inl, inr,
}
use athar.Event.Refs.{ActorRef, ActorRefWithAuthn}
use athar.Event.Types.{Event}
use athar.Event.Validate.{
  Checked, ok, err, ◌>>◌, schema_version, reserved_unknown_tokens, check_nonempty, check_actor,
  check_optional, check_principal, check_trust, check_schema, value_option, validate,
}

-- A text that stands for itself: neither empty nor one of the reserved spellings of "unknown".
abbrev pub IsProper : String → Type 0
IsProper s = (s ≢ "") × (contains reserved_unknown_tokens s ≡ false)

-- The actor is absent, has no id, or has a proper one.
abbrev pub ProperActor : {F64 : Type 0} → Option (ActorRef F64) → Type 0
ProperActor none = Unit {0}
ProperActor (some a) = (id : String) → a.id ≡ some id → IsProper id

abbrev pub principal_actor : {F64 : Type 0} → Option (ActorRefWithAuthn F64) → Option (ActorRef F64)
principal_actor none = none
principal_actor (some a) = some a.actor

-- What the validation looks at. The other identifiers of an event, such as an actor's namespace and the
-- id of a resource, are not among it, although the crate's documentation says that every identifier that
-- is present is checked.
pub record PassesChecks {F64 Json : Type 0} (in_unit : F64 → Bool) (e : Event F64 Json)
    : Type 0 where
  pub schema : e.schema_version ≡ schema_version
  pub event_id : IsProper e.event_id
  pub event_type : IsProper e.event_type
  pub tenant_id : IsProper e.tenant_id
  pub timestamp : IsProper e.timestamp
  pub received_at : IsProper e.received_at
  pub actor : ProperActor e.actor
  pub on_behalf_of : ProperActor e.on_behalf_of
  pub beneficiary : ProperActor e.beneficiary
  pub resource_owner : ProperActor e.resource_owner
  pub principal : ProperActor (principal_actor e.authenticated_principal)
  pub confidence : in_unit e.trust.confidence.value ≡ true

check_nonempty_iff :
    {F64 : Type 0} (field value : String)
    → (check_nonempty {F64 = F64} field value ≡ ok) ↔ IsProper value
unfolding check_nonempty
check_nonempty_iff field value =
    (λ h. ground (arith, eq_iff value ""), λ h. ground (arith, eq_iff value ""))

then_iff : {F64 : Type 0} (a b : Checked F64) → ((a >> b) ≡ ok) ↔ ((a ≡ ok) × (b ≡ ok))
then_iff ok b = (λ h. (refl, h), λ h. h.1)
then_iff (err e) b = (λ h. cc, λ h. cc)

check_schema_iff :
    {F64 : Type 0} (got : String) → (check_schema {F64 = F64} got ≡ ok) ↔ (got ≡ schema_version)
unfolding check_schema
check_schema_iff got =
    (λ h. ground (arith, eq_iff got schema_version), λ h. ground (arith, eq_iff got schema_version))

check_actor_iff :
    {F64 : Type 0} (field : String) (a : ActorRef F64)
    → (check_actor field a ≡ ok) ↔ ((id : String) → a.id ≡ some id → IsProper id)
unfolding check_actor
check_actor_iff field a = elim (Option-cases a.id) [
  | inl absent ↦ rw (absent, check_actor) (λ h id e. cc, λ h. refl)
  | inr (x, present) ↦
      rw (present, check_actor)
        (
          λ h id e. ground (arith, eq_iff x "", eq_iff id ""),
          λ h. ground (arith, h x refl, eq_iff x ""),
        )
]

check_optional_iff :
    {F64 : Type 0} (field : String) (a : Option (ActorRef F64))
    → (check_optional field a ≡ ok) ↔ ProperActor a
unfolding check_optional
check_optional_iff field none = (λ h. tt, λ h. refl)
check_optional_iff field (some a) = check_actor_iff field a

check_principal_iff :
    {F64 : Type 0} (p : Option (ActorRefWithAuthn F64))
    → (check_principal p ≡ ok) ↔ ProperActor (principal_actor p)
unfolding check_principal
check_principal_iff none = (λ h. tt, λ h. refl)
check_principal_iff (some p) = check_actor_iff "authenticated_principal" p.actor

check_trust_iff :
    {F64 : Type 0} (in_unit : F64 → Bool) (t : F64)
    → (check_trust in_unit (some t) ≡ ok) ↔ (in_unit t ≡ true)
unfolding check_trust
check_trust_iff in_unit t = (λ h. ground arith, λ h. ground arith)

-- An event passes the validation exactly when the version is the schema's, the five required texts and
-- the ids of the actors that are present are neither empty nor a reserved word, and the trust's
-- confidence lies in the unit interval. No other field counts: an event with an empty namespace of an
-- actor or an empty resource id passes as well.
pub validate_iff :
    {F64 Json : Type 0} (in_unit : F64 → Bool) (e : Event F64 Json)
    → (validate in_unit e ≡ ok) ↔ PassesChecks in_unit e
unfolding validate value_option
validate_iff in_unit e = (
  λ h.
      let s1 = (then_iff _ _).0 h in
      let s2 = (then_iff _ _).0 s1.1 in
      let s3 = (then_iff _ _).0 s2.1 in
      let s4 = (then_iff _ _).0 s3.1 in
      let s5 = (then_iff _ _).0 s4.1 in
      let s6 = (then_iff _ _).0 s5.1 in
      let s7 = (then_iff _ _).0 s6.1 in
      let s8 = (then_iff _ _).0 s7.1 in
      let s9 = (then_iff _ _).0 s8.1 in
      let s10 = (then_iff _ _).0 s9.1 in
      let s11 = (then_iff _ _).0 s10.1 in
      record {
        schema = (check_schema_iff _).0 s1.0;
        event_id = (check_nonempty_iff _ _).0 s2.0;
        event_type = (check_nonempty_iff _ _).0 s3.0;
        tenant_id = (check_nonempty_iff _ _).0 s4.0;
        timestamp = (check_nonempty_iff _ _).0 s5.0;
        received_at = (check_nonempty_iff _ _).0 s6.0;
        actor = (check_optional_iff _ _).0 s7.0;
        on_behalf_of = (check_optional_iff _ _).0 s8.0;
        beneficiary = (check_optional_iff _ _).0 s9.0;
        resource_owner = (check_optional_iff _ _).0 s10.0;
        principal = (check_principal_iff _).0 s11.0;
        confidence = (check_trust_iff in_unit e.trust.confidence.value).0 s11.1;
      },
  λ c. (then_iff _ _).1 (
    (check_schema_iff _).1 c.schema,
    (then_iff _ _).1 (
      (check_nonempty_iff _ _).1 c.event_id,
      (then_iff _ _).1 (
        (check_nonempty_iff _ _).1 c.event_type,
        (then_iff _ _).1 (
          (check_nonempty_iff _ _).1 c.tenant_id,
          (then_iff _ _).1 (
            (check_nonempty_iff _ _).1 c.timestamp,
            (then_iff _ _).1 (
              (check_nonempty_iff _ _).1 c.received_at,
              (then_iff _ _).1 (
                (check_optional_iff _ _).1 c.actor,
                (then_iff _ _).1 (
                  (check_optional_iff _ _).1 c.on_behalf_of,
                  (then_iff _ _).1 (
                    (check_optional_iff _ _).1 c.beneficiary,
                    (then_iff _ _).1 (
                      (check_optional_iff _ _).1 c.resource_owner,
                      (then_iff _ _).1 (
                        (check_principal_iff _).1 c.principal,
                        (check_trust_iff in_unit e.trust.confidence.value).1 c.confidence,
                      ),
                    ),
                  ),
                ),
              ),
            ),
          ),
        ),
      ),
    ),
  ),
)
