-- ===== src/Daemon/Ingest/Admission.antt =====
-- What the admission of a frame makes of it: an end, or an event to be recorded.
use athar.Prelude.{
  ℕ, ◌≡◌, ◌⊎◌, inl, inr, refl, Bool, Option, none, some, [], Bytes, Bool-cases, Option-cases,
}
use athar.Event.Types.{Event}
use athar.Event.Validate.{Checked, ok, err, validate}
use athar.Governor.Level.{p1, allows}
use athar.Governor.Recompute.{current_level}
use athar.Daemon.Calendar.{now_rfc3339}
use athar.Daemon.State.{Moment, Daemon, admitted, Outside, Turn, turn}
use athar.Daemon.Ingest.{serialized, checked, converted, parsed, admit, is_set}
use athar.Daemon.Ingest.Endings.{IsAccepted, Settled}

module _ {S D F32 F64 Json : Type 0} (out : Outside S D F32 F64 Json) where
  -- What admission makes of a frame: it ends, or it is an event.
  abbrev pub IsAdmitted : (ℕ → Moment) → Daemon S D F32 F64 → Bytes → Turn S D F32 F64 Json → Type 0
  IsAdmitted moments d frame t =
      Settled out moments d frame t
      ⊎ ((e : Event F64 Json) × (b : Bytes) × (wants : Bool) × IsAccepted out (moments 0) frame e b
          × (t ≡ turn d (admitted e b wants) []))

  converted-IsAdmitted :
      (moments : ℕ → Moment) (d : Daemon S D F32 F64) (frame : Bytes) (raw : Json) (wants : Bool)
      → out.serde.parse frame ≡ some raw
      → IsAdmitted moments d frame
          (turn d (converted out (moments 0) wants (out.serde.to_event raw)) [])
  unfolding converted checked serialized
  converted-IsAdmitted moments d frame raw wants p = elim (Option-cases (out.serde.to_event raw)) [
    | inl bad ↦ inl (rw (bad, converted) (refl, refl))
    | inr (sent, good) ↦
        rw (good, converted) (valid_or_not sent good (validate out.in_unit sent) refl)
  ]
    where
      spelled_or_not :
          (sent : Event F64 Json)
          → out.serde.to_event raw ≡ some sent
          → validate out.in_unit sent ≡ ok
          → (e : Event F64 Json)
          → e ≡ record sent {
            received_at = now_rfc3339 out.padded (moments 0).now_secs (moments 0).now_micros;
          }
          → (o : Option Bytes) → out.serde.event_bytes e ≡ o
          → IsAdmitted moments d frame (turn d (serialized out e wants o) [])
      spelled_or_not sent good v e st none s = inl (refl, refl)
      spelled_or_not sent good v e st (some b) s = inr (
        e,
        b,
        wants,
        record {
          raw = raw;
          parses = p;
          sent = sent;
          converts = good;
          valid = v;
          stamped = st;
          spelled = s;
        },
        refl,
      )

      valid_or_not :
          (sent : Event F64 Json)
          → out.serde.to_event raw ≡ some sent
          → (c : Checked F64) → validate out.in_unit sent ≡ c
          → IsAdmitted moments d frame (turn d (checked out (moments 0) wants sent c) [])
      valid_or_not sent good (err x) v = inl (refl, refl)
      valid_or_not sent good ok v =
          let e = record sent {
            received_at = now_rfc3339 out.padded (moments 0).now_secs (moments 0).now_micros;
          } in
          spelled_or_not sent good v e refl (out.serde.event_bytes e) refl

  pub admit-IsAdmitted :
      (moments : ℕ → Moment) (d : Daemon S D F32 F64) (frame : Bytes)
      → IsAdmitted moments d frame (admit out (moments 0) d frame)
  unfolding admit parsed
  admit-IsAdmitted moments d frame = elim (Bool-cases (allows (current_level d.governor) p1)) [
    | inr shut ↦ rw (shut, admit) (inl (shut, refl, refl))
    | inl open_ ↦ elim (Option-cases (out.serde.parse frame)) [
      | inl bad ↦ rw (open_, bad, admit, parsed) (inl (refl, refl))
      | inr (raw, good) ↦ elim (Bool-cases (is_set out raw "__status__")) [
        | inl status ↦ rw (open_, good, status, admit, parsed) (inl refl)
        | inr no_status ↦
            rw (open_, good, no_status, admit, parsed)
              (converted-IsAdmitted moments d frame raw (is_set out raw "__evaluate__") good)
      ]
    ]
  ]
