-- ===== src/Daemon/Ingest/Before.antt =====
-- The admission of a frame and the evidence: nothing is recorded yet.
use athar.Prelude.{◌≡◌, inl, inr, refl, Bool, Option, none, some, List, Bytes, Bool-cases}
use athar.Event.Types.{Event}
use athar.Event.Validate.{Checked, ok, err, validate}
use athar.Governor.Level.{p1, allows}
use athar.Governor.Recompute.{current_level}
use athar.Storage.Log.{SegmentFile}
use athar.Daemon.State.{Moment, Daemon, Outside, Turn}
use athar.Daemon.Ingest.{serialized, checked, converted, parsed, admit, is_set}
use athar.Daemon.Ingest.Evidence.{IsHeld}

module _ {S D F32 F64 Json : Type 0} (out : Outside S D F32 F64 Json) where
  -- Admission leaves the log and the audit writer, and its task is not recorded yet.
  pub record IsBefore (d : Daemon S D F32 F64) (t : Turn S D F32 F64 Json) : Type 0 where
    pub same_log : t.daemon.log ≡ d.log
    pub same_audit : t.daemon.audit ≡ d.audit
    pub nothing_held : (fs : List SegmentFile) → IsHeld fs t.task

  serialized-IsHeld :
      (fs : List SegmentFile) (e : Event F64 Json) (wants : Bool) (o : Option Bytes)
      → IsHeld fs (serialized out e wants o)
  unfolding serialized
  serialized-IsHeld fs e wants none = tt
  serialized-IsHeld fs e wants (some b) = tt

  checked-IsHeld :
      (fs : List SegmentFile) (m : Moment) (wants : Bool) (e : Event F64 Json) (c : Checked F64)
      → IsHeld fs (checked out m wants e c)
  unfolding checked
  checked-IsHeld fs m wants e ok = serialized-IsHeld fs _ wants _
  checked-IsHeld fs m wants e (err x) = tt

  converted-IsHeld :
      (fs : List SegmentFile) (m : Moment) (wants : Bool) (o : Option (Event F64 Json))
      → IsHeld fs (converted out m wants o)
  unfolding converted
  converted-IsHeld fs m wants none = tt
  converted-IsHeld fs m wants (some e) = checked-IsHeld fs m wants e (validate out.in_unit e)

  parsed-IsBefore :
      (m : Moment) (d : Daemon S D F32 F64) (o : Option Json) → IsBefore d (parsed out m d o)
  unfolding parsed
  parsed-IsBefore m d none = record { same_log = refl; same_audit = refl; nothing_held = λ fs. tt }
  parsed-IsBefore m d (some raw) = elim (Bool-cases (is_set out raw "__status__")) [
    | inl status ↦
        rw (status, parsed) (record { same_log = refl; same_audit = refl; nothing_held = λ fs. tt })
    | inr no_status ↦
        rw (no_status, parsed)
          (record {
            same_log = refl;
            same_audit = refl;
            nothing_held = λ fs. converted-IsHeld fs m _ (out.serde.to_event raw);
          })
  ]

  pub admit-IsBefore :
      (m : Moment) (d : Daemon S D F32 F64) (frame : Bytes) → IsBefore d (admit out m d frame)
  unfolding admit
  admit-IsBefore m d frame = elim (Bool-cases (allows (current_level d.governor) p1)) [
    | inl open_ ↦ rw (open_, admit) (parsed-IsBefore m d (out.serde.parse frame))
    | inr shut ↦
        rw (shut, admit) (record { same_log = refl; same_audit = refl; nothing_held = λ fs. tt })
  ]
