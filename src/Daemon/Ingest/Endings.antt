-- ===== src/Daemon/Ingest/Endings.antt =====
-- What is said of the components for each way in which the ingest of a frame may end.
use athar.Prelude.{ℕ, ◌≡◌, false, some, [], Bytes, length}
use athar.Event.Types.{Event}
use athar.Event.Validate.{ok, validate}
use athar.Lifecycle.Engine
use athar.Governor.Level.{p1, allows}
use athar.Governor.Recompute.{current_level}
use athar.Audit.Writer.{failed, observe}
use athar.Storage.Log.{append}
use athar.Storage.Appending.{IsWritten}
use athar.Detection.Signals
use athar.Daemon.Drops.{count_drop}
use athar.Daemon.Calendar.{now_rfc3339}
use athar.Daemon.State.{
  Moment, Daemon, dropped, not_audited, ingested, answered, Task, finished, event_kind, Outside,
  Turn,
}

module _ {S D F32 F64 Json : Type 0} (out : Outside S D F32 F64 Json) where
  -- The event of a frame, with the daemon's time of receipt, and its canonical bytes.
  pub record IsAccepted (m : Moment) (frame : Bytes) (e : Event F64 Json) (b : Bytes) : Type 0 where
    pub raw : Json
    pub parses : out.serde.parse frame ≡ some raw
    pub sent : Event F64 Json
    pub converts : out.serde.to_event raw ≡ some sent
    pub valid : validate out.in_unit sent ≡ ok
    pub stamped : e ≡ record sent { received_at = now_rfc3339 out.padded m.now_secs m.now_micros }
    pub spelled : out.serde.event_bytes e ≡ some b

  -- The evidence is written and the audit chain does not take it.
  pub record IsUnaudited (moments : ℕ → Moment) (d : Daemon S D F32 F64) (frame : Bytes)
      (after : Daemon S D F32 F64) : Type 0 where
    pub event : Event F64 Json
    pub canonical : Bytes
    pub accepted : IsAccepted (moments 0) frame event canonical
    pub appended : IsWritten d.log canonical
    pub refused :
        (observe out.crypto (moments 2).disk_ok d.audit event_kind canonical (moments 2).now_us).1
        ≡ failed
    pub left : after ≡ record d {
      log = (append d.log canonical).0;
      audit =
          (observe out.crypto
            (moments 2).disk_ok
            d.audit
            event_kind
            canonical
            (moments 2).now_us).0;
    }

  -- The evidence is written and committed to, and then the event is applied and evaluated.
  pub record IsIngested (moments : ℕ → Moment) (d : Daemon S D F32 F64) (frame : Bytes)
      (after : Daemon S D F32 F64) : Type 0 where
    pub event : Event F64 Json
    pub canonical : Bytes
    pub accepted : IsAccepted (moments 0) frame event canonical
    pub appended : IsWritten d.log canonical
    pub log_is : after.log ≡ (append d.log canonical).0
    pub audit_is :
        after.audit
        ≡ (observe out.crypto (moments 2).disk_ok d.audit event_kind canonical (moments 2).now_us).0
    pub lifecycles_are :
        after.lifecycles ≡ (Engine.apply out.store d.lifecycles event (moments 3).now_ms).0
    pub signals_are :
        after.signals ≡ (Signals.evaluate out.formats d.signals event (moments 4).now_ms).0
    pub governor_is : after.governor ≡ d.governor
    pub drops_are : after.drops ≡ d.drops
    pub policies_are : after.policies ≡ d.policies

  -- What each way to end says of the components and of the connection.
  abbrev pub Leaves :
      (ℕ → Moment) → Daemon S D F32 F64 → Bytes → Turn S D F32 F64 Json → Task F64 Json → Type 0
  Leaves moments d frame t (finished dropped) =
      (allows (current_level d.governor) p1 ≡ false)
      × (t.daemon ≡ record d { drops = count_drop d.drops (length frame) (moments 0).now_ms })
      × (t.written ≡ [])
  Leaves moments d frame t (finished answered) = t.daemon ≡ d
  Leaves moments d frame t (finished not_audited) =
      IsUnaudited moments d frame t.daemon × (t.written ≡ [])
  Leaves moments d frame t (finished ingested) = IsIngested moments d frame t.daemon
  Leaves moments d frame t (finished refusal) = (t.daemon ≡ d) × (t.written ≡ [])
  Leaves moments d frame t unfinished = ⊥

  abbrev pub Settled : (ℕ → Moment) → Daemon S D F32 F64 → Bytes → Turn S D F32 F64 Json → Type 0
  Settled moments d frame t = Leaves moments d frame t t.task
