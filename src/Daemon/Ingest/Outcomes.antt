-- ===== src/Daemon/Ingest/Outcomes.antt =====
-- How the ingest of a frame ends, step by step.
use athar.Prelude.{ℕ, ◌≡◌, inl, inr, refl, sym, ap, Bool, List, [], Bytes}
use mathlib.Core.Path.{subst}
use mathlib.Core.List.{append-nil}
use athar.Event.Types.{Event}
use athar.Audit.Writer.{Outcome, failed, saved, nothing, observe}
use athar.Storage.Log.{
  SegmentLog, Appended, done, record_too_large, quota_exceeded, no_active_segment, append,
  append_to,
}
use athar.Storage.Appending.{IsWritten, IsRefusal, append-cases}
use athar.Daemon.State.{
  Moment, Daemon, Ended, not_audited, Task, arrived, admitted, recorded, committed, applied,
  finished, event_kind, Outside, Turn, turn,
}
use athar.Daemon.Ingest.{
  admit, after_append, append_evidence, after_observe, commit, project, decide, step, next,
  ingest_one,
}
use athar.Daemon.Ingest.Endings.{IsAccepted, IsIngested, Leaves, Settled}
use athar.Daemon.Ingest.Admission.{admit-IsAdmitted}

module _ {S D F32 F64 Json : Type 0} (out : Outside S D F32 F64 Json) where
  -- A task that has ended stays.
  pub next_finished :
      (m : Moment) (d : Daemon S D F32 F64) (how : Ended F64) (written : List Bytes)
      → next out m (turn d (finished how) written) ≡ turn d (finished how) written
  unfolding next step
  next_finished m d how written = ap (turn d (finished how)) (append-nil written)

  next-Settled :
      (moments : ℕ → Moment) (d : Daemon S D F32 F64) (frame : Bytes) (m : Moment)
      (d' : Daemon S D F32 F64) (task : Task F64 Json) (written : List Bytes)
      → Settled out moments d frame (turn d' task written)
      → Settled out moments d frame (next out m (turn d' task written))
  next-Settled moments d frame m d' (finished how) written h =
      subst (Settled out moments d frame) (sym (next_finished m d' how written)) h
  next-Settled moments d frame m d' (arrived f) written h = absurd h
  next-Settled moments d frame m d' (admitted e b wants) written h = absurd h
  next-Settled moments d frame m d' (recorded e b wants) written h = absurd h
  next-Settled moments d frame m d' (committed e b wants) written h = absurd h
  next-Settled moments d frame m d' (applied e id wants) written h = absurd h

  -- The event is in the log: the audit chain takes it or not, and the rest follows.
  recorded-Settled :
      (moments : ℕ → Moment) (d : Daemon S D F32 F64) (frame b : Bytes) (e : Event F64 Json)
      (wants : Bool)
      → IsAccepted out (moments 0) frame e b
      → IsWritten d.log b
      → Settled out moments d frame (
          next out (moments 4) (
            next out (moments 3) (
              next out
                (moments 2)
                (turn (record d { log = (append d.log b).0 }) (recorded e b wants) []))))
  unfolding next step commit project decide
  recorded-Settled moments d frame b e wants ok_ w =
      observed (observe out.crypto (moments 2).disk_ok d.audit event_kind b (moments 2).now_us).1
        refl
    where
      after : Daemon S D F32 F64
      after = record d {
        log = (append d.log b).0;
        audit = (observe out.crypto (moments 2).disk_ok d.audit event_kind b (moments 2).now_us).0;
      }

      done_ :
          IsIngested out moments d frame
            (next out
              (moments 4)
              (next out (moments 3) (turn after (committed e b wants) []))).daemon
      done_ = record {
        event = e;
        canonical = b;
        accepted = ok_;
        appended = w;
        log_is = refl;
        audit_is = refl;
        lifecycles_are = refl;
        signals_are = refl;
        governor_is = refl;
        drops_are = refl;
        policies_are = refl;
      }

      observed :
          (o : Outcome)
          → (observe out.crypto (moments 2).disk_ok d.audit event_kind b (moments 2).now_us).1 ≡ o
          → Settled out moments d frame (
              next out
                (moments 4)
                (next out (moments 3) (turn after (after_observe out e b wants o) [])))
      observed failed r = next-Settled moments d frame (moments 4) after (finished not_audited) [] (
        record { event = e; canonical = b; accepted = ok_; appended = w; refused = r; left = refl },
        refl,
      )
      observed nothing r = done_
      observed (saved id) r = done_

  -- The log takes the event or not.
  accepted-Settled :
      (moments : ℕ → Moment) (d : Daemon S D F32 F64) (frame b : Bytes) (e : Event F64 Json)
      (wants : Bool)
      → IsAccepted out (moments 0) frame e b
      → Settled out moments d frame (
          next out (moments 4) (
            next out
              (moments 3)
              (next out (moments 2) (next out (moments 1) (turn d (admitted e b wants) [])))))
  unfolding next step append_evidence append_to
  accepted-Settled moments d frame b e wants ok_ = elim (append-cases d.log b) [
    | inl w ↦
        subst
          (λ x. Settled out moments d frame (
            next out (moments 4) (
              next out (moments 3) (
                next out (moments 2) (
                  turn (record d { log = (append d.log b).0 }) (after_append out e b wants x)
                    [])))))
          (sym (ap (λ (r : SegmentLog × Appended). r.1) w.result))
          (recorded-Settled moments d frame b e wants ok_ w)
    | inr (same, refusal) ↦ refused (append d.log b).1 same refusal
  ]
    where
      refused :
          (x : Appended)
          → (append d.log b).0 ≡ d.log
          → IsRefusal x
          → Settled out moments d frame (
              next out (moments 4) (
                next out (moments 3) (
                  next out (moments 2) (
                    turn
                      (record d { log = (append d.log b).0 })
                      (after_append out e b wants x)
                      []))))
      refused (done receipt) same r = absurd r
      refused (record_too_large n m) same r = (ap (λ l. record d { log = l }) same, refl)
      refused (quota_exceeded n m k) same r = (ap (λ l. record d { log = l }) same, refl)
      refused no_active_segment same r = (ap (λ l. record d { log = l }) same, refl)

  -- A frame always comes to an end, and the way it ends says what it leaves. Dropped, which means
  -- that the pressure does not allow evidence: only the drop counters move. Answered, or refused as
  -- JSON, as an event, as invalid, or by the log: no component changes, and nothing is written in
  -- the last four cases. Not audited: only the log and the audit writer have moved, and the log has
  -- taken the event. Ingested: the frame is a valid event, its canonical bytes, with the daemon's time
  -- of receipt, are in the log and were given to the audit chain, and it was applied to the lifecycles
  -- and evaluated for signals.
  pub ingest_one-Leaves :
      (moments : ℕ → Moment) (d : Daemon S D F32 F64) (frame : Bytes)
      → Leaves out moments d frame
          (ingest_one out moments d frame)
          (ingest_one out moments d frame).task
  unfolding ingest_one
  ingest_one-Leaves moments d frame = elim (admit-IsAdmitted out moments d frame) [
    | inl over ↦ on (admit out (moments 0) d frame) over
    | inr (e, b, wants, accepted, same) ↦
        subst
          (λ t. Settled out moments d frame (
            next out (moments 4)
              (next out (moments 3) (next out (moments 2) (next out (moments 1) t)))))
          (sym same) (accepted-Settled moments d frame b e wants accepted)
  ]
    where
      on :
          (t : Turn S D F32 F64 Json)
          → Settled out moments d frame t
          → Settled out moments d frame (
              next out
                (moments 4)
                (next out (moments 3) (next out (moments 2) (next out (moments 1) t))))
      on t h = keep (moments 4) _ (keep (moments 3) _ (keep (moments 2) _ (keep (moments 1) t h)))
        where
          keep :
              (m : Moment) (u : Turn S D F32 F64 Json)
              → Settled out moments d frame u
              → Settled out moments d frame (next out m u)
          keep m u x = next-Settled moments d frame m u.daemon u.task u.written x
