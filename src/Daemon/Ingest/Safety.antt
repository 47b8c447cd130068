-- ===== src/Daemon/Ingest/Safety.antt =====
-- Over any order of the steps, what the audit chain commits to is in the log.
use athar.Prelude.{
  ℕ, zero, suc, ◌+◌, ◌<◌, ◌≡◌, inl, inr, refl, sym, Bool, Option, none, some, List, [], ◌∷◌, Bytes,
  length, u32_size, u64_size, All, All-map, All-append, arith, Bool-cases,
}
use mathlib.Core.Path.{subst}
use athar.Audit.Writer.{AuditChainWriter, observe}
use athar.Audit.Everywhere.{Everywhere}
use athar.Storage.Log.{SegmentLog, SegmentFile, Config, append, open_log}
use athar.Storage.Invariant.{Inv, open_log-Inv}
use athar.Daemon.State.{Moment, Daemon, Task, arrived, Outside}
use athar.Daemon.Drops.{CoverageGapSummary, take}
use athar.Daemon.Coverage.{
  gap_kind, record_gap, emit_payload, emit_summary, emit_coverage_gap_if_any,
}
use athar.Daemon.Spool.{Reading, is_done, ingest_payload}
use athar.Daemon.Ingest.Evidence.{
  Backed, Grows, IsHeld, gap_kind-event_kind, Sound, IsHeld-Grows, append-Sound, observe-Sound,
}
use athar.Daemon.Ingest.Interleaving.{
  World, Act, arrives, turns, emits, spools, governs, projects, reloads, step_at, spool, happen,
  run,
}
use athar.Daemon.Ingest.Steps.{IsSafe, Kept, same_Kept, appended_Kept, step-Kept}

module _ {S D F32 F64 Json : Type 0} (out : Outside S D F32 F64 Json) where
  module _ (config : Config) (record_bound : config.max_record_bytes < u32_size)
      (quota_bound : config.quota.limit_bytes < u64_size) where
    IsHeld-all-Grows :
        (fs gs : List SegmentFile) (ts : List (Task F64 Json))
        → Grows fs gs
        → All (IsHeld fs) ts
        → All (IsHeld gs) ts
    IsHeld-all-Grows fs gs ts g = All-map (λ t. IsHeld-Grows fs gs t g) ts

    step_at-Kept :
        (n : ℕ) (m : Moment) (d : Daemon S D F32 F64) (k : ℕ) (ts : List (Task F64 Json))
        → n + 1 < u64_size
        → IsSafe out config record_bound quota_bound n d
        → All (IsHeld d.log.files) ts
        → Kept out config record_bound quota_bound n d (step_at out m d k ts).0
          × All (IsHeld (step_at out m d k ts).0.log.files) (step_at out m d k ts).1
    unfolding step_at
    step_at-Kept n m d k [] small v h =
        (same_Kept out config record_bound quota_bound n d d refl refl v, tt)
    step_at-Kept n m d zero (t ∷ ts) small v h =
        let (kept, held) = step-Kept out config record_bound quota_bound n m d t small v h.0 in
        (kept, (held, IsHeld-all-Grows _ _ ts kept.grows h.1))
    step_at-Kept n m d (suc k) (t ∷ ts) small v h =
        let (kept, held) = step_at-Kept n m d k ts small v h.1 in
        (kept, (IsHeld-Grows _ _ t kept.grows h.0, held))

    -- A commitment of another kind than an event.
    gap-Sound :
        (n : ℕ) (log : SegmentLog) (audit : AuditChainWriter) (disk_ok : Bool) (b : Bytes) (now : ℕ)
        → n + 1 < u64_size
        → Sound out.crypto config n log audit
        → Sound out.crypto config
            (n + 1)
            (append log b).0
            (observe out.crypto disk_ok audit gap_kind b now).0
    gap-Sound n log audit disk_ok b now small v =
        observe-Sound out.crypto config record_bound quota_bound (n + 1) (append log b).0 audit
          disk_ok gap_kind b now (λ e. absurd (gap_kind-event_kind e))
          (append-Sound out.crypto config record_bound quota_bound n log audit b small v)

    emit_payload-Kept :
        (n : ℕ) (m : Moment) (d : Daemon S D F32 F64) (o : Option Bytes)
        → n + 1 < u64_size
        → IsSafe out config record_bound quota_bound n d
        → Kept out config record_bound quota_bound n d (emit_payload out m d o)
    unfolding emit_payload record_gap
    emit_payload-Kept n m d none small v =
        same_Kept out config record_bound quota_bound n d d refl refl v
    emit_payload-Kept n m d (some b) small v =
        appended_Kept out config record_bound quota_bound n d b _
          (gap-Sound n d.log d.audit m.disk_ok b m.now_us small v)

    emit-Kept :
        (n : ℕ) (m : Moment) (d : Daemon S D F32 F64) (o : Option CoverageGapSummary)
        → n + 1 < u64_size
        → IsSafe out config record_bound quota_bound n d
        → Kept out config record_bound quota_bound n d
            (emit_summary out m (record d { drops = (take d.drops).0 }) o)
    unfolding emit_summary
    emit-Kept n m d none small v = same_Kept out config record_bound quota_bound n d _ refl refl v
    emit-Kept n m d (some s) small v =
        let d' = record d { drops = (take d.drops).0 } in
        let kept = emit_payload-Kept n m d' (out.serde.gap_bytes s m.now_ms) small v in
        record { safe = kept.safe; grows = kept.grows }

    spool-Kept :
        (n : ℕ) (r : Reading) (o : Option Bytes) (d : Daemon S D F32 F64)
        → n + 1 < u64_size
        → IsSafe out config record_bound quota_bound n d
        → Kept out config record_bound quota_bound n d (spool out r o d)
    unfolding spool ingest_payload
    spool-Kept n r none d small v = same_Kept out config record_bound quota_bound n d _ refl refl v
    spool-Kept n r (some b) d small v = elim (Bool-cases (is_done (append d.log b).1)) [
      | inl taken ↦
          rw (taken, spool, ingest_payload)
            (appended_Kept out config record_bound quota_bound n d b _
              (gap-Sound n d.log d.audit r.disk_ok b r.now_us small v))
      | inr refused ↦
          rw (refused, spool, ingest_payload)
            (appended_Kept out config record_bound quota_bound n d b d.audit
              (append-Sound out.crypto config record_bound quota_bound n d.log d.audit b small v))
    ]

    abbrev IsSafeWorld : ℕ → World S D F32 F64 Json → Type 0
    IsSafeWorld n w =
        IsSafe out config record_bound quota_bound n w.daemon
        × All (IsHeld w.daemon.log.files) w.tasks

    Kept-world :
        (n : ℕ) (w : World S D F32 F64 Json) (d : Daemon S D F32 F64)
        → Kept out config record_bound quota_bound n w.daemon d
        → All (IsHeld w.daemon.log.files) w.tasks
        → IsSafeWorld (n + 1) (record w { daemon = d })
    Kept-world n w d kept h = (kept.safe, IsHeld-all-Grows _ _ w.tasks kept.grows h)

    happen-IsSafeWorld :
        (n : ℕ) (w : World S D F32 F64 Json) (act : Act S F32)
        → n + 1 < u64_size
        → IsSafeWorld n w
        → IsSafeWorld (n + 1) (happen out w act)
    unfolding happen emit_coverage_gap_if_any
    happen-IsSafeWorld n w (arrives frame) small (v, h) = (
      (same_Kept out config record_bound quota_bound n w.daemon w.daemon refl refl v).safe,
      All-append (IsHeld w.daemon.log.files) w.tasks (arrived frame ∷ []) h (tt, tt),
    )
    happen-IsSafeWorld n w (turns k m) small (v, h) =
        let (kept, held) = step_at-Kept n m w.daemon k w.tasks small v h in (kept.safe, held)
    happen-IsSafeWorld n w (emits m) small (v, h) =
        Kept-world n w _ (emit-Kept n m w.daemon (take w.daemon.drops).1 small v) h
    happen-IsSafeWorld n w (spools r o) small (v, h) =
        Kept-world n w _ (spool-Kept n r o w.daemon small v) h
    happen-IsSafeWorld n w (governs g) small (v, h) =
        let d = record w.daemon { governor = g } in
        Kept-world n w d (same_Kept out config record_bound quota_bound n w.daemon d refl refl v) h
    happen-IsSafeWorld n w (projects s) small (v, h) =
        let d = record w.daemon { lifecycles = s } in
        Kept-world n w d (same_Kept out config record_bound quota_bound n w.daemon d refl refl v) h
    happen-IsSafeWorld n w (reloads c) small (v, h) =
        let d = record w.daemon { policies = c } in
        Kept-world n w d (same_Kept out config record_bound quota_bound n w.daemon d refl refl v) h

    run-IsSafeWorld :
        (n : ℕ) (w : World S D F32 F64 Json) (acts : List (Act S F32))
        → n + length acts < u64_size
        → IsSafeWorld n w
        → (k : ℕ) × IsSafeWorld k (run out w acts)
    unfolding run
    run-IsSafeWorld n w [] small v = (n, v)
    run-IsSafeWorld n w (act ∷ acts) small v =
        run-IsSafeWorld (n + 1) (happen out w act) acts (omega (arith, small))
          (happen-IsSafeWorld n w act (omega (arith, small)) v)

    -- A daemon that starts on empty directories and without tasks.
    pub record IsFresh (w : World S D F32 F64 Json) : Type 0 where
      pub log_is : w.daemon.log ≡ open_log config []
      pub no_pending : w.daemon.audit.inner.records ≡ []
      pub no_segments : w.daemon.audit.store.segments ≡ []
      pub no_tasks : w.tasks ≡ []

    start_IsSafeWorld : (w : World S D F32 F64 Json) → IsFresh w → IsSafeWorld 0 w
    start_IsSafeWorld w f = (
      record {
        log_inv = subst (Inv config 0) (sym f.log_is) (open_log-Inv config);
        backed = record {
          pending = subst (All _) (sym f.no_pending) tt;
          stored = subst (All _) (sym f.no_segments) tt;
        };
      },
      subst (All _) (sym f.no_tasks) tt,
    )

    -- In whatever order frames arrive and take their steps, and coverage gaps, spooled records, the
    -- governor, the scanner and the policy reload come in between, whether or not the disk takes the
    -- audit segments: every record of the audit chain with the kind of an event, pending or on disk,
    -- commits to bytes that the evidence log holds as a record. The daemon starts on empty
    -- directories, nothing is evicted, records are below 4 GiB, and the quota and the number of steps
    -- below 2 ^ 64.
    pub run-Backed :
        (w : World S D F32 F64 Json) (acts : List (Act S F32))
        → IsFresh w
        → length acts < u64_size
        → let after = (run out w acts).daemon in
          Everywhere (Backed out.crypto after.log.files) after.audit
    run-Backed w acts f small =
        let (k, v) = run-IsSafeWorld 0 w acts (omega (arith, small)) (start_IsSafeWorld w f) in
        v.0.backed
