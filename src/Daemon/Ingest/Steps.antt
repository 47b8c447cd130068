-- ===== src/Daemon/Ingest/Steps.antt =====
-- A step of a frame, and what it keeps of the log and the audit writer.
use athar.Prelude.{ℕ, ◌+◌, ◌<◌, ◌≡◌, ◌⊎◌, inl, inr, refl, sym, Bytes, u32_size, u64_size}
use mathlib.Core.Path.{subst}
use athar.Audit.Writer.{AuditChainWriter, Outcome, nothing, failed, saved, observe}
use athar.Storage.Log.{
  SegmentLog, Config, Appended, done, record_too_large, quota_exceeded, no_active_segment, append,
}
use athar.Storage.Appending.{IsWritten, IsRefusal, append-cases}
use athar.Storage.Invariant.{Inv-later}
use athar.Storage.Holding.{Holds, Holds-log_append, log_append-Holds}
use athar.Daemon.State.{
  Moment, Daemon, Task, arrived, admitted, recorded, committed, applied, finished, event_kind,
  Outside,
}
use athar.Daemon.Ingest.{
  admit, after_append, append_evidence, after_observe, commit, project, decide, step,
}
use athar.Daemon.Ingest.Evidence.{Grows, IsHeld, Sound, append-Sound, observe-Sound}
use athar.Daemon.Ingest.Before.{admit-IsBefore}

module _ {S D F32 F64 Json : Type 0} (out : Outside S D F32 F64 Json) where
  module _ (config : Config) (record_bound : config.max_record_bytes < u32_size)
      (quota_bound : config.quota.limit_bytes < u64_size) where
    abbrev pub IsSafe : ℕ → Daemon S D F32 F64 → Type 0
    IsSafe n d = Sound out.crypto config n d.log d.audit

    -- After one more step of any kind.
    pub record Kept (n : ℕ) (d d' : Daemon S D F32 F64) : Type 0 where
      pub safe : IsSafe (n + 1) d'
      pub grows : Grows d.log.files d'.log.files

    later :
        (n : ℕ) (log : SegmentLog) (audit : AuditChainWriter)
        → Sound out.crypto config n log audit
        → Sound out.crypto config (n + 1) log audit
    later n log audit v = record { log_inv = Inv-later config n log v.log_inv; backed = v.backed }

    pub same_Kept :
        (n : ℕ) (d d' : Daemon S D F32 F64)
        → d'.log ≡ d.log
        → d'.audit ≡ d.audit
        → IsSafe n d
        → Kept n d d'
    same_Kept n d d' l a v = record {
      safe =
          subst (λ x. Sound out.crypto config (n + 1) d'.log x) (sym a)
            (subst (λ x. Sound out.crypto config (n + 1) x d.audit) (sym l)
              (later n d.log d.audit v));
      grows = λ b h. subst (λ (x : SegmentLog). Holds b x.files) (sym l) h;
    }

    pub appended_Kept :
        (n : ℕ) (d : Daemon S D F32 F64) (b : Bytes) (audit : AuditChainWriter)
        → Sound out.crypto config (n + 1) (append d.log b).0 audit
        → Kept n d (record d { log = (append d.log b).0; audit = audit })
    appended_Kept n d b audit v = record { safe = v; grows = λ x h. Holds-log_append x b d.log h }

    -- The step of a task.
    pub step-Kept :
        (n : ℕ) (m : Moment) (d : Daemon S D F32 F64) (t : Task F64 Json)
        → n + 1 < u64_size
        → IsSafe n d
        → IsHeld d.log.files t
        → Kept n d (step out m d t).daemon
          × IsHeld (step out m d t).daemon.log.files (step out m d t).task
    unfolding step append_evidence commit project decide
    step-Kept n m d (arrived frame) small v h =
        let a = admit-IsBefore out m d frame in
        (same_Kept n d (admit out m d frame).daemon a.same_log a.same_audit v, a.nothing_held _)
    step-Kept n m d (admitted e b wants) small v h = (
      appended_Kept n d b d.audit
          (append-Sound out.crypto config record_bound quota_bound n d.log d.audit b small v),
      held (append d.log b).1 (append-cases d.log b),
    )
      where
        held :
            (x : Appended)
            → IsWritten d.log b ⊎ (((append d.log b).0 ≡ d.log) × IsRefusal x)
            → IsHeld (append d.log b).0.files (after_append out e b wants x)
        held x (inl w) = written x (log_append-Holds config n d.log b small v.log_inv w)
          where
            written :
                (x : Appended)
                → Holds b (append d.log b).0.files
                → IsHeld (append d.log b).0.files (after_append out e b wants x)
            written (done receipt) k = k
            written (record_too_large i j) k = tt
            written (quota_exceeded i j l) k = tt
            written no_active_segment k = tt
        held (done receipt) (inr (same, r)) = absurd r
        held (record_too_large i j) (inr r) = tt
        held (quota_exceeded i j l) (inr r) = tt
        held no_active_segment (inr r) = tt
    step-Kept n m d (recorded e b wants) small v h = (
      record {
        safe = later n d.log _ (
            observe-Sound out.crypto config record_bound quota_bound n d.log d.audit m.disk_ok
              event_kind b m.now_us (λ k. h) v);
        grows = λ x k. k;
      },
      after (observe out.crypto m.disk_ok d.audit event_kind b m.now_us).1,
    )
      where
        after : (o : Outcome) → IsHeld d.log.files (after_observe out e b wants o)
        after failed = tt
        after nothing = tt
        after (saved id) = tt
    step-Kept n m d (committed e b wants) small v h = (same_Kept n d _ refl refl v, tt)
    step-Kept n m d (applied e id wants) small v h = (same_Kept n d _ refl refl v, tt)
    step-Kept n m d (finished how) small v h = (same_Kept n d _ refl refl v, tt)
