-- ===== src/Daemon/Ingest/Closing.antt =====
-- Over any order of the steps, the audit writer does a sequence of its own calls, so what is known of
-- those holds of the daemon.
use athar.Prelude.{
  ℕ, zero, suc, ◌+◌, ◌<◌, ◌≤◌, ◌≡◌, inl, inr, refl, sym, ap, ◌∙◌, Bool, true, Option, none, some,
  List, [], ◌∷◌, ◌++◌, Bytes, length, length-append, u64_size, All, arith, Bool-cases,
}
use mathlib.Core.Path.{subst}
use athar.Audit.Chain.{Crypto, Signer, ok}
use athar.Audit.Closing.{Signs}
use athar.Audit.Store.{verify_all}
use athar.Audit.Writer.{AuditChainWriter, flush, observe}
use athar.Audit.History.{Call, observes, flushes, observations, start, verify_all-run}
use athar.Audit.History
use athar.Storage.Log.{append}
use athar.Daemon.State.{
  Moment, Daemon, Task, arrived, admitted, recorded, committed, applied, finished, event_kind,
  Outside,
}
use athar.Daemon.Drops.{CoverageGapSummary, take}
use athar.Daemon.Coverage.{
  gap_kind, record_gap, emit_payload, emit_summary, emit_coverage_gap_if_any, shutdown,
}
use athar.Daemon.Spool.{Reading, is_done, ingest_payload}
use athar.Daemon.Ingest.{append_evidence, commit, project, decide, step}
use athar.Daemon.Ingest.Interleaving.{
  World, Act, arrives, turns, emits, spools, governs, projects, reloads, step_at, spool, happen,
  run,
}
use athar.Daemon.Ingest.Before.{admit-IsBefore}

-- The writer `b` is the writer `a` after at most so many calls, with a disk that takes every write.
pub record Calls (crypto : Crypto) (most : ℕ) (a b : AuditChainWriter) : Type 0 where
  pub calls : List Call
  pub reached : History.run crypto a calls ≡ b
  pub few : length calls ≤ most

-- The disk takes the audit segments of a step.
abbrev pub DiskTakes : {S F32 : Type 0} → Act S F32 → Type 0
DiskTakes (turns n m) = m.disk_ok ≡ true
DiskTakes (emits m) = m.disk_ok ≡ true
DiskTakes (spools r payload) = r.disk_ok ≡ true
DiskTakes act = Unit {0}

module _ (crypto : Crypto) where
  no_Calls : (a b : AuditChainWriter) → b ≡ a → Calls crypto 1 a b
  unfolding History.run
  no_Calls a b e = record { calls = []; reached = sym e; few = omega arith }

  observe-Calls :
      (a : AuditChainWriter) (disk_ok : Bool) (kind b : Bytes) (now : ℕ)
      → disk_ok ≡ true
      → Calls crypto 1 a (observe crypto disk_ok a kind b now).0
  unfolding History.run History.step
  observe-Calls a disk_ok kind b now e = record {
    calls = observes kind b now ∷ [];
    reached = ap (λ x. (observe crypto x a kind b now).0) (sym e);
    few = omega arith;
  }

  run-append :
      (a : AuditChainWriter) (xs ys : List Call)
      → History.run crypto a (xs ++ ys) ≡ History.run crypto (History.run crypto a xs) ys
  unfolding History.run
  run-append a [] ys = refl
  run-append a (x ∷ xs) ys = run-append (History.step crypto a x) xs ys

  Calls-trans :
      (i j : ℕ) (a b c : AuditChainWriter)
      → Calls crypto i a b
      → Calls crypto j b c
      → Calls crypto (i + j) a c
  Calls-trans i j a b c p q = record {
    calls = p.calls ++ q.calls;
    reached =
        run-append a p.calls q.calls ∙ ap (λ x. History.run crypto x q.calls) p.reached ∙ q.reached;
    few = omega (arith, length-append p.calls q.calls, p.few, q.few);
  }

module _ {S D F32 F64 Json : Type 0} (out : Outside S D F32 F64 Json) where
  step-Calls :
      (m : Moment) (d : Daemon S D F32 F64) (t : Task F64 Json)
      → m.disk_ok ≡ true
      → Calls out.crypto 1 d.audit (step out m d t).daemon.audit
  unfolding step append_evidence commit project decide
  step-Calls m d (arrived frame) e =
      no_Calls out.crypto d.audit _ (admit-IsBefore out m d frame).same_audit
  step-Calls m d (admitted ev b wants) e = no_Calls out.crypto d.audit _ refl
  step-Calls m d (recorded ev b wants) e =
      observe-Calls out.crypto d.audit m.disk_ok event_kind b m.now_us e
  step-Calls m d (committed ev b wants) e = no_Calls out.crypto d.audit _ refl
  step-Calls m d (applied ev id wants) e = no_Calls out.crypto d.audit _ refl
  step-Calls m d (finished how) e = no_Calls out.crypto d.audit _ refl

  step_at-Calls :
      (m : Moment) (d : Daemon S D F32 F64) (k : ℕ) (ts : List (Task F64 Json))
      → m.disk_ok ≡ true
      → Calls out.crypto 1 d.audit (step_at out m d k ts).0.audit
  unfolding step_at
  step_at-Calls m d k [] e = no_Calls out.crypto d.audit _ refl
  step_at-Calls m d zero (t ∷ ts) e = step-Calls m d t e
  step_at-Calls m d (suc k) (t ∷ ts) e = step_at-Calls m d k ts e

  payload_Calls :
      (m : Moment) (d : Daemon S D F32 F64) (o : Option Bytes)
      → m.disk_ok ≡ true
      → Calls out.crypto 1 d.audit (emit_payload out m d o).audit
  unfolding emit_payload record_gap
  payload_Calls m d none e = no_Calls out.crypto d.audit _ refl
  payload_Calls m d (some b) e = observe-Calls out.crypto d.audit m.disk_ok gap_kind b m.now_us e

  emit_Calls :
      (m : Moment) (d : Daemon S D F32 F64)
      → m.disk_ok ≡ true
      → Calls out.crypto 1 d.audit (emit_coverage_gap_if_any out m d).audit
  unfolding emit_coverage_gap_if_any emit_summary
  emit_Calls m d e = summary (take d.drops).1
    where
      summary :
          (o : Option CoverageGapSummary)
          → Calls out.crypto 1 d.audit
              (emit_summary out m (record d { drops = (take d.drops).0 }) o).audit
      summary none = no_Calls out.crypto d.audit _ refl
      summary (some s) =
          payload_Calls m (record d { drops = (take d.drops).0 }) (out.serde.gap_bytes s m.now_ms) e

  spool-Calls :
      (r : Reading) (o : Option Bytes) (d : Daemon S D F32 F64)
      → r.disk_ok ≡ true
      → Calls out.crypto 1 d.audit (spool out r o d).audit
  unfolding spool ingest_payload
  spool-Calls r none d e = no_Calls out.crypto d.audit _ refl
  spool-Calls r (some b) d e = elim (Bool-cases (is_done (append d.log b).1)) [
    | inl taken ↦
        rw (taken, spool, ingest_payload)
          (observe-Calls out.crypto d.audit r.disk_ok gap_kind b r.now_us e)
    | inr refused ↦ rw (refused, spool, ingest_payload) (no_Calls out.crypto d.audit _ refl)
  ]

  happen-Calls :
      (w : World S D F32 F64 Json) (act : Act S F32)
      → DiskTakes act
      → Calls out.crypto 1 w.daemon.audit (happen out w act).daemon.audit
  unfolding happen
  happen-Calls w (arrives frame) e = no_Calls out.crypto w.daemon.audit _ refl
  happen-Calls w (turns n m) e = step_at-Calls m w.daemon n w.tasks e
  happen-Calls w (emits m) e = emit_Calls m w.daemon e
  happen-Calls w (spools r o) e = spool-Calls r o w.daemon e
  happen-Calls w (governs g) e = no_Calls out.crypto w.daemon.audit _ refl
  happen-Calls w (projects s) e = no_Calls out.crypto w.daemon.audit _ refl
  happen-Calls w (reloads c) e = no_Calls out.crypto w.daemon.audit _ refl

  run-Calls :
      (w : World S D F32 F64 Json) (acts : List (Act S F32))
      → All DiskTakes acts
      → Calls out.crypto (length acts) w.daemon.audit (run out w acts).daemon.audit
  unfolding run History.run
  run-Calls w [] e = record { calls = []; reached = refl; few = omega arith }
  run-Calls w (act ∷ acts) (e, es) =
      let p =
        Calls-trans out.crypto 1 (length acts) w.daemon.audit _ _ (happen-Calls w act e)
          (run-Calls (happen out w act) acts es) in
      record { calls = p.calls; reached = p.reached; few = omega (arith, p.few) }

  -- A daemon whose audit writer starts on an empty directory, with a disk that takes every audit
  -- segment: whatever order its frames and background tasks take their steps in, after the shutdown the
  -- offline verification of all the audit segments succeeds as one chain and counts every segment.
  pub verify_all-shutdown :
      (tenant_id : Bytes) (signer : Signer) (n : ℕ) (w : World S D F32 F64 Json)
      (acts : List (Act S F32)) (m : Moment)
      → w.daemon.audit ≡ start tenant_id signer n
      → Signs out.crypto signer
      → All DiskTakes acts
      → m.disk_ok ≡ true
      → length acts + 2 < u64_size
      → let store = (shutdown out m (run out w acts).daemon).0.store in
        (records : ℕ) × (verify_all out.crypto store
          ≡ ok (record { segments_verified = length store.segments; records_verified = records }))
  unfolding shutdown
  verify_all-shutdown tenant_id signer n w acts m from signs es e small =
      let d = (run out w acts).daemon in
      let last = (emit_coverage_gap_if_any out m d).audit in
      let p =
        Calls-trans out.crypto (length acts) 1 w.daemon.audit d.audit last (run-Calls w acts es)
          (emit_Calls m d e) in
      let at = ap (λ a. History.run out.crypto a p.calls) (sym from) ∙ p.reached in
      let Verified = λ (disk_ok : Bool) (a : AuditChainWriter).
        let store = (flush disk_ok a).0.store in
        verify_all out.crypto store
        ≡ ok (record {
          segments_verified = length store.segments;
          records_verified = observations p.calls;
        }) in
      let verified =
        verify_all-run out.crypto tenant_id signer n p.calls signs (omega (arith, p.few, small)) in
      (
        observations p.calls,
        subst (λ x. Verified x last) (sym e) (subst (Verified true) at verified),
      )
