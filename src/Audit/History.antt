-- ===== src/Audit/History.antt =====
-- Sequences of calls of an audit writer on an empty directory, with a disk that takes every write.
use athar.Prelude.{
  ℕ, ◌+◌, ◌<◌, ◌≡◌, refl, sym, ap, ◌∙◌, true, List, [], ◌∷◌, Bytes, u64_size, length, arith,
  Bool-cases, inl, inr,
}
use mathlib.Core.Path.{subst}
use athar.Audit.Record.{ChainedRecord}
use athar.Audit.Chain.{Crypto, Signer, ok, from_tip, append}
use athar.Audit.Closing.{Signs}
use athar.Audit.Store.{SegmentStore, verify_all}
use athar.Audit.Writer.{
  AuditChainWriter, open_writer, closing, is_empty, close_segment, flush, observe, observed,
  with_max_records_per_segment,
}
use athar.Audit.Continuity.{Inv, open_writer-Inv, close_segment-Inv, observe-Inv}

pub data Call : Type 0 where
  observes : Bytes → Bytes → ℕ → Call
  flushes : Call

abbrev pub observations : List Call → ℕ
observations [] = 0
observations (observes kind payload now ∷ calls) = observations calls + 1
observations (flushes ∷ calls) = observations calls

abbrev pub empty_store : SegmentStore
empty_store = record { segments = [] }

-- A writer on an empty directory with a bound on the records of a segment.
unfoldable pub start : Bytes → Signer → ℕ → AuditChainWriter
start tenant_id signer n = with_max_records_per_segment (open_writer empty_store tenant_id signer) n

module _ (crypto : Crypto) where
  unfoldable pub step : AuditChainWriter → Call → AuditChainWriter
  step w (observes kind payload now) = (observe crypto true w kind payload now).0
  step w flushes = (flush true w).0

  unfoldable pub run : AuditChainWriter → List Call → AuditChainWriter
  unfolding step
  run w [] = w
  run w (call ∷ calls) = run (step w call) calls

  signer-close_segment : (w : AuditChainWriter) → (close_segment true w).0.signer ≡ w.signer
  unfolding close_segment closing
  signer-close_segment w = elim (Bool-cases (is_empty w.inner.records)) [
    | inl empty ↦ rw (empty, close_segment) refl
    | inr filled ↦ rw (filled, close_segment) refl
  ]

  signer-step : (w : AuditChainWriter) (call : Call) → (step w call).signer ≡ w.signer
  unfolding step observe flush
  signer-step w flushes = signer-close_segment w
  signer-step w (observes kind payload now) = ground (
    arith,
    signer-close_segment
        (record w { inner = append crypto w.inner (observed crypto w kind payload now) }),
  )

  Inv-step :
      (w : AuditChainWriter) (call : Call) (before seen : ℕ)
      → Signs crypto w.signer
      → before + 1 < u64_size
      → Inv crypto w before seen
      → Inv crypto (step w call) (before + 1) (seen + observations (call ∷ []))
  unfolding step flush
  Inv-step w (observes kind payload now) before seen signs small v =
      observe-Inv crypto w kind payload now before seen signs small v
  Inv-step w flushes before seen signs small v =
      subst (Inv crypto (close_segment true w).0 (before + 1)) (omega arith)
        (close_segment-Inv crypto w before seen signs small v)

  observations-cons :
      (call : Call) (calls : List Call)
      → observations (call ∷ calls) ≡ observations (call ∷ []) + observations calls
  observations-cons (observes kind payload now) calls = omega arith
  observations-cons flushes calls = omega arith

  pub Inv-run :
      (w : AuditChainWriter) (calls : List Call) (before seen after all : ℕ)
      → Signs crypto w.signer
      → after < u64_size
      → before + length calls ≡ after
      → seen + observations calls ≡ all
      → Inv crypto w before seen
      → Inv crypto (run w calls) after all
  unfolding run
  Inv-run w [] before seen after all signs small m n v =
      subst (λ x. Inv crypto w x all) (omega (arith, m))
        (subst (Inv crypto w before) (omega (arith, n)) v)
  Inv-run w (call ∷ calls) before seen after all signs small m n v =
      Inv-run (step w call) calls (before + 1) (seen + observations (call ∷ [])) after all
        (subst (Signs crypto) (sym (signer-step w call)) signs) small (omega (arith, m))
        (omega (arith, n, observations-cons call calls))
        (Inv-step w call before seen signs (omega (arith, m)) v)

  pub signer-run : (w : AuditChainWriter) (calls : List Call) → (run w calls).signer ≡ w.signer
  unfolding run
  signer-run w [] = refl
  signer-run w (call ∷ calls) = signer-run (step w call) calls ∙ signer-step w call

  -- Nothing is pending after a flush.
  pub records-flush : (w : AuditChainWriter) → (flush true w).0.inner.records ≡ []
  unfolding flush close_segment closing from_tip
  records-flush w = elim (Bool-cases (is_empty w.inner.records)) [
    | inl empty ↦ rw (empty, close_segment) (nothing_pending w.inner.records empty)
    | inr filled ↦ rw (filled, close_segment) refl
  ]
    where
      nothing_pending : (crs : List ChainedRecord) → is_empty crs ≡ true → crs ≡ []
      nothing_pending [] h = refl
      nothing_pending (cr ∷ crs) h = cc

  start-Inv :
      (tenant_id : Bytes) (signer : Signer) (n : ℕ) → Inv crypto (start tenant_id signer n) 0 0
  unfolding start with_max_records_per_segment
  start-Inv tenant_id signer n =
      let v = open_writer-Inv crypto tenant_id signer in
      record {
        stored = v.stored;
        chain = v.chain;
        verified = v.verified;
        counts = v.counts;
        anchored = v.anchored;
        ids = v.ids;
        follows = v.follows;
        few = v.few;
      }

  -- Whatever a writer that starts on an empty directory observes and flushes, with a disk that takes
  -- every write: after a last flush the offline verification of all segments succeeds as one chain,
  -- and counts every segment and every observation.
  pub verify_all-run :
      (tenant_id : Bytes) (signer : Signer) (n : ℕ) (calls : List Call)
      → Signs crypto signer
      → length calls + 1 < u64_size
      → let w = (flush true (run (start tenant_id signer n) calls)).0 in
        verify_all crypto w.store
        ≡ ok (record {
          segments_verified = length w.store.segments;
          records_verified = observations calls;
        })
  unfolding start open_writer with_max_records_per_segment flush
  verify_all-run tenant_id signer n calls signs small =
      let w = run (start tenant_id signer n) calls in
      let v =
        Inv-run (start tenant_id signer n) calls 0 0 (length calls) (observations calls) signs
          (omega arith) (omega arith) (omega arith) (start-Inv tenant_id signer n) in
      let v' =
        close_segment-Inv crypto w (length calls) (observations calls)
          (subst (Signs crypto) (sym (signer-run (start tenant_id signer n) calls)) signs) small
          v in
      v'.verified
      ∙ ap
          (λ m. ok (record {
            segments_verified = length (close_segment true w).0.store.segments;
            records_verified = m;
          }))
          (omega (arith, v'.counts, ap length (records-flush w)))
