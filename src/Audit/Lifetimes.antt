-- ===== src/Audit/Lifetimes.antt =====
-- One audit directory over several runs of the daemon: each opens it, observes and flushes, and flushes
-- when it shuts down. The disk takes every write.
use athar.Prelude.{
  ℕ, ◌+◌, ◌<◌, ◌≡◌, refl, sym, ap, ◌∙◌, true, List, [], ◌∷◌, Bytes, u64_size, length, All, arith,
}
use mathlib.Core.Path.{subst}
use athar.Audit.Chain.{Crypto, Signer, ok}
use athar.Audit.Closing.{Signs}
use athar.Audit.Store.{SegmentStore, verify_all, verify_all_from}
use athar.Audit.Writer.{AuditChainWriter, open_writer, flush, with_max_records_per_segment}
use athar.Audit.Continuity.{Inv, open_writer-Inv, close_segment-Inv}
use athar.Audit.History.{Call, observations, empty_store, run, Inv-run, signer-run, records-flush}
use athar.Audit.Restarts.{start_on, reopened-Inv}

-- What one run of the daemon is started with, and what it does.
pub record Lifetime : Type 0 where
  pub tenant_id : Bytes
  pub signer : Signer
  pub max_records : ℕ
  pub calls : List Call

abbrev pub steps : List Lifetime → ℕ
steps [] = 0
steps (l ∷ ls) = length l.calls + 1 + steps ls

abbrev pub observed_in : List Lifetime → ℕ
observed_in [] = 0
observed_in (l ∷ ls) = observations l.calls + observed_in ls

module _ (crypto : Crypto) where
  -- The writer after a run and its shutdown.
  unfoldable pub live : SegmentStore → Lifetime → AuditChainWriter
  unfolding start_on run flush
  live store l =
      (flush true (run crypto (start_on store l.tenant_id l.signer l.max_records) l.calls)).0

  unfoldable pub run_lifetimes : SegmentStore → List Lifetime → SegmentStore
  unfolding live
  run_lifetimes store [] = store
  run_lifetimes store (l ∷ ls) = run_lifetimes (live store l).store ls

  live-Inv :
      (w : AuditChainWriter) (l : Lifetime) (before seen : ℕ)
      → Signs crypto l.signer
      → before + (length l.calls + 1) < u64_size
      → w.inner.records ≡ []
      → Inv crypto w before seen
      → Inv crypto (live w.store l) (before + (length l.calls + 1)) (seen + observations l.calls)
  unfolding live flush start_on open_writer with_max_records_per_segment
  live-Inv w l before seen signs small flushed v =
      let w1 = start_on w.store l.tenant_id l.signer l.max_records in
      let v1 =
        reopened-Inv crypto w l.tenant_id l.signer l.max_records before seen (omega (arith, small))
          flushed v in
      let v2 =
        Inv-run crypto w1 l.calls before seen (before + length l.calls)
          (seen + observations l.calls) signs (omega (arith, small)) refl refl v1 in
      subst (λ n. Inv crypto (live w.store l) n (seen + observations l.calls)) (omega arith)
        (close_segment-Inv crypto (run crypto w1 l.calls) (before + length l.calls)
          (seen + observations l.calls)
          (subst (Signs crypto) (sym (signer-run crypto w1 l.calls)) signs) (omega (arith, small))
          v2)

  records-live : (store : SegmentStore) (l : Lifetime) → (live store l).inner.records ≡ []
  unfolding live
  records-live store l =
      records-flush crypto (run crypto (start_on store l.tenant_id l.signer l.max_records) l.calls)

  verify_all-run_from :
      (w : AuditChainWriter) (ls : List Lifetime) (before seen : ℕ)
      → All (λ l. Signs crypto l.signer) ls
      → before + steps ls < u64_size
      → w.inner.records ≡ []
      → Inv crypto w before seen
      → verify_all crypto (run_lifetimes w.store ls)
        ≡ ok (record {
          segments_verified = length (run_lifetimes w.store ls).segments;
          records_verified = seen + observed_in ls;
        })
  unfolding run_lifetimes
  verify_all-run_from w [] before seen signs small flushed v =
      v.verified
      ∙ ap (λ m. ok (record { segments_verified = length w.store.segments; records_verified = m }))
          (omega (arith, v.counts, ap length flushed))
  verify_all-run_from w (l ∷ ls) before seen signs small flushed v =
      subst
        (λ m.
          verify_all crypto (run_lifetimes (live w.store l).store ls)
          ≡ ok (record {
            segments_verified = length (run_lifetimes (live w.store l).store ls).segments;
            records_verified = m;
          }))
        (omega arith)
        (verify_all-run_from (live w.store l) ls (before + (length l.calls + 1))
          (seen + observations l.calls) signs.1 (omega (arith, small)) (records-live w.store l)
          (live-Inv w l before seen signs.0 (omega (arith, small)) flushed v))

  -- However often the daemon is restarted on an audit directory that was empty at first, with whatever
  -- signer and bound on the records of a segment, and whatever it observes and flushes in between: after
  -- a shutdown the offline verification of all segments succeeds as one chain, and counts every segment
  -- and every observation of every run. The disk takes every write, the signatures verify, and there are
  -- fewer than 2 ^ 64 calls, each shutdown being one.
  pub verify_all-run_lifetimes :
      (ls : List Lifetime)
      → All (λ l. Signs crypto l.signer) ls
      → steps ls < u64_size
      → verify_all crypto (run_lifetimes empty_store ls)
        ≡ ok (record {
          segments_verified = length (run_lifetimes empty_store ls).segments;
          records_verified = observed_in ls;
        })
  unfolding run_lifetimes verify_all verify_all_from open_writer
  verify_all-run_lifetimes [] signs small = refl
  verify_all-run_lifetimes (l ∷ ls) signs small =
      subst
        (λ m.
          verify_all crypto (run_lifetimes empty_store (l ∷ ls))
          ≡ ok (record {
            segments_verified = length (run_lifetimes empty_store (l ∷ ls)).segments;
            records_verified = m;
          }))
        (omega arith)
        (verify_all-run_from (open_writer empty_store l.tenant_id l.signer) (l ∷ ls) 0 0 signs
          (omega (arith, small)) refl (open_writer-Inv crypto l.tenant_id l.signer))
