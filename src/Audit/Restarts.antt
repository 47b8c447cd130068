-- ===== src/Audit/Restarts.antt =====
-- An audit writer that opens a directory which an earlier writer has left after a flush.
use athar.Prelude.{
  ℕ, ◌<◌, ◌≤◌, ◌≡◌, sym, ap, ◌∙◌, Option, none, List, [], ◌∷◌, Bytes, add64_fits, u64_size, length,
  last, All, arith,
}
use mathlib.Core.Path.{subst}
use athar.Audit.Record.{Segment}
use athar.Audit.Chain.{Crypto, Signer}
use athar.Audit.Closing.{from_tip-IsChain}
use athar.Audit.Store.{SegmentStore, last_hash}
use athar.Audit.Writer.{AuditChainWriter, open_writer, resume, with_max_records_per_segment}
use athar.Audit.Continuity.{Inv, carried, Anchors, Anchors-unwrap_or, Follows}

resume-Anchors :
    (prev : Option Bytes) (seg : Segment) (segs : List Segment)
    → Anchors (carried prev (seg ∷ segs)) (resume (last (seg ∷ segs))).0
unfolding carried resume
resume-Anchors prev seg [] = Anchors-unwrap_or (last_hash seg.records) _
resume-Anchors prev seg (x ∷ xs) = resume-Anchors (last_hash seg.records) x xs

resumed_tip : (segs : List Segment) → Anchors (carried none segs) (resume (last segs)).0
unfolding carried resume
resumed_tip [] = tt
resumed_tip (seg ∷ segs) = resume-Anchors none seg segs

resumed_id :
    (n : ℕ) (seg : Segment) (segs : List Segment)
    → n < u64_size
    → Follows n (last (seg ∷ segs))
    → (resume (last (seg ∷ segs))).2 ≡ n
unfolding resume
resumed_id n seg [] small h = add64_fits seg.segment_id 1 (omega (arith, h, small)) ∙ h
resumed_id n seg (x ∷ xs) small h = resumed_id n x xs small h

resumed_ids :
    (n : ℕ) (segs : List Segment)
    → n < u64_size
    → Follows n (last segs)
    → All (λ x. x.segment_id < n) segs
    → All (λ x. x.segment_id < (resume (last segs)).2) segs
unfolding resume
resumed_ids n [] small h ids = tt
resumed_ids n (seg ∷ segs) small h ids =
    subst (λ k. All (λ x. x.segment_id < k) (seg ∷ segs)) (sym (resumed_id n seg segs small h)) ids

resumed_le :
    (n : ℕ) (segs : List Segment)
    → n < u64_size
    → Follows n (last segs)
    → (resume (last segs)).2 ≤ n
unfolding resume
resumed_le n [] small h = omega arith
resumed_le n (seg ∷ segs) small h = omega (arith, resumed_id n seg segs small h)

resumed_follows :
    (n : ℕ) (segs : List Segment)
    → n < u64_size
    → Follows n (last segs)
    → Follows (resume (last segs)).2 (last segs)
unfolding resume
resumed_follows n [] small h = tt
resumed_follows n (seg ∷ segs) small h =
    subst (λ k. Follows k (last (seg ∷ segs))) (sym (resumed_id n seg segs small h)) h

-- A writer that opens a directory, with a bound on the records of a segment.
unfoldable pub start_on : SegmentStore → Bytes → Signer → ℕ → AuditChainWriter
start_on store tenant_id signer n =
    with_max_records_per_segment (open_writer store tenant_id signer) n

module _ (crypto : Crypto) where
  pub reopened-Inv :
      (w : AuditChainWriter) (tenant_id : Bytes) (signer : Signer) (n calls seen : ℕ)
      → calls < u64_size
      → w.inner.records ≡ []
      → Inv crypto w calls seen
      → Inv crypto (start_on w.store tenant_id signer n) calls seen
  unfolding start_on open_writer with_max_records_per_segment
  reopened-Inv w tenant_id signer n calls seen small flushed v =
      let segs = w.store.segments in
      let below : w.next_segment_id < u64_size = omega (arith, v.few) in
      record {
        stored = v.stored;
        chain = from_tip-IsChain crypto _ _;
        verified = v.verified;
        counts = omega (arith, v.counts, ap length flushed);
        anchored = resumed_tip segs;
        ids = resumed_ids w.next_segment_id segs below v.follows v.ids;
        follows = resumed_follows w.next_segment_id segs below v.follows;
        few = omega (arith, resumed_le w.next_segment_id segs below v.follows, v.few);
      }
