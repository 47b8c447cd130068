-- ===== src/Audit/Everywhere.antt =====
-- A property of every record of an audit writer: the pending ones and those in the segments on disk.
use athar.Prelude.{
  ℕ, inl, inr, Bool, true, false, List, [], ◌∷◌, Bytes, length, leb, ltb, ◌==◌, All, All-append,
  All-map, Bool-cases,
}
use athar.Audit.Record.{ChainedRecord, Segment}
use athar.Audit.Chain.{Crypto, from_tip, chained, append}
use athar.Audit.Chain
use athar.Audit.Store.{place, write}
use athar.Audit.Writer.{AuditChainWriter, is_empty, closing, close_segment, observed, observe}

module _ {ℓ} (P : ChainedRecord → Type ℓ) where
  pub record Everywhere (w : AuditChainWriter) : Type ℓ where
    pub pending : All P w.inner.records
    pub stored : All (λ seg. All P seg.records) w.store.segments

  All-place :
      (seg : Segment) (segs : List Segment)
      → All P seg.records
      → All (λ s. All P s.records) segs
      → All (λ s. All P s.records) (place seg segs)
  unfolding place
  All-place seg [] h hs = (h, tt)
  All-place seg (x ∷ xs) h hs = elim (Bool-cases (ltb x.segment_id seg.segment_id)) [
    | inl less ↦ rw (less, place) (hs.0, All-place seg xs h hs.1)
    | inr not_less ↦ elim (Bool-cases (x.segment_id == seg.segment_id)) [
      | inl same ↦ rw (not_less, same, place) (h, hs.1)
      | inr other ↦ rw (not_less, other, place) (h, hs)
    ]
  ]

  All-write :
      (disk_ok : Bool) (w : AuditChainWriter) (seg : Segment)
      → All P seg.records
      → All (λ s. All P s.records) w.store.segments
      → All (λ s. All P s.records) (write disk_ok seg w.store).segments
  unfolding write
  All-write true w seg h hs = All-place seg w.store.segments h hs
  All-write false w seg h hs = hs

  pub close_segment-Everywhere :
      (disk_ok : Bool) (w : AuditChainWriter)
      → Everywhere w
      → Everywhere (close_segment disk_ok w).0
  unfolding close_segment closing Chain.close_segment from_tip
  close_segment-Everywhere disk_ok w v = elim (Bool-cases (is_empty w.inner.records)) [
    | inl empty ↦ rw (empty, close_segment) v
    | inr filled ↦
        rw (filled, close_segment)
          (record {
            pending = tt;
            stored =
                All-write disk_ok w (Chain.close_segment w.inner w.next_segment_id w.signer).1
                  v.pending v.stored;
          })
  ]

  pub observe-Everywhere :
      (crypto : Crypto) (disk_ok : Bool) (w : AuditChainWriter) (kind payload : Bytes) (now : ℕ)
      → P (chained crypto w.inner.tip_hash w.inner.next_seq (observed crypto w kind payload now))
      → Everywhere w
      → Everywhere (observe crypto disk_ok w kind payload now).0
  unfolding observe append
  observe-Everywhere crypto disk_ok w kind payload now p v =
      let w' = record w { inner = append crypto w.inner (observed crypto w kind payload now) } in
      let v' : Everywhere w' = record {
        pending = All-append P w.inner.records _ v.pending (p, tt);
        stored = v.stored;
      } in
      elim (Bool-cases (leb w.max_records_per_segment (length w'.inner.records))) [
        | inl full ↦ rw (full, observe, append) (close_segment-Everywhere disk_ok w' v')
        | inr room ↦ rw (room, observe, append) v'
      ]

-- A property that follows from another holds where that one does.
pub Everywhere-map {ℓ κ} :
    (P : ChainedRecord → Type ℓ) (Q : ChainedRecord → Type κ) (w : AuditChainWriter)
    → ((cr : ChainedRecord) → P cr → Q cr)
    → Everywhere P w
    → Everywhere Q w
Everywhere-map P Q w k v = record {
  pending = All-map k w.inner.records v.pending;
  stored = All-map (λ s h. All-map k s.records h) w.store.segments v.stored;
}
