-- ===== src/Audit/Continuity.antt =====
-- What each call of an audit writer keeps.
use athar.Prelude.{
  ℕ, ◌+◌, ◌<◌, ◌≤◌, ◌≡◌, ◌≢◌, refl, sym, ap, ◌∙◌, ◌++◌, true, false, Option, none, some, List, [],
  ◌∷◌, Bytes, bytes_eq_iff, add64, add64_fits, u64_size, length, length-append, last, last-append,
  All, All-append, unwrap_or, leb, arith, Bool-cases, inl, inr,
}
use mathlib.Core.Path.{subst}
use athar.Audit.Record.{AuditRecord, ChainedRecord, Segment}
use athar.Audit.Chain.{
  Crypto, Signer, Verdict, ok, err, ChainWriter, from_tip, append, verify_from, verify_chain,
  verify_segment,
}
use athar.Audit.Chain
use athar.Audit.Closing.{
  Signs, IsChain, from_tip-IsChain, append-IsChain, verified_first, verify_segment-close_segment,
}
use athar.Audit.Store.{
  VerifyReport, place, write, last_hash, counted, check_anchor, verify_all_from, verify_all,
}
use athar.Audit.Writer.{
  AuditChainWriter, open_writer, resume, closing, is_empty, close_segment, observed, observe,
}

-- A segment with a larger id than all is placed at the end.
place_last :
    (seg : Segment) (segs : List Segment)
    → All (λ x. x.segment_id < seg.segment_id) segs
    → place seg segs ≡ segs ++ seg ∷ []
unfolding place
place_last seg [] h = refl
place_last seg (x ∷ xs) h = ground (arith, h.0, place_last seg xs h.1)

All-weaken :
    (m n : ℕ) (segs : List Segment)
    → m ≤ n
    → All (λ x. x.segment_id < m) segs
    → All (λ x. x.segment_id < n) segs
All-weaken m n [] le h = tt
All-weaken m n (x ∷ xs) le h = (omega (arith, h.0), All-weaken m n xs le h.1)

-- The tip that `verify_all` carries to the end.
unfoldable pub carried : Option Bytes → List Segment → Option Bytes
carried prev [] = prev
carried prev (seg ∷ segs) = carried (last_hash seg.records) segs

carried-append :
    (prev : Option Bytes) (segs : List Segment) (seg : Segment)
    → carried prev (segs ++ seg ∷ []) ≡ last_hash seg.records
unfolding carried
carried-append prev [] seg = refl
carried-append prev (x ∷ xs) seg = carried-append (last_hash x.records) xs seg

-- The tip, if there is one, is the given one.
abbrev pub Anchors : Option Bytes → Bytes → Type 0
Anchors none tip = Unit {0}
Anchors (some anchor) tip = anchor ≡ tip

pub Anchors-unwrap_or : (o : Option Bytes) (d : Bytes) → Anchors o (unwrap_or o d)
Anchors-unwrap_or none d = tt
Anchors-unwrap_or (some anchor) d = refl

-- The id is the one after that of the last segment, if there is one.
abbrev pub Follows : ℕ → Option Segment → Type 0
Follows n none = Unit {0}
Follows n (some seg) = seg.segment_id + 1 ≡ n

abbrev zero_report : VerifyReport
zero_report = record { segments_verified = 0; records_verified = 0 }

module _ (crypto : Crypto) where
  verify_all_from-append :
      (prev : Option Bytes) (r r' : VerifyReport) (segs : List Segment) (seg : Segment)
      → verify_all_from crypto prev r segs ≡ ok r'
      → verify_segment crypto seg ≡ ok tt
      → (tip : Bytes) → check_anchor crypto (carried prev segs) seg.records ≡ ok tip
      → verify_all_from crypto prev r (segs ++ seg ∷ []) ≡ ok (counted seg r')
  unfolding verify_all_from carried
  verify_all_from-append prev r r' [] seg v s tip c = ground arith
  verify_all_from-append prev r r' (x ∷ xs) seg v s tip c = ground (
    arith,
    λ (h : verify_all_from crypto (last_hash x.records) (counted x r) xs ≡ ok r').
        verify_all_from-append (last_hash x.records) (counted x r) r' xs seg h s tip c,
  )

  check_anchor_lem :
      (prev : Option Bytes) (anchor : Bytes) (start : ℕ) (crs : List ChainedRecord) (tip : Bytes)
      → Anchors prev anchor
      → verify_from crypto 0 anchor start crs ≡ ok tip
      → (found : Bytes) × (check_anchor crypto prev crs ≡ ok found)
  unfolding check_anchor verify_chain
  check_anchor_lem none anchor start crs tip a v = ([], refl)
  check_anchor_lem (some x) anchor start [] tip a v = ([], refl)
  check_anchor_lem (some x) anchor start (cr ∷ crs) tip a v =
      let first = verified_first crypto anchor start cr crs tip v in
      let here : verify_from crypto 0 x cr.entry.seq (cr ∷ crs) ≡ ok tip = cc (a, first.1, v) in
      (tip, ground (arith, bytes_eq_iff cr.prev_hash x, here))

  -- What holds between two calls, after `calls` calls and `seen` observations: the pending records
  -- continue the chain, what is on disk verifies and is counted, and its tip is the writer's.
  pub record Inv (w : AuditChainWriter) (calls seen : ℕ) : Type 0 where
    pub stored : ℕ
    pub chain : IsChain crypto w.tip w.next_seq w.inner
    pub verified :
        verify_all crypto w.store
        ≡ ok (record { segments_verified = length w.store.segments; records_verified = stored })
    pub counts : stored + length w.inner.records ≡ seen
    pub anchored : Anchors (carried none w.store.segments) w.tip
    pub ids : All (λ x. x.segment_id < w.next_segment_id) w.store.segments
    pub follows : Follows w.next_segment_id (last w.store.segments)
    pub few : w.next_segment_id ≤ calls

  pub open_writer-Inv :
      (tenant_id : Bytes) (signer : Signer)
      → Inv (open_writer (record { segments = [] }) tenant_id signer) 0 0
  unfolding open_writer resume verify_all verify_all_from carried from_tip
  open_writer-Inv tenant_id signer = record {
    stored = 0;
    chain = from_tip-IsChain crypto _ 0;
    verified = refl;
    counts = refl;
    anchored = tt;
    ids = tt;
    follows = tt;
    few = omega arith;
  }

  closing-Inv :
      (w : AuditChainWriter) (calls seen : ℕ)
      → Signs crypto w.signer
      → calls + 1 < u64_size
      → w.inner.records ≢ []
      → Inv w calls seen
      → Inv (closing true w) (calls + 1) seen
  unfolding closing write verify_all counted
  closing-Inv w calls seen signs small filled v =
      let seg = (Chain.close_segment w.inner w.next_segment_id w.signer).1 in
      let segs = w.store.segments in
      let fits : add64 w.next_segment_id 1 ≡ w.next_segment_id + 1 =
        add64_fits w.next_segment_id 1 (omega (arith, v.few)) in
      let at_end : place seg segs ≡ segs ++ seg ∷ [] = place_last seg segs v.ids in
      let anchor =
        check_anchor_lem (carried none segs) w.tip w.next_seq w.inner.records w.inner.tip_hash
          v.anchored v.chain.verified in
      let whole =
        verify_segment-close_segment crypto w.signer w.tip w.next_seq w.next_segment_id w.inner
          signs v.chain filled in
      record {
        stored = v.stored + length w.inner.records;
        chain = from_tip-IsChain crypto _ _;
        verified =
            subst
              (λ x.
                verify_all_from crypto none zero_report x
                ≡ ok (record {
                  segments_verified = length x;
                  records_verified = v.stored + length w.inner.records;
                }))
              (sym at_end)
              (verify_all_from-append none zero_report _ segs seg v.verified whole anchor.0 anchor.1
                ∙ ap
                    (λ n. ok (record {
                      segments_verified = n;
                      records_verified = v.stored + length w.inner.records;
                    }))
                    (sym (length-append segs (seg ∷ []))));
        counts = omega (arith, v.counts);
        anchored =
            subst (λ x. Anchors x (unwrap_or (last_hash w.inner.records) w.tip))
              (sym (ap (carried none) at_end ∙ carried-append none segs seg))
              (Anchors-unwrap_or (last_hash w.inner.records) w.tip);
        ids = subst (All (λ x. x.segment_id < add64 w.next_segment_id 1)) (sym at_end) (
            All-append _ segs (seg ∷ [])
              (All-weaken w.next_segment_id _ segs (omega (arith, fits)) v.ids)
              (omega (arith, fits), tt));
        follows =
            subst (Follows (add64 w.next_segment_id 1))
              (sym (ap last at_end ∙ last-append segs seg)) (sym fits);
        few = omega (arith, fits, v.few);
      }

  not_empty : (crs : List ChainedRecord) → is_empty crs ≡ false → crs ≢ []
  not_empty crs h e = cc (ap is_empty e, h)

  Inv-later : (w : AuditChainWriter) (calls seen : ℕ) → Inv w calls seen → Inv w (calls + 1) seen
  Inv-later w calls seen v = record {
    stored = v.stored;
    chain = v.chain;
    verified = v.verified;
    counts = v.counts;
    anchored = v.anchored;
    ids = v.ids;
    follows = v.follows;
    few = omega (arith, v.few);
  }

  pub close_segment-Inv :
      (w : AuditChainWriter) (calls seen : ℕ)
      → Signs crypto w.signer
      → calls + 1 < u64_size
      → Inv w calls seen
      → Inv (close_segment true w).0 (calls + 1) seen
  unfolding close_segment
  close_segment-Inv w calls seen signs small v = elim (Bool-cases (is_empty w.inner.records)) [
    | inl empty ↦ rw (empty, close_segment) (Inv-later w calls seen v)
    | inr filled ↦
        rw (filled, close_segment)
          (closing-Inv w calls seen signs small (not_empty w.inner.records filled) v)
  ]

  appended-Inv :
      (w : AuditChainWriter) (r : AuditRecord) (calls seen : ℕ)
      → Inv w calls seen
      → Inv (record w { inner = append crypto w.inner r }) calls (seen + 1)
  unfolding append
  appended-Inv w r calls seen v = record {
    stored = v.stored;
    chain = append-IsChain crypto w.tip w.next_seq w.inner r v.chain;
    verified = v.verified;
    counts = omega (arith, v.counts, length-append w.inner.records (_ ∷ []));
    anchored = v.anchored;
    ids = v.ids;
    follows = v.follows;
    few = v.few;
  }

  pub observe-Inv :
      (w : AuditChainWriter) (kind payload : Bytes) (now calls seen : ℕ)
      → Signs crypto w.signer
      → calls + 1 < u64_size
      → Inv w calls seen
      → Inv (observe crypto true w kind payload now).0 (calls + 1) (seen + 1)
  unfolding observe
  observe-Inv w kind payload now calls seen signs small v =
      let r = observed crypto w kind payload now in
      let w' : AuditChainWriter = record w { inner = append crypto w.inner r } in
      let v' = appended-Inv w r calls seen v in
      elim (Bool-cases (leb w.max_records_per_segment (length w'.inner.records))) [
        | inl full ↦ rw (full, observe) (close_segment-Inv w' calls (seen + 1) signs small v')
        | inr room ↦ rw (room, observe) (Inv-later w' calls (seen + 1) v')
      ]
