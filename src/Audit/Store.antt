-- ===== src/Audit/Store.antt =====
-- `SegmentStore` of daemon/crates/athar-audit/src/persistence.rs: the segments that are on disk, in the
-- order of their ids, which is the order of `list`. Whether the disk accepts a write is an argument;
-- a write that fails leaves the directory as it was, since it goes through a temporary file. Reading
-- a segment back is taken to succeed.
use athar.Prelude.{
  ℕ, ◌+◌, Bool, Option, none, some, List, [], ◌∷◌, Bytes, bytes_eq, length, ltb, ◌==◌,
  if◌then◌else◌,
}
use athar.Audit.Record.{ChainedRecord, Segment, chain_broken}
use athar.Audit.Chain.{Crypto, Verdict, ok, err, verify_chain, verify_segment}

pub record SegmentStore : Type 0 where
  pub segments : List Segment

pub record VerifyReport : Type 0 where
  pub segments_verified : ℕ
  pub records_verified : ℕ

-- A file with the segment's id, new or in place of one with that id.
unfoldable pub place : Segment → List Segment → List Segment
place seg [] = seg ∷ []
place seg (x ∷ xs) =
    let rest = place seg xs in
    if ltb x.segment_id seg.segment_id
    then x ∷ rest
    else if x.segment_id == seg.segment_id
    then seg ∷ xs
    else seg ∷ x ∷ xs

unfoldable pub write : Bool → Segment → SegmentStore → SegmentStore
unfolding place
write disk_ok seg s = if disk_ok then record { segments = place seg s.segments } else s

infixl 5 ◌>>◌
abbrev pub ◌>>◌ {ℓ} : {A B : Type ℓ} → Verdict A → Verdict B → Verdict B
ok a >> k = k
err e >> k = err e

-- `seg.records.last().map(|r| r.record_hash)`.
unfoldable pub last_hash : List ChainedRecord → Option Bytes
last_hash [] = none
last_hash (cr ∷ []) = some cr.record_hash
last_hash (cr ∷ x ∷ xs) = last_hash (x ∷ xs)

unfoldable pub counted : Segment → VerifyReport → VerifyReport
counted seg report = record {
  segments_verified = report.segments_verified + 1;
  records_verified = report.records_verified + length seg.records;
}

module _ (crypto : Crypto) where
  -- The continuity of a segment with the one before it.
  unfoldable pub check_anchor : Option Bytes → List ChainedRecord → Verdict Bytes
  check_anchor none crs = ok []
  check_anchor (some anchor) [] = ok []
  check_anchor (some anchor) (first ∷ crs) =
      if bytes_eq first.prev_hash anchor
      then verify_chain crypto (first ∷ crs) anchor first.entry.seq
      else err (chain_broken 0)

  -- The rounds of `verify_all` from here on.
  unfoldable pub verify_all_from : Option Bytes → VerifyReport → List Segment → Verdict VerifyReport
  unfolding check_anchor last_hash counted
  verify_all_from prev_tip report [] = ok report
  verify_all_from prev_tip report (seg ∷ segs) =
      let rest = verify_all_from (last_hash seg.records) (counted seg report) segs in
      (verify_segment crypto seg >> check_anchor prev_tip seg.records) >> rest

  unfoldable pub verify_all : SegmentStore → Verdict VerifyReport
  unfolding verify_all_from
  verify_all s =
      verify_all_from none (record { segments_verified = 0; records_verified = 0 }) s.segments
