-- ===== src/Audit/Writer.antt =====
-- `AuditChainWriter` of daemon/crates/athar-audit/src/writer.rs. The clock and whether the disk accepts
-- a write are arguments of a call.
use athar.Prelude.{
  ℕ, Bool, true, false, Option, none, some, List, [], ◌∷◌, Bytes, length, last, leb, add64,
  unwrap_or, if◌then◌else◌,
}
use athar.Audit.Record.{AuditRecord, ChainedRecord, Segment, genesis_prev_hash}
use athar.Audit.Chain.{Crypto, Signer, ChainWriter, from_tip, payload_commitment, append}
use athar.Audit.Chain
use athar.Audit.Store.{SegmentStore, write, last_hash}

pub record AuditChainWriter : Type 0 where
  pub inner : ChainWriter
  pub store : SegmentStore
  pub signer : Signer
  pub tenant_id : Bytes
  pub tip : Bytes
  pub next_seq : ℕ
  pub next_segment_id : ℕ
  pub max_records_per_segment : ℕ

-- `Result<Option<PathBuf>, WriterError>`; a segment's path stands for its id.
pub data Outcome : Type 0 where
  nothing failed : Outcome
  saved : ℕ → Outcome

unfoldable pub last_seq : List ChainedRecord → Option ℕ
last_seq [] = none
last_seq (cr ∷ []) = some cr.entry.seq
last_seq (cr ∷ x ∷ xs) = last_seq (x ∷ xs)

-- `map_or(0, |r| r.record.seq + 1)`.
abbrev pub seq_or_zero : Option ℕ → ℕ
seq_or_zero none = 0
seq_or_zero (some seq) = add64 seq 1

-- The tip, the next sequence number and the next segment id after the last segment on disk.
unfoldable pub resume : Option Segment → Bytes × ℕ × ℕ
unfolding last_hash last_seq
resume none = (genesis_prev_hash, 0, 0)
resume (some seg) = (
  unwrap_or (last_hash seg.records) genesis_prev_hash,
  seq_or_zero (last_seq seg.records),
  add64 seg.segment_id 1,
)

unfoldable pub open_writer : SegmentStore → Bytes → Signer → AuditChainWriter
unfolding resume from_tip
open_writer store tenant_id signer =
    let at = resume (last store.segments) in
    record {
      inner = from_tip at.0 at.1;
      store = store;
      signer = signer;
      tenant_id = tenant_id;
      tip = at.0;
      next_seq = at.1;
      next_segment_id = at.2;
      max_records_per_segment = 1000;
    }

unfoldable pub with_max_records_per_segment : AuditChainWriter → ℕ → AuditChainWriter
with_max_records_per_segment w n = record w { max_records_per_segment = if leb n 1 then 1 else n }

-- `if let Some(last) = ...`: the next sequence number, or the old one.
abbrev pub seq_after_or : ℕ → Option ℕ → ℕ
seq_after_or old none = old
seq_after_or old (some seq) = add64 seq 1

-- What `close_segment` does to a writer that has pending records: the writer moves on first, and
-- only then is the segment written.
unfoldable pub closing : Bool → AuditChainWriter → AuditChainWriter
unfolding Chain.close_segment last_hash last_seq from_tip write
closing disk_ok w =
    let seg = (Chain.close_segment w.inner w.next_segment_id w.signer).1 in
    let tip = unwrap_or (last_hash seg.records) w.tip in
    let next_seq = seq_after_or w.next_seq (last_seq seg.records) in
    record w {
      inner = from_tip tip next_seq;
      store = write disk_ok seg w.store;
      tip = tip;
      next_seq = next_seq;
      next_segment_id = add64 w.next_segment_id 1;
    }

abbrev pub is_empty : List ChainedRecord → Bool
is_empty [] = true
is_empty (cr ∷ crs) = false

unfoldable pub close_segment : Bool → AuditChainWriter → AuditChainWriter × Outcome
unfolding closing
close_segment disk_ok w =
    if is_empty w.inner.records
    then (w, nothing)
    else (closing disk_ok w, (if disk_ok then saved w.next_segment_id else failed))

unfoldable pub flush : Bool → AuditChainWriter → AuditChainWriter × Outcome
unfolding close_segment
flush disk_ok w = close_segment disk_ok w

module _ (crypto : Crypto) where
  -- The record that a payload is committed to by; the chain assigns its sequence number.
  unfoldable pub observed : AuditChainWriter → Bytes → Bytes → ℕ → AuditRecord
  unfolding payload_commitment
  observed w kind canonical_payload now_us = record {
    seq = 0;
    timestamp_us = now_us;
    tenant_id = w.tenant_id;
    kind = kind;
    payload_commitment = payload_commitment crypto canonical_payload;
    redacted = false;
  }

  -- `observe`: with `failed` for an error of the write, and the segment's id if one was written.
  unfoldable pub observe : Bool → AuditChainWriter → Bytes → Bytes → ℕ → AuditChainWriter × Outcome
  unfolding observed append close_segment
  observe disk_ok w kind canonical_payload now_us =
      let w' = record w {
        inner = append crypto w.inner (observed w kind canonical_payload now_us);
      } in
      if leb w.max_records_per_segment (length w'.inner.records)
      then close_segment disk_ok w'
      else (w', nothing)
