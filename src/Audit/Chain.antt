-- ===== src/Audit/Chain.antt =====
-- `ChainWriter`, `verify_chain`, `verify_segment` and `mark_redacted` of
-- daemon/crates/athar-audit/src/lib.rs. BLAKE3 and the Ed25519 verification are parameters; a public
-- key that cannot be read counts as a signature that does not verify.
use athar.Prelude.{
  ℕ, ◌+◌, ◌++◌, Bool, true, List, [], ◌∷◌, Bytes, bytes_eq, add64, ◌==◌, if◌then◌else◌,
}
use athar.Audit.Record.{
  AuditRecord, ChainedRecord, Segment, VerifyError, seq_broken, chain_broken, record_hash_mismatch,
  bad_signature, empty_segment, genesis_prev_hash, canonical_bytes,
}

pub record Crypto : Type 0 where
  pub blake3 : Bytes → Bytes
  pub verify : Bytes → Bytes → Bytes → Bool

-- The trait `Signer`.
pub record Signer : Type 0 where
  pub public_key : Bytes
  pub sign : Bytes → Bytes

pub data Verdict {ℓ} (A : Type ℓ) : Type ℓ where
  ok : A → Verdict A
  err : VerifyError → Verdict A

pub record ChainWriter : Type 0 where
  pub records : List ChainedRecord
  pub tip_hash : Bytes
  pub next_seq : ℕ

unfoldable pub from_tip : Bytes → ℕ → ChainWriter
from_tip tip_hash next_seq = record { records = []; tip_hash = tip_hash; next_seq = next_seq }

unfoldable pub new : ChainWriter
unfolding from_tip
new = from_tip genesis_prev_hash 0

-- The writer remains valid: it keeps its tip and its next sequence number.
unfoldable pub close_segment : ChainWriter → ℕ → Signer → ChainWriter × Segment
close_segment w segment_id signer = (
  record w { records = [] },
  record {
    segment_id = segment_id;
    records = w.records;
    tip_signature = signer.sign w.tip_hash;
    signer_pubkey = signer.public_key;
  },
)

unfoldable pub mark_redacted : ChainedRecord → ChainedRecord
mark_redacted cr = record cr { entry = record cr.entry { redacted = true } }

module _ (crypto : Crypto) where
  unfoldable pub record_hash : Bytes → AuditRecord → Bytes
  record_hash prev_hash r = crypto.blake3 (prev_hash ++ canonical_bytes r)

  unfoldable pub payload_commitment : Bytes → Bytes
  payload_commitment payload = crypto.blake3 payload

  -- The record as it is chained after a tip: with the sequence number that the writer assigns.
  unfoldable pub chained : Bytes → ℕ → AuditRecord → ChainedRecord
  chained tip seq r =
      let entry = record r { seq = seq } in
      record { entry = entry; prev_hash = tip; record_hash = record_hash tip entry }

  unfoldable pub append : ChainWriter → AuditRecord → ChainWriter
  unfolding chained
  append w r =
      let cr = chained w.tip_hash w.next_seq r in
      record {
        records = w.records ++ cr ∷ [];
        tip_hash = cr.record_hash;
        next_seq = add64 w.next_seq 1;
      }

  -- The rounds of `verify_chain` from here on.
  unfoldable pub verify_from : ℕ → Bytes → ℕ → List ChainedRecord → Verdict Bytes
  verify_from index prev_hash expected_seq [] = ok prev_hash
  verify_from index prev_hash expected_seq (cr ∷ crs) =
      let rest = verify_from (index + 1) cr.record_hash (add64 expected_seq 1) crs in
      if cr.entry.seq == expected_seq
      then (if bytes_eq cr.prev_hash prev_hash
          then (if bytes_eq (record_hash cr.prev_hash cr.entry) cr.record_hash
              then rest
              else err (record_hash_mismatch index))
          else err (chain_broken index))
      else err (seq_broken index expected_seq cr.entry.seq)

  unfoldable pub verify_chain : List ChainedRecord → Bytes → ℕ → Verdict Bytes
  verify_chain [] anchor_prev_hash starting_seq = err empty_segment
  verify_chain (cr ∷ crs) anchor_prev_hash starting_seq =
      verify_from 0 anchor_prev_hash starting_seq (cr ∷ crs)

  -- The signature over the tip, after the chain.
  unfoldable pub verify_signature : Segment → Verdict Bytes → Verdict (Unit {0})
  verify_signature seg (err e) = err e
  verify_signature seg (ok tip_hash) =
      if crypto.verify seg.signer_pubkey tip_hash seg.tip_signature
      then ok tt
      else err bad_signature

  unfoldable pub verify_records : Segment → List ChainedRecord → Verdict (Unit {0})
  unfolding verify_chain verify_signature
  verify_records seg [] = err empty_segment
  verify_records seg (cr ∷ crs) =
      verify_signature seg (verify_chain (cr ∷ crs) cr.prev_hash cr.entry.seq)

  unfoldable pub verify_segment : Segment → Verdict (Unit {0})
  unfolding verify_records
  verify_segment seg = verify_records seg seg.records
