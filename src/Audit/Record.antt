-- ===== src/Audit/Record.antt =====
-- The records, segments and errors of daemon/crates/athar-audit/src/lib.rs. Texts are their UTF-8
-- bytes, hashes and keys are byte strings, and an i64 is its 64-bit pattern.
use athar.Prelude.{
  ℕ, ◌%◌, ◌++◌, Bool, List, [], ◌∷◌, Bytes, be_bytes, length, u32_size, if◌then◌else◌,
}

abbrev pub hash_len : ℕ
hash_len = 32

abbrev pub zeros : ℕ → Bytes
zeros ℕ.zero = []
zeros (ℕ.suc n) = 0 ∷ zeros n

abbrev pub genesis_prev_hash : Bytes
genesis_prev_hash = zeros hash_len

pub record AuditRecord : Type 0 where
  pub seq : ℕ
  pub timestamp_us : ℕ
  pub tenant_id : Bytes
  pub kind : Bytes
  pub payload_commitment : Bytes
  pub redacted : Bool

pub record ChainedRecord : Type 0 where
  pub entry : AuditRecord
  pub prev_hash : Bytes
  pub record_hash : Bytes

pub record Segment : Type 0 where
  pub segment_id : ℕ
  pub records : List ChainedRecord
  pub tip_signature : Bytes
  pub signer_pubkey : Bytes

pub data VerifyError : Type 0 where
  seq_broken : ℕ → ℕ → ℕ → VerifyError
  chain_broken : ℕ → VerifyError
  record_hash_mismatch : ℕ → VerifyError
  bad_signature : VerifyError
  empty_segment : VerifyError

-- A text with its length in front; the length is cast to 32 bits.
unfoldable pub sized : Bytes → Bytes
sized s = be_bytes 4 (length s % u32_size) ++ s

unfoldable pub canonical_bytes : AuditRecord → Bytes
unfolding sized
canonical_bytes r =
    be_bytes 8 r.seq
    ++ (be_bytes 8 r.timestamp_us
        ++ (sized r.tenant_id
            ++ (sized r.kind ++ (r.payload_commitment ++ (if r.redacted then 1 else 0) ∷ []))))
