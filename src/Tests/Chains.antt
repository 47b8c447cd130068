-- ===== src/Tests/Chains.antt =====
-- The audit theorems on short chains. The hash here is the identity and the signature the message.
use athar.Audit.Lifetimes.{Lifetime, observed_in, run_lifetimes, verify_all-run_lifetimes}
use athar.Audit.History.{empty_store}
use athar.Prelude.{◌≢◌, ◌≡◌, refl, false, [], ◌∷◌, bytes_eq, bytes_eq_refl, arith}
use athar.Audit.Hex.{hex_encode, hex_decode, ok, hex_decode-hex_encode}
use athar.Audit.Record.{AuditRecord, ChainedRecord, zeros, hash_len}
use athar.Audit.Encoding.{IsEncodable, canonical_bytes-injective}
use athar.Audit.Chain.{
  Crypto, Signer, Verdict, ChainWriter, from_tip, append, chained, verify_chain, verify_segment,
  close_segment,
}
use athar.Audit.Verification.{Verified, intact, verify_chain-Verified}
use athar.Prelude.{◌⊎◌, Bytes, List, length, bytes_eq}
use athar.Audit.Record.{record_hash_mismatch}
use athar.Audit.Chain.{verify_from, mark_redacted, record_hash}
use athar.Audit.Store.{verify_all}
use athar.Audit.History.{Call, observes, flushes}
use athar.Audit.Tamper.{IsRecord, Collision, verify_chain-tip, verify_chain-mark_redacted}
use athar.Audit.Closing.{
  Signs, IsChain, from_tip-IsChain, append-IsChain, verify_segment-close_segment,
}

abbrev pub crypto : Crypto
crypto = record { blake3 = λ msg. msg; verify = λ key msg signature. bytes_eq msg signature }

abbrev pub signer : Signer
signer = record { public_key = 7 ∷ []; sign = λ msg. msg }

pub signs : Signs crypto signer
signs = record { verifies = bytes_eq_refl }

abbrev pub entry : AuditRecord
entry = record {
  seq = 0;
  timestamp_us = 12;
  tenant_id = 116 ∷ [];
  kind = 101 ∷ [];
  payload_commitment = zeros hash_len;
  redacted = false;
}

abbrev two : ChainWriter
two = append crypto (append crypto (from_tip [] 0) entry) entry

two-IsChain : IsChain crypto [] 0 two
two-IsChain =
    append-IsChain crypto [] 0 (append crypto (from_tip [] 0) entry) entry
      (append-IsChain crypto [] 0 (from_tip [] 0) entry (from_tip-IsChain crypto [] 0))

two_filled : two.records ≢ []
unfolding append chained from_tip
two_filled e = cc

verify_segment-close_segment_example :
    verify_segment crypto (close_segment two 0 signer).1 ≡ Verdict.ok tt
verify_segment-close_segment_example =
    verify_segment-close_segment crypto signer [] 0 0 two signs two-IsChain two_filled

entry-IsEncodable : IsEncodable entry
entry-IsEncodable = record {
  seq = omega arith;
  timestamp = omega arith;
  tenant = omega arith;
  kind = omega arith;
  commitment = refl;
}

canonical_bytes-injective_example : entry ≡ entry
canonical_bytes-injective_example =
    canonical_bytes-injective entry entry entry-IsEncodable entry-IsEncodable refl

abbrev bad : ChainedRecord
bad = record { entry = entry; prev_hash = 1 ∷ []; record_hash = 2 ∷ [] }

verify_chain-Verified_example :
    Verified crypto 0
      (1 ∷ [])
      (bad ∷ [])
      (intact crypto (1 ∷ []) 0 (bad ∷ []))
      (verify_chain crypto (bad ∷ []) (1 ∷ []) 0)
verify_chain-Verified_example = verify_chain-Verified crypto (1 ∷ []) 0 bad []

hex_decode-hex_encode_example :
    hex_decode (hex_encode (0 ∷ 171 ∷ 255 ∷ [])) ≡ ok (0 ∷ 171 ∷ 255 ∷ [])
hex_decode-hex_encode_example =
    hex_decode-hex_encode (0 ∷ 171 ∷ 255 ∷ []) (omega arith, (omega arith, (omega arith, tt)))

abbrev tenant : Bytes
tenant = 116 ∷ []

-- Two observations fill a segment, the third one is flushed at the end.
abbrev three_calls : List Call
three_calls =
    observes (101 ∷ []) (1 ∷ []) 5
    ∷ observes (101 ∷ []) (2 ∷ []) 6
    ∷ flushes
    ∷ observes (101 ∷ []) (3 ∷ []) 7
    ∷ []

-- The daemon runs twice on one directory.
abbrev twice : List Lifetime
twice =
    record { tenant_id = tenant; signer = signer; max_records = 2; calls = three_calls }
    ∷ record { tenant_id = tenant; signer = signer; max_records = 1; calls = three_calls }
    ∷ []

verify_all-run_lifetimes_example :
    verify_all crypto (run_lifetimes crypto empty_store twice)
    ≡ Verdict.ok (record {
      segments_verified = length (run_lifetimes crypto empty_store twice).segments;
      records_verified = observed_in twice;
    })
verify_all-run_lifetimes_example =
    verify_all-run_lifetimes crypto twice (signs, (signs, tt)) (omega arith)

-- A hash of 32 bytes.
abbrev blank_crypto : Crypto
blank_crypto = record crypto { blake3 = λ msg. zeros hash_len }

abbrev blank : ChainedRecord
blank = chained blank_crypto [] 0 entry

blank-IsRecord : IsRecord blank
unfolding chained record_hash
blank-IsRecord = record { entry = entry-IsEncodable; hash = refl }

blank_verified : verify_chain blank_crypto (blank ∷ []) [] 0 ≡ Verdict.ok (zeros hash_len)
unfolding chained record_hash verify_chain verify_from bytes_eq
blank_verified = refl

verify_chain-tip_example :
    ((◌≡◌ {A = Bytes} [] []) × (blank ∷ [] ≡ blank ∷ [])) ⊎ Collision blank_crypto
verify_chain-tip_example =
    verify_chain-tip blank_crypto 0 0 [] [] (zeros hash_len) (blank ∷ []) (blank ∷ [])
      (blank-IsRecord, tt) (blank-IsRecord, tt) refl refl blank_verified blank_verified

abbrev plain : ChainedRecord
plain = chained crypto [] 0 entry

plain_verified : verify_chain crypto (plain ∷ []) [] 0 ≡ Verdict.ok plain.record_hash
unfolding chained verify_chain verify_from
plain_verified = ground (arith, bytes_eq_refl [], bytes_eq_refl (record_hash crypto [] entry))

plain_entry : IsEncodable plain.entry
unfolding chained
plain_entry = entry-IsEncodable

verify_chain-mark_redacted_example :
    (verify_chain crypto (mark_redacted plain ∷ []) [] 0 ≡ Verdict.err (record_hash_mismatch 0))
    ⊎ Collision crypto
unfolding chained
verify_chain-mark_redacted_example =
    verify_chain-mark_redacted crypto 0 [] plain.record_hash [] [] plain plain_entry refl
      plain_verified
