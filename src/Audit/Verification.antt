-- ===== src/Audit/Verification.antt =====
-- What the verification of a chain accepts, and which record it names when it refuses.
use athar.Prelude.{
  ℕ, ◌+◌, ◌≡◌, ◌<◌, refl, ap, ◌∙◌, ◌++◌, Bool, true, false, ◌&&◌, Option, none, some, List, [], ◌∷◌,
  Bytes, bytes_eq, bytes_eq_iff, add64, length, ◌==◌, if◌then◌else◌, arith,
}
use athar.Audit.Record.{
  ChainedRecord, VerifyError, seq_broken, chain_broken, record_hash_mismatch, bad_signature,
  empty_segment,
}
use athar.Audit.Chain.{Crypto, Verdict, ok, err, record_hash, verify_from, verify_chain}

-- The sequence number after a run of records.
abbrev pub seq_after : ℕ → List ChainedRecord → ℕ
seq_after seq [] = seq
seq_after seq (cr ∷ crs) = seq_after (add64 seq 1) crs

-- The record that an error names.
abbrev pub error_index : VerifyError → Option ℕ
error_index (seq_broken i e g) = some i
error_index (chain_broken i) = some i
error_index (record_hash_mismatch i) = some i
error_index bad_signature = none
error_index empty_segment = none

module _ (crypto : Crypto) where
  -- A record follows a tip and a sequence number, and carries its own hash.
  unfoldable pub follows : Bytes → ℕ → ChainedRecord → Bool
  follows prev seq cr =
      cr.entry.seq == seq
      && (bytes_eq cr.prev_hash prev
          && bytes_eq (record_hash crypto cr.prev_hash cr.entry) cr.record_hash)

  -- How many records from the front follow one another.
  unfoldable pub intact : Bytes → ℕ → List ChainedRecord → ℕ
  intact prev seq [] = 0
  intact prev seq (cr ∷ crs) =
      let rest = intact cr.record_hash (add64 seq 1) crs in
      if follows prev seq cr then rest + 1 else 0

  unfoldable pub tip_of : Bytes → List ChainedRecord → Bytes
  tip_of prev [] = prev
  tip_of prev (cr ∷ crs) = tip_of cr.record_hash crs

  -- The verdict that an intact prefix of a given length calls for.
  abbrev pub Verified : ℕ → Bytes → List ChainedRecord → ℕ → Verdict Bytes → Type 0
  Verified index prev crs n (ok tip) = (n ≡ length crs) × (tip ≡ tip_of prev crs)
  Verified index prev crs n (err e) = (n < length crs) × (error_index e ≡ some (index + n))

  Verified-cons :
      (index n : ℕ) (prev : Bytes) (cr : ChainedRecord) (crs : List ChainedRecord)
      (v : Verdict Bytes)
      → Verified (index + 1) cr.record_hash crs n v
      → Verified index prev (cr ∷ crs) (n + 1) v
  unfolding tip_of
  Verified-cons index n prev cr crs (ok tip) h = (omega arith, h.1)
  Verified-cons index n prev cr crs (err e) h = (omega arith, h.1 ∙ ap some (omega arith))

  -- The three tests of a round, the first error wins.
  round :
      (index n : ℕ) (prev : Bytes) (cr : ChainedRecord) (crs : List ChainedRecord)
      (v : Verdict Bytes) (expected : ℕ) (a b c : Bool)
      → Verified index prev (cr ∷ crs) (n + 1) v
      → Verified index prev (cr ∷ crs) (if a && (b && c) then n + 1 else 0) (
          if a
          then (if b
              then (if c then v else err (record_hash_mismatch index))
              else err (chain_broken index))
          else err (seq_broken index expected cr.entry.seq))
  round index n prev cr crs v expected true true true h = h
  round index n prev cr crs v expected true true false h = (omega arith, ap some (omega arith))
  round index n prev cr crs v expected true false c h = (omega arith, ap some (omega arith))
  round index n prev cr crs v expected false b c h = (omega arith, ap some (omega arith))

  verify_from-Verified :
      (index : ℕ) (prev : Bytes) (seq : ℕ) (crs : List ChainedRecord)
      → Verified index prev crs (intact prev seq crs) (verify_from crypto index prev seq crs)
  unfolding verify_from intact follows tip_of
  verify_from-Verified index prev seq [] = (refl, refl)
  verify_from-Verified index prev seq (cr ∷ crs) =
      round index (intact cr.record_hash (add64 seq 1) crs) prev cr crs _ seq (cr.entry.seq == seq)
        (bytes_eq cr.prev_hash prev)
        (bytes_eq (record_hash crypto cr.prev_hash cr.entry) cr.record_hash)
        (Verified-cons index _ prev cr crs _
          (verify_from-Verified (index + 1) cr.record_hash (add64 seq 1) crs))

  -- The verification of a chain that is not empty succeeds, with the hash of the last record as its
  -- tip, exactly when every record follows the one before it; and otherwise the error names the
  -- first record that does not.
  pub verify_chain-Verified :
      (prev : Bytes) (seq : ℕ) (cr : ChainedRecord) (crs : List ChainedRecord)
      → Verified 0 prev
          (cr ∷ crs)
          (intact prev seq (cr ∷ crs))
          (verify_chain crypto (cr ∷ crs) prev seq)
  unfolding verify_chain
  verify_chain-Verified prev seq cr crs = verify_from-Verified 0 prev seq (cr ∷ crs)

  -- A chain that grew by one record which follows its tip is intact.
  pub verify_from-append :
      (index : ℕ) (prev : Bytes) (seq : ℕ) (crs : List ChainedRecord) (tip : Bytes)
      (cr : ChainedRecord)
      → verify_from crypto index prev seq crs ≡ ok tip
      → cr.entry.seq ≡ seq_after seq crs
      → cr.prev_hash ≡ tip
      → record_hash crypto cr.prev_hash cr.entry ≡ cr.record_hash
      → verify_from crypto index prev seq (crs ++ cr ∷ []) ≡ ok cr.record_hash
  unfolding verify_from
  verify_from-append index prev seq [] tip cr h s p r = ground (
    arith,
    bytes_eq_iff cr.prev_hash prev,
    bytes_eq_iff (record_hash crypto cr.prev_hash cr.entry) cr.record_hash,
  )
  verify_from-append index prev seq (x ∷ xs) tip cr h s p r =
      ground (arith, verify_from-append (index + 1) x.record_hash (add64 seq 1) xs tip cr)
