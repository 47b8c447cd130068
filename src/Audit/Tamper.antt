-- ===== src/Audit/Tamper.antt =====
-- Changes to a chain that was verified.
use athar.Prelude.{
  ℕ, ◌+◌, ◌≡◌, ◌≢◌, ◌⊎◌, inl, inr, refl, sym, ap, ◌∙◌, ◌++◌, false, List, [], ◌∷◌, Bytes, bytes_eq,
  bytes_eq_iff, add64, length, All, arith, Bool-cases, append_cancel_length,
}
use mathlib.Core.Path.{subst}
use athar.Audit.Record.{AuditRecord, ChainedRecord, record_hash_mismatch, canonical_bytes, hash_len}
use athar.Audit.Encoding.{IsEncodable, canonical_bytes-injective}
use athar.Audit.Chain.{Crypto, ok, err, record_hash, verify_from, verify_chain, mark_redacted}

-- A chained record within the bounds of its types.
pub record IsRecord (cr : ChainedRecord) : Type 0 where
  pub entry : IsEncodable cr.entry
  pub hash : length cr.record_hash ≡ hash_len

module _ (crypto : Crypto) where
  -- Two inputs of the hash function with one hash.
  abbrev pub Collision : Type 0
  Collision = (x : Bytes) × (y : Bytes) × (x ≢ y) × (crypto.blake3 x ≡ crypto.blake3 y)

  equal_or_collision : (x y : Bytes) → crypto.blake3 x ≡ crypto.blake3 y → (x ≡ y) ⊎ Collision
  equal_or_collision x y h = elim (Bool-cases (bytes_eq x y)) [
    | inl same ↦ inl ((bytes_eq_iff x y).0 same)
    | inr other ↦ inr (x, y, (λ e. cc ((bytes_eq_iff x y).1 e, other)), h)
  ]

  -- What the verification of a chain says of its first record and of the rest.
  verified_cons :
      (index seq : ℕ) (prev tip : Bytes) (cr : ChainedRecord) (crs : List ChainedRecord)
      → verify_from crypto index prev seq (cr ∷ crs) ≡ ok tip
      → (cr.entry.seq ≡ seq)
        × (cr.prev_hash ≡ prev)
        × (crypto.blake3 (cr.prev_hash ++ canonical_bytes cr.entry) ≡ cr.record_hash)
        × (verify_from crypto (index + 1) cr.record_hash (add64 seq 1) crs ≡ ok tip)
  unfolding verify_from record_hash
  verified_cons index seq prev tip cr crs h = ground (
    arith,
    bytes_eq_iff cr.prev_hash prev,
    bytes_eq_iff (crypto.blake3 (cr.prev_hash ++ canonical_bytes cr.entry)) cr.record_hash,
  )

  -- One hash of two records after tips of one length.
  same_record :
      (x y : ChainedRecord)
      → IsRecord x
      → IsRecord y
      → length x.prev_hash ≡ length y.prev_hash
      → crypto.blake3 (x.prev_hash ++ canonical_bytes x.entry) ≡ x.record_hash
      → crypto.blake3 (y.prev_hash ++ canonical_bytes y.entry) ≡ y.record_hash
      → x.record_hash ≡ y.record_hash
      → (x ≡ y) ⊎ Collision
  same_record x y bx by l hx hy same = elim (equal_or_collision _ _ (hx ∙ same ∙ sym hy)) [
    | inl e ↦
        let parts = append_cancel_length x.prev_hash y.prev_hash l e in
        inl
          (cc (parts.0, canonical_bytes-injective x.entry y.entry bx.entry by.entry parts.1, same))
    | inr c ↦ inr c
  ]

  same_chain :
      (i j s t : ℕ) (p q tip : Bytes) (xs ys : List ChainedRecord)
      → All IsRecord xs
      → All IsRecord ys
      → length p ≡ length q
      → length xs ≡ length ys
      → verify_from crypto i p s xs ≡ ok tip
      → verify_from crypto j q t ys ≡ ok tip
      → ((p ≡ q) × (xs ≡ ys)) ⊎ Collision
  unfolding verify_from
  same_chain i j s t p q tip [] [] bx by l n hx hy = inl (ground (arith, hx, hy), refl)
  same_chain i j s t p q tip [] (y ∷ ys) bx by l n hx hy = absurd (omega (arith, n))
  same_chain i j s t p q tip (x ∷ xs) [] bx by l n hx hy = absurd (omega (arith, n))
  same_chain i j s t p q tip (x ∷ xs) (y ∷ ys) bx by l n hx hy =
      let vx = verified_cons i s p tip x xs hx in
      let vy = verified_cons j t q tip y ys hy in
      elim (same_chain (i + 1) (j + 1) (add64 s 1) (add64 t 1) x.record_hash y.record_hash tip xs ys
        bx.1 by.1 (bx.0.hash ∙ sym by.0.hash) (omega (arith, n)) vx.3 vy.3) [
          | inr c ↦ inr c
          | inl rest ↦
              elim (same_record x y bx.0 by.0 (ap length vx.1 ∙ l ∙ sym (ap length vy.1)) vx.2 vy.2
                rest.0) [ inr c ↦ inr c | inl one ↦ inl (cc (one, vx.1, vy.1), cc (one, rest.1)) ]
        ]

  -- The tip fixes the chain: two chains of one length that verify to the same tip, from anchors of one
  -- length, have the same anchor and the same records, or they show a collision of the hash function.
  pub verify_chain-tip :
      (s t : ℕ) (p q tip : Bytes) (xs ys : List ChainedRecord)
      → All IsRecord xs
      → All IsRecord ys
      → length p ≡ length q
      → length xs ≡ length ys
      → verify_chain crypto xs p s ≡ ok tip
      → verify_chain crypto ys q t ≡ ok tip
      → ((p ≡ q) × (xs ≡ ys)) ⊎ Collision
  unfolding verify_chain
  verify_chain-tip s t p q tip [] ys bx by l n hx hy = cc (hx)
  verify_chain-tip s t p q tip (x ∷ xs) [] bx by l n hx hy = cc (hy)
  verify_chain-tip s t p q tip (x ∷ xs) (y ∷ ys) bx by l n hx hy =
      same_chain 0 0 s t p q tip (x ∷ xs) (y ∷ ys) bx by l n hx hy

  redacted_IsEncodable :
      (cr : ChainedRecord) → IsEncodable cr.entry → IsEncodable (mark_redacted cr).entry
  unfolding mark_redacted
  redacted_IsEncodable cr b = record {
    seq = b.seq;
    timestamp = b.timestamp;
    tenant = b.tenant;
    kind = b.kind;
    commitment = b.commitment;
  }

  -- The flag is part of what is hashed.
  redacted_hash :
      (cr : ChainedRecord)
      → IsEncodable cr.entry
      → cr.entry.redacted ≡ false
      → crypto.blake3 (cr.prev_hash ++ canonical_bytes (mark_redacted cr).entry)
        ≡ crypto.blake3 (cr.prev_hash ++ canonical_bytes cr.entry)
      → Collision
  unfolding mark_redacted
  redacted_hash cr b plain h = (
    _,
    _,
    (λ e.
        let parts = append_cancel_length cr.prev_hash cr.prev_hash refl e in
        let one =
          canonical_bytes-injective (mark_redacted cr).entry cr.entry (redacted_IsEncodable cr b) b
            parts.1 in
        cc (ap (λ (r : AuditRecord). r.redacted) one, plain)),
    h,
  )

  -- A round on a record that is in order.
  verify_from_step :
      (index seq : ℕ) (prev : Bytes) (cr : ChainedRecord) (crs : List ChainedRecord)
      → cr.entry.seq ≡ seq
      → cr.prev_hash ≡ prev
      → crypto.blake3 (cr.prev_hash ++ canonical_bytes cr.entry) ≡ cr.record_hash
      → verify_from crypto index prev seq (cr ∷ crs)
        ≡ verify_from crypto (index + 1) cr.record_hash (add64 seq 1) crs
  unfolding verify_from record_hash
  verify_from_step index seq prev cr crs a b c = ground (
    arith,
    bytes_eq_iff cr.prev_hash prev,
    bytes_eq_iff (crypto.blake3 (cr.prev_hash ++ canonical_bytes cr.entry)) cr.record_hash,
  )

  redacted_first :
      (index seq : ℕ) (prev : Bytes) (cr : ChainedRecord) (back : List ChainedRecord)
      → cr.entry.seq ≡ seq
      → cr.prev_hash ≡ prev
      → bytes_eq
          (crypto.blake3 (cr.prev_hash ++ canonical_bytes (mark_redacted cr).entry))
          cr.record_hash
        ≡ false
      → verify_from crypto index prev seq (mark_redacted cr ∷ back)
        ≡ err (record_hash_mismatch index)
  unfolding verify_from record_hash mark_redacted
  redacted_first index seq prev cr back a b c = ground (arith, bytes_eq_iff cr.prev_hash prev)

  mark_redacted_from :
      (index seq : ℕ) (prev tip : Bytes) (front back : List ChainedRecord) (cr : ChainedRecord)
      → IsEncodable cr.entry
      → cr.entry.redacted ≡ false
      → verify_from crypto index prev seq (front ++ cr ∷ back) ≡ ok tip
      → (verify_from crypto index prev seq (front ++ mark_redacted cr ∷ back)
          ≡ err (record_hash_mismatch (index + length front)))
        ⊎ Collision
  mark_redacted_from index seq prev tip [] back cr b plain h =
      let v = verified_cons index seq prev tip cr back h in
      let x = crypto.blake3 (cr.prev_hash ++ canonical_bytes (mark_redacted cr).entry) in
      elim (Bool-cases (bytes_eq x cr.record_hash)) [
        | inl same ↦
            inr (redacted_hash cr b plain ((bytes_eq_iff x cr.record_hash).0 same ∙ sym v.2))
        | inr other ↦ inl (
            redacted_first index seq prev cr back v.0 v.1 other
            ∙ ap (λ n. err (record_hash_mismatch n)) (omega arith))
      ]
  mark_redacted_from index seq prev tip (x ∷ xs) back cr b plain h =
      let v = verified_cons index seq prev tip x (xs ++ cr ∷ back) h in
      elim (mark_redacted_from (index + 1) (add64 seq 1) x.record_hash tip xs back cr b plain v.3) [
        | inr c ↦ inr c
        | inl e ↦ inl (
            verify_from_step index seq prev x (xs ++ mark_redacted cr ∷ back) v.0 v.1 v.2
            ∙ e
            ∙ ap (λ n. err (record_hash_mismatch n)) (omega arith))
      ]

  -- To mark a record of a verified chain as redacted makes the verification fail at that record, or
  -- shows a collision of the hash function: a chain with a redacted record no longer verifies.
  pub verify_chain-mark_redacted :
      (seq : ℕ) (prev tip : Bytes) (front back : List ChainedRecord) (cr : ChainedRecord)
      → IsEncodable cr.entry
      → cr.entry.redacted ≡ false
      → verify_chain crypto (front ++ cr ∷ back) prev seq ≡ ok tip
      → (verify_chain crypto (front ++ mark_redacted cr ∷ back) prev seq
          ≡ err (record_hash_mismatch (length front)))
        ⊎ Collision
  unfolding verify_chain
  verify_chain-mark_redacted seq prev tip [] back cr b plain h =
      mark_redacted_from 0 seq prev tip [] back cr b plain h
  verify_chain-mark_redacted seq prev tip (x ∷ xs) back cr b plain h =
      subst
        (λ n.
          (verify_from crypto 0 prev seq (x ∷ xs ++ mark_redacted cr ∷ back)
            ≡ err (record_hash_mismatch n))
          ⊎ Collision)
        (omega arith) (mark_redacted_from 0 seq prev tip (x ∷ xs) back cr b plain h)
