-- ===== src/Audit/Closing.antt =====
-- Chains that are grown by `append`, and closed segments, under the verification.
use athar.Prelude.{
  ℕ, ◌≡◌, ◌≢◌, refl, sym, ap, ◌∙◌, ◌++◌, true, List, [], ◌∷◌, Bytes, bytes_eq_iff, add64, arith,
}
use mathlib.Core.Path.{subst}
use athar.Audit.Record.{AuditRecord, ChainedRecord}
use athar.Audit.Chain.{
  Crypto, Signer, ok, ChainWriter, from_tip, chained, append, verify_from, verify_chain,
  verify_signature, verify_records, verify_segment, close_segment,
}
use athar.Audit.Verification.{seq_after, verify_from-append}

-- What the code relies on: a signature made with a key verifies under that key.
pub record Signs (crypto : Crypto) (signer : Signer) : Type 0 where
  pub verifies : (msg : Bytes) → crypto.verify signer.public_key msg (signer.sign msg) ≡ true

seq_after-append :
    (seq : ℕ) (crs : List ChainedRecord) (cr : ChainedRecord)
    → seq_after seq (crs ++ cr ∷ []) ≡ add64 (seq_after seq crs) 1
seq_after-append seq [] cr = refl
seq_after-append seq (x ∷ xs) cr = seq_after-append (add64 seq 1) xs cr

module _ (crypto : Crypto) where
  -- The pending records form a chain from the anchor to the writer's tip.
  pub record IsChain (anchor : Bytes) (start : ℕ) (w : ChainWriter) : Type 0 where
    pub verified : verify_from crypto 0 anchor start w.records ≡ ok w.tip_hash
    pub next : w.next_seq ≡ seq_after start w.records

  pub from_tip-IsChain : (tip : Bytes) (seq : ℕ) → IsChain tip seq (from_tip tip seq)
  unfolding from_tip verify_from
  from_tip-IsChain tip seq = record { verified = refl; next = refl }

  pub append-IsChain :
      (anchor : Bytes) (start : ℕ) (w : ChainWriter) (r : AuditRecord)
      → IsChain anchor start w
      → IsChain anchor start (append crypto w r)
  unfolding append chained
  append-IsChain anchor start w r h = record {
    verified =
        verify_from-append crypto 0 anchor start w.records w.tip_hash
          (chained crypto w.tip_hash w.next_seq r) h.verified h.next refl refl;
    next = ap (λ n. add64 n 1) h.next ∙ sym (seq_after-append start w.records _);
  }

  -- The first record of a verified chain stands at its anchor.
  pub verified_first :
      (anchor : Bytes) (start : ℕ) (cr : ChainedRecord) (crs : List ChainedRecord) (tip : Bytes)
      → verify_from crypto 0 anchor start (cr ∷ crs) ≡ ok tip
      → (cr.prev_hash ≡ anchor) × (cr.entry.seq ≡ start)
  unfolding verify_from
  verified_first anchor start cr crs tip h = ground (arith, bytes_eq_iff cr.prev_hash anchor)

  closed_verifies :
      (signer : Signer) (anchor : Bytes) (start id : ℕ) (w : ChainWriter) (crs : List ChainedRecord)
      → Signs crypto signer
      → IsChain anchor start w
      → w.records ≡ crs
      → crs ≢ []
      → verify_records crypto (close_segment w id signer).1 crs ≡ ok tt
  unfolding verify_records verify_chain verify_signature close_segment
  closed_verifies signer anchor start id w [] s h e filled = absurd (filled refl)
  closed_verifies signer anchor start id w (cr ∷ crs) s h e filled =
      let v : verify_from crypto 0 anchor start (cr ∷ crs) ≡ ok w.tip_hash =
        subst (λ x. verify_from crypto 0 anchor start x ≡ ok w.tip_hash) e h.verified in
      let first = verified_first anchor start cr crs w.tip_hash v in
      let here : verify_from crypto 0 cr.prev_hash cr.entry.seq (cr ∷ crs) ≡ ok w.tip_hash =
        cc (first.0, first.1, v) in
      ground (arith, here, s.verifies w.tip_hash)

  -- A segment that a writer closes over pending records passes the offline verification.
  pub verify_segment-close_segment :
      (signer : Signer) (anchor : Bytes) (start id : ℕ) (w : ChainWriter)
      → Signs crypto signer
      → IsChain anchor start w
      → w.records ≢ []
      → verify_segment crypto (close_segment w id signer).1 ≡ ok tt
  unfolding verify_segment close_segment
  verify_segment-close_segment signer anchor start id w s h filled =
      closed_verifies signer anchor start id w w.records s h refl filled
