-- ===== src/Audit/Encoding.antt =====
-- What the canonical encoding determines.
use athar.Prelude.{
  ℕ, ◌%◌, ◌<◌, ◌≡◌, sym, ◌∙◌, ◌++◌, Bool, [], ◌∷◌, Bytes, be_bytes, length-be_bytes,
  be_bytes-injective, append_cancel_length, length, u32_size, u64_size, if◌then◌else◌, arith,
}
use athar.Audit.Record.{AuditRecord, hash_len, sized, canonical_bytes}
use mathlib.Core.List.{append_assoc}

-- The bounds that the Rust types give, and texts shorter than 4 GiB.
pub record IsEncodable (r : AuditRecord) : Type 0 where
  pub seq : r.seq < u64_size
  pub timestamp : r.timestamp_us < u64_size
  pub tenant : length r.tenant_id < u32_size
  pub kind : length r.kind < u32_size
  pub commitment : length r.payload_commitment ≡ hash_len

sized_cancel :
    (xs ys : Bytes) {us vs : Bytes}
    → length xs < u32_size
    → length ys < u32_size
    → sized xs ++ us ≡ sized ys ++ vs
    → (xs ≡ ys) × (us ≡ vs)
unfolding sized
sized_cancel xs ys {us} {vs} hx hy e =
    let heads =
      append_cancel_length (be_bytes 4 (length xs % u32_size)) (be_bytes 4 (length ys % u32_size))
        {us = xs ++ us} {vs = ys ++ vs} (length-be_bytes 4 _ ∙ sym (length-be_bytes 4 _))
        (sym (append_assoc _ xs us) ∙ e ∙ append_assoc _ ys vs) in
    let same : length xs % u32_size ≡ length ys % u32_size =
      be_bytes-injective 4 _ _ (omega arith) (omega arith) heads.0 in
    append_cancel_length xs ys (omega arith) heads.1

flag_injective :
    (a b : Bool) → ◌≡◌ {A = Bytes} ((if a then 1 else 0) ∷ []) ((if b then 1 else 0) ∷ []) → a ≡ b
flag_injective a b e = ground arith

-- Two encodable records with one canonical encoding are the same record.
pub canonical_bytes-injective :
    (r r' : AuditRecord)
    → IsEncodable r
    → IsEncodable r'
    → canonical_bytes r ≡ canonical_bytes r'
    → r ≡ r'
unfolding canonical_bytes
canonical_bytes-injective r r' h h' e =
    let word = λ (m n : ℕ). length-be_bytes 8 m ∙ sym (length-be_bytes 8 n) in
    let a = append_cancel_length (be_bytes 8 r.seq) (be_bytes 8 r'.seq) (word r.seq r'.seq) e in
    let b =
      append_cancel_length (be_bytes 8 r.timestamp_us) (be_bytes 8 r'.timestamp_us)
        (word r.timestamp_us r'.timestamp_us) a.1 in
    let c = sized_cancel r.tenant_id r'.tenant_id h.tenant h'.tenant b.1 in
    let d = sized_cancel r.kind r'.kind h.kind h'.kind c.1 in
    let f =
      append_cancel_length r.payload_commitment r'.payload_commitment
        (h.commitment ∙ sym h'.commitment) d.1 in
    let seq = be_bytes-injective 8 r.seq r'.seq (h.seq) (h'.seq) a.0 in
    let time = be_bytes-injective 8 r.timestamp_us r'.timestamp_us h.timestamp h'.timestamp b.0 in
    cc (seq, time, c.0, d.0, f.0, flag_injective r.redacted r'.redacted f.1)
