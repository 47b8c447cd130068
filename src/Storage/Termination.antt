-- ===== src/Storage/Termination.antt =====
-- The fuel of the reader of a segment file.
use athar.Prelude.{
  ℕ, zero, suc, ◌+◌, ◌<◌, ◌≡◌, ◌≢◌, refl, some, [], ◌∷◌, Bytes, length, from_be_bytes, arith,
  Option-cases, inl, inr,
}
use athar.Storage.Framing.{
  read_exact, ReadResult, records, segment_corrupt, out_of_fuel, push, read_rounds,
  read_segment_records,
}

-- What is read and what is left.
read_exact-length :
    (n : ℕ) (bs : Bytes) (r : Bytes × Bytes) → read_exact n bs ≡ some r → length bs ≡ n + length r.1
unfolding read_exact
read_exact-length zero bs (front, rest) h = ground arith
read_exact-length (suc n) [] (front, rest) h = cc
read_exact-length (suc n) (b ∷ bs) (front, rest) h = elim (Option-cases (read_exact n bs)) [
  | inl ended ↦ ground (arith, ended)
  | inr ((front', rest'), found) ↦
      ground (arith, found, read_exact-length n bs (front', rest') found)
]

push_more : (d : Bytes) (r : ReadResult) → r ≢ out_of_fuel → push d r ≢ out_of_fuel
unfolding push
push_more d (records ds) h e = cc
push_more d (segment_corrupt offset) h e = cc
push_more d out_of_fuel h e = h refl

read_rounds_ends :
    (fuel offset : ℕ) (bs : Bytes) → length bs < fuel → read_rounds fuel offset bs ≢ out_of_fuel
unfolding read_rounds
read_rounds_ends zero offset bs h = absurd (omega (arith, h))
read_rounds_ends (suc fuel) offset bs h = elim (Option-cases (read_exact 4 bs)) [
  | inl ended ↦ rw (ended, read_rounds) (λ e. cc)
  | inr (r, found) ↦ elim (Option-cases (read_exact (from_be_bytes r.0) r.1)) [
    | inl torn ↦ rw (found, torn, read_rounds) (λ e. cc)
    | inr (r', body) ↦
        rw (found, body, read_rounds)
          (push_more r'.0 _ (
            read_rounds_ends fuel _ r'.1 (
              omega (
                arith,
                h,
                read_exact-length 4 bs r found,
                read_exact-length (from_be_bytes r.0) r.1 r' body,
              ))))
  ]
]

-- The reader never runs out of fuel: whatever the bytes of a file are, it returns records or the
-- offset of a record that is cut off.
pub read_segment_records_ends : (bs : Bytes) → read_segment_records bs ≢ out_of_fuel
unfolding read_segment_records
read_segment_records_ends bs = read_rounds_ends (length bs + 1) 0 bs (omega arith)
