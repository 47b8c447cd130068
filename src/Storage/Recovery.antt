-- ===== src/Storage/Recovery.antt =====
-- Reading back what was framed, and what a torn end of a file does.
use athar.Prelude.{
  ℕ, zero, suc, ◌+◌, ◌-◌, ◌%◌, ◌<◌, ◌≤◌, ◌≡◌, ◌≢◌, refl, sym, ap, ◌∙◌, ◌++◌, none, some, List, [],
  ◌∷◌, Bytes, be_bytes, from_be_bytes, from_be_bytes-be_bytes, length-be_bytes, length,
  length-append, All, u32_size, add64, arith,
}
use mathlib.Core.List.{append_assoc}
use mathlib.Core.Path.{subst}
use athar.Storage.Framing.{
  frame, frames, read_exact, ReadResult, records, segment_corrupt, push, read_rounds,
  read_segment_records,
}

read_exact-append :
    (front rest : Bytes) → read_exact (length front) (front ++ rest) ≡ some (front, rest)
unfolding read_exact
read_exact-append [] rest = refl
read_exact-append (b ∷ bs) rest = rw (read_exact-append bs rest) refl

pub read_exact_at :
    (n : ℕ) (front rest : Bytes)
    → length front ≡ n
    → read_exact n (front ++ rest) ≡ some (front, rest)
read_exact_at n front rest e =
    subst (λ m. read_exact m (front ++ rest) ≡ some (front, rest)) e (read_exact-append front rest)

-- What a reader has before it has read the rest.
unfoldable pub prepend : List Bytes → ReadResult → ReadResult
prepend [] r = r
prepend (d ∷ ds) r = push d (prepend ds r)

-- The offset after some records.
unfoldable pub offset_after : ℕ → List Bytes → ℕ
offset_after offset [] = offset
offset_after offset (d ∷ ds) = offset_after (add64 (add64 offset 4) (length d)) ds

pub header_value :
    (d : Bytes) → length d < u32_size → from_be_bytes (be_bytes 4 (length d % u32_size)) ≡ length d
header_value d h = from_be_bytes-be_bytes 4 _ (omega arith) ∙ omega arith

read_rounds-frame :
    (fuel offset : ℕ) (d rest : Bytes)
    → length d < u32_size
    → read_rounds (suc fuel) offset (frame d ++ rest)
      ≡ push d (read_rounds fuel (add64 (add64 offset 4) (length d)) rest)
unfolding read_rounds frame
read_rounds-frame fuel offset d rest h =
    let header = be_bytes 4 (length d % u32_size) in
    subst
      (λ x.
        read_rounds (suc fuel) offset x
        ≡ push d (read_rounds fuel (add64 (add64 offset 4) (length d)) rest))
      (sym (append_assoc header d rest))
      (rw
        (
          read_rounds,
          read_exact_at 4 header (d ++ rest) (length-be_bytes 4 _),
          header_value d h,
          read_exact_at (length d) d rest refl,
        )
        (ap (λ n. push d (read_rounds fuel (add64 (add64 offset 4) n) rest)) (header_value d h)))

read_rounds-frames :
    (fuel offset : ℕ) (ds : List Bytes) (tail : Bytes)
    → All (λ d. length d < u32_size) ds
    → read_rounds (length ds + fuel) offset (frames ds ++ tail)
      ≡ prepend ds (read_rounds fuel (offset_after offset ds) tail)
unfolding frames prepend offset_after
read_rounds-frames fuel offset [] tail h = ap (λ n. read_rounds n offset tail) (omega arith)
read_rounds-frames fuel offset (d ∷ ds) tail h =
    ap (λ x. read_rounds (suc (length ds) + fuel) offset x)
      (append_assoc (frame d) (frames ds) tail)
    ∙ ap (λ n. read_rounds n offset (frame d ++ (frames ds ++ tail))) (omega arith)
    ∙ read_rounds-frame (length ds + fuel) offset d (frames ds ++ tail) h.0
    ∙ ap (push d) (read_rounds-frames fuel (add64 (add64 offset 4) (length d)) ds tail h.1)

-- There are at least as many bytes as records.
pub frames_long : (ds : List Bytes) → length ds ≤ length (frames ds)
unfolding frames frame
frames_long [] = omega arith
frames_long (d ∷ ds) = omega (
  arith,
  frames_long ds,
  length-append (be_bytes 4 (length d % u32_size) ++ d) (frames ds),
  length-append (be_bytes 4 (length d % u32_size)) d,
  length-be_bytes 4 (length d % u32_size),
)

prepend-records : (ds : List Bytes) → prepend ds (records []) ≡ records ds
unfolding prepend push
prepend-records [] = refl
prepend-records (d ∷ ds) = ap (push d) (prepend-records ds)

prepend-segment_corrupt :
    (ds : List Bytes) (offset : ℕ) → prepend ds (segment_corrupt offset) ≡ segment_corrupt offset
unfolding prepend push
prepend-segment_corrupt [] offset = refl
prepend-segment_corrupt (d ∷ ds) offset = ap (push d) (prepend-segment_corrupt ds offset)

-- At the end of a file, less than a header is no record.
pub read_exact_short : (n : ℕ) (bs : Bytes) → length bs < n → read_exact n bs ≡ none
unfolding read_exact
read_exact_short zero bs h = absurd (omega (arith, h))
read_exact_short (suc n) [] h = refl
read_exact_short (suc n) (b ∷ bs) h = rw (read_exact_short n bs (omega (arith, h))) refl

-- The fuel of `read_segment_records` on framed records and a tail.
read_framed :
    (ds : List Bytes) (tail : Bytes)
    → All (λ d. length d < u32_size) ds
    → (fuel : ℕ) × (read_segment_records (frames ds ++ tail)
        ≡ prepend ds (read_rounds (suc fuel) (offset_after 0 ds) tail))
unfolding read_segment_records
read_framed ds tail h = (
  length (frames ds ++ tail) - length ds,
  ap (λ n. read_rounds n 0 (frames ds ++ tail))
        (omega (arith, frames_long ds, length-append (frames ds) tail))
      ∙ read_rounds-frames (suc (length (frames ds ++ tail) - length ds)) 0 ds tail h,
)

-- What was framed is read back, also when the file ends in less than a header: then the torn bytes
-- are not seen.
pub read_segment_records-frames :
    (ds : List Bytes) (tail : Bytes)
    → All (λ d. length d < u32_size) ds
    → length tail < 4
    → read_segment_records (frames ds ++ tail) ≡ records ds
unfolding read_rounds
read_segment_records-frames ds tail h short =
    let (fuel, e) = read_framed ds tail h in
    e ∙ ap (prepend ds) (rw (read_rounds, read_exact_short 4 tail short) refl) ∙ prepend-records ds

-- A last record whose data were cut off is reported, whatever stands before it.
pub read_segment_records_torn :
    (ds : List Bytes) (d front rest : Bytes)
    → All (λ x. length x < u32_size) ds
    → length d < u32_size
    → front ++ rest ≡ d
    → rest ≢ []
    → read_segment_records (frames ds ++ (be_bytes 4 (length d % u32_size) ++ front))
      ≡ segment_corrupt (offset_after 0 ds)
unfolding read_rounds
read_segment_records_torn ds d front rest h small cut some_rest =
    let header = be_bytes 4 (length d % u32_size) in
    let (fuel, e) = read_framed ds (header ++ front) h in
    let short : length front < length d =
      omega (arith, ap length cut, length-append front rest, length_pos rest some_rest) in
    e
    ∙ ap (prepend ds) (
        rw
          (
            read_rounds,
            read_exact_at 4 header front (length-be_bytes 4 _),
            header_value d small,
            read_exact_short (length d) front short,
          )
          refl)
    ∙ prepend-segment_corrupt ds _
  where
    length_pos : (xs : Bytes) → xs ≢ [] → 0 < length xs
    length_pos [] h = absurd (h refl)
    length_pos (x ∷ xs) h = omega arith
