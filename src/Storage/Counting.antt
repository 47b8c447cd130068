-- ===== src/Storage/Counting.antt =====
-- What `count_records_best_effort` counts.
use athar.Prelude.{
  ℕ, suc, ◌+◌, ◌-◌, ◌%◌, ◌<◌, ◌≡◌, refl, sym, ap, ◌∙◌, ◌++◌, List, [], ◌∷◌, Bytes, be_bytes,
  length-be_bytes, length, length-append, All, u32_size, u64_size, add64, add64_fits, arith,
}
use mathlib.Core.List.{append_assoc}
use mathlib.Core.Path.{subst}
use athar.Storage.Framing.{frame, frames, count_rounds, count_records_best_effort}
use athar.Storage.Recovery.{read_exact_at, read_exact_short, header_value, frames_long}

count_rounds-frame :
    (fuel count : ℕ) (d rest : Bytes)
    → length d < u32_size
    → count_rounds (suc fuel) count (frame d ++ rest) ≡ count_rounds fuel (add64 count 1) rest
unfolding count_rounds frame
count_rounds-frame fuel count d rest h =
    let header = be_bytes 4 (length d % u32_size) in
    subst (λ x. count_rounds (suc fuel) count x ≡ count_rounds fuel (add64 count 1) rest)
      (sym (append_assoc header d rest))
      (rw
        (
          count_rounds,
          read_exact_at 4 header (d ++ rest) (length-be_bytes 4 _),
          header_value d h,
          read_exact_at (length d) d rest refl,
        )
        refl)

count_rounds-frames :
    (fuel count : ℕ) (ds : List Bytes) (tail : Bytes)
    → All (λ d. length d < u32_size) ds
    → length tail < 4
    → count + length ds < u64_size
    → count_rounds (length ds + suc fuel) count (frames ds ++ tail) ≡ count + length ds
unfolding frames count_rounds
count_rounds-frames fuel count [] tail h short fits =
    let e : 0 + suc fuel ≡ suc fuel = omega arith in
    ap (λ n. count_rounds n count tail) e
    ∙ rw (count_rounds, read_exact_short 4 tail short) (omega arith)
count_rounds-frames fuel count (d ∷ ds) tail h short fits =
    let one = add64_fits count 1 (omega (arith, fits)) in
    let more : suc (length ds) + suc fuel ≡ suc (length ds + suc fuel) = omega arith in
    ap (λ x. count_rounds (suc (length ds) + suc fuel) count x)
      (append_assoc (frame d) (frames ds) tail)
    ∙ ap (λ n. count_rounds n count (frame d ++ (frames ds ++ tail))) more
    ∙ count_rounds-frame (length ds + suc fuel) count d (frames ds ++ tail) h.0
    ∙ ap (λ n. count_rounds (length ds + suc fuel) n (frames ds ++ tail)) one
    ∙ count_rounds-frames fuel (count + 1) ds tail h.1 short (omega (arith, fits))
    ∙ omega arith

-- The records of a file that ends in less than a header are counted, records below 4 GiB and fewer
-- than 2 ^ 64 of them.
pub count_records_best_effort-frames :
    (ds : List Bytes) (tail : Bytes)
    → All (λ d. length d < u32_size) ds
    → length tail < 4
    → length ds < u64_size
    → count_records_best_effort (frames ds ++ tail) ≡ length ds
unfolding count_records_best_effort
count_records_best_effort-frames ds tail h short fits =
    ap (λ n. count_rounds n 0 (frames ds ++ tail))
      (omega (arith, frames_long ds, length-append (frames ds) tail))
    ∙ count_rounds-frames (length (frames ds ++ tail) - length ds) 0 ds tail h short
        (omega (arith, fits))
    ∙ omega arith
