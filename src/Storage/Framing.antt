-- ===== src/Storage/Framing.antt =====
-- How records lie in a segment file (daemon/crates/athar-storage/src/segment_log.rs): a length of four
-- bytes, big-endian, and the data. `read_segment_records` and `count_records_best_effort` run on fuel,
-- one unit to a record; a round takes at least four bytes, and there is a unit more than the bytes.
use athar.Prelude.{
  ℕ, zero, suc, ◌+◌, ◌%◌, ◌++◌, Option, none, some, List, [], ◌∷◌, Bytes, be_bytes, from_be_bytes,
  length, u32_size, add64,
}

-- The length is cast to 32 bits.
unfoldable pub frame : Bytes → Bytes
frame data_ = be_bytes 4 (length data_ % u32_size) ++ data_

unfoldable pub frames : List Bytes → Bytes
unfolding frame
frames [] = []
frames (d ∷ ds) = frame d ++ frames ds

abbrev with_first : ℕ → Option (Bytes × Bytes) → Option (Bytes × Bytes)
with_first b none = none
with_first b (some (front, rest)) = some (b ∷ front, rest)

-- `Read::read_exact`: the bytes that were asked for and what follows, or the end of the file.
unfoldable pub read_exact : ℕ → Bytes → Option (Bytes × Bytes)
read_exact zero bs = some ([], bs)
read_exact (suc n) [] = none
read_exact (suc n) (b ∷ bs) = with_first b (read_exact n bs)

pub data ReadResult : Type 0 where
  records : List Bytes → ReadResult
  segment_corrupt : ℕ → ReadResult
  out_of_fuel : ReadResult

unfoldable pub push : Bytes → ReadResult → ReadResult
push d (records ds) = records (d ∷ ds)
push d (segment_corrupt offset) = segment_corrupt offset
push d out_of_fuel = out_of_fuel

-- The rounds of `read_segment_records` from here on.
unfoldable pub read_rounds : ℕ → ℕ → Bytes → ReadResult
unfolding push read_exact
read_rounds zero offset bs = out_of_fuel
read_rounds (suc fuel) offset bs = elim (read_exact 4 bs) [
  | none ↦ records []
  | some (header, body) ↦ elim (read_exact (from_be_bytes header) body) [
    | none ↦ segment_corrupt offset
    | some (d, rest) ↦
        push d (read_rounds fuel (add64 (add64 offset 4) (from_be_bytes header)) rest)
  ]
]

unfoldable pub read_segment_records : Bytes → ReadResult
unfolding read_rounds
read_segment_records bs = read_rounds (length bs + 1) 0 bs

unfoldable pub count_rounds : ℕ → ℕ → Bytes → ℕ
unfolding read_exact
count_rounds zero count bs = count
count_rounds (suc fuel) count bs = elim (read_exact 4 bs) [
  | none ↦ count
  | some (header, body) ↦ elim (read_exact (from_be_bytes header) body) [
    | none ↦ count
    | some (d, rest) ↦ count_rounds fuel (add64 count 1) rest
  ]
]

unfoldable pub count_records_best_effort : Bytes → ℕ
unfolding count_rounds
count_records_best_effort bs = count_rounds (length bs + 1) 0 bs
