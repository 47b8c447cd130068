-- ===== src/Daemon/Calendar.antt =====
-- `now_rfc3339` and `unix_to_ymdhms` of daemon/crates/athar-daemon/src/ingest.rs. The days since the epoch are not
-- negative, so the i64 arithmetic is that of the numbers, and the era of a negative day is not reached.
pub mod Dates
use Prim.Native.String.{◌++◌ as str_append}
use athar.Prelude.{String, ℕ, ◌+◌, ◌-◌, ◌*◌, ◌/◌, ◌%◌, ltb, leb, u32_size, if◌then◌else◌}

pub record Ymdhms : Type 0 where
  pub year : ℕ
  pub month : ℕ
  pub day : ℕ
  pub hour : ℕ
  pub min : ℕ
  pub sec : ℕ

-- The day of the era, of 146097 days, and its year of the era, which starts in March.
abbrev pub year_of_era : ℕ → ℕ
year_of_era doe = (doe - doe / 1460 + doe / 36524 - doe / 146096) / 365

abbrev pub day_of_year : ℕ → ℕ → ℕ
day_of_year doe yoe = doe - (365 * yoe + yoe / 4 - yoe / 100)

unfoldable pub unix_to_ymdhms : ℕ → Ymdhms
unix_to_ymdhms secs =
    let rem = secs % 86_400 in
    let z = secs / 86_400 + 719_468 in
    let era = z / 146_097 in
    let doe = z - era * 146_097 in
    let yoe = year_of_era doe in
    let doy = day_of_year doe yoe in
    let mp = (5 * doy + 2) / 153 in
    let m = if ltb mp 10 then mp + 3 else mp - 9 in
    let y = yoe + era * 400 in
    record {
      year = (if leb m 2 then y + 1 else y) % u32_size;
      month = m;
      day = doy - (153 * mp + 2) / 5 + 1;
      hour = rem / 3600;
      min = rem % 3600 / 60;
      sec = rem % 60;
    }

infixr 6 ◌<>◌
abbrev ◌<>◌ : String → String → String
a <> b = str_append a b

-- With the clock's seconds and microseconds; `padded` spells a number with leading zeros.
unfoldable pub now_rfc3339 : (ℕ → ℕ → String) → ℕ → ℕ → String
unfolding unix_to_ymdhms
now_rfc3339 padded secs micros =
    let t = unix_to_ymdhms secs in
    padded 4 t.year
    <> "-"
    <> padded 2 t.month
    <> "-"
    <> padded 2 t.day
    <> "T"
    <> padded 2 t.hour
    <> ":"
    <> padded 2 t.min
    <> ":"
    <> padded 2 t.sec
    <> "."
    <> padded 6 micros
    <> "Z"
