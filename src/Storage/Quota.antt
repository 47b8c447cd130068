-- ===== src/Storage/Quota.antt =====
-- `Quota` of daemon/crates/athar-storage/src/quota.rs.
use athar.Prelude.{
  ℕ, ◌-◌, ◌≤◌, ◌<◌, ◌≡◌, ◌↔◌, Option, none, some, leb, u64_size, checked_add64, if◌then◌else◌,
  arith,
}

pub record Quota : Type 0 where
  pub limit_bytes : ℕ

pub data Fits : Type 0 where
  yes : Fits
  no : ℕ → Fits

abbrev fits_of : ℕ → Option ℕ → Fits
fits_of limit none = no (u64_size - 1)
fits_of limit (some t) = if leb t limit then yes else no (t - limit)

unfoldable pub check : Quota → ℕ → ℕ → Fits
check q current_total record_size = fits_of q.limit_bytes (checked_add64 current_total record_size)

unfoldable pub headroom : Quota → ℕ → ℕ
headroom q current_total = q.limit_bytes - current_total

-- A write of at least one byte fits exactly when it does not exceed the headroom.
pub check-headroom :
    (q : Quota) (current_total record_size : ℕ)
    → q.limit_bytes < u64_size
    → 0 < record_size
    → (check q current_total record_size ≡ yes) ↔ (record_size ≤ headroom q current_total)
unfolding check headroom checked_add64
check-headroom q current_total record_size bounded some_bytes =
    (λ h. ground arith, λ h. ground arith)
