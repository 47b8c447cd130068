-- ===== src/Governor/Level.antt =====
-- `PressureLevel`, `Priority` and the buckets of daemon/crates/athar-governor/src/lib.rs.
use athar.Prelude.{ℕ, Bool, true, false, ltb, leb, if◌then◌else◌}

pub data PressureLevel : Type 0 where
  l0_normal l1_reduce l2_defer l3_essential l4_safe_mode : PressureLevel

pub data Priority : Type 0 where
  p0 p1 p2 p3 p4 : Priority

unfoldable pub allows : PressureLevel → Priority → Bool
allows l0_normal _ = true
allows l1_reduce p4 = false
allows l1_reduce _ = true
allows l2_defer p3 = false
allows l2_defer p4 = false
allows l2_defer _ = true
allows l3_essential p0 = true
allows l3_essential p1 = true
allows l3_essential _ = false
allows l4_safe_mode p0 = true
allows l4_safe_mode _ = false

-- The derived order: by the place in the declaration.
unfoldable pub rank : PressureLevel → ℕ
rank l0_normal = 0
rank l1_reduce = 1
rank l2_defer = 2
rank l3_essential = 3
rank l4_safe_mode = 4

unfoldable pub max_level : PressureLevel → PressureLevel → PressureLevel
max_level a b = if leb (rank a) (rank b) then b else a

module _ {F32 : Type 0} (lt : F32 → F32 → Bool) where
  unfoldable pub bucket3 : F32 → F32 → F32 → PressureLevel
  bucket3 observed l1 l2 =
      if lt observed l2 then l2_defer else if lt observed l1 then l1_reduce else l0_normal

unfoldable pub latency_bucket : ℕ → ℕ → ℕ → ℕ → PressureLevel
latency_bucket observed_us budget l2 l3 =
    if leb l3 observed_us
    then l3_essential
    else if leb l2 observed_us
    then l2_defer
    else if ltb budget observed_us
    then l1_reduce
    else l0_normal
