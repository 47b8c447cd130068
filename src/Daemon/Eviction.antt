-- ===== src/Daemon/Eviction.antt =====
-- `run_once` of daemon/crates/athar-daemon/src/eviction.rs on a log that no other task changes in
-- between. `F32` is the type of the program's 32-bit floats, `lt` their order, `full` is 100.0 and
-- `percent` the quotient of two sizes in percent. The rounds run on the evictions that are left of
-- `max_evictions_per_tick`. Whether the disk lets an eviction list the segments and remove the file is
-- an argument, `disk_ok`, of the number of evictions so far.
use athar.Prelude.{ℕ, zero, suc, ◌+◌, Bool, true, false, Option, none, some, ◌==◌, if◌then◌else◌}
use athar.Storage.Log.{SegmentLog, evict_oldest_closed}

pub record EvictionConfig (F32 : Type 0) : Type 0 where
  pub high_water_pct : F32
  pub low_water_pct : F32
  pub interval : ℕ
  pub max_evictions_per_tick : ℕ

pub record EvictionOutcome (F32 : Type 0) : Type 0 where
  pub evicted : ℕ
  pub initial_fill : F32
  pub final_fill : F32
  pub ran_dry : Bool

-- What `evict_oldest_closed` returns: `Ok(Some(id))`, `Ok(None)` or an error, which leaves the log as it
-- was.
pub data Evicted : Type 0 where
  removed : ℕ → Evicted
  exhausted failed : Evicted

abbrev pub result_of : Option ℕ → Evicted
result_of none = exhausted
result_of (some id) = removed id

unfoldable pub attempt : Bool → SegmentLog → SegmentLog × Evicted
unfolding evict_oldest_closed
attempt false log = (log, failed)
attempt true log = ((evict_oldest_closed log).0, result_of (evict_oldest_closed log).1)

module _ {F32 : Type 0} (full : F32) (percent : ℕ → ℕ → F32) where
  unfoldable pub fill_pct : SegmentLog → F32
  fill_pct log =
      if log.config.quota.limit_bytes == 0
      then full
      else percent log.total_bytes log.config.quota.limit_bytes

module _ {F32 : Type 0} (lt : F32 → F32 → Bool) (full : F32) (percent : ℕ → ℕ → F32)
    (config : EvictionConfig F32) (disk_ok : ℕ → Bool) where
  -- The rounds of the loop, with the evictions that are left.
  unfoldable pub evict_rounds : ℕ → ℕ → F32 → SegmentLog → SegmentLog × EvictionOutcome F32
  unfolding fill_pct attempt
  evict_rounds zero evicted initial_fill log = (
    log,
    record {
      evicted = evicted;
      initial_fill = initial_fill;
      final_fill = fill_pct full percent log;
      ran_dry = false;
    },
  )
  evict_rounds (suc left) evicted initial_fill log =
      let (log', result) = attempt (disk_ok evicted) log in
      let fill = fill_pct full percent log' in
      let rest = evict_rounds left (evicted + 1) initial_fill log' in
      elim result [
        | failed ↦ (
          log',
          record {
            evicted = evicted;
            initial_fill = initial_fill;
            final_fill = fill;
            ran_dry = false;
          },
        )
        | exhausted ↦ (
          log',
          record {
            evicted = evicted;
            initial_fill = initial_fill;
            final_fill = fill;
            ran_dry = true;
          },
        )
        | removed id ↦
            if lt fill config.low_water_pct
            then (
              log',
              record {
                evicted = evicted + 1;
                initial_fill = initial_fill;
                final_fill = fill;
                ran_dry = false;
              },
            )
            else rest
      ]

  unfoldable pub run_once : SegmentLog → SegmentLog × EvictionOutcome F32
  unfolding evict_rounds fill_pct
  run_once log =
      let initial_fill = fill_pct full percent log in
      let work = evict_rounds config.max_evictions_per_tick 0 initial_fill log in
      if lt initial_fill config.high_water_pct
      then (
        log,
        record {
          evicted = 0;
          initial_fill = initial_fill;
          final_fill = initial_fill;
          ran_dry = false;
        },
      )
      else work
