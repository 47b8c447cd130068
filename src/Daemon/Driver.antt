-- ===== src/Daemon/Driver.antt =====
-- What one pass of the eviction driver achieves.
use athar.Prelude.{
  ℕ, zero, suc, ◌+◌, ◌≤◌, ◌<◌, ◌≡◌, ◌⊎◌, inl, inr, refl, ap, ◌∙◌, Bool, true, false, none, some,
  List, [], ◌∷◌, length, arith, Bool-cases, Option-cases,
}
use athar.Storage.Log.{
  SegmentFile, closed, SegmentLog, oldest_closed, remove_file, evict_oldest_closed,
}
use athar.Daemon.Eviction.{
  removed, exhausted, failed, EvictionConfig, EvictionOutcome, fill_pct, result_of, attempt,
  evict_rounds, run_once,
}

length-remove_file :
    (fs : List SegmentFile) (t : SegmentFile)
    → oldest_closed fs ≡ some t
    → length (remove_file t.id closed fs) + 1 ≡ length fs
unfolding oldest_closed remove_file
length-remove_file [] t h = cc
length-remove_file (f ∷ fs) t h = ground (arith, length-remove_file fs t)

-- An eviction takes one file, or finds no closed one and changes nothing.
evict_oldest_closed-cases :
    (log : SegmentLog)
    → (((evict_oldest_closed log).0 ≡ log)
        × ((evict_oldest_closed log).1 ≡ none)
        × (oldest_closed log.files ≡ none))
      ⊎ ((id : ℕ) × ((evict_oldest_closed log).1 ≡ some id)
          × (length (evict_oldest_closed log).0.files + 1 ≡ length log.files))
unfolding evict_oldest_closed
evict_oldest_closed-cases log = elim (Option-cases (oldest_closed log.files)) [
  | inl dry ↦ inl (rw (dry, evict_oldest_closed) refl, rw (dry, evict_oldest_closed) refl, dry)
  | inr (t, found) ↦ inr (
    t.id,
    rw (found, evict_oldest_closed) refl,
    rw (found, evict_oldest_closed) (length-remove_file log.files t found),
  )
]

-- An attempt is refused, finds no closed file, or takes one.
attempt-cases :
    (ok : Bool) (log : SegmentLog)
    → ((ok ≡ false) × ((attempt ok log).1 ≡ failed) × ((attempt ok log).0 ≡ log))
      ⊎ ((((attempt ok log).1 ≡ exhausted)
            × ((attempt ok log).0 ≡ log)
            × (oldest_closed log.files ≡ none))
          ⊎ ((id : ℕ) × ((attempt ok log).1 ≡ removed id)
              × ((attempt ok log).0 ≡ (evict_oldest_closed log).0)
              × (length (evict_oldest_closed log).0.files + 1 ≡ length log.files)))
unfolding attempt
attempt-cases false log = inl (refl, refl, refl)
attempt-cases true log = elim (evict_oldest_closed-cases log) [
  | inl (same, nothing, dry) ↦ inr (inl (ap result_of nothing, same, dry))
  | inr (id, result, fewer) ↦ inr (inr (id, ap result_of result, refl, fewer))
]

-- The log after a number of evictions, none of which the disk refuses.
unfoldable pub evictions : ℕ → SegmentLog → SegmentLog
evictions zero log = log
evictions (suc n) log = evictions n (evict_oldest_closed log).0

module _ {F32 : Type 0} (lt : F32 → F32 → Bool) (full : F32) (percent : ℕ → ℕ → F32)
    (config : EvictionConfig F32) (disk_ok : ℕ → Bool) where
  abbrev pub is_low : SegmentLog → Bool
  is_low log = lt (fill_pct full percent log) config.low_water_pct

  -- Why rounds that made `more` evictions after `evicted` others, and might have made `left`, end.
  abbrev pub Stopped : ℕ → ℕ → ℕ → SegmentLog → EvictionOutcome F32 → Type 0
  Stopped left evicted more log o =
      ((o.ran_dry ≡ true) × (more < left) × (oldest_closed log.files ≡ none))
      ⊎ ((o.ran_dry ≡ false)
          × (((more < left) × (disk_ok (evicted + more) ≡ false))
              ⊎ ((is_low log ≡ true) ⊎ (more ≡ left))))

  -- What rounds that start with some evictions promise when they may make `left` more.
  pub record Achieved (left evicted : ℕ) (log : SegmentLog) (r : SegmentLog × EvictionOutcome F32)
      : Type 0 where
    pub more : ℕ
    pub counted : r.1.evicted ≡ evicted + more
    pub oldest_first : r.0 ≡ evictions more log
    pub taken : length r.0.files + more ≡ length log.files
    pub capped : more ≤ left
    pub needed : (k : ℕ) → suc k < more → is_low (evictions (suc k) log) ≡ false
    pub measured : r.1.final_fill ≡ fill_pct full percent r.0
    pub stopped : Stopped left evicted more r.0 r.1

  Stopped-later :
      (left evicted more : ℕ) (log : SegmentLog) (o : EvictionOutcome F32)
      → Stopped left (evicted + 1) more log o
      → Stopped (suc left) evicted (suc more) log o
  Stopped-later left evicted more log o (inl (dry, fewer, none_left)) =
      inl (dry, omega (arith, fewer), none_left)
  Stopped-later left evicted more log o (inr (wet, inl (fewer, refused))) =
      inr (wet, inl (omega (arith, fewer), ap disk_ok (omega arith) ∙ refused))
  Stopped-later left evicted more log o (inr (wet, inr (inl low))) = inr (wet, inr (inl low))
  Stopped-later left evicted more log o (inr (wet, inr (inr all))) =
      inr (wet, inr (inr (omega (arith, all))))

  -- An eviction that leaves the fill at or above the mark, and then rounds from there.
  one_more :
      (left evicted : ℕ) (log : SegmentLog) (r : SegmentLog × EvictionOutcome F32)
      → length (evict_oldest_closed log).0.files + 1 ≡ length log.files
      → is_low (evict_oldest_closed log).0 ≡ false
      → Achieved left (evicted + 1) (evict_oldest_closed log).0 r
      → Achieved (suc left) evicted log r
  unfolding evictions
  one_more left evicted log r fewer high rest = record {
    more = suc rest.more;
    counted = omega (arith, rest.counted);
    oldest_first = rest.oldest_first;
    taken = omega (arith, fewer, rest.taken);
    capped = omega (arith, rest.capped);
    needed = still_high;
    measured = rest.measured;
    stopped = Stopped-later left evicted rest.more r.0 r.1 rest.stopped;
  }
    where
      still_high : (k : ℕ) → suc k < suc rest.more → is_low (evictions (suc k) log) ≡ false
      still_high zero h = high
      still_high (suc k) h = rest.needed k (omega (arith, h))

  evict_rounds-Achieved :
      (left evicted : ℕ) (initial : F32) (log : SegmentLog)
      → Achieved left evicted log
          (evict_rounds lt full percent config disk_ok left evicted initial log)
  unfolding evict_rounds attempt evictions
  evict_rounds-Achieved zero evicted initial log = record {
    more = 0;
    counted = omega arith;
    oldest_first = refl;
    taken = omega arith;
    capped = omega arith;
    needed = λ k h. absurd (omega (arith, h));
    measured = refl;
    stopped = inr (refl, inr (inr refl));
  }
  evict_rounds-Achieved (suc left) evicted initial log =
      elim (attempt-cases (disk_ok evicted) log) [
        | inl (off, refused, same) ↦
            rw (refused, same, evict_rounds)
              (record {
                more = 0;
                counted = omega arith;
                oldest_first = refl;
                taken = omega arith;
                capped = omega arith;
                needed = λ k h. absurd (omega (arith, h));
                measured = refl;
                stopped = inr (refl, inl (omega arith, ap disk_ok (omega arith) ∙ off));
              })
        | inr (inl (nothing, same, dry)) ↦
            rw (nothing, same, evict_rounds)
              (record {
                more = 0;
                counted = omega arith;
                oldest_first = refl;
                taken = omega arith;
                capped = omega arith;
                needed = λ k h. absurd (omega (arith, h));
                measured = refl;
                stopped = inl (refl, omega arith, dry);
              })
        | inr (inr (id, gone, left_with, fewer)) ↦
            elim (Bool-cases (is_low (evict_oldest_closed log).0)) [
              | inl low ↦
                  rw (gone, left_with, low, evict_rounds)
                    (record {
                      more = 1;
                      counted = omega arith;
                      oldest_first = refl;
                      taken = fewer;
                      capped = omega arith;
                      needed = λ k h. absurd (omega (arith, h));
                      measured = refl;
                      stopped = inr (refl, inr (inl low));
                    })
              | inr high ↦
                  rw (gone, left_with, high, evict_rounds)
                    (one_more left evicted log _ fewer high (
                      evict_rounds-Achieved left (evicted + 1) initial (evict_oldest_closed log).0))
            ]
      ]

  -- One pass of the driver: below the high-water mark it does nothing. Else it evicts the oldest closed
  -- segments, one file for each eviction that it reports and at most as many as allowed for a tick, and
  -- none once the fill is below the low-water mark; it reports the fill that it leaves. It stops because
  -- no closed segment is left, which it reports, because the disk refuses an eviction, because the fill
  -- is below the low-water mark, or because the number allowed is reached.
  pub run_once-Achieved :
      (log : SegmentLog)
      → ((lt (fill_pct full percent log) config.high_water_pct ≡ true)
          × ((run_once lt full percent config disk_ok log).0 ≡ log)
          × ((run_once lt full percent config disk_ok log).1.evicted ≡ 0))
        ⊎ ((lt (fill_pct full percent log) config.high_water_pct ≡ false)
            × Achieved config.max_evictions_per_tick 0 log
                (run_once lt full percent config disk_ok log))
  unfolding run_once
  run_once-Achieved log = elim (Bool-cases (lt (fill_pct full percent log) config.high_water_pct)) [
    | inl low ↦ inl (low, rw (low, run_once) refl, rw (low, run_once) refl)
    | inr high ↦ inr (
      high,
      rw (high, run_once)
          (evict_rounds-Achieved config.max_evictions_per_tick 0 (fill_pct full percent log) log),
    )
  ]
