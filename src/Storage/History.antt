-- ===== src/Storage/History.antt =====
-- Sequences of calls on a log that starts on an empty directory, and is opened again at times.
use athar.Prelude.{
  ℕ, ◌+◌, ◌<◌, ◌≤◌, ◌≡◌, ◌⊎◌, refl, sym, ap, ◌∙◌, Option, none, some, List, [], ◌∷◌, Bytes, length,
  All, All-map, u32_size, u64_size, checked_add64, ltb, arith, Bool-cases, Option-cases, inl, inr,
}
use mathlib.Core.List.{append-nil}
use athar.Storage.Quota.{Quota, yes, no, check}
use athar.Storage.Framing.{frames, records, read_segment_records}
use athar.Storage.Recovery.{read_segment_records-frames}
use athar.Storage.Log.{
  SegmentFile, closed, Active, Config, SegmentLog, open_log, rotate, record_size_on_disk,
  must_rotate, append, oldest_closed, remove_file, evict_oldest_closed,
}
use athar.Storage.Accounting.{
  total_size, IsFramed, All-remove_file, total_size-remove_file, open_count-remove_file,
}
use athar.Storage.Reopen.{
  open_log-IsRecovered, total_size-quarantine, quarantine-IsFramed, id_after-highest,
}
use athar.Storage.Invariant.{Inv, Placed, open_log-Inv, Inv-later, rotate-Inv, append_to-Inv}

check-cases :
    (q : Quota) (total size : ℕ)
    → ((check q total size ≡ yes) × (total + size ≤ q.limit_bytes))
      ⊎ ((over_by : ℕ) × (check q total size ≡ no over_by))
unfolding check checked_add64
check-cases q total size = ground arith

total_bytes-rotate : (log : SegmentLog) → (rotate log).total_bytes ≡ log.total_bytes
unfolding rotate
total_bytes-rotate log = refl

pub append-Inv :
    (config : Config) (n : ℕ) (log : SegmentLog) (d : Bytes)
    → config.max_record_bytes < u32_size
    → config.quota.limit_bytes < u64_size
    → n + 1 < u64_size
    → Inv config n log
    → Inv config (n + 1) (append log d).0
unfolding append
append-Inv config n log d record_bound limit small v =
    elim (Bool-cases (ltb log.config.max_record_bytes (length d))) [
      | inl large ↦ rw (large, append) (Inv-later config n log v)
      | inr fits ↦
          let short : length d < u32_size =
            ground (arith, ap (λ (c : Config). c.max_record_bytes) v.configured) in
          elim (check-cases log.config.quota log.total_bytes (record_size_on_disk d)) [
            | inr (over_by, e) ↦ rw (fits, e, append) (Inv-later config n log v)
            | inl (e, room) ↦
                let room' : log.total_bytes + record_size_on_disk d ≤ config.quota.limit_bytes =
                  omega (arith, room, ap (λ (c : Config). c.quota.limit_bytes) v.configured) in
                elim (Bool-cases (must_rotate log (record_size_on_disk d) log.writing)) [
                  | inl full ↦
                      rw (fits, e, full, append)
                        (append_to-Inv config (n + 1) (rotate log) d (rotate log).writing short
                          limit (omega (arith, room', total_bytes-rotate log)) refl
                          (rotate-Inv config n log small v))
                  | inr space ↦
                      rw (fits, e, space, append)
                        (append_to-Inv config (n + 1) log d log.writing short limit room' refl
                          (Inv-later config n log v))
                ]
          ]
    ]

evict_oldest_closed-Inv :
    (config : Config) (n : ℕ) (log : SegmentLog)
    → Inv config n log
    → Inv config (n + 1) (evict_oldest_closed log).0
unfolding evict_oldest_closed
evict_oldest_closed-Inv config n log v = elim (Option-cases (oldest_closed log.files)) [
  | inl nothing ↦ rw (nothing, evict_oldest_closed) (Inv-later config n log v)
  | inr (t, found) ↦
      let size = total_size-remove_file log.files t found in
      rw (found, evict_oldest_closed)
        (record {
          configured = v.configured;
          total = omega (arith, v.total, size);
          bounded = omega (arith, v.bounded, size);
          placed = still_placed t.id log.writing v.placed;
          ids = All-remove_file _ t.id closed log.files v.ids;
          framed = All-remove_file IsFramed t.id closed log.files v.framed;
          few = omega (arith, v.few);
        })
]
  where
    still_placed :
        (id : ℕ) (o : Option Active)
        → Placed o log.files
        → Placed o (remove_file id closed log.files)
    still_placed id none p = tt
    still_placed id (some a) p = open_count-remove_file a.id id log.files ∙ p

-- Opening a log again on its files, with a segment still open or not.
open_log-Inv_files :
    (config : Config) (n : ℕ) (log : SegmentLog)
    → config.quota.limit_bytes < u64_size
    → n < u64_size
    → Inv config n log
    → Inv config n (open_log log.config log.files)
unfolding open_log
open_log-Inv_files config n log l small v =
    let fs = log.files in
    let ids : All (λ f. f.id < n) fs =
      All-map (λ f (h : f.id < log.next_seg_id). omega (arith, h, v.few)) fs v.ids in
    let recovered =
      open_log-IsRecovered log.config fs (omega (arith, v.bounded, l))
        (All-map (λ f (h : f.id < n). omega (arith, h, small)) fs ids) in
    record {
      configured = v.configured;
      total = omega (arith, recovered.total, total_size-quarantine fs);
      bounded = omega (arith, v.bounded, total_size-quarantine fs);
      placed = tt;
      ids = recovered.fresh;
      framed = quarantine-IsFramed fs v.framed;
      few = id_after-highest n fs small ids;
    }

pub data Call : Type 0 where
  appends : Bytes → Call
  rotates evicts reopens : Call

unfoldable pub step : SegmentLog → Call → SegmentLog
step log (appends d) = (append log d).0
step log rotates = rotate log
step log evicts = (evict_oldest_closed log).0
step log reopens = open_log log.config log.files

unfoldable pub run : SegmentLog → List Call → SegmentLog
unfolding step
run log [] = log
run log (call ∷ calls) = run (step log call) calls

run-Inv :
    (config : Config) (calls : List Call) (n : ℕ) (log : SegmentLog)
    → config.max_record_bytes < u32_size
    → config.quota.limit_bytes < u64_size
    → n + length calls < u64_size
    → Inv config n log
    → (m : ℕ) × Inv config m (run log calls)
unfolding run step
run-Inv config [] n log r l small v = (n, v)
run-Inv config (appends d ∷ calls) n log r l small v =
    run-Inv config calls (n + 1) (append log d).0 r l (omega (arith, small))
      (append-Inv config n log d r l (omega (arith, small)) v)
run-Inv config (rotates ∷ calls) n log r l small v =
    run-Inv config calls (n + 1) (rotate log) r l (omega (arith, small))
      (rotate-Inv config n log (omega (arith, small)) v)
run-Inv config (evicts ∷ calls) n log r l small v =
    run-Inv config calls (n + 1) (evict_oldest_closed log).0 r l (omega (arith, small))
      (evict_oldest_closed-Inv config n log v)
run-Inv config (reopens ∷ calls) n log r l small v =
    run-Inv config calls (n + 1) (open_log log.config log.files) r l (omega (arith, small))
      (Inv-later config n _ (open_log-Inv_files config n log l (omega (arith, small)) v))

-- What a client sees of a log.
pub record IsAccounted (config : Config) (log : SegmentLog) : Type 0 where
  pub total : log.total_bytes ≡ total_size log.files
  pub bounded : total_size log.files ≤ config.quota.limit_bytes
  pub readable :
      All (λ f. (ds : List Bytes) × (read_segment_records f.contents ≡ records ds)) log.files

readable_of :
    (fs : List SegmentFile)
    → All IsFramed fs
    → All (λ f. (ds : List Bytes) × (read_segment_records f.contents ≡ records ds)) fs
readable_of [] h = tt
readable_of (f ∷ fs) h = (
  (
    h.0.records,
    ap read_segment_records (h.0.framed ∙ sym (append-nil (frames h.0.records)))
        ∙ read_segment_records-frames h.0.records [] h.0.small (omega arith),
  ),
  readable_of fs h.1,
)

-- Whatever is appended, rotated and evicted on a log that starts on an empty directory, and however
-- often it is opened again on what is there, with a segment still open or not, the counted bytes are the bytes on disk, they never exceed the quota, and every segment file reads back as
-- whole records. Records are below 4 GiB, and the quota and the number of calls below 2 ^ 64.
pub run-IsAccounted :
    (config : Config) (calls : List Call)
    → config.max_record_bytes < u32_size
    → config.quota.limit_bytes < u64_size
    → length calls < u64_size
    → IsAccounted config (run (open_log config []) calls)
run-IsAccounted config calls r l small =
    let (m, v) =
      run-Inv config calls 0 (open_log config []) r l (omega (arith, small))
        (open_log-Inv config) in
    record { total = v.total; bounded = v.bounded; readable = readable_of _ v.framed }
