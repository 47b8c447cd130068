-- ===== src/Storage/Invariant.antt =====
-- What every operation of the log keeps.
use athar.Prelude.{
  ℕ, ◌+◌, ◌%◌, ◌<◌, ◌≤◌, ◌≡◌, refl, sym, ap, ◌∙◌, ◌++◌, Option, none, some, List, [], ◌∷◌, Bytes,
  be_bytes, length-be_bytes, length, length-append, All, All-append, u32_size, u64_size, add64,
  add64_fits, ==_iff, arith,
}
use mathlib.Core.List.{append_assoc, append-nil}
use mathlib.Core.Path.{subst}
use athar.Storage.Framing.{frame, frames}
use athar.Storage.Log.{
  closed, active, SegmentFile, Config, Active, SegmentLog, open_log, finish_active, rotate,
  record_size_on_disk, append_to, sum_sizes, quarantine, highest,
}
use athar.Storage.Accounting.{
  total_size, open_count, IsFramed, All-finish, All-extend, total_size-append, open_count-append,
  total_size-finish, open_count_new, total_size-extend, open_count-extend,
}

-- The active segment has one open file.
abbrev pub Placed : Option Active → List SegmentFile → Type 0
Placed none files = Unit {0}
Placed (some a) files = open_count a.id files ≡ 1

-- What holds of a log with a configuration, after a number of calls: the bytes on disk are counted
-- and within the quota, the active segment has one open file, ids are below the next one, and every
-- file holds framed records.
pub record Inv (config : Config) (calls : ℕ) (log : SegmentLog) : Type 0 where
  pub configured : log.config ≡ config
  pub total : log.total_bytes ≡ total_size log.files
  pub bounded : total_size log.files ≤ config.quota.limit_bytes
  pub placed : Placed log.writing log.files
  pub ids : All (λ f. f.id < log.next_seg_id) log.files
  pub framed : All IsFramed log.files
  pub few : log.next_seg_id ≤ calls

pub open_log-Inv : (config : Config) → Inv config 0 (open_log config [])
unfolding open_log sum_sizes quarantine highest
open_log-Inv config = record {
  configured = refl;
  total = refl;
  bounded = omega arith;
  placed = tt;
  ids = tt;
  framed = tt;
  few = omega arith;
}

pub Inv-later :
    (config : Config) (n : ℕ) (log : SegmentLog) → Inv config n log → Inv config (n + 1) log
Inv-later config n log v = record {
  configured = v.configured;
  total = v.total;
  bounded = v.bounded;
  placed = v.placed;
  ids = v.ids;
  framed = v.framed;
  few = omega (arith, v.few);
}

All-below :
    (m n : ℕ) (fs : List SegmentFile) → m ≤ n → All (λ f. f.id < m) fs → All (λ f. f.id < n) fs
All-below m n [] le h = tt
All-below m n (f ∷ fs) le h = (omega (arith, h.0), All-below m n fs le h.1)

closed_IsFramed : (f : SegmentFile) → IsFramed f → IsFramed (record f { state = closed })
closed_IsFramed f h = record { records = h.records; framed = h.framed; small = h.small }

All-finish_active {ℓ} :
    (P : SegmentFile → Type ℓ) (o : Option Active) (fs : List SegmentFile)
    → ((f : SegmentFile) → P f → P (record f { state = closed }))
    → All P fs
    → All P (finish_active o fs)
All-finish_active P none fs k h = h
All-finish_active P (some a) fs k h = All-finish P a.id fs k h

total_size-finish_active :
    (o : Option Active) (fs : List SegmentFile) → total_size (finish_active o fs) ≡ total_size fs
total_size-finish_active none fs = refl
total_size-finish_active (some a) fs = total_size-finish a.id fs

frames-nil : [] ≡ frames []
unfolding frames
frames-nil = refl

pub rotate-Inv :
    (config : Config) (n : ℕ) (log : SegmentLog)
    → n + 1 < u64_size
    → Inv config n log
    → Inv config (n + 1) (rotate log)
unfolding rotate
rotate-Inv config n log small v =
    let id = log.next_seg_id in
    let kept = finish_active log.writing log.files in
    let fresh : SegmentFile = record { id = id; state = active; contents = [] } in
    let next : add64 id 1 ≡ id + 1 = add64_fits id 1 (omega (arith, v.few)) in
    let below = All-finish_active (λ f. f.id < id) log.writing log.files (λ f h. h) v.ids in
    let size : total_size (kept ++ fresh ∷ []) ≡ total_size log.files = omega (
      arith,
      total_size-append kept (fresh ∷ []),
      total_size-finish_active log.writing log.files,
    ) in
    record {
      configured = v.configured;
      total = v.total ∙ sym size;
      bounded = omega (arith, size, v.bounded);
      placed =
          open_count-append id kept (fresh ∷ [])
          ∙ ground (arith, open_count_new id kept below, (==_iff id id).1 refl);
      ids =
          All-append _ kept (fresh ∷ []) (All-below id _ kept (omega (arith, next)) below)
            (omega (arith, next), tt);
      framed =
          All-append IsFramed kept (fresh ∷ [])
            (All-finish_active IsFramed log.writing log.files closed_IsFramed v.framed)
            (record { records = []; framed = frames-nil; small = tt }, tt);
      few = omega (arith, next, v.few);
    }

pub frames-append : (ds : List Bytes) (d : Bytes) → frames (ds ++ d ∷ []) ≡ frames ds ++ frame d
unfolding frames
frames-append [] d = append-nil (frame d)
frames-append (x ∷ xs) d =
    ap (λ y. frame x ++ y) (frames-append xs d) ∙ sym (append_assoc (frame x) (frames xs) (frame d))

extended_IsFramed :
    (d : Bytes) (f : SegmentFile)
    → length d < u32_size
    → IsFramed f
    → IsFramed (record f { contents = f.contents ++ frame d })
extended_IsFramed d f small h = record {
  records = h.records ++ d ∷ [];
  framed = ap (λ x. x ++ frame d) h.framed ∙ sym (frames-append h.records d);
  small = All-append _ h.records (d ∷ []) h.small (small, tt);
}

length-frame : (d : Bytes) → length (frame d) ≡ 4 + length d
unfolding frame
length-frame d = omega (
  arith,
  length-append (be_bytes 4 (length d % u32_size)) d,
  length-be_bytes 4 (length d % u32_size),
)

pub append_to-Inv :
    (config : Config) (n : ℕ) (log : SegmentLog) (d : Bytes) (o : Option Active)
    → length d < u32_size
    → config.quota.limit_bytes < u64_size
    → log.total_bytes + record_size_on_disk d ≤ config.quota.limit_bytes
    → log.writing ≡ o
    → Inv config n log
    → Inv config n (append_to log d o).0
unfolding append_to
append_to-Inv config n log d none small limit room e v = v
append_to-Inv config n log d (some a) small limit room e v =
    let one : open_count a.id log.files ≡ 1 = subst (λ o. Placed o log.files) e v.placed in
    let size = total_size-extend a.id (frame d) log.files one in
    let fits = add64_fits log.total_bytes (record_size_on_disk d) (omega (arith, room, limit)) in
    record {
      configured = v.configured;
      total = omega (arith, fits, size, v.total, length-frame d);
      bounded = omega (arith, size, v.total, length-frame d, room);
      placed = open_count-extend a.id (frame d) log.files ∙ one;
      ids = All-extend (λ f. f.id < log.next_seg_id) a.id (frame d) log.files (λ f h. h) v.ids;
      framed =
          All-extend IsFramed a.id (frame d) log.files (λ f. extended_IsFramed d f small) v.framed;
      few = v.few;
    }
