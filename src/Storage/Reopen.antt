-- ===== src/Storage/Reopen.antt =====
-- What opening the log does to a directory that a crash left behind.
use athar.Prelude.{
  ℕ, ◌+◌, ◌<◌, ◌≤◌, ◌≡◌, refl, Bool, true, false, Option, none, some, List, [], ◌∷◌, Bytes, length,
  All, u64_size, add64, add64_fits, leb, if◌then◌else◌, arith,
}
use athar.Storage.Log.{
  active, quarantined, SegmentFile, Config, SegmentLog, is_state, sum_sizes, left_open, quarantine,
  highest, id_after, open_log,
}
use athar.Storage.Accounting.{total_size, IsFramed}

-- The ids and the contents, without the states.
abbrev pub bodies : List SegmentFile → List (ℕ × Bytes)
bodies [] = []
bodies (f ∷ fs) = (f.id, f.contents) ∷ bodies fs

sum_sizes_lem :
    (total : ℕ) (fs : List SegmentFile)
    → total + total_size fs < u64_size
    → sum_sizes total fs ≡ total + total_size fs
unfolding sum_sizes
sum_sizes_lem total [] h = omega arith
sum_sizes_lem total (f ∷ fs) h =
    let fits = add64_fits total (length f.contents) (omega (arith, h)) in
    omega (arith, fits, sum_sizes_lem (add64 total (length f.contents)) fs (omega (arith, h, fits)))

total_size-left_open : (fs : List SegmentFile) → total_size (left_open fs) ≤ total_size fs
unfolding left_open
total_size-left_open [] = omega arith
total_size-left_open (f ∷ fs) = ground (arith, total_size-left_open fs)

pub total_size-quarantine : (fs : List SegmentFile) → total_size (quarantine fs) ≡ total_size fs
unfolding quarantine
total_size-quarantine [] = refl
total_size-quarantine (f ∷ fs) = ground (arith, total_size-quarantine fs)

bodies-quarantine : (fs : List SegmentFile) → bodies (quarantine fs) ≡ bodies fs
unfolding quarantine
bodies-quarantine [] = refl
bodies-quarantine (f ∷ fs) = ground (arith, bodies-quarantine fs)

abbrev IsClosedFile : SegmentFile → Type 0
IsClosedFile f = is_state f.state active ≡ false

quarantine-IsClosedFile : (fs : List SegmentFile) → All IsClosedFile (quarantine fs)
unfolding quarantine
quarantine-IsClosedFile [] = tt
quarantine-IsClosedFile (f ∷ fs) = (ground arith, quarantine-IsClosedFile fs)

abbrev IsSmall : SegmentFile → Type 0
IsSmall f = f.id + 1 < u64_size

quarantine-IsSmall : (fs : List SegmentFile) → All IsSmall fs → All IsSmall (quarantine fs)
unfolding quarantine
quarantine-IsSmall [] h = tt
quarantine-IsSmall (f ∷ fs) h = (ground (arith, h.0), quarantine-IsSmall fs h.1)

-- The highest id so far can be counted on from, and stays below the next id.
abbrev SmallId : Option ℕ → Type 0
SmallId none = Unit {0}
SmallId (some h) = h + 1 < u64_size

abbrev Below : Option ℕ → ℕ → Type 0
Below none n = Unit {0}
Below (some h) n = h < n

highest_lem :
    (best : Option ℕ) (fs : List SegmentFile)
    → SmallId best
    → All IsSmall fs
    → Below best (id_after (highest best fs)) × All (λ f. f.id < id_after (highest best fs)) fs
unfolding highest
highest_lem none [] s h = (tt, tt)
highest_lem (some b) [] s h = (omega (arith, add64_fits b 1 s), tt)
highest_lem none (f ∷ fs) s h = let rest = highest_lem (some f.id) fs h.0 h.1 in (tt, rest)
highest_lem (some b) (f ∷ fs) s h =
    let top = if leb b f.id then f.id else b in
    let rest = highest_lem (some top) fs (ground (arith, h.0, s)) h.1 in
    (ground (arith, rest.0), (ground (arith, rest.0), rest.1))

pub quarantine-IsFramed : (fs : List SegmentFile) → All IsFramed fs → All IsFramed (quarantine fs)
unfolding quarantine
quarantine-IsFramed [] h = tt
quarantine-IsFramed (f ∷ fs) h = (framed_in (is_state f.state active), quarantine-IsFramed fs h.1)
  where
    framed_in : (b : Bool) → IsFramed (if b then record f { state = quarantined } else f)
    framed_in true = record { records = h.0.records; small = h.0.small; framed = h.0.framed }
    framed_in false = h.0

quarantine_below :
    (n : ℕ) (fs : List SegmentFile) → All (λ f. f.id < n) fs → All (λ f. f.id < n) (quarantine fs)
unfolding quarantine
quarantine_below n [] h = tt
quarantine_below n (f ∷ fs) h = (ground (arith, h.0), quarantine_below n fs h.1)

highest-Below :
    (best : Option ℕ) (n : ℕ) (fs : List SegmentFile)
    → Below best n
    → All (λ f. f.id < n) fs
    → Below (highest best fs) n
unfolding highest
highest-Below none n [] b h = tt
highest-Below (some k) n [] b h = b
highest-Below none n (f ∷ fs) b h = highest-Below (some f.id) n fs h.0 h.1
highest-Below (some k) n (f ∷ fs) b h =
    highest-Below (some (if leb k f.id then f.id else k)) n fs (ground (arith, h.0, b)) h.1

-- The next id is no larger than any bound on the ids.
pub id_after-highest :
    (n : ℕ) (fs : List SegmentFile)
    → n < u64_size
    → All (λ f. f.id < n) fs
    → id_after (highest none (quarantine fs)) ≤ n
id_after-highest n fs small h =
    after (highest none (quarantine fs))
      (highest-Below none n (quarantine fs) tt (quarantine_below n fs h))
  where
    after : (o : Option ℕ) → Below o n → id_after o ≤ n
    after none b = omega arith
    after (some k) b = omega (arith, b, small, add64_fits k 1 (omega (arith, b, small)))

-- What a log is after it was opened on some files.
pub record IsRecovered (files : List SegmentFile) (log : SegmentLog) : Type 0 where
  pub kept : bodies log.files ≡ bodies files
  pub none_open : All IsClosedFile log.files
  pub total : log.total_bytes ≡ total_size files
  pub quarantined : log.quarantined_at_open ≡ total_size (left_open files)
  pub fresh : All (λ f. f.id < log.next_seg_id) log.files

-- Opening the log on whatever a crash left, with sizes and ids within 64 bits: no file is lost,
-- truncated or left open, the counted bytes are the bytes on disk and the quarantined bytes those of
-- the files that were open, and the next segment gets an id above all of them.
pub open_log-IsRecovered :
    (config : Config) (files : List SegmentFile)
    → total_size files < u64_size
    → All (λ f. f.id + 1 < u64_size) files
    → IsRecovered files (open_log config files)
unfolding open_log
open_log-IsRecovered config files sizes ids = record {
  kept = bodies-quarantine files;
  none_open = quarantine-IsClosedFile files;
  total = omega (
    arith,
    sum_sizes_lem 0 (quarantine files) (omega (arith, sizes, total_size-quarantine files)),
    total_size-quarantine files,
  );
  quarantined =
      omega (
        arith,
        sum_sizes_lem 0 (left_open files) (omega (arith, sizes, total_size-left_open files)),
      );
  fresh = (highest_lem none (quarantine files) tt (quarantine-IsSmall files ids)).1;
}
