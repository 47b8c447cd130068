-- ===== src/Storage/Log.antt =====
-- `SegmentLog` of daemon/crates/athar-storage/src/segment_log.rs. The directory is the list of its
-- segment files in the order of their ids, which is the order of `segments`; a file's state is its
-- extension. Input and output are taken to succeed.
use athar.Prelude.{
  ℕ, ◌+◌, ◌-◌, ◌++◌, Bool, true, false, ◌&&◌, Option, none, some, List, [], ◌∷◌, Bytes, length, ltb,
  leb, ◌==◌, add64, if◌then◌else◌,
}
use athar.Storage.Quota.{Quota, yes, no, check}
use athar.Storage.Framing.{frame, count_records_best_effort}

pub data SegmentState : Type 0 where
  closed active quarantined : SegmentState

pub record SegmentFile : Type 0 where
  pub id : ℕ
  pub state : SegmentState
  pub contents : Bytes

pub record Config : Type 0 where
  pub max_segment_bytes : ℕ
  pub max_record_bytes : ℕ
  pub quota : Quota

pub record Active : Type 0 where
  pub id : ℕ
  pub written_bytes : ℕ
  pub record_count : ℕ

pub record AppendReceipt : Type 0 where
  pub segment_id : ℕ
  pub record_index : ℕ
  pub offset_in_segment : ℕ
  pub bytes_written : ℕ

pub record SegmentInfo : Type 0 where
  pub id : ℕ
  pub size_bytes : ℕ
  pub record_count : ℕ
  pub state : SegmentState

pub record SegmentLog : Type 0 where
  pub config : Config
  pub files : List SegmentFile
  pub writing : Option Active
  pub total_bytes : ℕ
  pub next_seg_id : ℕ
  pub quarantined_at_open : ℕ

-- The outcome of `append`.
pub data Appended : Type 0 where
  done : AppendReceipt → Appended
  record_too_large : ℕ → ℕ → Appended
  quota_exceeded : ℕ → ℕ → ℕ → Appended
  no_active_segment : Appended

abbrev pub is_state : SegmentState → SegmentState → Bool
is_state closed closed = true
is_state active active = true
is_state quarantined quarantined = true
is_state _ _ = false

unfoldable pub sum_sizes : ℕ → List SegmentFile → ℕ
sum_sizes total [] = total
sum_sizes total (f ∷ fs) = sum_sizes (add64 total (length f.contents)) fs

-- The files that a crash left open, and their sizes.
unfoldable pub left_open : List SegmentFile → List SegmentFile
left_open [] = []
left_open (f ∷ fs) = if is_state f.state active then f ∷ left_open fs else left_open fs

unfoldable pub quarantine : List SegmentFile → List SegmentFile
quarantine [] = []
quarantine (f ∷ fs) =
    (if is_state f.state active then record f { state = quarantined } else f) ∷ quarantine fs

-- The loop on the highest id.
unfoldable pub highest : Option ℕ → List SegmentFile → Option ℕ
highest best [] = best
highest none (f ∷ fs) = highest (some f.id) fs
highest (some h) (f ∷ fs) = highest (some (if leb h f.id then f.id else h)) fs

-- `map_or(0, |h| h + 1)`.
abbrev pub id_after : Option ℕ → ℕ
id_after none = 0
id_after (some h) = add64 h 1

unfoldable pub open_log : Config → List SegmentFile → SegmentLog
unfolding sum_sizes left_open quarantine highest
open_log config files = record {
  config = config;
  files = quarantine files;
  writing = none;
  total_bytes = sum_sizes 0 (quarantine files);
  next_seg_id = id_after (highest none (quarantine files));
  quarantined_at_open = sum_sizes 0 (left_open files);
}

-- Renames the segment's `.wip` file.
unfoldable pub finish : ℕ → List SegmentFile → List SegmentFile
finish id [] = []
finish id (f ∷ fs) =
    let rest = finish id fs in
    if f.id == id && is_state f.state active then record f { state = closed } ∷ rest else f ∷ rest

abbrev pub finish_active : Option Active → List SegmentFile → List SegmentFile
finish_active none files = files
finish_active (some a) files = finish a.id files

unfoldable pub rotate : SegmentLog → SegmentLog
unfolding finish
rotate log =
    let id = log.next_seg_id in
    record log {
      files =
          finish_active log.writing log.files
          ++ record { id = id; state = active; contents = [] } ∷ [];
      writing = some (record { id = id; written_bytes = 0; record_count = 0 });
      next_seg_id = add64 id 1;
    }

-- Adds to the open file of the segment.
unfoldable pub extend : ℕ → Bytes → List SegmentFile → List SegmentFile
extend id bytes [] = []
extend id bytes (f ∷ fs) =
    let rest = extend id bytes fs in
    if f.id == id && is_state f.state active
    then record f { contents = f.contents ++ bytes } ∷ rest
    else f ∷ rest

abbrev pub record_size_on_disk : Bytes → ℕ
record_size_on_disk data_ = 4 + length data_

-- The end of `append`, with the active segment.
unfoldable pub append_to : SegmentLog → Bytes → Option Active → SegmentLog × Appended
unfolding extend frame
append_to log data_ none = (log, no_active_segment)
append_to log data_ (some a) =
    let size = record_size_on_disk data_ in
    (
      record log {
        files = extend a.id (frame data_) log.files;
        writing = some (record a {
          written_bytes = add64 a.written_bytes size;
          record_count = add64 a.record_count 1;
        });
        total_bytes = add64 log.total_bytes size;
      },
      done (record {
        segment_id = a.id;
        record_index = a.record_count;
        offset_in_segment = a.written_bytes;
        bytes_written = size;
      }),
    )

unfoldable pub must_rotate : SegmentLog → ℕ → Option Active → Bool
must_rotate log size none = true
must_rotate log size (some a) = ltb log.config.max_segment_bytes (add64 a.written_bytes size)

unfoldable pub append : SegmentLog → Bytes → SegmentLog × Appended
unfolding append_to must_rotate rotate check
append log data_ =
    let size = record_size_on_disk data_ in
    let log' = if must_rotate log size log.writing then rotate log else log in
    if ltb log.config.max_record_bytes (length data_)
    then (log, record_too_large (length data_) log.config.max_record_bytes)
    else elim (check log.config.quota log.total_bytes size) [
      | yes ↦ append_to log' data_ log'.writing
      | no over_by ↦ (log, quota_exceeded log.total_bytes size log.config.quota.limit_bytes)
    ]

unfoldable pub oldest_closed : List SegmentFile → Option SegmentFile
oldest_closed [] = none
oldest_closed (f ∷ fs) = if is_state f.state closed then some f else oldest_closed fs

-- Removes the file with the id and the state.
unfoldable pub remove_file : ℕ → SegmentState → List SegmentFile → List SegmentFile
remove_file id state [] = []
remove_file id state (f ∷ fs) =
    let rest = remove_file id state fs in
    if f.id == id && is_state f.state state then fs else f ∷ rest

unfoldable pub evict_oldest_closed : SegmentLog → SegmentLog × Option ℕ
unfolding oldest_closed remove_file
evict_oldest_closed log = elim (oldest_closed log.files) [
  | none ↦ (log, none)
  | some target ↦ (
    record log {
      files = remove_file target.id closed log.files;
      total_bytes = log.total_bytes - length target.contents;
    },
    some target.id,
  )
]

-- What a shutdown leaves on disk: the fresh segment of the rotation is empty and is removed.
unfoldable pub close : SegmentLog → List SegmentFile
unfolding rotate remove_file
close log = elim log.writing [
  | none ↦ log.files
  | some a ↦ remove_file log.next_seg_id active (rotate log).files
]

abbrev active_count : ℕ → Option Active → ℕ
active_count id none = 0
active_count id (some a) = if a.id == id then a.record_count else 0

unfoldable pub info_of : Option Active → SegmentFile → SegmentInfo
unfolding count_records_best_effort
info_of writing f = record {
  id = f.id;
  size_bytes = length f.contents;
  record_count =
      if is_state f.state closed
      then count_records_best_effort f.contents
      else active_count f.id writing;
  state = f.state;
}

unfoldable pub infos : Option Active → List SegmentFile → List SegmentInfo
unfolding info_of
infos writing [] = []
infos writing (f ∷ fs) = info_of writing f ∷ infos writing fs

unfoldable pub segments : SegmentLog → List SegmentInfo
unfolding infos
segments log = infos log.writing log.files
