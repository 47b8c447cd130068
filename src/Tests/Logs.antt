-- ===== src/Tests/Logs.antt =====
-- The storage theorems on a small log.
use athar.Prelude.{
  ◌<◌, ◌≡◌, ◌≢◌, refl, ◌++◌, List, [], ◌∷◌, Bytes, All, be_bytes, length, u32_size, arith,
}
use athar.Storage.Quota.{Quota}
use athar.Storage.Framing.{frames, records, segment_corrupt, read_segment_records}
use athar.Storage.Recovery.{offset_after, read_segment_records-frames, read_segment_records_torn}
use athar.Storage.Framing.{out_of_fuel}
use athar.Storage.Termination.{read_segment_records_ends}
use athar.Storage.Log.{Config, open_log}
use athar.Storage.History.{
  Call, appends, rotates, evicts, reopens, run, IsAccounted, run-IsAccounted,
}

abbrev quota : Quota
quota = record { limit_bytes = 100 }

abbrev two_records : List Bytes
two_records = (1 ∷ 2 ∷ []) ∷ (3 ∷ []) ∷ []

small : All (λ d. length d < u32_size) two_records
small = (omega arith, (omega arith, tt))

read_segment_records-frames_example :
    read_segment_records (frames two_records ++ 0 ∷ 0 ∷ []) ≡ records two_records
read_segment_records-frames_example =
    read_segment_records-frames two_records (0 ∷ 0 ∷ []) small (omega arith)

tail_left : ◌≢◌ {A = Bytes} (9 ∷ []) []
tail_left e = cc

read_segment_records_torn_example :
    read_segment_records (frames two_records ++ (be_bytes 4 2 ++ 8 ∷ []))
    ≡ segment_corrupt (offset_after 0 two_records)
read_segment_records_torn_example =
    read_segment_records_torn two_records (8 ∷ 9 ∷ []) (8 ∷ []) (9 ∷ []) small (omega arith) refl
      tail_left

abbrev config : Config
config = record { max_segment_bytes = 20; max_record_bytes = 10; quota = quota }

abbrev calls : List Call
calls = appends (1 ∷ 2 ∷ []) ∷ rotates ∷ appends (3 ∷ []) ∷ reopens ∷ evicts ∷ []

run-IsAccounted_example : IsAccounted config (run (open_log config []) calls)
run-IsAccounted_example = run-IsAccounted config calls (omega arith) (omega arith) (omega arith)

read_segment_records_ends_example : read_segment_records (0 ∷ 0 ∷ 0 ∷ 9 ∷ 1 ∷ []) ≢ out_of_fuel
read_segment_records_ends_example = read_segment_records_ends (0 ∷ 0 ∷ 0 ∷ 9 ∷ 1 ∷ [])
