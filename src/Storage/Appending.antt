-- ===== src/Storage/Appending.antt =====
-- The two ways in which `SegmentLog::append` of daemon/crates/athar-storage/src/segment_log.rs ends.
use athar.Prelude.{
  ℕ, ◌≡◌, ◌⊎◌, inl, inr, refl, true, Option, none, some, Bytes, length, ltb, if◌then◌else◌,
  Bool-cases,
}
use athar.Storage.Quota.{Fits, yes, no, check}
use athar.Storage.Log.{
  SegmentLog, Active, Appended, done, append, append_to, must_rotate, rotate, record_size_on_disk,
}

-- The record is refused.
abbrev pub IsRefusal : Appended → Type 0
IsRefusal (done receipt) = ⊥
IsRefusal refusal = Unit {0}

-- The record goes to the active segment `a` of the log or of the log after a rotation.
pub record IsWritten (log : SegmentLog) (data_ : Bytes) : Type 0 where
  pub on : SegmentLog
  pub rotated : (on ≡ log) ⊎ (on ≡ rotate log)
  pub a : Active
  pub open_segment : on.writing ≡ some a
  pub result : append log data_ ≡ append_to on data_ (some a)

abbrev pub IsRefused : SegmentLog → Bytes → Type 0
IsRefused log data_ = ((append log data_).0 ≡ log) × IsRefusal (append log data_).1

fits-cases : (x : Fits) → (x ≡ yes) ⊎ ((over_by : ℕ) × (x ≡ no over_by))
fits-cases yes = inl refl
fits-cases (no over_by) = inr (over_by, refl)

-- The log that the record goes to has an active segment.
pub record IsReady (log : SegmentLog) (size : ℕ) : Type 0 where
  pub on : SegmentLog
  pub chosen : (if must_rotate log size log.writing then rotate log else log) ≡ on
  pub rotated : (on ≡ log) ⊎ (on ≡ rotate log)
  pub a : Active
  pub open_segment : on.writing ≡ some a

rotated_IsReady :
    (log : SegmentLog) (size : ℕ) → must_rotate log size log.writing ≡ true → IsReady log size
unfolding rotate
rotated_IsReady log size h = record {
  on = rotate log;
  chosen = rw h refl;
  rotated = inr refl;
  a = record { id = log.next_seg_id; written_bytes = 0; record_count = 0 };
  open_segment = refl;
}

ready : (log : SegmentLog) (size : ℕ) (o : Option Active) → log.writing ≡ o → IsReady log size
unfolding must_rotate
ready log size none e = rotated_IsReady log size (rw e refl)
ready log size (some a) e = elim (Bool-cases (must_rotate log size log.writing)) [
  | inl full ↦ rotated_IsReady log size full
  | inr room ↦ record {
    on = log;
    chosen = rw room refl;
    rotated = inl refl;
    a = a;
    open_segment = e;
  }
]

pub append-cases : (log : SegmentLog) (d : Bytes) → IsWritten log d ⊎ IsRefused log d
unfolding append
append-cases log d = elim (Bool-cases (ltb log.config.max_record_bytes (length d))) [
  | inl large ↦ inr (rw (large, append) (refl, tt))
  | inr fits ↦ elim (fits-cases (check log.config.quota log.total_bytes (record_size_on_disk d))) [
    | inr (over_by, e) ↦ inr (rw (fits, e, append) (refl, tt))
    | inl e ↦
        let r = ready log (record_size_on_disk d) log.writing refl in
        inl (record {
          on = r.on;
          rotated = r.rotated;
          a = r.a;
          open_segment = r.open_segment;
          result = rw (fits, e, r.chosen, r.open_segment, append) refl;
        })
  ]
]
