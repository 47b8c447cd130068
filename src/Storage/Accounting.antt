-- ===== src/Storage/Accounting.antt =====
-- Sizes, open files and contents under the operations on a log's files.
use athar.Prelude.{
  ℕ, ◌+◌, ◌<◌, ◌≡◌, refl, ◌++◌, ◌&&◌, some, List, [], ◌∷◌, Bytes, length, length-append, All,
  u32_size, ◌==◌, if◌then◌else◌, arith, Bool-cases, inl, inr,
}
use athar.Storage.Framing.{frames}
use athar.Storage.Log.{
  SegmentState, closed, active, SegmentFile, is_state, finish, extend, oldest_closed, remove_file,
}

abbrev pub total_size : List SegmentFile → ℕ
total_size [] = 0
total_size (f ∷ fs) = length f.contents + total_size fs

-- How many files of an id are being written.
abbrev pub open_count : ℕ → List SegmentFile → ℕ
open_count id [] = 0
open_count id (f ∷ fs) =
    let rest = open_count id fs in if f.id == id && is_state f.state active then rest + 1 else rest

-- A file that holds framed records and nothing else.
pub record IsFramed (f : SegmentFile) : Type 0 where
  pub records : List Bytes
  pub framed : f.contents ≡ frames records
  pub small : All (λ d. length d < u32_size) records

module _ {ℓ} (P : SegmentFile → Type ℓ) where
  pub All-finish :
      (id : ℕ) (fs : List SegmentFile)
      → ((f : SegmentFile) → P f → P (record f { state = closed }))
      → All P fs
      → All P (finish id fs)
  unfolding finish
  All-finish id [] k h = tt
  All-finish id (f ∷ fs) k h = elim (Bool-cases (f.id == id && is_state f.state active)) [
    | inl here ↦ rw (here, finish) (k f h.0, All-finish id fs k h.1)
    | inr other ↦ rw (other, finish) (h.0, All-finish id fs k h.1)
  ]

  pub All-extend :
      (id : ℕ) (bytes : Bytes) (fs : List SegmentFile)
      → ((f : SegmentFile) → P f → P (record f { contents = f.contents ++ bytes }))
      → All P fs
      → All P (extend id bytes fs)
  unfolding extend
  All-extend id bytes [] k h = tt
  All-extend id bytes (f ∷ fs) k h = elim (Bool-cases (f.id == id && is_state f.state active)) [
    | inl here ↦ rw (here, extend) (k f h.0, All-extend id bytes fs k h.1)
    | inr other ↦ rw (other, extend) (h.0, All-extend id bytes fs k h.1)
  ]

  pub All-remove_file :
      (id : ℕ) (state : SegmentState) (fs : List SegmentFile)
      → All P fs
      → All P (remove_file id state fs)
  unfolding remove_file
  All-remove_file id state [] h = tt
  All-remove_file id state (f ∷ fs) h = elim (Bool-cases (f.id == id && is_state f.state state)) [
    | inl here ↦ rw (here, remove_file) h.1
    | inr other ↦ rw (other, remove_file) (h.0, All-remove_file id state fs h.1)
  ]

pub total_size-append :
    (fs gs : List SegmentFile) → total_size (fs ++ gs) ≡ total_size fs + total_size gs
total_size-append [] gs = omega arith
total_size-append (f ∷ fs) gs = omega (arith, total_size-append fs gs)

pub open_count-append :
    (id : ℕ) (fs gs : List SegmentFile)
    → open_count id (fs ++ gs) ≡ open_count id fs + open_count id gs
open_count-append id [] gs = omega arith
open_count-append id (f ∷ fs) gs = ground (arith, open_count-append id fs gs)

pub total_size-finish : (id : ℕ) (fs : List SegmentFile) → total_size (finish id fs) ≡ total_size fs
unfolding finish
total_size-finish id [] = refl
total_size-finish id (f ∷ fs) = ground (arith, total_size-finish id fs)

-- An id that no file has yet.
pub open_count_new :
    (id : ℕ) (fs : List SegmentFile) → All (λ f. f.id < id) fs → open_count id fs ≡ 0
open_count_new id [] h = refl
open_count_new id (f ∷ fs) h = ground (arith, h.0, open_count_new id fs h.1)

total_size-extend_none :
    (id : ℕ) (bytes : Bytes) (fs : List SegmentFile)
    → open_count id fs ≡ 0
    → total_size (extend id bytes fs) ≡ total_size fs
unfolding extend
total_size-extend_none id bytes [] h = refl
total_size-extend_none id bytes (f ∷ fs) h = ground (arith, total_size-extend_none id bytes fs)

pub total_size-extend :
    (id : ℕ) (bytes : Bytes) (fs : List SegmentFile)
    → open_count id fs ≡ 1
    → total_size (extend id bytes fs) ≡ total_size fs + length bytes
unfolding extend
total_size-extend id bytes [] h = absurd (omega (arith, h))
total_size-extend id bytes (f ∷ fs) h = ground (
  arith,
  length-append f.contents bytes,
  total_size-extend id bytes fs,
  total_size-extend_none id bytes fs,
)

pub open_count-extend :
    (id : ℕ) (bytes : Bytes) (fs : List SegmentFile)
    → open_count id (extend id bytes fs) ≡ open_count id fs
unfolding extend
open_count-extend id bytes [] = refl
open_count-extend id bytes (f ∷ fs) = ground (arith, open_count-extend id bytes fs)

-- The file that the eviction removes is the oldest closed one.
pub total_size-remove_file :
    (fs : List SegmentFile) (t : SegmentFile)
    → oldest_closed fs ≡ some t
    → total_size (remove_file t.id closed fs) + length t.contents ≡ total_size fs
unfolding oldest_closed remove_file
total_size-remove_file [] t h = cc
total_size-remove_file (f ∷ fs) t h = ground (arith, total_size-remove_file fs t)

pub open_count-remove_file :
    (id id' : ℕ) (fs : List SegmentFile)
    → open_count id (remove_file id' closed fs) ≡ open_count id fs
unfolding remove_file
open_count-remove_file id id' [] = refl
open_count-remove_file id id' (f ∷ fs) = ground (arith, open_count-remove_file id id' fs)
