-- ===== src/Storage/Holding.antt =====
-- A record that a segment log holds stays in it until its segment is evicted.
use athar.Prelude.{
  ℕ, ◌+◌, ◌<◌, ◌≡◌, ◌⊎◌, inl, inr, sym, ap, ◌∙◌, ◌&&◌, Option, none, some, List, [], ◌∷◌, ◌++◌,
  Bytes, All, u64_size, ◌==◌, arith, Bool-cases,
}
use mathlib.Core.Path.{subst}
use mathlib.Core.List.{append_assoc}
use athar.Storage.Framing.{frame, frames}
use athar.Storage.Log.{
  SegmentFile, SegmentLog, Config, Appended, Active, active, is_state, finish, finish_active,
  rotate, extend, append, append_to,
}
use athar.Storage.Accounting.{open_count, IsFramed}
use athar.Storage.Invariant.{Inv, Inv-later, rotate-Inv, Placed, frames-append}
use athar.Storage.Appending.{IsWritten, append-cases}

-- The bytes are framed records, and the record is one of them.
pub record Framed (d contents : List ℕ) : Type 0 where
  pub before : List Bytes
  pub after : List Bytes
  pub framed : contents ≡ frames (before ++ d ∷ after)

-- One of the files has the record.
abbrev pub Holds : Bytes → List SegmentFile → Type 0
Holds d [] = ⊥
Holds d (f ∷ fs) = Framed d f.contents ⊎ Holds d fs

abbrev either {ℓ κ μ} : {A : Type ℓ} {B : Type κ} {C : Type μ} → (B → C) → A ⊎ B → A ⊎ C
either g (inl a) = inl a
either g (inr b) = inr (g b)

pub Holds-append : (d : Bytes) (fs gs : List SegmentFile) → Holds d fs → Holds d (fs ++ gs)
Holds-append d [] gs h = absurd h
Holds-append d (f ∷ fs) gs h = either (Holds-append d fs gs) h

Holds-finish : (d : Bytes) (id : ℕ) (fs : List SegmentFile) → Holds d fs → Holds d (finish id fs)
unfolding finish
Holds-finish d id [] h = h
Holds-finish d id (f ∷ fs) h = elim (Bool-cases (f.id == id && is_state f.state active)) [
  | inl open_ ↦ rw (open_, finish) (either (Holds-finish d id fs) h)
  | inr other ↦ rw (other, finish) (either (Holds-finish d id fs) h)
]

Holds-finish_active :
    (d : Bytes) (o : Option Active) (fs : List SegmentFile)
    → Holds d fs
    → Holds d (finish_active o fs)
Holds-finish_active d none fs h = h
Holds-finish_active d (some a) fs h = Holds-finish d a.id fs h

Holds-rotate : (d : Bytes) (log : SegmentLog) → Holds d log.files → Holds d (rotate log).files
unfolding rotate
Holds-rotate d log h =
    Holds-append d (finish_active log.writing log.files) _
      (Holds-finish_active d log.writing log.files h)

-- Another record behind the ones that are there.
Framed-append :
    (d x : Bytes) (contents : Bytes) → Framed d contents → Framed d (contents ++ frame x)
Framed-append d x contents h = record {
  before = h.before;
  after = h.after ++ x ∷ [];
  framed =
      ap (λ c. c ++ frame x) h.framed
      ∙ sym (frames-append (h.before ++ d ∷ h.after) x)
      ∙ ap frames (append_assoc h.before (d ∷ h.after) (x ∷ []));
}

Holds-extend :
    (d x : Bytes) (id : ℕ) (fs : List SegmentFile) → Holds d fs → Holds d (extend id (frame x) fs)
unfolding extend
Holds-extend d x id [] h = h
Holds-extend d x id (f ∷ fs) h = elim (Bool-cases (f.id == id && is_state f.state active)) [
  | inl open_ ↦
      rw (open_, extend)
        (elim h [
          | inl first ↦ inl (Framed-append d x f.contents first)
          | inr later ↦ inr (Holds-extend d x id fs later)
        ])
  | inr other ↦ rw (other, extend) (either (Holds-extend d x id fs) h)
]

-- The record itself, where the segment has an open file.
extend-Holds :
    (d : Bytes) (id : ℕ) (fs : List SegmentFile)
    → open_count id fs ≡ 1
    → All IsFramed fs
    → Holds d (extend id (frame d) fs)
unfolding extend
extend-Holds d id [] one h = absurd (omega (arith, one))
extend-Holds d id (f ∷ fs) one h = elim (Bool-cases (f.id == id && is_state f.state active)) [
  | inl open_ ↦
      rw (open_, extend)
        (inl (record {
          before = h.0.records;
          after = [];
          framed = ap (λ c. c ++ frame d) h.0.framed ∙ sym (frames-append h.0.records d);
        }))
  | inr other ↦ rw (other, extend) (inr (extend-Holds d id fs (ground (arith, other, one)) h.1))
]

-- The file of the active segment after a rotation, or as it was.
pub record IsPlaced (on : SegmentLog) (a : Active) : Type 0 where
  pub one : open_count a.id on.files ≡ 1
  pub framed : All IsFramed on.files

pub Holds-append_to :
    (d x : Bytes) (on : SegmentLog) (a : Active)
    → Holds d on.files
    → Holds d (append_to on x (some a)).0.files
unfolding append_to
Holds-append_to d x on a h = Holds-extend d x a.id on.files h

pub append_to-Holds :
    (d : Bytes) (on : SegmentLog) (a : Active)
    → IsPlaced on a
    → Holds d (append_to on d (some a)).0.files
unfolding append_to
append_to-Holds d on a p = extend-Holds d a.id on.files p.one p.framed

-- What an append does to a record that is there, and the record that it appends.
pub Holds-log_append :
    (d x : Bytes) (log : SegmentLog) → Holds d log.files → Holds d (append log x).0.files
Holds-log_append d x log h = elim (append-cases log x) [
  | inr (same, refusal) ↦ subst (λ (l : SegmentLog). Holds d l.files) (sym same) h
  | inl w ↦
      let kept : Holds d w.on.files = elim w.rotated [
        | inl same ↦ subst (λ (l : SegmentLog). Holds d l.files) (sym same) h
        | inr turned ↦
            subst (λ (l : SegmentLog). Holds d l.files) (sym turned) (Holds-rotate d log h)
      ] in
      subst (λ (r : SegmentLog × Appended). Holds d r.0.files) (sym w.result)
        (Holds-append_to d x w.on w.a kept)
]

pub log_append-Holds :
    (config : Config) (n : ℕ) (log : SegmentLog) (d : Bytes)
    → n + 1 < u64_size
    → Inv config n log
    → IsWritten log d
    → Holds d (append log d).0.files
log_append-Holds config n log d small v w =
    let kept : Inv config (n + 1) w.on = elim w.rotated [
      | inl same ↦ subst (Inv config (n + 1)) (sym same) (Inv-later config n log v)
      | inr turned ↦ subst (Inv config (n + 1)) (sym turned) (rotate-Inv config n log small v)
    ] in
    subst (λ (r : SegmentLog × Appended). Holds d r.0.files) (sym w.result)
      (append_to-Holds d w.on w.a (record {
        one = subst (λ o. Placed o w.on.files) w.open_segment kept.placed;
        framed = kept.framed;
      }))
