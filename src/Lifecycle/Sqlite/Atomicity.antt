-- ===== src/Lifecycle/Sqlite/Atomicity.antt =====
-- What a write to the SQLite store leaves, with the documented behaviour of the statements.
use athar.Prelude.{
  ◌≡◌, ◌⊎◌, inl, inr, refl, ap, ◌∙◌, String, Option, none, some, List, [], ◌∷◌, and_then, contains,
  str_eq, if◌then◌else◌, arith, Option-cases,
}
use athar.Lifecycle.Types.{Lifecycle}
use athar.Lifecycle.Sqlite.{Row, Sql, row_of, get, bind_events, transact, upsert}

-- The documented behaviour of the statements: beginning and committing change no answer, and
-- `INSERT OR REPLACE` by a primary key puts the row in place of the one with that key.
pub record Documented {Q Text : Type 0} (sql : Sql Q Text) : Type 0 where
  pub reads_back :
      (lc : Lifecycle) (json : Text) → sql.to_json lc ≡ some json → sql.from_json json ≡ some lc
  pub body_by_id-begin_transaction :
      (q tx : Q) (id : String)
      → sql.begin_transaction q ≡ some tx
      → sql.body_by_id tx id ≡ sql.body_by_id q id
  pub body_by_id-commit :
      (tx q : Q) (id : String) → sql.commit tx ≡ some q → sql.body_by_id q id ≡ sql.body_by_id tx id
  pub body_by_id-replace_lifecycle :
      (q q' : Q) (row : Row Text)
      → sql.replace_lifecycle q row ≡ some q'
      → sql.body_by_id q' row.id ≡ some row.body_json
  pub body_by_id-replace_binding :
      (q q' : Q) (ev lc id : String)
      → sql.replace_binding q ev lc ≡ some q'
      → sql.body_by_id q' id ≡ sql.body_by_id q id
  pub lifecycle_by_event-begin_transaction :
      (q tx : Q) (ev : String)
      → sql.begin_transaction q ≡ some tx
      → sql.lifecycle_by_event tx ev ≡ sql.lifecycle_by_event q ev
  pub lifecycle_by_event-commit :
      (tx q : Q) (ev : String)
      → sql.commit tx ≡ some q
      → sql.lifecycle_by_event q ev ≡ sql.lifecycle_by_event tx ev
  pub lifecycle_by_event-replace_lifecycle :
      (q q' : Q) (row : Row Text) (ev : String)
      → sql.replace_lifecycle q row ≡ some q'
      → sql.lifecycle_by_event q' ev ≡ sql.lifecycle_by_event q ev
  pub lifecycle_by_event-replace_binding :
      (q q' : Q) (ev lc e : String)
      → sql.replace_binding q ev lc ≡ some q'
      → sql.lifecycle_by_event q' e ≡ (if str_eq ev e then some lc else sql.lifecycle_by_event q e)

module _ {Q Text : Type 0} (sql : Sql Q Text) where
  -- The row and every binding of the lifecycle are there, and the other bindings are as they were.
  pub record IsStored (q : Q) (lc : Lifecycle) (after : Q) : Type 0 where
    pub row : get sql after lc.id ≡ some lc
    pub bindings :
        (ev : String)
        → sql.lifecycle_by_event after ev
          ≡ (if contains lc.event_ids ev then some lc.id else sql.lifecycle_by_event q ev)

module _ {Q Text : Type 0} (sql : Sql Q Text) (doc : Documented sql) where
  and_then-some {ℓ κ} :
      {A : Type ℓ} {B : Type κ} (o : Option A) (f : A → Option B) (b : B)
      → and_then o f ≡ some b
      → (a : A) × (o ≡ some a) × (f a ≡ some b)
  and_then-some none f b h = cc
  and_then-some (some a) f b h = (a, refl, h)

  body_by_id-bind_events :
      (tx q : Q) (lc : String) (evs : List String) (id : String)
      → bind_events sql tx lc evs ≡ some q
      → sql.body_by_id q id ≡ sql.body_by_id tx id
  unfolding bind_events
  body_by_id-bind_events tx q lc [] id h = ground (arith, h)
  body_by_id-bind_events tx q lc (ev ∷ evs) id h =
      let (tx', bound, rest) = and_then-some (sql.replace_binding tx ev lc) _ q h in
      body_by_id-bind_events tx' q lc evs id rest
      ∙ doc.body_by_id-replace_binding tx tx' ev lc id bound

  lifecycle_by_event-bind_events :
      (tx q : Q) (lc : String) (evs : List String) (e : String)
      → bind_events sql tx lc evs ≡ some q
      → sql.lifecycle_by_event q e
        ≡ (if contains evs e then some lc else sql.lifecycle_by_event tx e)
  unfolding bind_events
  lifecycle_by_event-bind_events tx q lc [] e h = ground (arith, h)
  lifecycle_by_event-bind_events tx q lc (ev ∷ evs) e h =
      let (tx', bound, rest) = and_then-some (sql.replace_binding tx ev lc) _ q h in
      ground (
        arith,
        lifecycle_by_event-bind_events tx' q lc evs e rest,
        doc.lifecycle_by_event-replace_binding tx tx' ev lc e bound,
      )

  transact-IsStored :
      (q after : Q) (lc : Lifecycle) (json : Text)
      → sql.to_json lc ≡ some json
      → transact sql q lc json ≡ some after
      → IsStored sql q lc after
  unfolding transact row_of get
  transact-IsStored q after lc json spelled h =
      let (tx, begun, h1) = and_then-some (sql.begin_transaction q) _ after h in
      let (tx1, replaced, h2) =
        and_then-some (sql.replace_lifecycle tx (row_of lc json)) _ after h1 in
      let (tx2, bound, committed) =
        and_then-some (bind_events sql tx1 lc.id lc.event_ids) sql.commit after h2 in
      let body : sql.body_by_id after lc.id ≡ some json =
        doc.body_by_id-commit tx2 after lc.id committed
        ∙ body_by_id-bind_events tx1 tx2 lc.id lc.event_ids lc.id bound
        ∙ doc.body_by_id-replace_lifecycle tx tx1 (row_of lc json) replaced in
      record {
        row = ap (λ o. and_then o sql.from_json) body ∙ doc.reads_back lc json spelled;
        bindings = λ ev.
            doc.lifecycle_by_event-commit tx2 after ev committed
            ∙ lifecycle_by_event-bind_events tx1 tx2 lc.id lc.event_ids ev bound
            ∙ ap (λ o. if contains lc.event_ids ev then some lc.id else o)
                (doc.lifecycle_by_event-replace_lifecycle tx tx1 (row_of lc json) ev replaced
                  ∙ doc.lifecycle_by_event-begin_transaction q tx ev begun);
      }

  -- An `upsert` is atomic: either the database is as it was, or the lifecycle reads back as it was
  -- written and every one of its events is bound to it, and no other event is bound differently. The
  -- statements behave as documented, and may fail.
  pub upsert-IsStored :
      (q : Q) (lc : Lifecycle) → (upsert sql q lc ≡ q) ⊎ IsStored sql q lc (upsert sql q lc)
  unfolding upsert
  upsert-IsStored q lc = elim (Option-cases (sql.to_json lc)) [
    | inl unspelled ↦ inl (rw (unspelled, upsert) refl)
    | inr (json, spelled) ↦ elim (Option-cases (transact sql q lc json)) [
      | inl rolled_back ↦ inl (rw (spelled, rolled_back, upsert) refl)
      | inr (after, done) ↦
          inr (rw (spelled, done, upsert) (transact-IsStored q after lc json spelled done))
    ]
  ]
