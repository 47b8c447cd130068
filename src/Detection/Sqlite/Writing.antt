-- ===== src/Detection/Sqlite/Writing.antt =====
-- What the SQLite decision store reads back after writes that may fail, with the documented behaviour
-- of the statements.
use athar.Prelude.{
  ◌≡◌, inl, inr, refl, ap, ◌∙◌, String, Bool, ◌&&◌, Option, some, List, [], ◌∷◌, and_then, str_eq,
  if◌then◌else◌, arith, Option-cases, Bool-cases, All,
}
use athar.Detection.Decision.{SignalRecord, DecisionRecord}
use athar.Detection.Sqlite.{
  SignalRow, DecisionRow, DecisionSql, decision_row, inserted, signal_row, write_signal,
  write_decision, get_decision,
}

-- `INSERT OR REPLACE` by a primary key puts the row in place of the one with that key, and does not
-- touch the other table.
pub record Inserts {Q Text F32 F64 : Type 0} (sql : DecisionSql Q Text F32 F64) : Type 0 where
  pub body_by_id-replace_signal :
      (q q' : Q) (row : SignalRow F64) (id : String)
      → sql.replace_signal q row ≡ some q'
      → sql.body_by_id q' id ≡ sql.body_by_id q id
  pub body_by_id-replace_decision :
      (q q' : Q) (row : DecisionRow Text) (id : String)
      → sql.replace_decision q row ≡ some q'
      → sql.body_by_id q' id
        ≡ (if str_eq row.decision_id id then some row.body_json else sql.body_by_id q id)

pub data Write (F32 : Type 0) : Type 0 where
  signal : SignalRecord F32 → Write F32
  decision : DecisionRecord F32 → Write F32

module _ {Q Text F32 F64 : Type 0} (sql : DecisionSql Q Text F32 F64) where
  -- The JSON of the decision, if it has one, reads back as the decision. The JSON of a confidence that
  -- is not a number does not.
  abbrev pub ReadsBack : Write F32 → Type 0
  ReadsBack (signal s) = Unit
  ReadsBack (decision d) = (json : Text) → sql.to_json d ≡ some json → sql.from_json json ≡ some d

  unfoldable pub write : Q → Write F32 → Q × Bool
  unfolding write_signal write_decision
  write q (signal s) = write_signal sql q s
  write q (decision d) = write_decision sql q d

  unfoldable pub run : Q → List (Write F32) → Q
  unfolding write
  run q [] = q
  run q (w ∷ ws) = run (write q w).0 ws

  -- What a write that has said whether it succeeded makes of the decision known under an id.
  unfoldable pub known_after :
      Write F32 → Bool → String → Option (DecisionRecord F32) → Option (DecisionRecord F32)
  known_after (signal s) ok id known = known
  known_after (decision d) ok id known = if ok && str_eq d.decision_id id then some d else known

  -- The last decision under an id whose write succeeded, or the one known before.
  unfoldable pub last_written :
      Q → List (Write F32) → String → Option (DecisionRecord F32) → Option (DecisionRecord F32)
  unfolding write known_after
  last_written q [] id known = known
  last_written q (w ∷ ws) id known =
      last_written (write q w).0 ws id (known_after w (write q w).1 id known)

module _ {Q Text F32 F64 : Type 0} (sql : DecisionSql Q Text F32 F64) (laws : Inserts sql) where
  get_decision-write_signal :
      (q : Q) (s : SignalRecord F32) (id : String)
      → get_decision sql (write_signal sql q s).0 id ≡ get_decision sql q id
  unfolding write_signal inserted get_decision
  get_decision-write_signal q s id = elim (Option-cases (sql.replace_signal q (signal_row sql s))) [
    | inl failed ↦ rw (failed) refl
    | inr (q', done) ↦ rw (done) (
        ap (λ o. and_then o sql.from_json)
          (laws.body_by_id-replace_signal q q' (signal_row sql s) id done))
  ]

  pub get_decision-write_decision :
      (q : Q) (d : DecisionRecord F32) (id : String)
      → ReadsBack sql (decision d)
      → get_decision sql (write_decision sql q d).0 id
        ≡ known_after sql (decision d) (write_decision sql q d).1 id (get_decision sql q id)
  unfolding write_decision inserted get_decision known_after decision_row
  get_decision-write_decision q d id back = elim (Option-cases (sql.to_json d)) [
    | inl unspelled ↦ rw (unspelled) refl
    | inr (json, spelled) ↦ elim (Option-cases (sql.replace_decision q (decision_row d json))) [
      | inl failed ↦ rw (spelled, failed) refl
      | inr (q', done) ↦
          rw (spelled, done)
            (let body = laws.body_by_id-replace_decision q q' (decision_row d json) id done in
              elim (Bool-cases (str_eq d.decision_id id)) [
                | inl same ↦ ground (arith, body, same, back json spelled)
                | inr other ↦ ground (arith, body, other)
              ])
    ]
  ]

  -- A store that is written to, whether or not a write succeeds, answers for every id the last decision
  -- under it whose write said that it succeeded, and what it answered before where there is none. The
  -- insertions behave as documented, and the JSON of the decisions reads back.
  pub get_decision-run :
      (q : Q) (ws : List (Write F32)) (id : String)
      → All (ReadsBack sql) ws
      → get_decision sql (run sql q ws) id ≡ last_written sql q ws id (get_decision sql q id)
  unfolding run last_written write known_after
  get_decision-run q [] id backs = refl
  get_decision-run q (signal s ∷ ws) id backs =
      get_decision-run (write_signal sql q s).0 ws id backs.1
      ∙ ap (last_written sql (write_signal sql q s).0 ws id) (get_decision-write_signal q s id)
  get_decision-run q (decision d ∷ ws) id backs =
      get_decision-run (write_decision sql q d).0 ws id backs.1
      ∙ ap (last_written sql (write_decision sql q d).0 ws id)
          (get_decision-write_decision q d id backs.0)
