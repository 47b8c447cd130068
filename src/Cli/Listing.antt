-- ===== src/Cli/Listing.antt =====
-- `lifecycle list`, `lifecycle show`, `decision recent`, `decision show` and `policy show` of
-- daemon/crates/athar-cli/src/main.rs: the exit code, and what is printed on the standard output, as
-- the values that a line is made from. The stores, JSON and the opening of a database are arguments.
use athar.Prelude.{
  ℕ, String, Bool, true, false, not, ◌&&◌, ◌||◌, Option, none, some, List, [], ◌∷◌, ◌++◌, and_then,
  unwrap_or, map, contains, length, if◌then◌else◌,
}
use athar.Lifecycle.Types.{Lifecycle}
use athar.Lifecycle.Store.{LifecycleStore}
use athar.Detection.Policy.{PolicyMode, observe, challenge, enforce, PolicyConfig}
use athar.Detection.Decision.{DecisionRecord, DecisionStore}
use athar.Detection.Loading.{DetectionConfig}
use athar.Cli.Client.{flag_value}

pub data Line (A Text : Type 0) : Type 0 where
  -- How many are shown, and of how many.
  shown : ℕ → ℕ → Line A Text
  headings : Line A Text
  row : A → Line A Text
  json : Text → Line A Text
  -- The fields of one value, line by line.
  fields : A → Line A Text

pub record Printed (L : Type 0) : Type 0 where
  pub code : ℕ
  pub out : List L

abbrev pub exits : {L : Type 0} → ℕ → Printed L
exits code = record { code = code; out = [] }

module _ {A Text : Type 0} (to_json : A → Option Text) where
  -- A value that cannot be serialised is reported on the standard error.
  unfoldable pub json_lines : List A → List (Line A Text)
  json_lines [] = []
  json_lines (x ∷ xs) = elim (to_json x) [ none ↦ json_lines xs | some s ↦ json s ∷ json_lines xs ]

  unfoldable pub print_list : List A → Bool → List (Line A Text)
  unfolding json_lines
  print_list list as_json = if as_json then json_lines list else headings ∷ map row list

  -- What is printed for one value that was found or not.
  unfoldable pub print_one : Option A → Bool → Printed (Line A Text)
  print_one none as_json = exits 1
  print_one (some x) false = record { code = 0; out = fields x ∷ [] }
  print_one (some x) true = elim (to_json x) [
    | none ↦ exits 1
    | some s ↦ record { code = 0; out = json s ∷ [] }
  ]

-- `opened` is the store of the database that the first argument names, if it can be opened.
module _ {S Text : Type 0} (to_json : Lifecycle → Option Text) (store : LifecycleStore S)
    (opened : String → Option S) where
  unfoldable pub cmd_lifecycle_list : List String → Printed (Line Lifecycle Text)
  unfolding print_list
  cmd_lifecycle_list [] = exits 2
  cmd_lifecycle_list (db ∷ rest) = elim (opened db) [
    | none ↦ exits 1
    | some s ↦
        let list = store.all_open s in
        let lines = print_list to_json list (contains (db ∷ rest) "--json") in
        record {
          code = 0;
          out =
              if contains (db ∷ rest) "--open"
              then lines
              else shown (length list) (store.count s) ∷ lines;
        }
  ]

  unfoldable pub cmd_lifecycle_show : List String → Printed (Line Lifecycle Text)
  unfolding print_one
  cmd_lifecycle_show [] = exits 2
  cmd_lifecycle_show (db ∷ []) = exits 2
  cmd_lifecycle_show (db ∷ id ∷ rest) = elim (opened db) [
    | none ↦ exits 1
    | some s ↦ print_one to_json (store.get s id) (contains (db ∷ id ∷ rest) "--json")
  ]

module _ {D F32 Text : Type 0} (to_json : DecisionRecord F32 → Option Text)
    (store : DecisionStore D F32) (opened : String → Option D) where
  -- `parse` reads a number.
  unfoldable pub limit_of : (String → Option ℕ) → List String → ℕ
  unfolding flag_value
  limit_of parse rest = unwrap_or (and_then (flag_value rest "--limit") parse) 20

  unfoldable pub cmd_decision_recent :
      (String → Option ℕ) → List String → Printed (Line (DecisionRecord F32) Text)
  unfolding print_list limit_of
  cmd_decision_recent parse [] = exits 2
  cmd_decision_recent parse (db ∷ rest) = elim (opened db) [
    | none ↦ exits 1
    | some d ↦ record {
      code = 0;
      out =
          print_list to_json (store.recent_decisions d (limit_of parse (db ∷ rest)))
            (contains (db ∷ rest) "--json");
    }
  ]

  unfoldable pub cmd_decision_show : List String → Printed (Line (DecisionRecord F32) Text)
  unfolding print_one
  cmd_decision_show [] = exits 2
  cmd_decision_show (db ∷ []) = exits 2
  cmd_decision_show (db ∷ id ∷ rest) = elim (opened db) [
    | none ↦ exits 1
    | some d ↦ print_one to_json (store.get_decision d id) (contains (db ∷ id ∷ rest) "--json")
  ]

-- The notes of `policy show`.
pub data Note : Type 0 where
  every_policy_disabled some_policy_enforced : Note

abbrev enforces : PolicyMode → Bool
enforces observe = false
enforces challenge = false
enforces enforce = true

abbrev all_disabled : PolicyConfig → Bool
all_disabled c =
    not c.high_amount_new_beneficiary.enabled
    && not c.high_velocity.enabled
    && not c.distinct_targets.enabled
    && not c.credential_stuffing.enabled

abbrev has_enforce : PolicyConfig → Bool
has_enforce c =
    enforces c.high_amount_new_beneficiary.mode
    || enforces c.high_velocity.mode
    || enforces c.distinct_targets.mode
    || enforces c.credential_stuffing.mode

unfoldable pub notes : PolicyConfig → List Note
notes c =
    (if all_disabled c then every_policy_disabled ∷ [] else [])
    ++ (if has_enforce c then some_policy_enforced ∷ [] else [])

-- The configuration that is shown, and the notes. `loaded` is what loading the file that the argument
-- resolves to gives.
unfoldable pub cmd_policy_show :
    {F64 : Type 0}
    → (String → DetectionConfig F64)
    → List String
    → Printed (DetectionConfig F64 × List Note)
unfolding notes
cmd_policy_show loaded [] = exits 2
cmd_policy_show loaded (arg ∷ rest) =
    let c = loaded arg in record { code = 0; out = (c, notes c.policies) ∷ [] }
