-- ===== src/Cli/Commands.antt =====
-- The dispatch and the exit codes of daemon/crates/athar-cli/src/main.rs. What is printed is left out.
use athar.Prelude.{
  ℕ, ◌+◌, String, Bool, true, false, ◌&&◌, Option, none, some, List, [], ◌∷◌, str_eq, ◌==◌,
  if◌then◌else◌,
}
use athar.Audit.Chain.{Crypto, Verdict}
use athar.Audit.Store.{SegmentStore, VerifyReport, verify_all}

-- What a command line asks for, with the arguments that are left.
pub data Command : Type 0 where
  audit_verify lifecycle_list lifecycle_show decision_recent decision_show : List String → Command
  policy_show policy_validate doctor status : List String → Command
  usage : ℕ → Command

-- The subcommands with a second word.
unfoldable pub second : (List String → Command) → String → List String → Command
second command word [] = usage 2
second command word (w ∷ rest) = if str_eq w word then command rest else usage 2

unfoldable pub second_of :
    (List String → Command) → String → (List String → Command) → String → List String → Command
second_of one word other word' [] = usage 2
second_of one word other word' (w ∷ rest) =
    if str_eq w word then one rest else if str_eq w word' then other rest else usage 2

-- The arguments after the program's name.
unfoldable pub dispatch : List String → Command
unfolding second second_of
dispatch [] = usage 0
dispatch (w ∷ rest) =
    if str_eq w "audit"
    then second audit_verify "verify" rest
    else if str_eq w "lifecycle"
    then second_of lifecycle_list "list" lifecycle_show "show" rest
    else if str_eq w "decision"
    then second_of decision_recent "recent" decision_show "show" rest
    else if str_eq w "policy"
    then second_of policy_show "show" policy_validate "validate" rest
    else if str_eq w "doctor"
    then doctor rest
    else if str_eq w "status"
    then status rest
    else if str_eq w "--help"
    then usage 0
    else if str_eq w "-h"
    then usage 0
    else usage 2

-- The exit code of a verification.
abbrev code_of : Verdict VerifyReport → ℕ
code_of (Verdict.ok report) = 0
code_of (Verdict.err e) = 1

-- `opened` is what opening the first argument as a segment store gives.
unfoldable pub cmd_audit_verify : Crypto → (String → Option SegmentStore) → List String → ℕ
unfolding verify_all
cmd_audit_verify crypto opened [] = 2
cmd_audit_verify crypto opened (dir ∷ rest) = elim (opened dir) [
  | none ↦ 1
  | some store ↦ code_of (verify_all crypto store)
]

-- `read` is the file's text if it exists and can be read, `parses` whether it is a configuration.
unfoldable pub cmd_policy_validate : (String → Option String) → (String → Bool) → List String → ℕ
cmd_policy_validate read parses [] = 2
cmd_policy_validate read parses (path ∷ rest) = elim (read path) [
  | none ↦ 1
  | some content ↦ if parses content then 0 else 1
]

-- What `cmd_doctor` finds. Of a part that may not be there yet: whether it is, and then how it is. The
-- audit directory opens and verifies, a database opens, the policies can be read and parsed.
pub record Install : Type 0 where
  pub data_dir : Bool
  pub audit : Option (Option Bool)
  pub lifecycles : Option Bool
  pub decisions : Option Bool
  pub policies : Option (Option Bool)
  pub reachable : Bool
  pub deep : Bool
  pub status_shape : Option Bool

pub record Tally : Type 0 where
  pub fails : ℕ
  pub warns : ℕ

-- `fails += !check(..) as u32`.
abbrev check : Bool → Tally → Tally
check true t = t
check false t = record t { fails = t.fails + 1 }

abbrev check_store : Option (Option Bool) → Tally → Tally
check_store none t = record t { warns = t.warns + 1 }
check_store (some none) t = check false t
check_store (some (some verifies)) t = check verifies t

abbrev check_db : Option Bool → Tally → Tally
check_db none t = record t { warns = t.warns + 1 }
check_db (some opens) t = check opens t

abbrev check_policies : Option (Option Bool) → Tally → Tally
check_policies none t = t
check_policies (some none) t = check false t
check_policies (some (some valid)) t = check valid t

abbrev check_status : Option Bool → Tally → Tally
check_status none t = check false t
check_status (some has_shape) t = check has_shape t

unfoldable pub run_checks : Install → Tally
run_checks i =
    let t1 = check i.data_dir (record { fails = 0; warns = 0 }) in
    let t2 = check_store i.audit t1 in
    let t3 = check_db i.lifecycles t2 in
    let t4 = check_db i.decisions t3 in
    let t5 = check_policies i.policies t4 in
    let t6 = check i.reachable t5 in
    if i.deep && i.reachable then check_status i.status_shape t6 else t6

unfoldable pub cmd_doctor : (String → Install) → List String → ℕ
unfolding run_checks
cmd_doctor inspect [] = 2
cmd_doctor inspect (dir ∷ rest) = if (run_checks (inspect dir)).fails == 0 then 0 else 1
