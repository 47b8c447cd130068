-- ===== src/Daemon/Reload.antt =====
-- A round of the watcher of daemon/crates/athar-daemon/src/policy_reload.rs, with `reload` and
-- `snapshot` of `PolicyEngine` (daemon/crates/athar-detection/src/policy.rs). A modification time is a
-- number, and what serde_json makes of the file's text is a parameter.
pub mod Watching
use Prim.Native.String.{◌++◌ as str_append}
use athar.Prelude.{
  ℕ, String, Bool, true, false, ◌&&◌, not, Option, none, some, is_some, List, ◌==◌, if◌then◌else◌,
}
use athar.Detection.Policy.{
  PolicyMode, observe, challenge, enforce, FailMode, fail_open, fail_closed, PolicyRule,
  PolicyConfig,
}
use athar.Detection.Decision.{mode_str, fail_mode_str}

-- `==` on configurations.
abbrev pub mode_eq : PolicyMode → PolicyMode → Bool
mode_eq observe observe = true
mode_eq challenge challenge = true
mode_eq enforce enforce = true
mode_eq _ _ = false

abbrev pub fail_mode_eq : FailMode → FailMode → Bool
fail_mode_eq fail_open fail_open = true
fail_mode_eq fail_closed fail_closed = true
fail_mode_eq _ _ = false

abbrev pub bool_eq : Bool → Bool → Bool
bool_eq true b = b
bool_eq false b = not b

unfoldable pub rule_eq : PolicyRule → PolicyRule → Bool
rule_eq a b =
    bool_eq a.enabled b.enabled && (mode_eq a.mode b.mode && fail_mode_eq a.fail_mode b.fail_mode)

unfoldable pub config_eq : PolicyConfig → PolicyConfig → Bool
unfolding rule_eq
config_eq a b =
    rule_eq a.high_amount_new_beneficiary b.high_amount_new_beneficiary
    && (rule_eq a.high_velocity b.high_velocity
        && (rule_eq a.distinct_targets b.distinct_targets
            && rule_eq a.credential_stuffing b.credential_stuffing))

-- The engine's configuration, and what the watcher remembers.
pub record Watcher : Type 0 where
  pub engine : PolicyConfig
  pub last_mtime : Option ℕ
  pub last_applied : Option PolicyConfig

-- What a round finds: a file with its modification time and its text, as far as each can be had, no
-- file, or an error.
pub data Polled : Type 0 where
  found : Option ℕ → Option String → Polled
  not_found cannot_stat : Polled

-- The watcher when it starts.
unfoldable pub watch : PolicyConfig → Watcher
watch snapshot = record { engine = snapshot; last_mtime = none; last_applied = some snapshot }

-- `==` on modification times.
abbrev pub mtime_eq : Option ℕ → Option ℕ → Bool
mtime_eq none none = true
mtime_eq (some a) (some b) = a == b
mtime_eq _ _ = false

abbrev pub is_applied : Option PolicyConfig → PolicyConfig → Bool
is_applied none c = false
is_applied (some a) c = config_eq a c

-- The text of a changed file, if it could be read and parsed.
unfoldable pub apply_parsed : Watcher → Option PolicyConfig → Watcher
unfolding config_eq
apply_parsed w none = w
apply_parsed w (some c) =
    if is_applied w.last_applied c then w else record w { engine = c; last_applied = some c }

abbrev pub parsed_text : (String → Option PolicyConfig) → Option String → Option PolicyConfig
parsed_text parse none = none
parsed_text parse (some text) = parse text

unfoldable pub poll : (String → Option PolicyConfig) → Watcher → Polled → Watcher
unfolding apply_parsed
poll parse w (found mtime text) =
    if mtime_eq mtime w.last_mtime
    then w
    else apply_parsed (record w { last_mtime = mtime }) (parsed_text parse text)
poll parse w not_found = record w { last_mtime = none }
poll parse w cannot_stat = w

infixr 6 ◌<>◌
abbrev ◌<>◌ : String → String → String
a <> b = str_append a b

unfoldable pub summarise_rule : String → PolicyRule → String
unfolding mode_str fail_mode_str
summarise_rule name r =
    name
    <> "={"
    <> (if r.enabled then "on" else "off")
    <> ":"
    <> mode_str r.mode
    <> ":"
    <> fail_mode_str r.fail_mode
    <> "}"

unfoldable pub summarise : PolicyConfig → String
unfolding summarise_rule
summarise p =
    summarise_rule "hi_amt_new_ben" p.high_amount_new_beneficiary
    <> " "
    <> summarise_rule "hi_vel" p.high_velocity
    <> " "
    <> summarise_rule "dist_tgt" p.distinct_targets
