-- ===== src/Detection/Policy.antt =====
-- `PolicyEngine` of daemon/crates/athar-detection/src/policy.rs, with `PolicyConfig` of config.rs and
-- `Signal` of signal.rs. `F32` is the type of the program's 32-bit floats. The engine's state is its
-- configuration.
use athar.Prelude.{ℕ, String, Bool, true, false, ◌&&◌, List, [], ◌∷◌, Option, any, if◌then◌else◌}

pub data SignalKind : Type 0 where
  new_beneficiary high_amount high_velocity distinct_targets credential_stuffing_pattern :
      SignalKind

-- `==` on kinds.
abbrev pub kind_eq : SignalKind → SignalKind → Bool
kind_eq new_beneficiary new_beneficiary = true
kind_eq high_amount high_amount = true
kind_eq high_velocity high_velocity = true
kind_eq distinct_targets distinct_targets = true
kind_eq credential_stuffing_pattern credential_stuffing_pattern = true
kind_eq _ _ = false

pub record Signal (F32 : Type 0) : Type 0 where
  pub kind : SignalKind
  pub confidence : F32
  pub value : String
  pub threshold : Option String

pub data PolicyMode : Type 0 where
  observe challenge enforce : PolicyMode

pub data Action : Type 0 where
  allow challenge restrict block alert : Action

pub data FailMode : Type 0 where
  fail_open fail_closed : FailMode

pub record PolicyRule : Type 0 where
  pub enabled : Bool
  pub mode : PolicyMode
  pub fail_mode : FailMode

pub record PolicyConfig : Type 0 where
  pub high_amount_new_beneficiary : PolicyRule
  pub high_velocity : PolicyRule
  pub distinct_targets : PolicyRule
  pub credential_stuffing : PolicyRule

pub record PolicyDecision : Type 0 where
  pub policy_id : String
  pub policy_version : ℕ
  pub mode : PolicyMode
  pub matched : Bool
  pub action : Action
  pub reason_codes : List String

unfoldable pub has : {F32 : Type 0} → SignalKind → List (Signal F32) → Bool
has kind signals = any (λ s. kind_eq s.kind kind) signals

unfoldable pub evaluate : {F32 : Type 0} → PolicyConfig → List (Signal F32) → PolicyDecision
unfolding has
evaluate config signals =
    let rule_a = config.high_amount_new_beneficiary in
    let rule_b = config.high_velocity in
    let rule_c = config.distinct_targets in
    let rule_d = config.credential_stuffing in
    if rule_a.enabled && (has new_beneficiary signals && has high_amount signals)
    then record {
      policy_id = "pol_new_beneficiary_high_amount";
      policy_version = 1;
      mode = rule_a.mode;
      matched = true;
      action = Action.challenge;
      reason_codes = "TARGET_NEW_BENEFICIARY_HIGH_AMOUNT" ∷ [];
    }
    else if rule_b.enabled && has high_velocity signals
    then record {
      policy_id = "pol_high_velocity";
      policy_version = 1;
      mode = rule_b.mode;
      matched = true;
      action = Action.challenge;
      reason_codes = "VELOCITY_HIGH_RATE" ∷ [];
    }
    else if rule_c.enabled && has distinct_targets signals
    then record {
      policy_id = "pol_distinct_targets";
      policy_version = 1;
      mode = rule_c.mode;
      matched = true;
      action = Action.challenge;
      reason_codes = "TARGET_DISTINCT_FANOUT" ∷ [];
    }
    else if rule_d.enabled && has credential_stuffing_pattern signals
    then record {
      policy_id = "pol_credential_stuffing";
      policy_version = 1;
      mode = rule_d.mode;
      matched = true;
      action = Action.challenge;
      reason_codes = "AUTH_CREDENTIAL_STUFFING" ∷ [];
    }
    else record {
      policy_id = "pol_default";
      policy_version = 1;
      mode = observe;
      matched = false;
      action = Action.allow;
      reason_codes = [];
    }

-- `PolicyRule::default` and `PolicyConfig::default`.
abbrev pub default_rule : PolicyRule
default_rule = record { enabled = true; mode = observe; fail_mode = fail_open }

abbrev pub default_config : PolicyConfig
default_config = record {
  high_amount_new_beneficiary = default_rule;
  high_velocity = default_rule;
  distinct_targets = default_rule;
  credential_stuffing = default_rule;
}
