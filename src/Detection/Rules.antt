-- ===== src/Detection/Rules.antt =====
-- The rules as a table: the engine takes the first one that is enabled and whose kinds all occur.
use athar.Prelude.{String, Bool, true, false, ◌&&◌, List, [], ◌∷◌, ◌≡◌, if◌then◌else◌, arith}
use athar.Detection.Policy.{
  SignalKind, new_beneficiary, high_amount, high_velocity, distinct_targets,
  credential_stuffing_pattern, Signal, observe, Action, PolicyRule, PolicyConfig, PolicyDecision,
  has, evaluate,
}

pub record Rule : Type 0 where
  pub policy_id : String
  pub rule : PolicyRule
  pub kinds : List SignalKind
  pub reason : String

abbrev pub table : PolicyConfig → List Rule
table c =
    record {
      policy_id = "pol_new_beneficiary_high_amount";
      rule = c.high_amount_new_beneficiary;
      kinds = new_beneficiary ∷ high_amount ∷ [];
      reason = "TARGET_NEW_BENEFICIARY_HIGH_AMOUNT";
    }
    ∷ record {
      policy_id = "pol_high_velocity";
      rule = c.high_velocity;
      kinds = high_velocity ∷ [];
      reason = "VELOCITY_HIGH_RATE";
    }
    ∷ record {
      policy_id = "pol_distinct_targets";
      rule = c.distinct_targets;
      kinds = distinct_targets ∷ [];
      reason = "TARGET_DISTINCT_FANOUT";
    }
    ∷ record {
      policy_id = "pol_credential_stuffing";
      rule = c.credential_stuffing;
      kinds = credential_stuffing_pattern ∷ [];
      reason = "AUTH_CREDENTIAL_STUFFING";
    }
    ∷ []

abbrev pub all_occur : {F32 : Type 0} → List SignalKind → List (Signal F32) → Bool
all_occur [] signals = true
all_occur (k ∷ ks) signals = has k signals && all_occur ks signals

abbrev pub first_match : {F32 : Type 0} → List Rule → List (Signal F32) → PolicyDecision
first_match [] signals = record {
  policy_id = "pol_default";
  policy_version = 1;
  mode = observe;
  matched = false;
  action = Action.allow;
  reason_codes = [];
}
first_match (r ∷ rs) signals =
    let rest = first_match rs signals in
    if r.rule.enabled && all_occur r.kinds signals
    then record {
      policy_id = r.policy_id;
      policy_version = 1;
      mode = r.rule.mode;
      matched = true;
      action = Action.challenge;
      reason_codes = r.reason ∷ [];
    }
    else rest

-- The engine's decision is the one of the first rule of the table that is enabled and whose kinds of
-- signal all occur, and the default decision if there is none.
pub evaluate-first_match :
    {F32 : Type 0} (config : PolicyConfig) (signals : List (Signal F32))
    → evaluate config signals ≡ first_match (table config) signals
unfolding evaluate
evaluate-first_match config signals = ground arith
