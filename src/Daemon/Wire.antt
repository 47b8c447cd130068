-- ===== src/Daemon/Wire.antt =====
-- The responses of the daemon (`write_decision_response`, `write_json_frame` and the bodies that
-- daemon/crates/athar-daemon/src/ingest.rs gives them), and what it takes from serde_json.
use athar.Prelude.{
  ℕ, ◌%◌, ◌++◌, String, Bool, false, Option, none, some, List, [], ◌∷◌, Bytes, be_bytes, length,
  u32_size, if◌then◌else◌,
}
use athar.Event.Types.{Event}
use athar.Governor.Level.{PressureLevel, l0_normal, l1_reduce, l2_defer, l3_essential, l4_safe_mode}
use athar.Daemon.Drops.{CoverageGapSummary}
use athar.Detection.Policy.{PolicyDecision}
use athar.Detection.Decision.{DecisionRecord, mode_str, action_str}

-- The body of the response to `__evaluate__`.
pub record DecisionBody : Type 0 where
  pub decision_id : String
  pub action : String
  pub mode : String
  pub reason_codes : List String
  pub outcome_reason : String
  pub latency_us : ℕ

-- The body of the response to `__status__`, without the versions.
pub record StatusBody : Type 0 where
  pub timestamp_ms : ℕ
  pub pressure_level : String
  pub pending_drops_frames : ℕ
  pub pending_drops_bytes : ℕ
  pub lifecycles_total : ℕ
  pub lifecycles_open : ℕ
  pub decisions_total : ℕ
  pub signals_total : ℕ

-- serde_json: `from_slice`, `get(..).and_then(as_bool)`, `from_value` and `to_vec`.
pub record Serde (F64 Json : Type 0) : Type 0 where
  pub parse : Bytes → Option Json
  pub flag : Json → String → Option Bool
  pub to_event : Json → Option (Event F64 Json)
  pub event_bytes : Event F64 Json → Option Bytes
  pub decision_bytes : DecisionBody → Option Bytes
  pub status_bytes : StatusBody → Option Bytes
  pub gap_bytes : CoverageGapSummary → ℕ → Option Bytes

-- `format!("{:?}", level)`.
unfoldable pub level_str : PressureLevel → String
level_str l0_normal = "L0Normal"
level_str l1_reduce = "L1Reduce"
level_str l2_defer = "L2Defer"
level_str l3_essential = "L3Essential"
level_str l4_safe_mode = "L4SafeMode"

-- `[len: u32 big-endian][body]`.
unfoldable pub response_frame : Bytes → Bytes
response_frame body = be_bytes 4 (length body % u32_size) ++ body

-- What reaches the connection: nothing if the body cannot be spelled or the connection is gone.
unfoldable pub write_json_frame : Bool → Option Bytes → List Bytes
unfolding response_frame
write_json_frame connection_ok none = []
write_json_frame connection_ok (some body) = if connection_ok then response_frame body ∷ [] else []

abbrev first_matched : List PolicyDecision → Bool
first_matched [] = false
first_matched (p ∷ ps) = p.matched

unfoldable pub decision_body : {F32 : Type 0} → DecisionRecord F32 → DecisionBody
unfolding mode_str action_str
decision_body d = record {
  decision_id = d.decision_id;
  action = action_str d.action;
  mode = mode_str d.mode;
  reason_codes = d.reason_codes;
  outcome_reason =
      if first_matched d.policies_evaluated then "POLICY_MATCH" else "NO_POLICY_APPLIED";
  latency_us = d.latency_us;
}
