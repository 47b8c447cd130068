-- ===== src/Detection/Loading.antt =====
-- `DetectionConfig` of daemon/crates/athar-detection/src/config.rs. Whether the path exists, its text and
-- what serde_json makes of it are arguments.
use athar.Prelude.{String, Bool, Option, none, some, if◌then◌else◌}
use athar.Detection.Policy.{PolicyConfig}
use athar.Detection.Policy
use athar.Detection.SignalConfig.{Formats, SignalEngineConfig}
use athar.Detection.SignalConfig

pub record DetectionConfig (F64 : Type 0) : Type 0 where
  pub policies : PolicyConfig
  pub signals : SignalEngineConfig F64

module _ {F32 F64 Json : Type 0} (fmt : Formats F32 F64 Json) where
  -- `DetectionConfig::default()`.
  unfoldable pub default_detection : DetectionConfig F64
  unfolding SignalConfig.default_config
  default_detection = record {
    policies = Policy.default_config;
    signals = SignalConfig.default_config fmt;
  }

  abbrev loaded : Option (DetectionConfig F64) → DetectionConfig F64
  loaded none = default_detection
  loaded (some cfg) = cfg

  unfoldable pub load_or_default :
      (String → Option (DetectionConfig F64)) → Bool → Option String → DetectionConfig F64
  unfolding default_detection
  load_or_default parse exists none = default_detection
  load_or_default parse exists (some contents) =
      if exists then loaded (parse contents) else default_detection
