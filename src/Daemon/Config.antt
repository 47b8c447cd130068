-- ===== src/Daemon/Config.antt =====
-- `Config::from_env` of daemon/crates/athar-daemon/src/config.rs, over the environment and the parsers of
-- numbers. A path is a text.
use athar.Prelude.{ℕ, ◌*◌, String, Option, and_then, unwrap_or}

pub record Config (F32 : Type 0) : Type 0 where
  pub listen_addr : String
  pub data_dir : String
  pub quota_bytes : ℕ
  pub max_segment_bytes : ℕ
  pub max_record_bytes : ℕ
  pub audit_records_per_segment : ℕ
  pub staleness_scan_interval_secs : ℕ
  pub host_metrics_interval_secs : ℕ
  pub eviction_interval_secs : ℕ
  pub eviction_high_water_pct : F32
  pub eviction_low_water_pct : F32
  pub shim_spool_dir : String
  pub shim_spool_scan_interval_secs : ℕ
  pub policy_reload_interval_secs : ℕ

-- `std::env::var`, `str::parse`, the temporary directory's spool, and the float literals.
pub record Environment (F32 : Type 0) : Type 0 where
  pub var : String → Option String
  pub parse_u64 : String → Option ℕ
  pub parse_f32 : String → Option F32
  pub default_spool : String
  pub pct_85 : F32
  pub pct_70 : F32

module _ {F32 : Type 0} (env : Environment F32) where
  unfoldable pub env_or : String → String → String
  env_or name default = unwrap_or (env.var name) default

  unfoldable pub env_or_parse : {A : Type 0} → (String → Option A) → String → A → A
  env_or_parse parse name default = unwrap_or (and_then (env.var name) parse) default

  unfoldable pub from_env : Config F32
  unfolding env_or env_or_parse
  from_env = record {
    listen_addr = env_or "ATHAR_LISTEN_ADDR" "127.0.0.1:11223";
    data_dir = env_or "ATHAR_DATA_DIR" "./athar-data";
    quota_bytes = env_or_parse env.parse_u64 "ATHAR_QUOTA_BYTES" (2 * 1024 * 1024 * 1024);
    max_segment_bytes = env_or_parse env.parse_u64 "ATHAR_MAX_SEGMENT_BYTES" (64 * 1024 * 1024);
    max_record_bytes = env_or_parse env.parse_u64 "ATHAR_MAX_RECORD_BYTES" (8 * 1024 * 1024);
    audit_records_per_segment = env_or_parse env.parse_u64 "ATHAR_AUDIT_RECORDS_PER_SEGMENT" 1000;
    staleness_scan_interval_secs =
        env_or_parse env.parse_u64 "ATHAR_STALENESS_SCAN_INTERVAL_SECS" 60;
    host_metrics_interval_secs = env_or_parse env.parse_u64 "ATHAR_HOST_METRICS_INTERVAL_SECS" 5;
    eviction_interval_secs = env_or_parse env.parse_u64 "ATHAR_EVICTION_INTERVAL_SECS" 30;
    eviction_high_water_pct = env_or_parse env.parse_f32 "ATHAR_EVICTION_HIGH_WATER_PCT" env.pct_85;
    eviction_low_water_pct = env_or_parse env.parse_f32 "ATHAR_EVICTION_LOW_WATER_PCT" env.pct_70;
    shim_spool_dir = env_or "ATHAR_SHIM_SPOOL_DIR" env.default_spool;
    shim_spool_scan_interval_secs =
        env_or_parse env.parse_u64 "ATHAR_SHIM_SPOOL_SCAN_INTERVAL_SECS" 30;
    policy_reload_interval_secs = env_or_parse env.parse_u64 "ATHAR_POLICY_RELOAD_INTERVAL_SECS" 5;
  }
