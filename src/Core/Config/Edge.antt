-- ===== src/Core/Config/Edge.antt =====
-- core/include/dbmesh/core/config.h: the firewall, rate limits, the API, metrics and logging. A
-- `double` is its pattern of 64 bits.
use dbmesh.Prelude.{ℕ, Bool, true, false, List, [], Bytes, codes}

-- `FirewallRule`.
pub record FirewallRule : Type 0 where
  pub name : Bytes
  pub match : Bytes
  pub match_regex : Bytes
  pub action : Bytes
  pub message : Bytes
  pub schemas : List Bytes
  pub users : List Bytes

abbrev pub default_firewall_rule : FirewallRule
default_firewall_rule = record {
  name = [];
  match = [];
  match_regex = [];
  action = [];
  message = [];
  schemas = [];
  users = [];
}

-- `FirewallConfig`.
pub record FirewallConfig : Type 0 where
  pub enabled : Bool
  pub default_action : Bytes
  pub rules : List FirewallRule

abbrev pub default_firewall : FirewallConfig
default_firewall = record { enabled = false; default_action = codes "allow"; rules = [] }

-- `RateLimitOverride`.
pub record RateLimitOverride : Type 0 where
  pub key : Bytes
  pub qps : ℕ

abbrev pub default_rate_limit_override : RateLimitOverride
default_rate_limit_override = record { key = []; qps = 0 }

-- `RateLimitDimension`.
pub record RateLimitDimension : Type 0 where
  pub enabled : Bool
  pub default_qps : ℕ
  pub burst_multiplier : ℕ
  pub overrides : List RateLimitOverride

abbrev pub default_rate_limit_dimension : RateLimitDimension
default_rate_limit_dimension = record {
  enabled = false;
  default_qps = 5000;
  burst_multiplier = 0x4000000000000000;
  overrides = [];
}

-- `RateLimitConfig`.
pub record RateLimitConfig : Type 0 where
  pub enabled : Bool
  pub per_user : RateLimitDimension
  pub per_ip : RateLimitDimension
  pub per_schema : RateLimitDimension
  pub per_tenant : RateLimitDimension

abbrev pub default_rate_limit : RateLimitConfig
default_rate_limit = record {
  enabled = false;
  per_user = default_rate_limit_dimension;
  per_ip = default_rate_limit_dimension;
  per_schema = default_rate_limit_dimension;
  per_tenant = default_rate_limit_dimension;
}

-- `ApiUiConfig`.
pub record ApiUiConfig : Type 0 where
  pub enabled : Bool
  pub path : Bytes

abbrev pub default_api_ui : ApiUiConfig
default_api_ui = record { enabled = true; path = codes "/ui" }

-- `ApiCorsConfig`.
pub record ApiCorsConfig : Type 0 where
  pub enabled : Bool
  pub origins : List Bytes

abbrev pub default_api_cors : ApiCorsConfig
default_api_cors = record { enabled = false; origins = [] }

-- `ApiConfig`.
pub record ApiConfig : Type 0 where
  pub enabled : Bool
  pub bind : Bytes
  pub port : ℕ
  pub auth : Bool
  pub token_file : Bytes
  pub ui : ApiUiConfig
  pub cors : ApiCorsConfig
  pub max_request_body_kb : ℕ
  pub request_timeout_ms : ℕ

abbrev pub default_api : ApiConfig
default_api = record {
  enabled = true;
  bind = codes "127.0.0.1";
  port = 8080;
  auth = true;
  token_file = codes "/etc/dbmesh/api_token";
  ui = default_api_ui;
  cors = default_api_cors;
  max_request_body_kb = 512;
  request_timeout_ms = 10000;
}

-- `PrometheusConfig`.
pub record PrometheusConfig : Type 0 where
  pub enabled : Bool
  pub bind : Bytes
  pub port : ℕ
  pub path : Bytes
  pub auth : Bool

abbrev pub default_prometheus : PrometheusConfig
default_prometheus = record {
  enabled = true;
  bind = codes "0.0.0.0";
  port = 9090;
  path = codes "/metrics";
  auth = false;
}

-- `TracingConfig`.
pub record TracingConfig : Type 0 where
  pub enabled : Bool
  pub exporter : Bytes
  pub endpoint : Bytes
  pub service_name : Bytes
  pub service_version : Bytes
  pub sample_rate : ℕ
  pub propagation : Bytes

abbrev pub default_tracing : TracingConfig
default_tracing = record {
  enabled = false;
  exporter = codes "otlp";
  endpoint = codes "http://otel-collector:4318";
  service_name = codes "dbmesh";
  service_version = codes "0.1.0";
  sample_rate = 0x3FB999999999999A;
  propagation = codes "w3c";
}

-- `MetricsConfig`.
pub record MetricsConfig : Type 0 where
  pub prometheus : PrometheusConfig
  pub tracing : TracingConfig

abbrev pub default_metrics : MetricsConfig
default_metrics = record { prometheus = default_prometheus; tracing = default_tracing }

-- `LogFileConfig`.
pub record LogFileConfig : Type 0 where
  pub path : Bytes
  pub rotate : Bool
  pub max_size_mb : ℕ
  pub max_backups : ℕ
  pub compress : Bool

abbrev pub default_log_file : LogFileConfig
default_log_file = record {
  path = codes "/var/log/dbmesh/dbmesh.log";
  rotate = true;
  max_size_mb = 100;
  max_backups = 7;
  compress = true;
}

-- `AuditConfig`.
pub record AuditConfig : Type 0 where
  pub enabled : Bool
  pub output : Bytes
  pub file : Bytes
  pub log_queries : Bool
  pub log_connections : Bool
  pub log_failovers : Bool
  pub log_auth : Bool
  pub log_config_changes : Bool
  pub log_firewall_hits : Bool

abbrev pub default_audit : AuditConfig
default_audit = record {
  enabled = true;
  output = codes "both";
  file = codes "/var/log/dbmesh/audit.log";
  log_queries = false;
  log_connections = true;
  log_failovers = true;
  log_auth = true;
  log_config_changes = true;
  log_firewall_hits = true;
}

-- `LoggingConfig`.
pub record LoggingConfig : Type 0 where
  pub level : Bytes
  pub format : Bytes
  pub output : Bytes
  pub file : LogFileConfig
  pub audit : AuditConfig

abbrev pub default_logging : LoggingConfig
default_logging = record {
  level = codes "INFO";
  format = codes "json";
  output = codes "stdout";
  file = default_log_file;
  audit = default_audit;
}
