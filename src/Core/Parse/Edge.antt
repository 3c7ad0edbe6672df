-- ===== src/Core/Parse/Edge.antt =====
-- core/src/config.cpp: `parse_firewall` to `parse_logging`, and the parts of `parse_config` on rate
-- limits, the API and the metrics.
use dbmesh.Prelude.{List, [], ◌∷◌, Bytes, codes, if◌then◌else◌}
use dbmesh.Core.Types.{ok}
use dbmesh.Core.Config.{
  FirewallRule, FirewallConfig, RateLimitOverride, RateLimitDimension, RateLimitConfig, ApiUiConfig,
  ApiCorsConfig, ApiConfig, PrometheusConfig, TracingConfig, MetricsConfig, LogFileConfig,
  AuditConfig, LoggingConfig, default_firewall_rule, default_firewall, default_rate_limit_override,
  default_rate_limit_dimension, default_rate_limit, default_api_ui, default_api_cors, default_api,
  default_prometheus, default_tracing, default_metrics, default_log_file, default_audit,
  default_logging,
}
use dbmesh.Core.Yaml.{Yaml, Parsed, ◌>>=◌, field, present, sequence, as_port}

module _ (yaml : Yaml) where
  unfoldable pub parse_rule : yaml.Node → Parsed FirewallRule
  parse_rule n = do
    name ← field yaml n (codes "name") yaml.as_string default_firewall_rule.name
    match ← field yaml n (codes "match") yaml.as_string default_firewall_rule.match
    match_regex ←
        field yaml n (codes "match_regex") yaml.as_string default_firewall_rule.match_regex
    action ← field yaml n (codes "action") yaml.as_string default_firewall_rule.action
    message ← field yaml n (codes "message") yaml.as_string default_firewall_rule.message
    schemas ← sequence yaml n (codes "schemas") yaml.as_string default_firewall_rule.schemas
    users ← sequence yaml n (codes "users") yaml.as_string default_firewall_rule.users
    ok (record {
      name = name;
      match = match;
      match_regex = match_regex;
      action = action;
      message = message;
      schemas = schemas;
      users = users;
    })

  unfoldable pub parse_firewall : yaml.Node → Parsed FirewallConfig
  parse_firewall n = present yaml n default_firewall (do
    enabled ← field yaml n (codes "enabled") yaml.as_bool default_firewall.enabled
    default_action ←
        field yaml n (codes "default_action") yaml.as_string default_firewall.default_action
    rules ← sequence yaml n (codes "rules") parse_rule default_firewall.rules
    ok (record { enabled = enabled; default_action = default_action; rules = rules }))

  -- The key is the first of `user`, `schema` and `tenant` that is there.
  unfoldable pub override_key : yaml.Node → List Bytes → Bytes → Parsed Bytes
  override_key n [] old = ok old
  override_key n (k ∷ ks) old = do
    child ← yaml.at n k
    (if yaml.is_defined child then yaml.as_string child else override_key n ks old)

  unfoldable pub parse_override : yaml.Node → Parsed RateLimitOverride
  parse_override n = do
    key ←
        override_key n (codes "user" ∷ codes "schema" ∷ codes "tenant" ∷ [])
          default_rate_limit_override.key
    qps ← field yaml n (codes "qps") yaml.as_u32 default_rate_limit_override.qps
    ok (record { key = key; qps = qps })

  unfoldable pub parse_rate_limit_dim : yaml.Node → Parsed RateLimitDimension
  parse_rate_limit_dim n = present yaml n default_rate_limit_dimension (do
    enabled ← field yaml n (codes "enabled") yaml.as_bool default_rate_limit_dimension.enabled
    default_qps ←
        field yaml n (codes "default_qps") yaml.as_u32 default_rate_limit_dimension.default_qps
    burst_multiplier ←
        field yaml n (codes "burst_multiplier") yaml.as_double
          default_rate_limit_dimension.burst_multiplier
    overrides ←
        sequence yaml n (codes "overrides") parse_override default_rate_limit_dimension.overrides
    ok (record {
      enabled = enabled;
      default_qps = default_qps;
      burst_multiplier = burst_multiplier;
      overrides = overrides;
    }))

  unfoldable pub parse_rate_limit : yaml.Node → Parsed RateLimitConfig
  parse_rate_limit n = do
    enabled ← field yaml n (codes "enabled") yaml.as_bool default_rate_limit.enabled
    user_node ← yaml.at n (codes "per_user")
    per_user ← parse_rate_limit_dim user_node
    ip_node ← yaml.at n (codes "per_ip")
    per_ip ← parse_rate_limit_dim ip_node
    schema_node ← yaml.at n (codes "per_schema")
    per_schema ← parse_rate_limit_dim schema_node
    tenant_node ← yaml.at n (codes "per_tenant")
    per_tenant ← parse_rate_limit_dim tenant_node
    ok (record {
      enabled = enabled;
      per_user = per_user;
      per_ip = per_ip;
      per_schema = per_schema;
      per_tenant = per_tenant;
    })

  unfoldable pub parse_ui : yaml.Node → Parsed ApiUiConfig
  parse_ui n = do
    enabled ← field yaml n (codes "enabled") yaml.as_bool default_api_ui.enabled
    path ← field yaml n (codes "path") yaml.as_string default_api_ui.path
    ok (record { enabled = enabled; path = path })

  unfoldable pub parse_cors : yaml.Node → Parsed ApiCorsConfig
  parse_cors n = do
    enabled ← field yaml n (codes "enabled") yaml.as_bool default_api_cors.enabled
    origins ← sequence yaml n (codes "origins") yaml.as_string default_api_cors.origins
    ok (record { enabled = enabled; origins = origins })

  unfoldable pub parse_api : yaml.Node → Parsed ApiConfig
  parse_api n = do
    enabled ← field yaml n (codes "enabled") yaml.as_bool default_api.enabled
    bind ← field yaml n (codes "bind") yaml.as_string default_api.bind
    port ← field yaml n (codes "port") (as_port yaml) default_api.port
    auth ← field yaml n (codes "auth") yaml.as_bool default_api.auth
    token_file ← field yaml n (codes "token_file") yaml.as_string default_api.token_file
    ui ← field yaml n (codes "ui") parse_ui default_api.ui
    cors ← field yaml n (codes "cors") parse_cors default_api.cors
    max_request_body_kb ←
        field yaml n (codes "max_request_body_kb") yaml.as_u32 default_api.max_request_body_kb
    request_timeout_ms ←
        field yaml n (codes "request_timeout_ms") yaml.as_u32 default_api.request_timeout_ms
    ok (record {
      enabled = enabled;
      bind = bind;
      port = port;
      auth = auth;
      token_file = token_file;
      ui = ui;
      cors = cors;
      max_request_body_kb = max_request_body_kb;
      request_timeout_ms = request_timeout_ms;
    })

  unfoldable pub parse_prometheus : yaml.Node → Parsed PrometheusConfig
  parse_prometheus n = do
    enabled ← field yaml n (codes "enabled") yaml.as_bool default_prometheus.enabled
    bind ← field yaml n (codes "bind") yaml.as_string default_prometheus.bind
    port ← field yaml n (codes "port") (as_port yaml) default_prometheus.port
    path ← field yaml n (codes "path") yaml.as_string default_prometheus.path
    auth ← field yaml n (codes "auth") yaml.as_bool default_prometheus.auth
    ok (record { enabled = enabled; bind = bind; port = port; path = path; auth = auth })

  unfoldable pub parse_tracing : yaml.Node → Parsed TracingConfig
  parse_tracing n = do
    enabled ← field yaml n (codes "enabled") yaml.as_bool default_tracing.enabled
    exporter ← field yaml n (codes "exporter") yaml.as_string default_tracing.exporter
    endpoint ← field yaml n (codes "endpoint") yaml.as_string default_tracing.endpoint
    service_name ← field yaml n (codes "service_name") yaml.as_string default_tracing.service_name
    service_version ←
        field yaml n (codes "service_version") yaml.as_string default_tracing.service_version
    sample_rate ← field yaml n (codes "sample_rate") yaml.as_double default_tracing.sample_rate
    propagation ← field yaml n (codes "propagation") yaml.as_string default_tracing.propagation
    ok (record {
      enabled = enabled;
      exporter = exporter;
      endpoint = endpoint;
      service_name = service_name;
      service_version = service_version;
      sample_rate = sample_rate;
      propagation = propagation;
    })

  unfoldable pub parse_metrics : yaml.Node → Parsed MetricsConfig
  parse_metrics n = do
    prometheus ← field yaml n (codes "prometheus") parse_prometheus default_metrics.prometheus
    tracing ← field yaml n (codes "tracing") parse_tracing default_metrics.tracing
    ok (record { prometheus = prometheus; tracing = tracing })

  unfoldable pub parse_log_file : yaml.Node → Parsed LogFileConfig
  parse_log_file n = do
    path ← field yaml n (codes "path") yaml.as_string default_log_file.path
    rotate ← field yaml n (codes "rotate") yaml.as_bool default_log_file.rotate
    max_size_mb ← field yaml n (codes "max_size_mb") yaml.as_u32 default_log_file.max_size_mb
    max_backups ← field yaml n (codes "max_backups") yaml.as_u32 default_log_file.max_backups
    compress ← field yaml n (codes "compress") yaml.as_bool default_log_file.compress
    ok (record {
      path = path;
      rotate = rotate;
      max_size_mb = max_size_mb;
      max_backups = max_backups;
      compress = compress;
    })

  unfoldable pub parse_audit : yaml.Node → Parsed AuditConfig
  parse_audit n = do
    enabled ← field yaml n (codes "enabled") yaml.as_bool default_audit.enabled
    output ← field yaml n (codes "output") yaml.as_string default_audit.output
    file ← field yaml n (codes "file") yaml.as_string default_audit.file
    log_queries ← field yaml n (codes "log_queries") yaml.as_bool default_audit.log_queries
    log_connections ←
        field yaml n (codes "log_connections") yaml.as_bool default_audit.log_connections
    log_failovers ← field yaml n (codes "log_failovers") yaml.as_bool default_audit.log_failovers
    log_auth ← field yaml n (codes "log_auth") yaml.as_bool default_audit.log_auth
    log_config_changes ←
        field yaml n (codes "log_config_changes") yaml.as_bool default_audit.log_config_changes
    log_firewall_hits ←
        field yaml n (codes "log_firewall_hits") yaml.as_bool default_audit.log_firewall_hits
    ok (record {
      enabled = enabled;
      output = output;
      file = file;
      log_queries = log_queries;
      log_connections = log_connections;
      log_failovers = log_failovers;
      log_auth = log_auth;
      log_config_changes = log_config_changes;
      log_firewall_hits = log_firewall_hits;
    })

  unfoldable pub parse_logging : yaml.Node → Parsed LoggingConfig
  parse_logging n = present yaml n default_logging (do
    level ← field yaml n (codes "level") yaml.as_string default_logging.level
    format ← field yaml n (codes "format") yaml.as_string default_logging.format
    output ← field yaml n (codes "output") yaml.as_string default_logging.output
    file ← field yaml n (codes "file") parse_log_file default_logging.file
    audit ← field yaml n (codes "audit") parse_audit default_logging.audit
    ok (record { level = level; format = format; output = output; file = file; audit = audit }))
