-- ===== src/Core/Config.antt =====
-- core/include/dbmesh/core/config.h: the whole configuration. `default_…` has the initial values of
-- the fields.
pub mod Mesh
pub mod Services
pub mod Edge
use dbmesh.Prelude.{List, [], ◌∷◌}
pub use Mesh.*
pub use Services.*
pub use Edge.*

-- `Config`.
pub record Config : Type 0 where
  pub node : NodeConfig
  pub listeners : ListenersConfig
  pub tls : TlsConfig
  pub backends : List BackendConfig
  pub schemas : List SchemaConfig
  pub routing : RoutingConfig
  pub session : SessionConfig
  pub failover : FailoverConfig
  pub cluster : ClusterConfig
  pub auth : AuthConfig
  pub rbac : RbacConfig
  pub firewall : FirewallConfig
  pub rate_limit : RateLimitConfig
  pub api : ApiConfig
  pub metrics : MetricsConfig
  pub logging : LoggingConfig

abbrev pub default_config : Config
default_config = record {
  node = default_node;
  listeners = default_listeners;
  tls = default_tls;
  backends = [];
  schemas = [];
  routing = default_routing;
  session = default_session;
  failover = default_failover;
  cluster = default_cluster;
  auth = default_auth;
  rbac = default_rbac;
  firewall = default_firewall;
  rate_limit = default_rate_limit;
  api = default_api;
  metrics = default_metrics;
  logging = default_logging;
}
