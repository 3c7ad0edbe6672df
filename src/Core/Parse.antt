-- ===== src/Core/Parse.antt =====
-- core/src/config.cpp: `parse_config`.
pub mod Mesh
pub mod Services
pub mod Edge
use dbmesh.Prelude.{Bool, true, false, ◌&&◌, List, [], ◌∷◌, Bytes, codes, if◌then◌else◌}
use dbmesh.Core.Types.{Result, ok, err}
use dbmesh.Core.Config.{
  Config, NodeConfig, default_node, default_tls, default_auth, default_rbac, default_rate_limit,
  default_api, default_metrics,
}
use dbmesh.Core.Yaml.{Yaml, Parsed, ◌>>=◌, field, sequence}
use dbmesh.Core.Parse.Mesh.{
  parse_node, parse_listeners, parse_tls, parse_backend, parse_schema, parse_routing,
}
use dbmesh.Core.Parse.Services.{
  parse_session, parse_failover, parse_cluster, parse_auth, parse_rbac,
}
use dbmesh.Core.Parse.Edge.{
  parse_firewall, parse_rate_limit, parse_api, parse_metrics, parse_logging,
}

module _ (yaml : Yaml) where
  -- `parse_x(root["x"])`.
  abbrev section {ℓ} : {A : Type ℓ} → yaml.Node → Bytes → (yaml.Node → Parsed A) → Parsed A
  section root k parse = do child ← yaml.at root k; parse child

  unfoldable pub parse_config : yaml.Node → Parsed Config
  parse_config root = do
    node ← field yaml root (codes "node") (parse_node yaml) default_node
    listeners ← section root (codes "listeners") (parse_listeners yaml)
    tls ← field yaml root (codes "tls") (parse_tls yaml) default_tls
    backends ← sequence yaml root (codes "backends") (parse_backend yaml) []
    schemas ← sequence yaml root (codes "schemas") (parse_schema yaml) []
    routing ← section root (codes "routing") (parse_routing yaml)
    session ← section root (codes "session") (parse_session yaml)
    failover ← section root (codes "failover") (parse_failover yaml)
    cluster ← section root (codes "cluster") (parse_cluster yaml)
    auth ← field yaml root (codes "auth") (parse_auth yaml) default_auth
    rbac ← field yaml root (codes "rbac") (parse_rbac yaml) default_rbac
    firewall ← section root (codes "firewall") (parse_firewall yaml)
    rate_limit ← field yaml root (codes "rate_limit") (parse_rate_limit yaml) default_rate_limit
    api ← field yaml root (codes "api") (parse_api yaml) default_api
    metrics ← field yaml root (codes "metrics") (parse_metrics yaml) default_metrics
    logging ← section root (codes "logging") (parse_logging yaml)
    ok (record {
      node = node;
      listeners = listeners;
      tls = tls;
      backends = backends;
      schemas = schemas;
      routing = routing;
      session = session;
      failover = failover;
      cluster = cluster;
      auth = auth;
      rbac = rbac;
      firewall = firewall;
      rate_limit = rate_limit;
      api = api;
      metrics = metrics;
      logging = logging;
    })
