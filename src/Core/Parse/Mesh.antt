-- ===== src/Core/Parse/Mesh.antt =====
-- core/src/config.cpp: `parse_pool` to `parse_routing`, and the parts of `parse_config` on the node,
-- the listeners and TLS.
use dbmesh.Prelude.{ℕ, true, ◌&&◌, [], none, codes, if◌then◌else◌}
use dbmesh.Core.Types.{ok}
use dbmesh.Core.Config.{
  NodeConfig, ListenerConfig, ListenersConfig, TlsEndpointConfig, BackendTlsConfig, TlsConfig,
  PoolConfig, BackendConfig, SchemaConfig, TenantMapping, RoutingTenantsConfig, RoutingConfig,
  default_node, default_listener, default_tls_endpoint, default_backend_tls, default_pool,
  default_backend, default_schema, default_tenant_mapping, default_routing_tenants, default_routing,
}
use dbmesh.Core.Yaml.{
  Yaml, Parsed, ◌>>=◌, field, present, sequence, string_map, as_port, as_named, as_some, node_modes,
  backend_types, backend_roles, recovery_modes, affinity_modes, routing_policies,
}

module _ (yaml : Yaml) where
  unfoldable pub parse_pool : yaml.Node → Parsed PoolConfig
  parse_pool n = present yaml n default_pool (do
    min ← field yaml n (codes "min") yaml.as_u32 default_pool.min
    max ← field yaml n (codes "max") yaml.as_u32 default_pool.max
    idle_timeout_sec ←
        field yaml n (codes "idle_timeout_sec") yaml.as_u32 default_pool.idle_timeout_sec
    connect_timeout_ms ←
        field yaml n (codes "connect_timeout_ms") yaml.as_u32 default_pool.connect_timeout_ms
    acquire_timeout_ms ←
        field yaml n (codes "acquire_timeout_ms") yaml.as_u32 default_pool.acquire_timeout_ms
    warm ← field yaml n (codes "warm") yaml.as_bool default_pool.warm
    ok (record {
      min = min;
      max = max;
      idle_timeout_sec = idle_timeout_sec;
      connect_timeout_ms = connect_timeout_ms;
      acquire_timeout_ms = acquire_timeout_ms;
      warm = warm;
    }))

  unfoldable pub parse_listener : yaml.Node → ℕ → Parsed ListenerConfig
  parse_listener n default_port =
      let l = record default_listener { port = default_port } in
      present yaml n l (do
        enabled ← field yaml n (codes "enabled") yaml.as_bool l.enabled
        bind ← field yaml n (codes "bind") yaml.as_string l.bind
        port ← field yaml n (codes "port") (as_port yaml) l.port
        max_connections ← field yaml n (codes "max_connections") yaml.as_u32 l.max_connections
        backlog ← field yaml n (codes "backlog") yaml.as_u32 l.backlog
        io_threads ← field yaml n (codes "io_threads") yaml.as_u32 l.io_threads
        ok (record {
          enabled = enabled;
          bind = bind;
          port = port;
          max_connections = max_connections;
          backlog = backlog;
          io_threads = io_threads;
        }))

  unfoldable pub parse_tls_endpoint : yaml.Node → Parsed TlsEndpointConfig
  parse_tls_endpoint n = present yaml n default_tls_endpoint (do
    enabled ← field yaml n (codes "enabled") yaml.as_bool default_tls_endpoint.enabled
    cert ← field yaml n (codes "cert") yaml.as_string default_tls_endpoint.cert
    key ← field yaml n (codes "key") yaml.as_string default_tls_endpoint.key
    ca ← field yaml n (codes "ca") yaml.as_string default_tls_endpoint.ca
    mutual_tls ← field yaml n (codes "mutual") yaml.as_bool default_tls_endpoint.mutual_tls
    min_version ← field yaml n (codes "min_version") yaml.as_string default_tls_endpoint.min_version
    ok (record {
      enabled = enabled;
      cert = cert;
      key = key;
      ca = ca;
      mutual_tls = mutual_tls;
      min_version = min_version;
    }))

  unfoldable pub parse_backend : yaml.Node → Parsed BackendConfig
  parse_backend n = do
    id ← field yaml n (codes "id") yaml.as_string default_backend.id
    type ← field yaml n (codes "type") (as_named yaml backend_types) default_backend.type
    host ← field yaml n (codes "host") yaml.as_string default_backend.host
    port ← field yaml n (codes "port") (as_port yaml) default_backend.port
    role ← field yaml n (codes "role") (as_named yaml backend_roles) default_backend.role
    group ← field yaml n (codes "group") yaml.as_string default_backend.group
    user ← field yaml n (codes "user") yaml.as_string default_backend.user
    password ← field yaml n (codes "password") yaml.as_string default_backend.password
    secrets_file ← field yaml n (codes "secrets_file") yaml.as_string default_backend.secrets_file
    weight ← field yaml n (codes "weight") yaml.as_u32 default_backend.weight
    max_replication_lag_ms ←
        field yaml n (codes "max_replication_lag_ms") yaml.as_u32
          default_backend.max_replication_lag_ms
    pool ← field yaml n (codes "pool") parse_pool default_backend.pool
    child ← yaml.at n (codes "tags")
    tags ←
        if yaml.is_defined child && yaml.is_map child
        then string_map yaml (yaml.pairs child) []
        else ok []
    ok (record {
      id = id;
      type = type;
      host = host;
      port = port;
      role = role;
      group = group;
      user = user;
      password = password;
      secrets_file = secrets_file;
      weight = weight;
      max_replication_lag_ms = max_replication_lag_ms;
      pool = pool;
      tags = tags;
    })

  unfoldable pub parse_schema : yaml.Node → Parsed SchemaConfig
  parse_schema n = do
    name ← field yaml n (codes "name") yaml.as_string default_schema.name
    backend_group ← field yaml n (codes "backend_group") yaml.as_string default_schema.backend_group
    routing_policy ←
        field yaml n (codes "routing_policy") (as_some yaml (as_named yaml routing_policies)) none
    session_recovery ←
        field yaml n (codes "session_recovery") (as_some yaml (as_named yaml recovery_modes)) none
    session_affinity ←
        field yaml n (codes "session_affinity") (as_some yaml (as_named yaml affinity_modes)) none
    read_write_split ← field yaml n (codes "read_write_split") (as_some yaml yaml.as_bool) none
    ok (record {
      name = name;
      backend_group = backend_group;
      routing_policy = routing_policy;
      session_recovery = session_recovery;
      session_affinity = session_affinity;
      read_write_split = read_write_split;
    })

  unfoldable pub parse_tenant_mapping : yaml.Node → Parsed TenantMapping
  parse_tenant_mapping n = do
    tenant ← field yaml n (codes "tenant") yaml.as_string default_tenant_mapping.tenant
    backend_group ←
        field yaml n (codes "backend_group") yaml.as_string default_tenant_mapping.backend_group
    ok (record { tenant = tenant; backend_group = backend_group })

  unfoldable pub parse_tenants : yaml.Node → Parsed RoutingTenantsConfig
  parse_tenants n = do
    enabled ← field yaml n (codes "enabled") yaml.as_bool default_routing_tenants.enabled
    attribute_key ←
        field yaml n (codes "attribute_key") yaml.as_string default_routing_tenants.attribute_key
    mappings ←
        sequence yaml n (codes "mappings") parse_tenant_mapping default_routing_tenants.mappings
    ok (record { enabled = enabled; attribute_key = attribute_key; mappings = mappings })

  unfoldable pub parse_routing : yaml.Node → Parsed RoutingConfig
  parse_routing n = present yaml n default_routing (do
    default_policy ←
        field yaml n (codes "default_policy") (as_named yaml routing_policies)
          default_routing.default_policy
    read_write_split ←
        field yaml n (codes "read_write_split") yaml.as_bool default_routing.read_write_split
    send_writes_to_primary ←
        field yaml n (codes "send_writes_to_primary") yaml.as_bool
          default_routing.send_writes_to_primary
    replication_aware ←
        field yaml n (codes "replication_aware") yaml.as_bool default_routing.replication_aware
    max_replica_lag_ms ←
        field yaml n (codes "max_replica_lag_ms") yaml.as_u32 default_routing.max_replica_lag_ms
    tenants ← field yaml n (codes "tenants") parse_tenants default_routing.tenants
    ok (record {
      default_policy = default_policy;
      read_write_split = read_write_split;
      send_writes_to_primary = send_writes_to_primary;
      replication_aware = replication_aware;
      max_replica_lag_ms = max_replica_lag_ms;
      tenants = tenants;
    }))

  unfoldable pub parse_node : yaml.Node → Parsed NodeConfig
  parse_node n = do
    id ← field yaml n (codes "id") yaml.as_string default_node.id
    name ← field yaml n (codes "name") yaml.as_string default_node.name
    data_dir ← field yaml n (codes "data_dir") yaml.as_string default_node.data_dir
    mode ← field yaml n (codes "mode") (as_named yaml node_modes) default_node.mode
    ok (record { id = id; name = name; data_dir = data_dir; mode = mode })

  unfoldable pub parse_listeners : yaml.Node → Parsed ListenersConfig
  parse_listeners n =
      let admin_default = record default_listener { port = 8080; enabled = true } in
      if yaml.is_defined n
      then (do
        mysql_node ← yaml.at n (codes "mysql")
        mysql ← parse_listener mysql_node 3306
        postgres_node ← yaml.at n (codes "postgres")
        postgres ← parse_listener postgres_node 5432
        admin_node ← yaml.at n (codes "admin")
        admin ← parse_listener admin_node 8080
        ok (record { mysql = mysql; postgres = postgres; admin = record admin { enabled = true } }))
      else ok (record {
        mysql = record default_listener { port = 3306 };
        postgres = record default_listener { port = 5432 };
        admin = admin_default;
      })

  -- `tls.backend`, with `verify_server` beside the fields of every endpoint.
  unfoldable pub parse_backend_tls : yaml.Node → Parsed BackendTlsConfig
  parse_backend_tls n = do
    endpoint ← parse_tls_endpoint n
    if yaml.is_defined n
        then (do
          verify_server ←
              field yaml n (codes "verify_server") yaml.as_bool default_backend_tls.verify_server
          ok (record { endpoint = endpoint; verify_server = verify_server }))
        else ok (record default_backend_tls { endpoint = endpoint })

  unfoldable pub parse_tls : yaml.Node → Parsed TlsConfig
  parse_tls n = do
    frontend_node ← yaml.at n (codes "frontend")
    frontend ← parse_tls_endpoint frontend_node
    backend_node ← yaml.at n (codes "backend")
    backend ← parse_backend_tls backend_node
    ok (record { frontend = frontend; backend = backend })
