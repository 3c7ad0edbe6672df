-- ===== src/Core/Config/Mesh.antt =====
-- core/include/dbmesh/core/config.h: the node, its listeners, the backends, the schemas and routing.
use dbmesh.Prelude.{ℕ, Bool, true, false, List, [], Option, none, Bytes, codes}
use dbmesh.Core.Types.{
  NodeMode, standalone, BackendType, mysql, Role, primary, Policy, round_robin, RecoveryMode,
  AffinityMode,
}

-- `NodeConfig`.
pub record NodeConfig : Type 0 where
  pub id : Bytes
  pub name : Bytes
  pub data_dir : Bytes
  pub mode : NodeMode

abbrev pub default_node : NodeConfig
default_node = record { id = []; name = []; data_dir = codes "/var/lib/dbmesh"; mode = standalone }

-- `ListenerConfig`.
pub record ListenerConfig : Type 0 where
  pub enabled : Bool
  pub bind : Bytes
  pub port : ℕ
  pub max_connections : ℕ
  pub backlog : ℕ
  pub io_threads : ℕ

abbrev pub default_listener : ListenerConfig
default_listener = record {
  enabled = false;
  bind = codes "0.0.0.0";
  port = 0;
  max_connections = 100000;
  backlog = 1024;
  io_threads = 4;
}

-- `ListenersConfig`.
pub record ListenersConfig : Type 0 where
  pub mysql : ListenerConfig
  pub postgres : ListenerConfig
  pub admin : ListenerConfig

abbrev pub default_listeners : ListenersConfig
default_listeners = record {
  mysql = default_listener;
  postgres = default_listener;
  admin = default_listener;
}

-- `TlsEndpointConfig`.
pub record TlsEndpointConfig : Type 0 where
  pub enabled : Bool
  pub cert : Bytes
  pub key : Bytes
  pub ca : Bytes
  pub mutual_tls : Bool
  pub min_version : Bytes

abbrev pub default_tls_endpoint : TlsEndpointConfig
default_tls_endpoint = record {
  enabled = false;
  cert = [];
  key = [];
  ca = [];
  mutual_tls = false;
  min_version = codes "TLSv1.2";
}

-- `BackendTlsConfig`.
pub record BackendTlsConfig : Type 0 where
  pub endpoint : TlsEndpointConfig
  pub verify_server : Bool

abbrev pub default_backend_tls : BackendTlsConfig
default_backend_tls = record { endpoint = default_tls_endpoint; verify_server = true }

-- `TlsConfig`.
pub record TlsConfig : Type 0 where
  pub frontend : TlsEndpointConfig
  pub backend : BackendTlsConfig

abbrev pub default_tls : TlsConfig
default_tls = record { frontend = default_tls_endpoint; backend = default_backend_tls }

-- `PoolConfig`.
pub record PoolConfig : Type 0 where
  pub min : ℕ
  pub max : ℕ
  pub idle_timeout_sec : ℕ
  pub connect_timeout_ms : ℕ
  pub acquire_timeout_ms : ℕ
  pub warm : Bool

abbrev pub default_pool : PoolConfig
default_pool = record {
  min = 10;
  max = 100;
  idle_timeout_sec = 60;
  connect_timeout_ms = 2000;
  acquire_timeout_ms = 5000;
  warm = true;
}

-- `BackendConfig`.
pub record BackendConfig : Type 0 where
  pub id : Bytes
  pub type : BackendType
  pub host : Bytes
  pub port : ℕ
  pub role : Role
  pub group : Bytes
  pub user : Bytes
  pub password : Bytes
  pub secrets_file : Bytes
  pub weight : ℕ
  pub max_replication_lag_ms : ℕ
  pub pool : PoolConfig
  pub tags : List (Bytes × Bytes)

abbrev pub default_backend : BackendConfig
default_backend = record {
  id = [];
  type = mysql;
  host = [];
  port = 3306;
  role = primary;
  group = [];
  user = [];
  password = [];
  secrets_file = [];
  weight = 100;
  max_replication_lag_ms = 500;
  pool = default_pool;
  tags = [];
}

-- `SchemaConfig`.
pub record SchemaConfig : Type 0 where
  pub name : Bytes
  pub backend_group : Bytes
  pub routing_policy : Option Policy
  pub session_recovery : Option RecoveryMode
  pub session_affinity : Option AffinityMode
  pub read_write_split : Option Bool

abbrev pub default_schema : SchemaConfig
default_schema = record {
  name = [];
  backend_group = [];
  routing_policy = none;
  session_recovery = none;
  session_affinity = none;
  read_write_split = none;
}

-- `TenantMapping`.
pub record TenantMapping : Type 0 where
  pub tenant : Bytes
  pub backend_group : Bytes

abbrev pub default_tenant_mapping : TenantMapping
default_tenant_mapping = record { tenant = []; backend_group = [] }

-- `RoutingTenantsConfig`.
pub record RoutingTenantsConfig : Type 0 where
  pub enabled : Bool
  pub attribute_key : Bytes
  pub mappings : List TenantMapping

abbrev pub default_routing_tenants : RoutingTenantsConfig
default_routing_tenants = record { enabled = false; attribute_key = codes "tenant"; mappings = [] }

-- `RoutingConfig`.
pub record RoutingConfig : Type 0 where
  pub default_policy : Policy
  pub read_write_split : Bool
  pub send_writes_to_primary : Bool
  pub replication_aware : Bool
  pub max_replica_lag_ms : ℕ
  pub tenants : RoutingTenantsConfig

abbrev pub default_routing : RoutingConfig
default_routing = record {
  default_policy = round_robin;
  read_write_split = true;
  send_writes_to_primary = true;
  replication_aware = true;
  max_replica_lag_ms = 500;
  tenants = default_routing_tenants;
}
