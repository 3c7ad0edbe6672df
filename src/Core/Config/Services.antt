-- ===== src/Core/Config/Services.antt =====
-- core/include/dbmesh/core/config.h: sessions, failover, the cluster and authentication.
use dbmesh.Prelude.{ℕ, Bool, true, false, List, [], ◌∷◌, Option, none, Bytes, codes}
use dbmesh.Core.Types.{RecoveryMode, basic, AffinityMode, transaction, FailoverPolicy, immediate}

-- `PerUserSessionConfig`.
pub record PerUserSessionConfig : Type 0 where
  pub user : Bytes
  pub recovery_mode : Option RecoveryMode
  pub affinity : Option AffinityMode

abbrev pub default_per_user_session : PerUserSessionConfig
default_per_user_session = record { user = []; recovery_mode = none; affinity = none }

-- `SessionConfig`.
pub record SessionConfig : Type 0 where
  pub recovery_mode : RecoveryMode
  pub affinity : AffinityMode
  pub max_idle_sec : ℕ
  pub max_lifetime_sec : ℕ
  pub per_user : List PerUserSessionConfig

abbrev pub default_session : SessionConfig
default_session = record {
  recovery_mode = basic;
  affinity = transaction;
  max_idle_sec = 300;
  max_lifetime_sec = 3600;
  per_user = [];
}

-- `HealthCheckConfig`.
pub record HealthCheckConfig : Type 0 where
  pub interval_ms : ℕ
  pub timeout_ms : ℕ
  pub failure_threshold : ℕ
  pub recovery_threshold : ℕ
  pub method : Bytes
  pub query : Bytes

abbrev pub default_health_check : HealthCheckConfig
default_health_check = record {
  interval_ms = 100;
  timeout_ms = 500;
  failure_threshold = 3;
  recovery_threshold = 2;
  method = codes "query";
  query = codes "SELECT 1";
}

-- `QueryRecoveryConfig`.
pub record QueryRecoveryConfig : Type 0 where
  pub enabled : Bool
  pub retry_selects : Bool
  pub retry_writes : Bool
  pub max_retries : ℕ
  pub retry_delay_ms : ℕ
  pub retry_backoff : Bytes

abbrev pub default_query_recovery : QueryRecoveryConfig
default_query_recovery = record {
  enabled = true;
  retry_selects = true;
  retry_writes = false;
  max_retries = 3;
  retry_delay_ms = 100;
  retry_backoff = codes "exponential";
}

-- `FailoverConfig`.
pub record FailoverConfig : Type 0 where
  pub enabled : Bool
  pub policy : FailoverPolicy
  pub grace_period_ms : ℕ
  pub promotion_enabled : Bool
  pub promotion_strategy : Bytes
  pub query_recovery : QueryRecoveryConfig
  pub health_check : HealthCheckConfig

abbrev pub default_failover : FailoverConfig
default_failover = record {
  enabled = true;
  policy = immediate;
  grace_period_ms = 5000;
  promotion_enabled = true;
  promotion_strategy = codes "most_recent";
  query_recovery = default_query_recovery;
  health_check = default_health_check;
}

-- `GossipConfig`.
pub record GossipConfig : Type 0 where
  pub interval_ms : ℕ
  pub fanout : ℕ
  pub suspicion_mult : ℕ
  pub retransmit_mult : ℕ
  pub sync_keys : List Bytes

abbrev pub default_gossip : GossipConfig
default_gossip = record {
  interval_ms = 200;
  fanout = 3;
  suspicion_mult = 4;
  retransmit_mult = 4;
  sync_keys =
      codes "schema_registry"
      ∷ codes "backend_state"
      ∷ codes "membership"
      ∷ codes "health"
      ∷ codes "config_versions"
      ∷ [];
}

-- `ClusterConfig`.
pub record ClusterConfig : Type 0 where
  pub enabled : Bool
  pub bind : Bytes
  pub port : ℕ
  pub discovery : Bytes
  pub seed_nodes : List Bytes
  pub seed_dns : Bytes
  pub gossip : GossipConfig

abbrev pub default_cluster : ClusterConfig
default_cluster = record {
  enabled = false;
  bind = codes "0.0.0.0";
  port = 7946;
  discovery = codes "hybrid";
  seed_nodes = [];
  seed_dns = [];
  gossip = default_gossip;
}

-- `LdapConfig`.
pub record LdapConfig : Type 0 where
  pub enabled : Bool
  pub url : Bytes
  pub base_dn : Bytes
  pub bind_dn : Bytes
  pub bind_password : Bytes
  pub user_filter : Bytes
  pub group_attribute : Bytes
  pub timeout_ms : ℕ
  pub start_tls : Bool

abbrev pub default_ldap : LdapConfig
default_ldap = record {
  enabled = false;
  url = [];
  base_dn = [];
  bind_dn = [];
  bind_password = [];
  user_filter = codes "(uid={user})";
  group_attribute = codes "memberOf";
  timeout_ms = 3000;
  start_tls = false;
}

-- `JwtConfig`.
pub record JwtConfig : Type 0 where
  pub enabled : Bool
  pub algorithm : Bytes
  pub public_key : Bytes
  pub secret : Bytes
  pub issuer : Bytes
  pub audience : Bytes
  pub leeway_sec : ℕ

abbrev pub default_jwt : JwtConfig
default_jwt = record {
  enabled = false;
  algorithm = codes "RS256";
  public_key = [];
  secret = [];
  issuer = [];
  audience = [];
  leeway_sec = 30;
}

-- `AuthLocalConfig`.
pub record AuthLocalConfig : Type 0 where
  pub users_file : Bytes

abbrev pub default_auth_local : AuthLocalConfig
default_auth_local = record { users_file = codes "/etc/dbmesh/users.yaml" }

-- `AuthConfig`.
pub record AuthConfig : Type 0 where
  pub method : Bytes
  pub local : AuthLocalConfig
  pub ldap : LdapConfig
  pub jwt : JwtConfig

abbrev pub default_auth : AuthConfig
default_auth = record {
  method = codes "local";
  local = default_auth_local;
  ldap = default_ldap;
  jwt = default_jwt;
}

-- `RbacConfig`.
pub record RbacConfig : Type 0 where
  pub enabled : Bool
  pub roles_file : Bytes

abbrev pub default_rbac : RbacConfig
default_rbac = record { enabled = true; roles_file = codes "/etc/dbmesh/roles.yaml" }
