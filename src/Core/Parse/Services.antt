-- ===== src/Core/Parse/Services.antt =====
-- core/src/config.cpp: `parse_session` to `parse_cluster`, and the parts of `parse_config` on
-- authentication.
use dbmesh.Prelude.{codes}
use dbmesh.Core.Types.{ok}
use dbmesh.Core.Config.{
  PerUserSessionConfig, SessionConfig, HealthCheckConfig, QueryRecoveryConfig, FailoverConfig,
  GossipConfig, ClusterConfig, LdapConfig, JwtConfig, AuthLocalConfig, AuthConfig, RbacConfig,
  default_per_user_session, default_session, default_health_check, default_query_recovery,
  default_failover, default_gossip, default_cluster, default_ldap, default_jwt, default_auth_local,
  default_auth, default_rbac,
}
use dbmesh.Core.Yaml.{
  Yaml, Parsed, ◌>>=◌, field, present, sequence, as_port, as_named, as_some, recovery_modes,
  affinity_modes, failover_policies,
}

module _ (yaml : Yaml) where
  unfoldable pub parse_per_user : yaml.Node → Parsed PerUserSessionConfig
  parse_per_user n = do
    user ← field yaml n (codes "user") yaml.as_string default_per_user_session.user
    recovery_mode ←
        field yaml n (codes "recovery_mode") (as_some yaml (as_named yaml recovery_modes))
          default_per_user_session.recovery_mode
    affinity ←
        field yaml n (codes "affinity") (as_some yaml (as_named yaml affinity_modes))
          default_per_user_session.affinity
    ok (record { user = user; recovery_mode = recovery_mode; affinity = affinity })

  unfoldable pub parse_session : yaml.Node → Parsed SessionConfig
  parse_session n = present yaml n default_session (do
    recovery_mode ←
        field yaml n (codes "recovery_mode") (as_named yaml recovery_modes)
          default_session.recovery_mode
    affinity ←
        field yaml n (codes "affinity") (as_named yaml affinity_modes) default_session.affinity
    max_idle_sec ← field yaml n (codes "max_idle_sec") yaml.as_u32 default_session.max_idle_sec
    max_lifetime_sec ←
        field yaml n (codes "max_lifetime_sec") yaml.as_u32 default_session.max_lifetime_sec
    per_user ← sequence yaml n (codes "per_user") parse_per_user default_session.per_user
    ok (record {
      recovery_mode = recovery_mode;
      affinity = affinity;
      max_idle_sec = max_idle_sec;
      max_lifetime_sec = max_lifetime_sec;
      per_user = per_user;
    }))

  unfoldable pub parse_health_check : yaml.Node → Parsed HealthCheckConfig
  parse_health_check n = present yaml n default_health_check (do
    interval_ms ← field yaml n (codes "interval_ms") yaml.as_u32 default_health_check.interval_ms
    timeout_ms ← field yaml n (codes "timeout_ms") yaml.as_u32 default_health_check.timeout_ms
    failure_threshold ←
        field yaml n (codes "failure_threshold") yaml.as_u32 default_health_check.failure_threshold
    recovery_threshold ←
        field yaml n (codes "recovery_threshold") yaml.as_u32
          default_health_check.recovery_threshold
    method ← field yaml n (codes "method") yaml.as_string default_health_check.method
    query ← field yaml n (codes "query") yaml.as_string default_health_check.query
    ok (record {
      interval_ms = interval_ms;
      timeout_ms = timeout_ms;
      failure_threshold = failure_threshold;
      recovery_threshold = recovery_threshold;
      method = method;
      query = query;
    }))

  unfoldable pub parse_query_recovery : yaml.Node → Parsed QueryRecoveryConfig
  parse_query_recovery n = do
    enabled ← field yaml n (codes "enabled") yaml.as_bool default_query_recovery.enabled
    retry_selects ←
        field yaml n (codes "retry_selects") yaml.as_bool default_query_recovery.retry_selects
    retry_writes ←
        field yaml n (codes "retry_writes") yaml.as_bool default_query_recovery.retry_writes
    max_retries ← field yaml n (codes "max_retries") yaml.as_u32 default_query_recovery.max_retries
    retry_delay_ms ←
        field yaml n (codes "retry_delay_ms") yaml.as_u32 default_query_recovery.retry_delay_ms
    retry_backoff ←
        field yaml n (codes "retry_backoff") yaml.as_string default_query_recovery.retry_backoff
    ok (record {
      enabled = enabled;
      retry_selects = retry_selects;
      retry_writes = retry_writes;
      max_retries = max_retries;
      retry_delay_ms = retry_delay_ms;
      retry_backoff = retry_backoff;
    })

  unfoldable pub parse_failover : yaml.Node → Parsed FailoverConfig
  parse_failover n = present yaml n default_failover (do
    enabled ← field yaml n (codes "enabled") yaml.as_bool default_failover.enabled
    policy ← field yaml n (codes "policy") (as_named yaml failover_policies) default_failover.policy
    grace_period_ms ←
        field yaml n (codes "grace_period_ms") yaml.as_u32 default_failover.grace_period_ms
    promotion_enabled ←
        field yaml n (codes "promotion_enabled") yaml.as_bool default_failover.promotion_enabled
    promotion_strategy ←
        field yaml n (codes "promotion_strategy") yaml.as_string default_failover.promotion_strategy
    health_check ←
        field yaml n (codes "health_check") parse_health_check default_failover.health_check
    query_recovery ←
        field yaml n (codes "query_recovery") parse_query_recovery default_failover.query_recovery
    ok (record {
      enabled = enabled;
      policy = policy;
      grace_period_ms = grace_period_ms;
      promotion_enabled = promotion_enabled;
      promotion_strategy = promotion_strategy;
      health_check = health_check;
      query_recovery = query_recovery;
    }))

  unfoldable pub parse_gossip : yaml.Node → Parsed GossipConfig
  parse_gossip n = do
    interval_ms ← field yaml n (codes "interval_ms") yaml.as_u32 default_gossip.interval_ms
    fanout ← field yaml n (codes "fanout") yaml.as_u32 default_gossip.fanout
    suspicion_mult ← field yaml n (codes "suspicion_mult") yaml.as_u32 default_gossip.suspicion_mult
    retransmit_mult ←
        field yaml n (codes "retransmit_mult") yaml.as_u32 default_gossip.retransmit_mult
    sync_keys ← sequence yaml n (codes "sync_keys") yaml.as_string default_gossip.sync_keys
    ok (record {
      interval_ms = interval_ms;
      fanout = fanout;
      suspicion_mult = suspicion_mult;
      retransmit_mult = retransmit_mult;
      sync_keys = sync_keys;
    })

  unfoldable pub parse_cluster : yaml.Node → Parsed ClusterConfig
  parse_cluster n = present yaml n default_cluster (do
    enabled ← field yaml n (codes "enabled") yaml.as_bool default_cluster.enabled
    bind ← field yaml n (codes "bind") yaml.as_string default_cluster.bind
    port ← field yaml n (codes "port") (as_port yaml) default_cluster.port
    discovery ← field yaml n (codes "discovery") yaml.as_string default_cluster.discovery
    seed_dns ← field yaml n (codes "seed_dns") yaml.as_string default_cluster.seed_dns
    seed_nodes ← sequence yaml n (codes "seed_nodes") yaml.as_string default_cluster.seed_nodes
    gossip ← field yaml n (codes "gossip") parse_gossip default_cluster.gossip
    ok (record {
      enabled = enabled;
      bind = bind;
      port = port;
      discovery = discovery;
      seed_dns = seed_dns;
      seed_nodes = seed_nodes;
      gossip = gossip;
    }))

  unfoldable pub parse_ldap : yaml.Node → Parsed LdapConfig
  parse_ldap n = do
    enabled ← field yaml n (codes "enabled") yaml.as_bool default_ldap.enabled
    url ← field yaml n (codes "url") yaml.as_string default_ldap.url
    base_dn ← field yaml n (codes "base_dn") yaml.as_string default_ldap.base_dn
    bind_dn ← field yaml n (codes "bind_dn") yaml.as_string default_ldap.bind_dn
    bind_password ← field yaml n (codes "bind_password") yaml.as_string default_ldap.bind_password
    user_filter ← field yaml n (codes "user_filter") yaml.as_string default_ldap.user_filter
    group_attribute ←
        field yaml n (codes "group_attribute") yaml.as_string default_ldap.group_attribute
    timeout_ms ← field yaml n (codes "timeout_ms") yaml.as_u32 default_ldap.timeout_ms
    start_tls ← field yaml n (codes "start_tls") yaml.as_bool default_ldap.start_tls
    ok (record {
      enabled = enabled;
      url = url;
      base_dn = base_dn;
      bind_dn = bind_dn;
      bind_password = bind_password;
      user_filter = user_filter;
      group_attribute = group_attribute;
      timeout_ms = timeout_ms;
      start_tls = start_tls;
    })

  unfoldable pub parse_jwt : yaml.Node → Parsed JwtConfig
  parse_jwt n = do
    enabled ← field yaml n (codes "enabled") yaml.as_bool default_jwt.enabled
    algorithm ← field yaml n (codes "algorithm") yaml.as_string default_jwt.algorithm
    public_key ← field yaml n (codes "public_key") yaml.as_string default_jwt.public_key
    secret ← field yaml n (codes "secret") yaml.as_string default_jwt.secret
    issuer ← field yaml n (codes "issuer") yaml.as_string default_jwt.issuer
    audience ← field yaml n (codes "audience") yaml.as_string default_jwt.audience
    leeway_sec ← field yaml n (codes "leeway_sec") yaml.as_u32 default_jwt.leeway_sec
    ok (record {
      enabled = enabled;
      algorithm = algorithm;
      public_key = public_key;
      secret = secret;
      issuer = issuer;
      audience = audience;
      leeway_sec = leeway_sec;
    })

  -- `a["local"] && a["local"]["users_file"]`.
  unfoldable pub parse_auth_local : yaml.Node → Parsed AuthLocalConfig
  parse_auth_local n = do
    users_file ← field yaml n (codes "users_file") yaml.as_string default_auth_local.users_file
    ok (record { users_file = users_file })

  unfoldable pub parse_auth : yaml.Node → Parsed AuthConfig
  parse_auth n = do
    method ← field yaml n (codes "method") yaml.as_string default_auth.method
    local ← field yaml n (codes "local") parse_auth_local default_auth.local
    ldap ← field yaml n (codes "ldap") parse_ldap default_auth.ldap
    jwt ← field yaml n (codes "jwt") parse_jwt default_auth.jwt
    ok (record { method = method; local = local; ldap = ldap; jwt = jwt })

  unfoldable pub parse_rbac : yaml.Node → Parsed RbacConfig
  parse_rbac n = do
    enabled ← field yaml n (codes "enabled") yaml.as_bool default_rbac.enabled
    roles_file ← field yaml n (codes "roles_file") yaml.as_string default_rbac.roles_file
    ok (record { enabled = enabled; roles_file = roles_file })
