-- ===== src/Core/Types.antt =====
-- core/include/dbmesh/core/types.h and core/include/dbmesh/core/result.h.
use dbmesh.Prelude.{Bool, true, false}

-- `enum class QueryType`.
pub data QueryType : Type 0 where
  q_select q_insert q_update q_delete q_ddl q_call : QueryType
  q_begin q_commit q_rollback q_set q_use q_unknown : QueryType

abbrev pub is_read : QueryType → Bool
is_read q_select = true
is_read _ = false

abbrev pub is_write : QueryType → Bool
is_write q_insert = true
is_write q_update = true
is_write q_delete = true
is_write q_ddl = true
is_write q_call = true
is_write _ = false

abbrev pub is_unknown : QueryType → Bool
is_unknown q_unknown = true
is_unknown _ = false

-- `enum class BackendRole`.
pub data Role : Type 0 where
  primary replica : Role

abbrev pub role_eq : Role → Role → Bool
role_eq primary primary = true
role_eq replica replica = true
role_eq _ _ = false

-- `enum class BackendState`.
pub data Health : Type 0 where
  healthy degraded failed recovering draining : Health

-- `enum class RoutingPolicy` of core/types.h.
pub data Policy : Type 0 where
  round_robin weighted least_connections latency random failover consistent_hashing : Policy

-- `enum class BackendType`.
pub data BackendType : Type 0 where
  mysql mariadb postgres rds_mysql rds_mariadb rds_postgres : BackendType

-- `enum class RecoveryMode`.
pub data RecoveryMode : Type 0 where
  stateless basic advanced strict : RecoveryMode

-- `enum class AffinityMode`.
pub data AffinityMode : Type 0 where
  no_affinity by_schema by_backend transaction : AffinityMode

-- `enum class NodeMode`.
pub data NodeMode : Type 0 where
  standalone cluster : NodeMode

-- `enum class FailoverPolicy`.
pub data FailoverPolicy : Type 0 where
  immediate graceful manual : FailoverPolicy

-- `Result<T, E>` of core/result.h.
pub data Result {ℓ κ} (A : Type ℓ) (E : Type κ) : Type (ℓ ⊔ κ) where
  ok : A → Result A E
  err : E → Result A E
