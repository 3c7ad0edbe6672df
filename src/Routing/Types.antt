-- ===== src/Routing/Types.antt =====
-- routing/include/dbmesh/routing/{errors,session_view,read_write_router,routing_engine}.h.
use dbmesh.Prelude.{Bool, Option, Bytes, if◌then◌else◌}
use dbmesh.Core.Types.{QueryType, q_select, Role, primary, replica}

-- `enum class RoutingError`.
pub data RoutingError : Type 0 where
  no_schema_config no_backend_available backend_disconnected : RoutingError
  firewall_blocked rate_limited pool_queue_full : RoutingError

-- `SessionView`.
pub record SessionView : Type 0 where
  pub current_schema : Bytes
  pub in_transaction : Bool
  pub autocommit : Bool
  pub pinned_backend : Option Bytes

-- `RwSessionState`.
pub record RwSession : Type 0 where
  pub rw_in_transaction : Bool
  pub rw_autocommit : Bool

-- `RoutePlan`.
pub record RoutePlan : Type 0 where
  pub query_type : QueryType
  pub schema : Bytes
  pub plan_backend : Bytes
  pub plan_role : Role

-- `ReadWriteRouter::select_role`.
abbrev pub role_of_type : QueryType → Role
role_of_type q_select = replica
role_of_type _ = primary

unfoldable pub select_role : QueryType → RwSession → Role
select_role t s = if s.rw_in_transaction then primary else role_of_type t
