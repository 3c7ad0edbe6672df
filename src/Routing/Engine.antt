-- ===== src/Routing/Engine.antt =====
-- routing/src/routing_engine.cpp and routing/src/read_write_router.cpp (`select_role` is in Types).
pub mod Safety
use dbmesh.Prelude.{
  ℕ, Bool, true, false, not, ◌&&◌, Option, none, some, Bytes, if◌then◌else◌, value_or,
}
use dbmesh.Core.Types.{QueryType, Role, primary, replica, role_eq, Result, ok, err}
use dbmesh.Core.Config.{SchemaConfig, RoutingConfig}
use dbmesh.Routing.Types.{
  RoutingError, no_schema_config, SessionView, RwSession, RoutePlan, select_role,
}
use dbmesh.Routing.Classifier.{classify}
use dbmesh.Routing.Extractor.{extract_or}
use dbmesh.Routing.Schemas.{SchemaRegistry, lookup_schema}
use dbmesh.Routing.Backends.{Registry}
use dbmesh.Routing.Policies.{Context, Counters}
use dbmesh.Routing.Selector.{select}

-- Steps 6 and the split: the role of the statement, or the primary when the split is off.
unfoldable pub planned_role : QueryType → SessionView → SchemaConfig → RoutingConfig → Role
planned_role type session config routing =
    let role =
      select_role type (record {
        rw_in_transaction = session.in_transaction;
        rw_autocommit = session.autocommit;
      }) in
    if not (value_or config.read_write_split routing.read_write_split) then primary else role

abbrev pub plan_of : QueryType → Bytes → Bytes → Role → RoutePlan
plan_of type schema backend role = record {
  query_type = type;
  schema = schema;
  plan_backend = backend;
  plan_role = role;
}

-- Step 7: the backend, or the selector's error.
unfoldable pub plan_selected :
    QueryType
    → Bytes
    → Role
    → Result Bytes RoutingError × Counters
    → Result RoutePlan RoutingError × Counters
plan_selected type schema role (err e, k) = (err e, k)
plan_selected type schema role (ok b, k) = (ok (plan_of type schema b role), k)

-- Steps 5 to 7, with the schema's configuration.
unfoldable pub plan_with :
    (ℕ → ℕ → ℕ)
    → Registry
    → RoutingConfig
    → QueryType
    → Bytes
    → SchemaConfig
    → SessionView
    → Context
    → Counters
    → Result RoutePlan RoutingError × Counters
unfolding planned_role plan_selected
plan_with uniform reg routing type schema config session ctx k =
    let role = planned_role type session config routing in
    let selected = plan_selected type schema role (select uniform reg routing config role ctx k) in
    elim session.pinned_backend [
      | none ↦ selected
      | some b ↦ if role_eq role primary then (ok (plan_of type schema b role), k) else selected
    ]

-- `RoutingEngine::plan`. The selector and the engine are given the same routing configuration.
unfoldable pub plan :
    (ℕ → ℕ → ℕ)
    → SchemaRegistry
    → Registry
    → RoutingConfig
    → Bytes
    → SessionView
    → Context
    → Counters
    → Result RoutePlan RoutingError × Counters
unfolding plan_with
plan uniform schemas reg routing sql session ctx k =
    let schema = extract_or sql session.current_schema in
    elim (lookup_schema schemas schema) [
      | none ↦ (err no_schema_config, k)
      | some config ↦ plan_with uniform reg routing (classify sql) schema config session ctx k
    ]
