-- ===== src/Examples/Planning.antt =====
-- A cluster with a primary and a replica, and what the engine plans on it.
use dbmesh.Prelude.{
  ◌<◌, ℕ, true, false, List, [], ◌∷◌, none, some, Bytes, codes, lookup, assign, emplace, bytes_eq,
  ◌≡◌, ◌≢◌, ◌⊎◌, inl, inr, refl, arith, value_or,
}
use dbmesh.Core.Types.{
  QueryType, q_select, q_insert, Role, primary, replica, round_robin, weighted, ok,
}
use dbmesh.Core.Config.{
  default_routing, default_backend, default_schema, SchemaConfig, RoutingConfig, BackendConfig,
}
use dbmesh.Routing.Types.{SessionView, RoutePlan, select_role}
use dbmesh.Routing.Classifier.{classify, split_statements, strip_comments, drop_spaces}
use dbmesh.Routing.Classifier.Batch.{any_write, statement_types}
use dbmesh.Routing.Extractor.{
  extract_or, extract, extract_run, extract_loop, extract_round, keyword_at, word_at, after_keyword,
  read_qualified_schema, read_ident, read_bare, read_quoted,
}
use dbmesh.Routing.Schemas.{
  SchemaRegistry, empty_registry, load, load_map, find_schema, lookup_schema,
}
use dbmesh.Routing.Backends.{BackendEntry, Registry, ById, init, entry_of}
use dbmesh.Routing.Backends as B
use dbmesh.Routing.Policies.{
  Context, no_counts, pick_share, total_share, choose, policy_select, least, size_max,
}
use dbmesh.Routing.Policies.Fairness.{after_calls, policy_select-served}
use dbmesh.Routing.Policies.Picks.{
  Picked, InList, Saturated, Uniform, AllAtLeast, pick_share-interval, policy_select-Picked,
  least-AllAtLeast,
}
use dbmesh.Routing.Selector.{select, candidates, settle, filter, deref, usable_for_role}
use dbmesh.Routing.Selector.Sound.{InGroup, Fits, Chosen, select-Chosen, select-available}
use dbmesh.Routing.Engine.{plan, plan_with, plan_selected, planned_role}
use dbmesh.Routing.Engine.Safety.{plan-write, plan-replica}

abbrev routing : RoutingConfig
routing = record default_routing { default_policy = weighted; max_replica_lag_ms = 100 }

abbrev backend : Bytes → Role → ℕ → BackendConfig
backend id role weight = record default_backend {
  id = id;
  role = role;
  group = codes "g";
  weight = weight;
}

abbrev schema : Bytes → SchemaConfig
schema name = record default_schema { name = name; backend_group = codes "g" }

abbrev schemas : SchemaRegistry
schemas = load empty_registry (schema (codes "default") ∷ [])

abbrev reg : Registry
reg =
    B.load (λ (m : ById). m) init
      (backend (codes "p") primary 1 ∷ backend (codes "r") replica 2 ∷ [])

abbrev session : SessionView
session = record {
  current_schema = [];
  in_transaction = false;
  autocommit = true;
  pinned_backend = none;
}

abbrev lowest : ℕ → ℕ → ℕ
lowest lo hi = lo

lowest-Uniform : Uniform lowest
lowest-Uniform lo hi h = (omega arith, h)

abbrev ctx : Context
ctx = record { active_connections = none; latency_us = none }

abbrev a_write : Bytes
a_write = codes "INSERT INTO t VALUES (1)"

abbrev a_read : Bytes
a_read = codes "SELECT 1 FROM t"

abbrev planned : QueryType → Bytes → Role → RoutePlan
planned type b role = record { query_type = type; schema = []; plan_backend = b; plan_role = role }

planned_write :
    (plan lowest schemas reg routing a_write session ctx no_counts).0
    ≡ ok (planned q_insert (codes "p") primary)
unfolding plan plan_with plan_selected planned_role select_role lookup_schema find_schema load
    load_map lookup emplace assign bytes_eq extract_or extract extract_run extract_loop
    extract_round keyword_at word_at after_keyword read_qualified_schema read_ident drop_spaces
    read_bare read_quoted classify split_statements strip_comments B.load B.load_entries B.build
    B.index_groups B.get_group B.get_group_by_role B.with_role init empty_registry select settle
    candidates filter deref usable_for_role policy_select choose pick_share total_share
planned_write = refl

planned_read :
    (plan lowest schemas reg routing a_read session ctx no_counts).0
    ≡ ok (planned q_select (codes "r") replica)
unfolding plan plan_with plan_selected planned_role select_role lookup_schema find_schema load
    load_map lookup emplace assign bytes_eq extract_or extract extract_run extract_loop
    extract_round keyword_at word_at after_keyword read_qualified_schema read_ident drop_spaces
    read_bare read_quoted classify split_statements strip_comments B.load B.load_entries B.build
    B.index_groups B.get_group B.get_group_by_role B.with_role init empty_registry select settle
    candidates filter deref usable_for_role policy_select choose pick_share total_share
planned_read = refl

a_write_writes : any_write (statement_types a_write) ≡ true
unfolding classify split_statements strip_comments
a_write_writes = refl

plan-write_example :
    ((planned q_insert (codes "p") primary).plan_role ≡ primary)
    × ((session.pinned_backend ≡ some (codes "p"))
        ⊎ ((config : SchemaConfig) × (e : BackendEntry) × (lookup_schema schemas
                (extract_or a_write session.current_schema)
              ≡ some config)
            × (e.id ≡ codes "p")
            × InGroup reg config.backend_group e
            × Fits routing primary e))
plan-write_example =
    plan-write lowest reg routing session ctx no_counts schemas a_write
      {p = planned q_insert (codes "p") primary} lowest-Uniform planned_write a_write_writes

plan-replica_example :
    (classify a_read ≡ q_select)
    × (session.in_transaction ≡ false)
    × ((config : SchemaConfig) × (e : BackendEntry) × (lookup_schema schemas
            (extract_or a_read session.current_schema)
          ≡ some config)
        × (value_or config.read_write_split routing.read_write_split ≡ true)
        × (e.id ≡ codes "r")
        × InGroup reg config.backend_group e
        × Chosen reg routing config.backend_group replica e)
plan-replica_example =
    plan-replica lowest reg routing session ctx no_counts schemas a_read
      {p = planned q_select (codes "r") replica} lowest-Uniform planned_read refl

abbrev two : List BackendEntry
two = entry_of (backend (codes "p") primary 1) ∷ entry_of (backend (codes "r") primary 2) ∷ []

abbrev shop : SchemaConfig
shop = schema (codes "shop")

selected_write : (select lowest reg routing shop primary ctx no_counts).0 ≡ ok (codes "p")
unfolding candidates select settle filter deref usable_for_role policy_select choose pick_share
    total_share lookup emplace assign bytes_eq init B.load B.load_entries B.build B.index_groups
    B.get_group B.get_group_by_role B.with_role
selected_write = refl

select-Chosen_example :
    (e : BackendEntry) × (e.id ≡ codes "p")
    × InGroup reg (codes "g") e
    × Chosen reg routing (codes "g") primary e
select-Chosen_example =
    select-Chosen lowest reg routing shop primary ctx no_counts lowest-Uniform {b = codes "p"}
      selected_write

only_primary :
    candidates reg routing (codes "g") primary ≡ entry_of (backend (codes "p") primary 1) ∷ []
unfolding candidates select settle filter deref usable_for_role policy_select choose pick_share
    total_share lookup emplace assign bytes_eq init B.load B.load_entries B.build B.index_groups
    B.get_group B.get_group_by_role B.with_role
only_primary = refl

some_left : candidates reg routing (codes "g") primary ≢ []
some_left h = cc (only_primary)

all_named : (e : BackendEntry) → InList e (candidates reg routing (codes "g") primary) → e.id ≢ []
unfolding candidates select settle filter deref usable_for_role policy_select choose pick_share
    total_share lookup emplace assign bytes_eq init B.load B.load_entries B.build B.index_groups
    B.get_group B.get_group_by_role B.with_role
all_named e (inl h) k = cc
all_named e (inr h) k = absurd h

select-available_example :
    (b : Bytes) × ((select lowest reg routing shop primary ctx no_counts).0 ≡ ok b)
select-available_example =
    select-available lowest reg routing shop primary ctx no_counts lowest-Uniform some_left
      all_named (λ h. h)

pick_share-interval_test : pick_share two [] 2 ≡ codes "r"
unfolding total_share
pick_share-interval_test =
    pick_share-interval (entry_of (backend (codes "p") primary 1) ∷ []) []
      (entry_of (backend (codes "r") primary 2)) [] 1 (omega arith)

policy_select-served_example :
    (t : ℕ) × (t < 2)
    × ((policy_select lowest round_robin two ctx (after_calls lowest two ctx no_counts t)).0
        ≡ codes "r")
policy_select-served_example =
    policy_select-served lowest two ctx no_counts 1 (omega arith) (omega arith)

policy_select-Picked_test :
    Picked (policy_select lowest round_robin two ctx no_counts).0 two
    ⊎ (((policy_select lowest round_robin two ctx no_counts).0 ≡ [])
        × Saturated round_robin ctx two)
policy_select-Picked_test =
    policy_select-Picked lowest round_robin (entry_of (backend (codes "p") primary 1))
      (entry_of (backend (codes "r") primary 2) ∷ []) ctx no_counts lowest-Uniform

abbrev busy : Bytes → ℕ
busy id = elim id [ [] ↦ 0 | c ∷ cs ↦ c ]

least-AllAtLeast_test :
    ((least busy two [] size_max ≡ []) × AllAtLeast busy size_max two)
    ⊎ (Picked (least busy two [] size_max) two
        × AllAtLeast busy (busy (least busy two [] size_max)) two)
least-AllAtLeast_test = least-AllAtLeast busy two
