-- ===== src/Examples/Starting.antt =====
-- A configuration with a primary and a replica: accepted, loaded, started and reloaded.
use dbmesh.Prelude.{
  not, ◌&&◌, ℕ, ◌≡◌, ◌↔◌, refl, arith, true, false, List, [], ◌∷◌, ◌++◌, none, some, Bytes, codes,
  lookup, assign, emplace, bytes_eq, is_some,
}
use dbmesh.Core.Types.{ok, err, replica, q_select}
use dbmesh.Core.Config.{
  Config, BackendConfig, SchemaConfig, default_config, default_node, default_backend,
  default_schema,
}
use dbmesh.Core.Yaml.{Yaml, yaml_exception}
use dbmesh.Core.Validate.{validate, check_backends, check_schemas, seen, duplicate_backend}
use dbmesh.Core.Valid.{Valid, validate-Valid}
use dbmesh.Core.Load.{load, parse_file}
use dbmesh.Routing.Types.{SessionView, RoutePlan, select_role}
use dbmesh.Routing.Schemas.{lookup_schema, load_map, find_schema, empty_registry}
use dbmesh.Routing.Schemas as S
use dbmesh.Routing.Backends.{ById}
use dbmesh.Routing.Backends as B
use dbmesh.Routing.Classifier.{classify, split_statements, strip_comments, drop_spaces}
use dbmesh.Routing.Extractor.{
  extract_or, extract, extract_run, extract_loop, extract_round, keyword_at, word_at, after_keyword,
  read_qualified_schema, read_ident, read_bare, read_quoted,
}
use dbmesh.Routing.Policies.{Context, no_counts, choose, policy_select}
use dbmesh.Routing.Policies.Picks.{Uniform}
use dbmesh.Routing.Selector.{select, candidates, settle, filter, deref, usable_for_role}
use dbmesh.Routing.Engine.{plan, plan_with, plan_selected, planned_role}
use dbmesh.Pool.Manager.{get_pool}
use dbmesh.Application.{create_pools, Application, Signal, sigterm, sighup, start_subsystems}
use dbmesh.Application.Started.{Served, start_subsystems-found, start_subsystems-plan}
use dbmesh.Application.Reloads.{Files, signals, load-ok, signals-Valid}

abbrev backend : Bytes → BackendConfig
backend id = record default_backend {
  id = id;
  host = codes "localhost";
  port = 3306;
  group = codes "g";
}

abbrev shop : SchemaConfig
shop = record default_schema { name = codes "shop"; backend_group = codes "g" }

abbrev pub cfg : Config
cfg = record default_config {
  node = record default_node { id = codes "n" };
  backends = backend (codes "p") ∷ (record (backend (codes "r")) { role = replica }) ∷ [];
  schemas = shop ∷ [];
}

accepted_config : validate cfg ≡ none
unfolding validate check_backends check_schemas seen bytes_eq
accepted_config = refl

duplicate_test :
    validate (record cfg { backends = backend (codes "p") ∷ backend (codes "p") ∷ [] })
    ≡ some (duplicate_backend (codes "p"))
unfolding validate check_backends check_schemas seen bytes_eq
duplicate_test = refl

validate-Valid_example : (validate cfg ≡ none) ↔ Valid cfg
validate-Valid_example = validate-Valid cfg

abbrev same : ById → ById
same m = m

start_subsystems-found_example :
    Served same cfg 0 (backend (codes "p"))
    × (lookup_schema (start_subsystems same cfg).schema_registry (codes "shop") ≡ some shop)
start_subsystems-found_example =
    start_subsystems-found same cfg 0 0 (backend (codes "p")) shop accepted_config refl refl

abbrev pub lowest : ℕ → ℕ → ℕ
lowest lo hi = lo

pub lowest-Uniform : Uniform lowest
lowest-Uniform lo hi h = (omega arith, h)

abbrev session : SessionView
session = record {
  current_schema = [];
  in_transaction = false;
  autocommit = true;
  pinned_backend = none;
}

abbrev pub a_read : Bytes
a_read = codes "SELECT 1 FROM shop.t"

abbrev to_replica : RoutePlan
to_replica = record {
  query_type = q_select;
  schema = codes "shop";
  plan_backend = codes "r";
  plan_role = replica;
}

abbrev ctx : Context
ctx = record { active_connections = none; latency_us = none }

planned_read :
    (plan lowest
      (start_subsystems same cfg).schema_registry
      (start_subsystems same cfg).backend_registry
      cfg.routing
      a_read
      session
      ctx
      no_counts).0
    ≡ ok to_replica
unfolding plan plan_with plan_selected planned_role select_role lookup_schema find_schema S.load
    load_map lookup emplace assign bytes_eq extract_or extract extract_run extract_loop
    extract_round keyword_at word_at after_keyword read_qualified_schema read_ident drop_spaces
    read_bare read_quoted classify split_statements strip_comments B.load B.load_entries B.build
    B.index_groups B.get_group B.get_group_by_role B.with_role B.init empty_registry select settle
    candidates filter deref usable_for_role policy_select choose start_subsystems create_pools
planned_read = refl

start_subsystems-plan_example :
    is_some (get_pool (start_subsystems same cfg).pool_manager (codes "r")) ≡ true
start_subsystems-plan_example =
    start_subsystems-plan lowest same cfg a_read session ctx no_counts {p = to_replica}
      lowest-Uniform refl planned_read

-- A document is a map from paths to scalars.
abbrev documents : List (Bytes × Bytes) → Yaml
documents pairs = record {
  Node = Bytes;
  at = λ p k. ok (p ++ b'.' ∷ k);
  is_defined = λ p. is_some (lookup p pairs);
  is_sequence = λ p. false;
  is_map = λ p. false;
  items = λ p. [];
  pairs = λ p. [];
  as_string = λ p. elim (lookup p pairs) [ none ↦ err yaml_exception | some s ↦ ok s ];
  as_u32 = λ p. err yaml_exception;
  as_bool = λ p. err yaml_exception;
  as_double = λ p. err yaml_exception;
}

abbrev yaml : Yaml
yaml = documents ((codes ".node.id", codes "n") ∷ [])

abbrev files : Files yaml (codes "dbmesh.yaml")
files = (λ path. ok true, λ path. ok [])

load-ok_example : (load yaml files.0 files.1 (codes "dbmesh.yaml") ≡ ok cfg) ↔ (
    (files.0 (codes "dbmesh.yaml") ≡ ok true)
    × (parse_file yaml files.0 files.1 (codes "dbmesh.yaml") ≡ ok cfg)
    × Valid cfg)
load-ok_example = load-ok yaml (codes "dbmesh.yaml") files cfg

abbrev app : Application
app = record {
  config = cfg;
  subsystems = start_subsystems same cfg;
  shutting_down = false;
  stopped = false;
  armed = true;
}

abbrev arriving : List (Signal × Files yaml (codes "dbmesh.yaml"))
arriving = (sighup, files) ∷ (sigterm, files) ∷ []

signals-Valid_example :
    Valid (signals yaml (codes "dbmesh.yaml") app arriving).config
    × ((signals yaml (codes "dbmesh.yaml") app arriving).subsystems ≡ app.subsystems)
    × ((app.shutting_down && not (signals yaml (codes "dbmesh.yaml") app arriving).shutting_down)
        ≡ false)
signals-Valid_example =
    signals-Valid yaml (codes "dbmesh.yaml") app arriving ((validate-Valid cfg).0 accepted_config)
