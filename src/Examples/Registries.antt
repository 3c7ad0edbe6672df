-- ===== src/Examples/Registries.antt =====
-- Histories of the two registries.
use dbmesh.Prelude.{
  ℕ, List, [], ◌∷◌, some, Bytes, codes, is_some, lookup, emplace, bytes_eq, length, get_elem?, true,
  ◌≡◌, ◌≢◌, refl,
}
use dbmesh.Core.Types.{degraded, failed}
use dbmesh.Core.Config.{default_backend, default_schema, SchemaConfig, BackendConfig}
use dbmesh.Routing.Schemas.{
  SchemaRegistry, empty_registry, load, load_map, lookup_schema, upsert, remove, default_name,
}
use dbmesh.Routing.Schemas.Laws.{Write, upserts, removes, apply_all, lookup-apply_all, lookup-write}
use dbmesh.Routing.Schemas.Catalog.{view, run_catalog, find, lookup_schema-run}
use dbmesh.Routing.Schemas.Catalog as Catalog
use dbmesh.Routing.Backends as B
use dbmesh.Routing.Backends.{BackendEntry, ById, Registry, init, entry_of, get, update_state}
use dbmesh.Routing.Backends.Coherence.{Coherent, Op, loads, adds, states, run, run-init-Coherent}
use dbmesh.Routing.Backends.Coherence as C
use dbmesh.Routing.Backends.Updates.{update_state_shared, update_state-add}

abbrev named : Bytes → SchemaConfig
named name = record default_schema { name = name; backend_group = codes "g" }

abbrev schemas : SchemaRegistry
schemas = load empty_registry (named default_name ∷ [])

abbrev writes : List Write
writes = upserts (named (codes "shop")) ∷ removes default_name ∷ removes (codes "shop") ∷ []

schemas_default : lookup default_name schemas.current ≡ some (named default_name)
unfolding load load_map lookup emplace bytes_eq
schemas_default = refl

lookup-apply_all_test :
    (s : SchemaConfig) × (lookup_schema (apply_all schemas writes) (codes "shop") ≡ some s)
lookup-apply_all_test =
    lookup-apply_all schemas writes (codes "shop") {d = named default_name} schemas_default

lookup-write_test :
    (lookup_schema (upsert schemas (named (codes "shop"))) (codes "shop")
      ≡ some (named (codes "shop")))
    × (default_name ≢ codes "shop"
        → is_some (lookup default_name schemas.current) ≡ true
        → lookup_schema (upsert schemas (named (codes "shop"))) default_name
          ≡ lookup_schema schemas default_name)
    × (default_name ≢ default_name
        → lookup_schema (remove schemas default_name) default_name
          ≡ lookup default_name schemas.current)
lookup-write_test = lookup-write schemas (named (codes "shop")) default_name

abbrev same : ById → ById
same m = m

abbrev backend : Bytes → BackendConfig
backend id = record default_backend { id = id; group = codes "g"; weight = 1 }

abbrev history : List Op
history =
    loads (backend (codes "a") ∷ backend (codes "b") ∷ [])
    ∷ adds (backend (codes "a"))
    ∷ C.removes (codes "b")
    ∷ states (codes "a") failed
    ∷ []

run-init-Coherent_example : Coherent (run same init history)
run-init-Coherent_example = run-init-Coherent same (λ m k r. ((λ h. h), (λ h. h))) history

abbrev reg : Registry
reg = B.load same init (backend (codes "a") ∷ [])

reg_has : get reg (codes "a") ≡ some 0
unfolding get B.load B.load_entries B.build lookup emplace bytes_eq init
reg_has = refl

reg_holds : get_elem? reg.entries 0 ≡ some (entry_of (backend (codes "a")))
unfolding get B.load B.load_entries B.build lookup emplace bytes_eq init
reg_holds = refl

update_state_shared_test :
    (get_elem? (update_state reg (codes "a") degraded).entries 0
      ≡ some (record (entry_of (backend (codes "a"))) { state = degraded }))
    × ((x : ℕ)
        → x ≢ 0
        → get_elem? (update_state reg (codes "a") degraded).entries x ≡ get_elem? reg.entries x)
    × ((update_state reg (codes "a") degraded).current ≡ reg.current)
update_state_shared_test = update_state_shared reg (codes "a") degraded reg_has reg_holds

update_state-add_test :
    let reg' = update_state (B.add same reg (backend (codes "a"))) (codes "a") failed in
    (get_elem? reg'.entries 0 ≡ some (entry_of (backend (codes "a"))))
    × (get reg' (codes "a") ≡ some (length reg.entries))
    × (get_elem? reg'.entries (length reg.entries)
        ≡ some (record (entry_of (backend (codes "a"))) { state = failed }))
update_state-add_test = update_state-add same reg (backend (codes "a")) failed reg_has reg_holds

abbrev changes : List Catalog.Op
changes =
    Catalog.loads (named default_name ∷ named (codes "old") ∷ [])
    ∷ Catalog.upserts (named (codes "shop"))
    ∷ Catalog.removes (codes "old")
    ∷ []

lookup_schema-run_example :
    (view (Catalog.run empty_registry changes) (codes "old")
      ≡ run_catalog (view empty_registry) changes (codes "old"))
    × (lookup_schema (Catalog.run empty_registry changes) (codes "old")
        ≡ find (run_catalog (view empty_registry) changes) (codes "old"))
lookup_schema-run_example = lookup_schema-run empty_registry changes (codes "old")
