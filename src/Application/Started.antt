-- ===== src/Application/Started.antt =====
-- application.cpp: what of the configuration is there once the subsystems are started.
use mathlib.Core.List.{append_assoc, append-nil}
use dbmesh.Prelude.{
  ℕ, suc, zero, ◌+◌, ◌≡◌, refl, arith, true, List, [], ◌∷◌, ◌++◌, map, none, some, Bytes, is_some,
  lookup, emplace, length, get_elem?, length-append, ap, sym, ◌∙◌, inl, inr, Distinct, emplace_all,
  emplace-present, keys, lookup-emplace_all, is_some-emplace_all,
}
use dbmesh.Core.Config.{Config, BackendConfig, SchemaConfig}
use dbmesh.Core.Validate.{validate}
use dbmesh.Core.Valid.{validate-Valid, ids, names}
use dbmesh.Routing.Schemas.{
  SchemaRegistry, SchemaMap, load_map, find_schema, lookup_schema, empty_registry,
}
use dbmesh.Routing.Schemas as Schemas
use dbmesh.Routing.Backends.{
  Registry, BackendEntry, ById, entry_of, load_entries, build, get, get_group,
}
use dbmesh.Routing.Backends as Backends
use dbmesh.Pool.{Pool, init}
use dbmesh.Pool.Manager.{PoolManager, no_pools, create_pool_with_factory, get_pool}
use mathlib.Core.Path.{subst}
use dbmesh.Core.Types.{ok}
use dbmesh.Routing.Types.{SessionView, RoutePlan}
use dbmesh.Routing.Policies.{Context, Counters}
use dbmesh.Routing.Policies.Picks.{Uniform}
use dbmesh.Routing.Selector.Sound.{select-Chosen}
use dbmesh.Routing.Engine.{plan}
use dbmesh.Routing.Engine.Safety.{plan-ok}
use dbmesh.Application.{create_pools, start_subsystems}

-- Each map is filled by `emplace`, from these lists.
abbrev schema_pairs : List SchemaConfig → List (Bytes × SchemaConfig)
schema_pairs [] = []
schema_pairs (s ∷ ss) = (s.name, s) ∷ schema_pairs ss

abbrev entry_pairs : ℕ → List BackendConfig → List (Bytes × ℕ)
entry_pairs n [] = []
entry_pairs n (b ∷ bs) = (b.id, n) ∷ entry_pairs (n + 1) bs

abbrev pool_pairs : List BackendConfig → List (Bytes × Pool)
pool_pairs [] = []
pool_pairs (b ∷ bs) = (b.id, init b.pool) ∷ pool_pairs bs

load_map-emplace_all :
    (m : SchemaMap) (ss : List SchemaConfig) → load_map m ss ≡ emplace_all m (schema_pairs ss)
unfolding load_map emplace_all
load_map-emplace_all m [] = refl
load_map-emplace_all m (s ∷ ss) = load_map-emplace_all (emplace s.name s m) ss

length-snoc {ℓ} : {A : Type ℓ} (xs : List A) (a : A) → length (xs ++ a ∷ []) ≡ length xs + 1
length-snoc xs a = length-append xs (a ∷ [])

load_entries-emplace_all :
    (walk : ById → ById) (es : List BackendEntry) (m : ById) (bs : List BackendConfig)
    → load_entries walk es m bs
      ≡ (es ++ map entry_of bs, emplace_all m (entry_pairs (length es) bs))
unfolding load_entries emplace_all
load_entries-emplace_all walk es m [] = rw append-nil refl
load_entries-emplace_all walk es m (b ∷ bs) =
    load_entries-emplace_all walk (es ++ entry_of b ∷ []) (emplace b.id (length es) m) bs
    ∙ rw (append_assoc, length-snoc es (entry_of b)) refl

-- `emplace` leaves a key that is there, as the test of `create_pool_with_factory` does.
pub create_pool-emplace :
    (m : PoolManager) (b : BackendConfig)
    → (create_pool_with_factory m b).pools ≡ emplace b.id (init b.pool) m.pools
unfolding create_pool_with_factory
create_pool-emplace m b = ground (arith, emplace-present b.id (init b.pool) m.pools)

create_pools-emplace_all :
    (m : PoolManager) (bs : List BackendConfig)
    → (create_pools m bs).pools ≡ emplace_all m.pools (pool_pairs bs)
unfolding create_pools emplace_all
create_pools-emplace_all m [] = refl
create_pools-emplace_all m (b ∷ bs) =
    create_pools-emplace_all (create_pool_with_factory m b) bs
    ∙ ap (λ (t : List (Bytes × Pool)). emplace_all t (pool_pairs bs)) (create_pool-emplace m b)

keys-schema_pairs : (ss : List SchemaConfig) → keys (schema_pairs ss) ≡ names ss
keys-schema_pairs [] = refl
keys-schema_pairs (s ∷ ss) = rw (keys-schema_pairs ss) refl

keys-entry_pairs : (n : ℕ) (bs : List BackendConfig) → keys (entry_pairs n bs) ≡ ids bs
keys-entry_pairs n [] = refl
keys-entry_pairs n (b ∷ bs) = rw (keys-entry_pairs (n + 1) bs) refl

keys-pool_pairs : (bs : List BackendConfig) → keys (pool_pairs bs) ≡ ids bs
keys-pool_pairs [] = refl
keys-pool_pairs (b ∷ bs) = rw (keys-pool_pairs bs) refl

at-schema_pairs :
    (ss : List SchemaConfig) (i : ℕ) {s : SchemaConfig}
    → get_elem? ss i ≡ some s
    → get_elem? (schema_pairs ss) i ≡ some (s.name, s)
at-schema_pairs [] i h = cc
at-schema_pairs (s ∷ ss) zero h = cc
at-schema_pairs (s ∷ ss) (suc i) h = at-schema_pairs ss i h

at-pool_pairs :
    (bs : List BackendConfig) (i : ℕ) {b : BackendConfig}
    → get_elem? bs i ≡ some b
    → get_elem? (pool_pairs bs) i ≡ some (b.id, init b.pool)
at-pool_pairs [] i h = cc
at-pool_pairs (b ∷ bs) zero h = cc
at-pool_pairs (b ∷ bs) (suc i) h = at-pool_pairs bs i h

at-entry_pairs :
    (n : ℕ) (bs : List BackendConfig) (i : ℕ) {b : BackendConfig}
    → get_elem? bs i ≡ some b
    → get_elem? (entry_pairs n bs) i ≡ some (b.id, n + i)
at-entry_pairs n [] i h = cc
at-entry_pairs n (b ∷ bs) zero h = grind arith
at-entry_pairs n (b ∷ bs) (suc i) h = at-entry_pairs (n + 1) bs i h ∙ grind arith

at-entries :
    (bs : List BackendConfig) (i : ℕ) {b : BackendConfig}
    → get_elem? bs i ≡ some b
    → get_elem? (map entry_of bs) i ≡ some (entry_of b)
at-entries [] i h = cc
at-entries (b ∷ bs) zero h = cc
at-entries (b ∷ bs) (suc i) h = at-entries bs i h

-- Every entry is made from a backend.
at-entries-inv :
    (bs : List BackendConfig) (i : ℕ) {e : BackendEntry}
    → get_elem? (map entry_of bs) i ≡ some e
    → (b : BackendConfig) × (get_elem? bs i ≡ some b) × (e ≡ entry_of b)
at-entries-inv [] i h = cc
at-entries-inv (b ∷ bs) zero h = (b, refl, cc)
at-entries-inv (b ∷ bs) (suc i) h = at-entries-inv bs i h

at-entries_from_zero :
    (bs : List BackendConfig) (i : ℕ) {b : BackendConfig}
    → get_elem? bs i ≡ some b
    → get_elem? (entry_pairs 0 bs) i ≡ some (b.id, i)
at-entries_from_zero bs i {b} h = at-entry_pairs 0 bs i h ∙ grind arith

find_schema-named :
    (m : SchemaMap) (name : Bytes) {s : SchemaConfig}
    → lookup name m ≡ some s
    → find_schema m name ≡ some s
unfolding find_schema
find_schema-named m name h = rw (find_schema, h) refl

-- What a registry of entries made from backends has for each of them.
abbrev pub Served : (ById → ById) → Config → ℕ → BackendConfig → Type 0
Served walk cfg i b =
    let s = start_subsystems walk cfg in
    (get s.backend_registry b.id ≡ some i)
    × (get_elem? s.backend_registry.entries i ≡ some (entry_of b))
    × (get_pool s.pool_manager b.id ≡ some (init b.pool))

entries-load :
    (walk : ById → ById) (bs : List BackendConfig)
    → (Backends.load walk Backends.init bs).entries ≡ map entry_of bs
unfolding Backends.load Backends.init
entries-load walk bs =
    ap (λ (t : List BackendEntry × ById). t.0) (load_entries-emplace_all walk [] [] bs)

get-load :
    (walk : ById → ById) (bs : List BackendConfig) (id : Bytes)
    → get (Backends.load walk Backends.init bs) id ≡ lookup id (emplace_all [] (entry_pairs 0 bs))
unfolding get Backends.load Backends.init build
get-load walk bs id =
    ap (λ (t : List BackendEntry × ById). lookup id t.1) (load_entries-emplace_all walk [] [] bs)

-- Of a configuration that the validation accepts, every backend is in the registry under its id,
-- as a healthy entry with what is configured of it, and has a pool of its own, which is empty;
-- every schema is found under its name, as it is configured.
pub start_subsystems-found :
    (walk : ById → ById) (cfg : Config) (i k : ℕ) (b : BackendConfig) (s : SchemaConfig)
    → validate cfg ≡ none
    → get_elem? cfg.backends i ≡ some b
    → get_elem? cfg.schemas k ≡ some s
    → Served walk cfg i b
      × (lookup_schema (start_subsystems walk cfg).schema_registry s.name ≡ some s)
unfolding start_subsystems get_pool lookup_schema Schemas.load lookup
start_subsystems-found walk cfg i k b s valid h h' =
    let v = (validate-Valid cfg).0 valid in
    (
      (
        get-load walk cfg.backends b.id
            ∙ lookup-emplace_all [] [] (entry_pairs 0 cfg.backends) i b.id (λ k n. refl)
                (subst (Distinct []) (sym (keys-entry_pairs 0 cfg.backends)) v.backends_distinct)
                (at-entries_from_zero cfg.backends i h),
        ap (λ (es : List BackendEntry). get_elem? es i) (entries-load walk cfg.backends)
            ∙ at-entries cfg.backends i h,
        ap (lookup b.id) (create_pools-emplace_all no_pools cfg.backends)
            ∙ lookup-emplace_all [] [] (pool_pairs cfg.backends) i b.id (λ k n. refl)
                (subst (Distinct []) (sym (keys-pool_pairs cfg.backends)) v.backends_distinct)
                (at-pool_pairs cfg.backends i h),
      ),
      find_schema-named _ s.name (
          ap (lookup s.name) (load_map-emplace_all [] cfg.schemas)
          ∙ lookup-emplace_all [] [] (schema_pairs cfg.schemas) k s.name (λ k n. refl)
              (subst (Distinct []) (sym (keys-schema_pairs cfg.schemas)) v.schemas_distinct)
              (at-schema_pairs cfg.schemas k h')),
    )

pool-present :
    (bs : List BackendConfig) (r : ℕ) {e : BackendEntry}
    → get_elem? (map entry_of bs) r ≡ some e
    → is_some (get_pool (create_pools no_pools bs) e.id) ≡ true
unfolding get_pool
pool-present bs r {e} h =
    let (b, at, made) = at-entries-inv bs r h in
    ap (λ (id : Bytes). is_some (lookup id (create_pools no_pools bs).pools))
      (ap (λ (x : BackendEntry). x.id) made)
    ∙ ap (λ (m : List (Bytes × Pool)). is_some (lookup b.id m))
        (create_pools-emplace_all no_pools bs)
    ∙ is_some-emplace_all [] (pool_pairs bs) r b.id (at-pool_pairs bs r at)

-- When the routing engine gives a plan right after the start, for a session that is not pinned,
-- there is a pool for the backend of the plan. The draws keep their bounds.
pub start_subsystems-plan :
    (uniform : ℕ → ℕ → ℕ) (walk : ById → ById) (cfg : Config) (sql : Bytes) (session : SessionView)
    (ctx : Context) (k : Counters) {p : RoutePlan}
    → Uniform uniform
    → session.pinned_backend ≡ none
    → (plan uniform
        (start_subsystems walk cfg).schema_registry
        (start_subsystems walk cfg).backend_registry
        cfg.routing
        sql
        session
        ctx
        k).0
      ≡ ok p
    → is_some (get_pool (start_subsystems walk cfg).pool_manager p.plan_backend) ≡ true
unfolding start_subsystems
start_subsystems-plan uniform walk cfg sql session ctx k {p} law free h =
    let reg = Backends.load walk Backends.init cfg.backends in
    let schemas = Schemas.load empty_registry cfg.schemas in
    let (config, found, t, planned) = plan-ok uniform reg cfg.routing session ctx k schemas sql h in
    elim planned.1 [
      | inl (pin, w) ↦ cc
      | inr selected ↦
          let (e, same, (r, m, at), c) =
            select-Chosen uniform reg cfg.routing config p.plan_role ctx k law selected in
          subst (λ (id : Bytes). is_some (get_pool (create_pools no_pools cfg.backends) id) ≡ true)
            same
            (pool-present cfg.backends r (
              subst (λ (es : List BackendEntry). get_elem? es r ≡ some e)
                (entries-load walk cfg.backends) at))
    ]
