-- ===== src/Routing/Schemas/Catalog.antt =====
-- schema_registry.cpp: the registry as what it promises, a function from names to schemas.
use dbmesh.Prelude.{
  List, [], ◌∷◌, Option, none, some, Bytes, ◌≡◌, refl, arith, bytes_eq, bytes_eq_iff, if◌then◌else◌,
  lookup, lookup-assign, lookup-erase, lookup-emplace, emplace, ap, ◌∙◌,
}
use dbmesh.Core.Config.{SchemaConfig}
use dbmesh.Routing.Schemas.{
  SchemaRegistry, SchemaMap, default_name, find_schema, lookup_schema, load_map, load, upsert,
  remove,
}

abbrev pub Catalog : Type 0
Catalog = Bytes → Option SchemaConfig

-- What a registry holds, without its order, its versions and its snapshots.
abbrev pub view : SchemaRegistry → Catalog
view r name = lookup name r.current

pub data Op : Type 0 where
  loads : List SchemaConfig → Op
  upserts : SchemaConfig → Op
  removes : Bytes → Op

unfoldable pub apply : SchemaRegistry → Op → SchemaRegistry
apply r (loads ss) = load r ss
apply r (upserts s) = upsert r s
apply r (removes name) = remove r name

unfoldable pub run : SchemaRegistry → List Op → SchemaRegistry
unfolding apply
run r [] = r
run r (op ∷ ops) = run (apply r op) ops

-- The operations on catalogs: of two schemas with a name the first is loaded, and the default stays.
abbrev pub first_named : List SchemaConfig → Catalog
first_named [] name = none
first_named (s ∷ ss) name = if bytes_eq s.name name then some s else first_named ss name

abbrev pub apply_catalog : Catalog → Op → Catalog
apply_catalog c (loads ss) name = first_named ss name
apply_catalog c (upserts s) name = if bytes_eq s.name name then some s else c name
apply_catalog c (removes gone) name =
    if bytes_eq gone default_name then c name else if bytes_eq gone name then none else c name

abbrev pub run_catalog : Catalog → List Op → Catalog
run_catalog c [] = c
run_catalog c (op ∷ ops) = run_catalog (apply_catalog c op) ops

abbrev pub or_else : Option SchemaConfig → Option SchemaConfig → Option SchemaConfig
or_else (some s) other = some s
or_else none other = other

-- The schema of the name, else the default.
abbrev pub find : Catalog → Bytes → Option SchemaConfig
find c name = or_else (c name) (c default_name)

lookup-load_map :
    (m : SchemaMap) (ss : List SchemaConfig) (name : Bytes)
    → lookup name (load_map m ss) ≡ or_else (lookup name m) (first_named ss name)
unfolding load_map
lookup-load_map m [] name = ground arith
lookup-load_map m (s ∷ ss) name =
    lookup-load_map (emplace s.name s m) ss name ∙ ground (arith, lookup-emplace s.name name s m)

view-apply :
    (r : SchemaRegistry) (op : Op) (name : Bytes)
    → view (apply r op) name ≡ apply_catalog (view r) op name
unfolding apply load upsert remove lookup
view-apply r (loads ss) name = lookup-load_map [] ss name
view-apply r (upserts s) name = lookup-assign s.name name s r.current
view-apply r (removes gone) name =
    ground (arith, lookup-erase gone name r.current, bytes_eq_iff gone name)

apply_catalog-cong :
    (c d : Catalog) (op : Op)
    → ((name : Bytes) → c name ≡ d name)
    → (name : Bytes) → apply_catalog c op name ≡ apply_catalog d op name
apply_catalog-cong c d (loads ss) h name = refl
apply_catalog-cong c d (upserts s) h name =
    ap (λ t. if bytes_eq s.name name then some s else t) (h name)
apply_catalog-cong c d (removes gone) h name = rw (h name) refl

run_catalog-cong :
    (c d : Catalog) (ops : List Op)
    → ((name : Bytes) → c name ≡ d name)
    → (name : Bytes) → run_catalog c ops name ≡ run_catalog d ops name
run_catalog-cong c d [] h name = h name
run_catalog-cong c d (op ∷ ops) h name =
    run_catalog-cong (apply_catalog c op) (apply_catalog d op) ops (apply_catalog-cong c d op h)
      name

view-run :
    (r : SchemaRegistry) (ops : List Op) (name : Bytes)
    → view (run r ops) name ≡ run_catalog (view r) ops name
unfolding run
view-run r [] name = refl
view-run r (op ∷ ops) name =
    view-run (apply r op) ops name
    ∙ run_catalog-cong (view (apply r op)) (apply_catalog (view r) op) ops (view-apply r op) name

find_schema-or_else :
    (m : SchemaMap) (name : Bytes)
    → find_schema m name ≡ or_else (lookup name m) (lookup default_name m)
unfolding find_schema
find_schema-or_else m name = by_entry (lookup name m)
  where
    by_entry :
        (x : Option SchemaConfig)
        → (elim x [ some s ↦ some s | none ↦ lookup default_name m ])
          ≡ or_else x (lookup default_name m)
    by_entry (some s) = refl
    by_entry none = refl

-- After every history of loads, upserts and removals, a registry holds and finds what the catalog
-- does that starts with the same schemas and has the same history.
pub lookup_schema-run :
    (r : SchemaRegistry) (ops : List Op) (name : Bytes)
    → (view (run r ops) name ≡ run_catalog (view r) ops name)
      × (lookup_schema (run r ops) name ≡ find (run_catalog (view r) ops) name)
unfolding lookup_schema
lookup_schema-run r ops name =
    let here = view-run r ops name in
    let there = view-run r ops default_name in
    (
      here,
      find_schema-or_else (run r ops).current name
          ∙ (ap (λ t. or_else t (view (run r ops) default_name)) here
              ∙ ap (or_else (run_catalog (view r) ops name)) there),
    )
