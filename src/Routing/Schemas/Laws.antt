-- ===== src/Routing/Schemas/Laws.antt =====
-- schema_registry.cpp: what a lookup finds after each operation, and that the default stays.
use dbmesh.Prelude.{
  Bool, true, List, [], ◌∷◌, some, Bytes, ◌≡◌, ◌≢◌, arith, bytes_eq_iff, is_some, lookup,
  lookup-assign, lookup-erase, inl, inr, Option-cases,
}
use dbmesh.Core.Config.{SchemaConfig}
use dbmesh.Routing.Schemas.{
  SchemaRegistry, SchemaMap, default_name, find_schema, lookup_schema, upsert, remove,
}

-- A writer of the registry.
pub data Write : Type 0 where
  upserts : SchemaConfig → Write
  removes : Bytes → Write

pub apply : SchemaRegistry → Write → SchemaRegistry
apply r (upserts s) = upsert r s
apply r (removes name) = remove r name

pub apply_all : SchemaRegistry → List Write → SchemaRegistry
unfolding apply
apply_all r [] = r
apply_all r (w ∷ ws) = apply_all (apply r w) ws

abbrev has_default : SchemaRegistry → Bool
has_default r = is_some (lookup default_name r.current)

apply-has_default :
    (r : SchemaRegistry) (w : Write) → has_default r ≡ true → has_default (apply r w) ≡ true
unfolding apply upsert remove
apply-has_default r (upserts s) h = ground (arith, lookup-assign s.name default_name s r.current)
apply-has_default r (removes name) h = ground (arith, lookup-erase name default_name r.current)

apply_all-has_default :
    (r : SchemaRegistry) (ws : List Write)
    → has_default r ≡ true
    → has_default (apply_all r ws) ≡ true
unfolding apply_all
apply_all-has_default r [] h = h
apply_all-has_default r (w ∷ ws) h = apply_all-has_default (apply r w) ws (apply-has_default r w h)

find_schema_total :
    (m : SchemaMap) (name : Bytes)
    → is_some (lookup default_name m) ≡ true
    → (s : SchemaConfig) × (find_schema m name ≡ some s)
unfolding find_schema
find_schema_total m name h = elim (Option-cases (lookup name m)) [
  | inr (s, e) ↦ (s, rw (e, find_schema))
  | inl e ↦ elim (Option-cases (lookup default_name m)) [
    | inr (d, f) ↦ (d, rw (e, find_schema) f)
    | inl f ↦ absurd (cc (rw f at h))
  ]
]

-- Once a schema named "default" is there, no history of upserts and removals makes a lookup fail,
-- whatever name is asked for: the default cannot be removed.
pub lookup-apply_all :
    (r : SchemaRegistry) (ws : List Write) (name : Bytes) {d : SchemaConfig}
    → lookup default_name r.current ≡ some d
    → (s : SchemaConfig) × (lookup_schema (apply_all r ws) name ≡ some s)
unfolding lookup_schema
lookup-apply_all r ws name e =
    find_schema_total (apply_all r ws).current name (apply_all-has_default r ws (rw e))

-- After an upsert the name of the schema gives it, and every other name that was there what it gave
-- before. After a removal of a name other than "default" that name gives what "default" gives.
pub lookup-write :
    (r : SchemaRegistry) (s : SchemaConfig) (name : Bytes)
    → (lookup_schema (upsert r s) s.name ≡ some s)
      × (name ≢ s.name
          → is_some (lookup name r.current) ≡ true
          → lookup_schema (upsert r s) name ≡ lookup_schema r name)
      × (name ≢ default_name → lookup_schema (remove r name) name ≡ lookup default_name r.current)
unfolding lookup_schema upsert remove
lookup-write r s name = (
  ground (arith, lookup-assign s.name s.name s r.current, bytes_eq_iff s.name s.name),
  (λ h k. ground (arith, lookup-assign s.name name s r.current, bytes_eq_iff s.name name)),
  (λ h. ground (
    arith,
    lookup-erase name name r.current,
    lookup-erase name default_name r.current,
    bytes_eq_iff name name,
    bytes_eq_iff name default_name,
  )),
)
