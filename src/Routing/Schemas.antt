-- ===== src/Routing/Schemas.antt =====
-- routing/src/schema_registry.cpp. A snapshot is a value: a reader that holds one keeps it while a
-- writer stores the next. The counter of versions wraps at 2 ^ 64.
pub mod Laws
pub mod Catalog
use dbmesh.Prelude.{
  ℕ, ◌+◌, ◌%◌, ◌^◌, Bool, true, false, List, [], ◌∷◌, map, Option, none, some, Bytes, codes,
  bytes_eq, if◌then◌else◌, is_some, lookup, assign, emplace, erase, length,
}
use dbmesh.Core.Config.{SchemaConfig}

abbrev pub SchemaMap : Type 0
SchemaMap = List (Bytes × SchemaConfig)

pub record SchemaRegistry : Type 0 where
  pub current : SchemaMap
  pub version : ℕ

abbrev pub next_version : ℕ → ℕ
next_version v = (v + 1) % 2 ^ 64

abbrev pub default_name : Bytes
default_name = codes "default"

unfoldable pub empty_registry : SchemaRegistry
empty_registry = record { current = []; version = 0 }

unfoldable pub load_map : SchemaMap → List SchemaConfig → SchemaMap
load_map m [] = m
load_map m (s ∷ ss) = load_map (emplace s.name s m) ss

unfoldable pub load : SchemaRegistry → List SchemaConfig → SchemaRegistry
load r ss = record { current = load_map [] ss; version = next_version r.version }

-- The schema of that name, else the one named "default".
unfoldable pub find_schema : SchemaMap → Bytes → Option SchemaConfig
find_schema m name = elim (lookup name m) [ some s ↦ some s | none ↦ lookup default_name m ]

unfoldable pub lookup_schema : SchemaRegistry → Bytes → Option SchemaConfig
unfolding find_schema
lookup_schema r name = find_schema r.current name

unfoldable pub upsert : SchemaRegistry → SchemaConfig → SchemaRegistry
upsert r s = record { current = assign s.name s r.current; version = next_version r.version }

unfoldable pub remove : SchemaRegistry → Bytes → SchemaRegistry
remove r name =
    if bytes_eq name default_name
    then r
    else if is_some (lookup name r.current)
    then record { current = erase name r.current; version = next_version r.version }
    else r

unfoldable pub size : SchemaRegistry → ℕ
size r = length r.current

unfoldable pub snapshot : SchemaRegistry → List SchemaConfig
snapshot r = map (λ e. e.1) r.current
