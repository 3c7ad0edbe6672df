-- ===== src/Core/Validate.antt =====
-- core/src/config.cpp: `ConfigLoader::validate`.
use dbmesh.Prelude.{
  Bool, false, ◌&&◌, ◌||◌, List, [], ◌∷◌, Option, none, some, Bytes, bytes_eq, if◌then◌else◌, ◌==◌,
  is_empty,
}
use dbmesh.Core.Config.{Config, BackendConfig, SchemaConfig}

-- The messages, with the id or the name that they quote.
pub data Invalid : Type 0 where
  no_node_id mysql_port_zero postgres_port_zero api_port_zero backend_no_id : Invalid
  backend_no_host backend_port_zero backend_no_group duplicate_backend : Bytes → Invalid
  schema_no_name : Invalid
  schema_no_group duplicate_schema : Bytes → Invalid
  no_backends no_schemas : Invalid

-- `std::set::insert`: whether the text is there already.
unfoldable pub seen : Bytes → List Bytes → Bool
seen s [] = false
seen s (t ∷ ts) = bytes_eq t s || seen s ts

unfoldable pub check_backends : List Bytes → List BackendConfig → Option Invalid
check_backends ids [] = none
check_backends ids (b ∷ bs) =
    let rest = check_backends (b.id ∷ ids) bs in
    if is_empty b.id
    then some backend_no_id
    else if is_empty b.host
    then some (backend_no_host b.id)
    else if b.port == 0
    then some (backend_port_zero b.id)
    else if is_empty b.group
    then some (backend_no_group b.id)
    else if seen b.id ids
    then some (duplicate_backend b.id)
    else rest

unfoldable pub check_schemas : List Bytes → List SchemaConfig → Option Invalid
check_schemas names [] = none
check_schemas names (s ∷ ss) =
    let rest = check_schemas (s.name ∷ names) ss in
    if is_empty s.name
    then some schema_no_name
    else if is_empty s.backend_group
    then some (schema_no_group s.name)
    else if seen s.name names
    then some (duplicate_schema s.name)
    else rest

-- An early `return`, or the next check.
abbrev pub or_next : Option Invalid → Option Invalid → Option Invalid
or_next none next = next
or_next (some e) next = some e

abbrev pub fails : Bool → Invalid → Option Invalid
fails test e = if test then some e else none

unfoldable pub validate : Config → Option Invalid
unfolding check_backends check_schemas
validate cfg =
    let mysql = cfg.listeners.mysql in
    let postgres = cfg.listeners.postgres in
    or_next (fails (is_empty cfg.node.id) no_node_id) (
      or_next (fails (mysql.enabled && mysql.port == 0) mysql_port_zero) (
        or_next (fails (postgres.enabled && postgres.port == 0) postgres_port_zero) (
          or_next (fails (cfg.api.port == 0) api_port_zero) (
            or_next (check_backends [] cfg.backends) (
              or_next (check_schemas [] cfg.schemas) (
                or_next (fails (mysql.enabled && is_empty cfg.backends) no_backends)
                  (fails (mysql.enabled && is_empty cfg.schemas) no_schemas)))))))
