-- ===== src/Routing/Backends.antt =====
-- routing/src/backend_registry.cpp and routing/include/dbmesh/routing/backend_entry.h. A
-- `shared_ptr<BackendEntry>` is an index into the entries that were ever made: snapshots share them,
-- so an update in place is seen through every snapshot. The order in which an unordered map is
-- walked is the parameter `walk`.
pub mod Coherence
pub mod Updates
use dbmesh.Prelude.{
  ℕ, ◌+◌, ◌-◌, ◌≡◌, ◌↔◌, Bool, true, false, ◌&&◌, List, [], ◌∷◌, ◌++◌, map, Option, none, some,
  Bytes, bytes_eq, if◌then◌else◌, is_some, lookup, assign, emplace, erase, length, get_elem?, set,
  get_or, ◌⊎◌,
}
use dbmesh.Core.Types.{Role, Health, healthy, role_eq}
use dbmesh.Core.Config.{BackendConfig}
use dbmesh.Routing.Schemas.{next_version}

-- `BackendEntry`: role, state and lag are the atomics; the weight is the pattern of the `int`.
pub record BackendEntry : Type 0 where
  pub id : Bytes
  pub group : Bytes
  pub role : Role
  pub state : Health
  pub replication_lag_ms : ℕ
  pub weight : ℕ
  pub max_replication_lag_ms : ℕ

abbrev pub entry_of : BackendConfig → BackendEntry
entry_of c = record {
  id = c.id;
  group = c.group;
  role = c.role;
  state = healthy;
  replication_lag_ms = 0;
  weight = c.weight;
  max_replication_lag_ms = c.max_replication_lag_ms;
}

abbrev pub ById : Type 0
ById = List (Bytes × ℕ)

-- `BackendSnapshot`.
pub record Snapshot : Type 0 where
  pub by_id : ById
  pub by_group : List (Bytes × List ℕ)

pub record Registry : Type 0 where
  pub entries : List BackendEntry
  pub current : Snapshot
  pub version : ℕ

unfoldable pub init : Registry
init = record { entries = []; current = record { by_id = []; by_group = [] }; version = 0 }

abbrev pub or_empty : Option (List ℕ) → List ℕ
or_empty none = []
or_empty (some rs) = rs

abbrev pub group_at : List BackendEntry → ℕ → Option Bytes
group_at es r = elim (get_elem? es r) [ none ↦ none | some e ↦ some e.group ]

-- `snap->by_group[entry->group].push_back(entry)`; a pointer in the map is never null.
abbrev pub push_group : Option Bytes → ℕ → List (Bytes × List ℕ) → List (Bytes × List ℕ)
push_group none r m = m
push_group (some g) r m = assign g (or_empty (lookup g m) ++ r ∷ []) m

unfoldable pub index_groups :
    List BackendEntry → ById → List (Bytes × List ℕ) → List (Bytes × List ℕ)
index_groups es [] m = m
index_groups es ((k, r) ∷ rest) m = index_groups es rest (push_group (group_at es r) r m)

-- `get_group_by_role`, on what the pointers hold now.
unfoldable pub with_role : List BackendEntry → Role → List ℕ → List ℕ
with_role es role [] = []
with_role es role (r ∷ rs) =
    let rest = with_role es role rs in
    elim (get_elem? es r) [ none ↦ rest | some e ↦ if role_eq e.role role then r ∷ rest else rest ]

unfoldable pub get : Registry → Bytes → Option ℕ
get reg id = lookup id reg.current.by_id

unfoldable pub get_group : Registry → Bytes → List ℕ
get_group reg g = or_empty (lookup g reg.current.by_group)

unfoldable pub get_group_by_role : Registry → Bytes → Role → List ℕ
unfolding get_group
get_group_by_role reg g role = with_role reg.entries role (get_group reg g)

-- The updates in place: on the live entry, if the id is there.
unfoldable pub update_at : (BackendEntry → BackendEntry) → List BackendEntry → ℕ → List BackendEntry
update_at f es r = elim (get_elem? es r) [ none ↦ es | some e ↦ set es r (f e) ]

update_found : (BackendEntry → BackendEntry) → Registry → ℕ → Option ℕ → Registry
update_found f reg v none = reg
update_found f reg v (some r) = record reg { entries = update_at f reg.entries r; version = v }

unfoldable pub update_state : Registry → Bytes → Health → Registry
unfolding update_found
update_state reg id st =
    update_found (λ e. record e { state = st }) reg (next_version reg.version) (get reg id)

unfoldable pub update_role : Registry → Bytes → Role → Registry
unfolding update_found
update_role reg id role =
    update_found (λ e. record e { role = role }) reg (next_version reg.version) (get reg id)

-- The lag does not count as a new version.
unfoldable pub update_lag : Registry → Bytes → ℕ → Registry
unfolding update_found
update_lag reg id lag =
    update_found (λ e. record e { replication_lag_ms = lag }) reg reg.version (get reg id)

unfoldable pub size : Registry → ℕ
size reg = length reg.current.by_id

-- The structural changes build a new snapshot.
module _ (walk : ById → ById) where
  unfoldable pub build : List BackendEntry → ById → Snapshot
  build es m = record { by_id = m; by_group = index_groups es (walk m) [] }

  -- `make_shared` runs for each backend, also for one whose id is taken.
  unfoldable pub load_entries :
      List BackendEntry → ById → List BackendConfig → List BackendEntry × ById
  load_entries es m [] = (es, m)
  load_entries es m (c ∷ cs) = load_entries (es ++ entry_of c ∷ []) (emplace c.id (length es) m) cs

  unfoldable pub load : Registry → List BackendConfig → Registry
  load reg cs =
      let made = load_entries reg.entries [] cs in
      record { entries = made.0; current = build made.0 made.1; version = next_version reg.version }

  unfoldable pub add : Registry → BackendConfig → Registry
  add reg c =
      let es = reg.entries ++ entry_of c ∷ [] in
      record {
        entries = es;
        current = build es (assign c.id (length reg.entries) reg.current.by_id);
        version = next_version reg.version;
      }

  unfoldable pub remove : Registry → Bytes → Registry
  remove reg id =
      if is_some (lookup id reg.current.by_id)
      then record reg {
        current = build reg.entries (erase id reg.current.by_id);
        version = next_version reg.version;
      }
      else reg
