-- ===== src/Routing/Selector.antt =====
-- routing/src/backend_selector.cpp.
pub mod Sound
use dbmesh.Prelude.{
  ℕ, Bool, true, false, not, ◌&&◌, ◌||◌, List, [], ◌∷◌, Option, none, some, Bytes, if◌then◌else◌,
  ltb, is_empty, value_or, get_elem?,
}
use dbmesh.Core.Types.{Role, primary, replica, role_eq, Health, healthy, degraded, Result, ok, err}
use dbmesh.Core.Config.{SchemaConfig, RoutingConfig}
use dbmesh.Routing.Types.{RoutingError, no_backend_available}
use dbmesh.Routing.Backends.{BackendEntry, Registry, get_group_by_role}
use dbmesh.Routing.Policies.{Context, Counters, policy_select}

-- `usable_for_role`: reads want a healthy backend, writes also go to a degraded one.
unfoldable pub usable_for_role : Health → Role → Bool
usable_for_role healthy role = true
usable_for_role degraded primary = true
usable_for_role _ role = false

-- The lag test of `filter`; it holds when the candidate is skipped.
abbrev pub lags_behind : Role → Bool → ℕ → BackendEntry → Bool
lags_behind role aware max_lag e = role_eq role replica && aware && ltb max_lag e.replication_lag_ms

unfoldable pub filter : List BackendEntry → Role → ℕ → Bool → List BackendEntry
filter [] role max_lag aware = []
filter (e ∷ es) role max_lag aware =
    let rest = filter es role max_lag aware in
    if not (usable_for_role e.state role)
    then rest
    else if lags_behind role aware max_lag e
    then rest
    else e ∷ rest

-- What the pointers of a list hold.
unfoldable pub deref : List BackendEntry → List ℕ → List BackendEntry
deref es [] = []
deref es (r ∷ rs) =
    let rest = deref es rs in elim (get_elem? es r) [ none ↦ rest | some e ↦ e ∷ rest ]

-- The candidates for a role, filtered for it.
abbrev pub usable : Registry → RoutingConfig → Bytes → Role → List BackendEntry
usable reg defaults g role =
    filter (deref reg.entries (get_group_by_role reg g role)) role defaults.max_replica_lag_ms
      defaults.replication_aware

-- The candidates of `select`: for a read with no usable replica, those of the primary.
unfoldable pub candidates : Registry → RoutingConfig → Bytes → Role → List BackendEntry
candidates reg defaults g role =
    let asked = usable reg defaults g role in
    if is_empty asked && role_eq role replica then usable reg defaults g primary else asked

-- The error exits, and the chosen id.
unfoldable pub settle :
    List BackendEntry → Counters → Bytes × Counters → Result Bytes RoutingError × Counters
settle [] k chosen = (err no_backend_available, k)
settle (e ∷ es) k ([], k') = (err no_backend_available, k')
settle (e ∷ es) k (b ∷ bs, k') = (ok (b ∷ bs), k')

unfoldable pub select :
    (ℕ → ℕ → ℕ)
    → Registry
    → RoutingConfig
    → SchemaConfig
    → Role
    → Context
    → Counters
    → Result Bytes RoutingError × Counters
unfolding candidates policy_select settle
select uniform reg defaults schema role ctx k =
    let cs = candidates reg defaults schema.backend_group role in
    settle cs k
      (policy_select uniform (value_or schema.routing_policy defaults.default_policy) cs ctx k)
