-- ===== src/Application/Fresh.antt =====
-- application.cpp: the pools right after a start.
use dbmesh.Prelude.{
  ◌≡◌, Bool, true, false, List, [], ◌∷◌, Option, none, some, Bytes, bytes_eq, if◌then◌else◌,
  is_some, lookup, lookup-emplace, sym, ◌∙◌, ap,
}
use mathlib.Core.Path.{subst}
use dbmesh.Core.Config.{BackendConfig}
use dbmesh.Pool.{Pool, init}
use dbmesh.Pool.Lease.{Calm, init-Calm}
use dbmesh.Pool.Manager.{PoolManager, no_pools, get_pool, create_pool_with_factory}
use dbmesh.Application.{create_pools}
use dbmesh.Application.Started.{create_pool-emplace}

abbrev pub CalmPools : PoolManager → Type 0
CalmPools m = (id : Bytes) (p : Pool) → get_pool m id ≡ some p → Calm p

found-Calm :
    (b : Bool) (old : Option Pool) (c : BackendConfig) (p : Pool)
    → ((q : Pool) → old ≡ some q → Calm q)
    → (if b then (if is_some old then old else some (init c.pool)) else old) ≡ some p
    → Calm p
found-Calm true (some q) c p h e = h p e
found-Calm false (some q) c p h e = h p e
found-Calm true none c p h e = let q : init c.pool ≡ p = cc in subst Calm q (init-Calm c.pool)
found-Calm false none c p h e = cc

create_pool-Calm :
    (m : PoolManager) (c : BackendConfig) → CalmPools m → CalmPools (create_pool_with_factory m c)
unfolding get_pool
create_pool-Calm m c h id p found = found-Calm (bytes_eq c.id id) (lookup id m.pools) c p (h id) (
    sym (ap (lookup id) (create_pool-emplace m c) ∙ lookup-emplace c.id id (init c.pool) m.pools)
    ∙ found)

pub create_pools-Calm :
    (m : PoolManager) (cs : List BackendConfig) → CalmPools m → CalmPools (create_pools m cs)
unfolding create_pools
create_pools-Calm m [] h = h
create_pools-Calm m (c ∷ cs) h =
    create_pools-Calm (create_pool_with_factory m c) cs (create_pool-Calm m c h)

pub no_pools-Calm : CalmPools no_pools
unfolding get_pool lookup
no_pools-Calm id p h = cc
