-- ===== src/Pool/Manager.antt =====
-- pool/src/pool_manager.cpp. The map is behind a mutex, so each method is one step; a pool is
-- created with the idle reaper running, which is the event `reaps` of the pool.
use dbmesh.Prelude.{
  ℕ, suc, zero, ◌+◌, true, false, List, [], map, Option, none, some, Bytes, if◌then◌else◌, is_some,
  lookup, emplace, length,
}
use dbmesh.Core.Config.{BackendConfig}
use dbmesh.Pool.{Pool, PoolError, init, drain, warm_check, warm_connected}

pub record PoolManager : Type 0 where
  pub pools : List (Bytes × Pool)

abbrev pub no_pools : PoolManager
no_pools = record { pools = [] }

unfoldable pub create_pool_with_factory : PoolManager → BackendConfig → PoolManager
create_pool_with_factory m backend =
    if is_some (lookup backend.id m.pools)
    then m
    else record { pools = emplace backend.id (init backend.pool) m.pools }

unfoldable pub get_pool : PoolManager → Bytes → Option Pool
get_pool m id = lookup id m.pools

unfoldable pub pool_count : PoolManager → ℕ
pool_count m = length m.pools

-- `shutdown`: every pool drained, and then none kept.
unfoldable pub shutdown : PoolManager → PoolManager × List Pool
shutdown m = (no_pools, map (λ (e : Bytes × Pool). drain e.1) m.pools)

-- `warm_impl` when nothing interrupts it: the rounds from number `i` on, with what the factory
-- answers in each.
unfoldable pub warm_loop : ℕ → ℕ → ℕ → (ℕ → Option PoolError) → Pool → Pool
warm_loop zero i now answers p = p
warm_loop (suc rounds) i now answers p =
    let more = warm_loop rounds (i + 1) now answers (warm_connected p now) in
    elim (warm_check p i) [ false ↦ p | true ↦ elim (answers i) [ some e ↦ p | none ↦ more ] ]

unfoldable pub warm : ℕ → (ℕ → Option PoolError) → Pool → Pool
unfolding warm_loop
warm now answers p = warm_loop (p.config.min + 1) 0 now answers p

-- `warm_all`; the pools have nothing to do with one another.
unfoldable pub warm_all : ℕ → (Bytes → ℕ → Option PoolError) → PoolManager → PoolManager
unfolding warm
warm_all now answers m = record {
  pools = map (λ (e : Bytes × Pool). (e.0, warm now (answers e.0) e.1)) m.pools;
}
