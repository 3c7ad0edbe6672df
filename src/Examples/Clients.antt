-- ===== src/Examples/Clients.antt =====
-- Two clients of one pool, each with a connection.
use dbmesh.Prelude.{ℕ, ◌≢◌, [], ◌∷◌, none, ◌≡◌, refl, arith}
use dbmesh.Core.Config.{PoolConfig, default_pool}
use dbmesh.Pool.{
  init, track, take_free, insert, acquire_start, acquire_connected, acquire_open, enqueue,
}
use dbmesh.Pool.Counts.{count}
use dbmesh.Pool.Clients.{System, run, step, asks, connects}
use dbmesh.Pool.Clients.Run.{beginning, run-beginning-Exclusive}

abbrev config : PoolConfig
config = record default_pool { min = 1; max = 2 }

abbrev both_served : System
both_served =
    run (beginning config 2) (asks 0 0 ∷ asks 1 1 ∷ connects 1 2 none ∷ connects 0 3 none ∷ [])

run-beginning-Exclusive_example :
    (◌≢◌ {A = ℕ} 1 0) × (count 1 both_served.pool.free ≡ 0) × (count 0 both_served.pool.free ≡ 0)
unfolding run step init acquire_start acquire_connected acquire_open take_free track insert enqueue
run-beginning-Exclusive_example =
    run-beginning-Exclusive config 2
      (asks 0 0 ∷ asks 1 1 ∷ connects 1 2 none ∷ connects 0 3 none ∷ []) 0 1 1 0 (omega arith) refl
      refl
