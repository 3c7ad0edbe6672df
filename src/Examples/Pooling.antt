-- ===== src/Examples/Pooling.antt =====
-- A pool of two connections.
use dbmesh.Prelude.{
  ◌≤◌, ◌<◌, true, false, List, [], ◌∷◌, none, some, length, replicate, ◌≡◌, refl, arith,
}
use dbmesh.Core.Config.{PoolConfig, default_pool}
use dbmesh.Pool.{
  Pool, connecting, connect_failed, init, track, take_free, insert, acquire_start,
  acquire_connected, acquire_open, enqueue, release, contains, result_of, reap,
}
use dbmesh.Pool.Ownership.{
  Owned, Event, acquires, connects, wakes, releases, warms, drains, reaps, run, apply,
  run-init-Owned,
}
use dbmesh.Pool.InSync.{InSync, run-init-InSync}
use dbmesh.Pool.Capacity.{
  ask_all, answer_all, all_got, acquire_alone, acquire_overshoots, acquire_alone-bound, reap-least,
  release_serves_oldest, release_unhealthy_starves,
}

abbrev config : PoolConfig
config = record default_pool { min = 1; max = 2 }

-- Two connections that are checked out, and a client that waits.
abbrev busy : Pool
busy =
    run (init config)
      (acquires 0 ∷ connects 0 none ∷ acquires 1 ∷ connects 1 none ∷ acquires 2 ∷ [])

abbrev events : List Event
events =
    warms 0
    ∷ acquires 1
    ∷ acquires 1
    ∷ connects 2 none
    ∷ acquires 3
    ∷ releases 0 true true 4
    ∷ wakes 0
    ∷ releases 1 false true 5
    ∷ connects 6 (some connect_failed)
    ∷ reaps 7
    ∷ drains
    ∷ []

run-init-Owned_example : Owned (run (init config) events)
run-init-Owned_example = run-init-Owned config events

acquire_overshoots_example :
    let asked = ask_all (init config) 0 3 in
    let r = answer_all asked.0 0 asked.1 in
    (asked.1 ≡ replicate 3 connecting)
    × (r.1 ≡ all_got 0 3)
    × (length r.0.all ≡ 3)
    × (r.0.config.max ≡ 2)
unfolding init
acquire_overshoots_example = acquire_overshoots (init config) 0 3 refl refl (omega arith)

acquire_alone-bound_test : length (acquire_alone (init config) 0 none).0.all ≤ 2
unfolding run apply init acquire_start acquire_connected acquire_open take_free track insert enqueue
acquire_alone-bound_test = acquire_alone-bound (init config) 0 none (omega arith)

reap-least_test : 1 ≤ length (reap busy 100).all
unfolding run apply init acquire_start acquire_connected acquire_open take_free track insert enqueue
reap-least_test = reap-least busy 100 (omega arith)

release_serves_oldest_test :
    let q = release busy 0 true true 9 in
    (result_of 0 q.handed ≡ some 0)
    × (q.waiters ≡ [])
    × (q.free ≡ busy.free)
    × (contains 0 q.active ≡ true)
unfolding run apply init acquire_start acquire_connected acquire_open take_free track insert enqueue
release_serves_oldest_test = release_serves_oldest busy 0 9 0 [] refl refl refl

release_unhealthy_starves_example :
    let q = release busy 0 false true 9 in
    (q.waiters ≡ busy.waiters) × (q.handed ≡ busy.handed) × (length q.all < q.config.max)
unfolding run apply init acquire_start acquire_connected acquire_open take_free track insert enqueue
release_unhealthy_starves_example =
    release_unhealthy_starves busy 0 9 false true refl refl (omega arith) refl

run-init-InSync_example : InSync (run (init config) events)
run-init-InSync_example = run-init-InSync config events
