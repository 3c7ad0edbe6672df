-- ===== src/Pool/InSync.antt =====
-- connection_pool.cpp: the metrics that other threads read.
use dbmesh.Prelude.{
  ℕ, ◌≡◌, refl, Bool, true, false, not, ◌||◌, List, [], ◌∷◌, Option, none, some, if◌then◌else◌,
  length, ltb,
}
use dbmesh.Core.Config.{PoolConfig}
use dbmesh.Pool.{
  Pool, PoolError, Acquire, acquire_open, acquire_start, acquire_connected, acquire_woken,
  acquire_resumed, contains, erase_one, release, hand_over, discard, warm_connected, drain, reap,
  init, take_free, enqueue, result_of,
}
use dbmesh.Pool.Ownership.{
  Event, acquires, connects, wakes, releases, warms, drains, reaps, apply, run,
}

abbrev pub InSync : Pool → Type 0
InSync p = p.metrics ≡ record {
  free_count = length p.free;
  active_count = length p.active;
  waiter_count = length p.waiters;
  total_count = length p.all;
}

acquire_open-InSync :
    (p : Pool) (now : ℕ) (xs : List ℕ) → InSync p → InSync (acquire_open p now xs).0
unfolding acquire_open take_free enqueue
acquire_open-InSync p now (c ∷ rest) h = refl
acquire_open-InSync p now [] h = choice (ltb (length p.all) p.config.max)
  where
    choice :
        (b : Bool)
        → let r : Pool × Acquire =
            if b then (p, Acquire.connecting) else (enqueue p, Acquire.waiting p.next_waiter) in
          InSync r.0
    choice true = h
    choice false = refl

acquire_start-InSync : (p : Pool) (now : ℕ) → InSync p → InSync (acquire_start p now).0
unfolding acquire_start
acquire_start-InSync p now h = choice p.shutting_down
  where
    choice :
        (b : Bool)
        → InSync
            (if b
              then (p, Acquire.refused PoolError.pool_shutdown)
              else acquire_open p now p.free).0
    choice true = h
    choice false = acquire_open-InSync p now p.free h

acquire_connected-InSync :
    (p : Pool) (now : ℕ) (r : Option PoolError) → InSync p → InSync (acquire_connected p now r).0
unfolding acquire_connected
acquire_connected-InSync p now (some e) h = h
acquire_connected-InSync p now none h = refl

acquire_resumed-InSync :
    (p : Pool) (w : ℕ) (r : Option ℕ) → InSync p → InSync (acquire_resumed p w r).0
unfolding acquire_resumed
acquire_resumed-InSync p w (some c) h = h
acquire_resumed-InSync p w none h = refl

hand_over-InSync : (p : Pool) (c now : ℕ) (ws : List ℕ) → InSync (hand_over p c now ws)
unfolding hand_over
hand_over-InSync p c now (w ∷ rest) = refl
hand_over-InSync p c now [] = refl

release-InSync :
    (p : Pool) (c : ℕ) (healthy is_open : Bool) (now : ℕ)
    → InSync p
    → InSync (release p c healthy is_open now)
unfolding release discard
release-InSync p c healthy is_open now h =
    choice (contains c p.active) (not healthy || p.shutting_down || not is_open)
  where
    q : Pool
    q = record p { active = erase_one c p.active }

    choice :
        (held bad : Bool)
        → InSync (if not held then p else if bad then discard q c else hand_over q c now q.waiters)
    choice false bad = h
    choice true true = refl
    choice true false = hand_over-InSync q c now q.waiters

apply-InSync : (p : Pool) (e : Event) → InSync p → InSync (apply p e)
unfolding apply acquire_woken warm_connected drain reap
apply-InSync p (acquires now) h = acquire_start-InSync p now h
apply-InSync p (connects now r) h = acquire_connected-InSync p now r h
apply-InSync p (wakes w) h = acquire_resumed-InSync p w (result_of w p.handed) h
apply-InSync p (releases c healthy is_open now) h = release-InSync p c healthy is_open now h
apply-InSync p (warms now) h = refl
apply-InSync p drains h = refl
apply-InSync p (reaps now) h = refl

run-InSync : (p : Pool) (es : List Event) → InSync p → InSync (run p es)
unfolding run
run-InSync p [] h = h
run-InSync p (e ∷ es) h = run-InSync (apply p e) es (apply-InSync p e h)

init-InSync : (c : PoolConfig) → InSync (init c)
unfolding init
init-InSync c = refl

-- After any sequence of stretches from an empty pool the metrics that other threads read are the
-- sizes of the free list, the set in use, the queue of waiters and the pool: no operation forgets to
-- bring them up to date.
pub run-init-InSync : (c : PoolConfig) (es : List Event) → InSync (run (init c) es)
run-init-InSync c es = run-InSync (init c) es (init-InSync c)
