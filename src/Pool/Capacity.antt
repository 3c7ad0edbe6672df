-- ===== src/Pool/Capacity.antt =====
-- connection_pool.cpp: how many connections the pool has, and who waits.
use dbmesh.Prelude.{
  ℕ, suc, zero, ◌+◌, ◌≤◌, ◌<◌, ◌≡◌, refl, arith, Bool, true, false, ◌&&◌, List, [], ◌∷◌, Option,
  none, some, replicate, ap, if◌then◌else◌, length, ltb, Bool-cases, inl, inr, length-append,
  lt→ltb, ltb→lt, and-true,
}
use dbmesh.Pool.{
  Pool, PoolError, Acquire, connecting, got, contains, insert, erase_one, acquire_open,
  acquire_start, acquire_connected, release, hand_over, discard, reap_loop, reap, track, take_free,
  enqueue, too_old, result_of,
}
use dbmesh.Pool.Counts.{length-erase_one}

-- `n` clients that come while the factory is busy: the pool, and how far each has got.
pub ask_all : Pool → ℕ → ℕ → Pool × List Acquire
ask_all p now zero = (p, [])
ask_all p now (suc n) =
    let one = acquire_start p now in let rest = ask_all one.0 now n in (rest.0, one.1 ∷ rest.1)

-- The factory then answers those that are in it, and no one else, with a connection.
pub answer_one : Pool → ℕ → Acquire → Pool × Acquire
answer_one p now connecting = acquire_connected p now none
answer_one p now other = (p, other)

pub answer_all : Pool → ℕ → List Acquire → Pool × List Acquire
unfolding answer_one
answer_all p now [] = (p, [])
answer_all p now (a ∷ rest) =
    let one = answer_one p now a in let more = answer_all one.0 now rest in (more.0, one.1 ∷ more.1)

-- `n` clients that got connections of their own: those numbered from `c` on.
abbrev pub all_got : ℕ → ℕ → List Acquire
all_got c zero = []
all_got c (suc n) = got c ∷ all_got (c + 1) n

acquire_start-connecting :
    (p : Pool) (now : ℕ)
    → p.shutting_down ≡ false
    → p.free ≡ []
    → length p.all < p.config.max
    → acquire_start p now ≡ (p, connecting)
unfolding acquire_start acquire_open
acquire_start-connecting p now up free room = simp (up, free, acquire_open, lt→ltb _ _ room)

ask_all-connecting :
    (p : Pool) (now n : ℕ)
    → p.shutting_down ≡ false
    → p.free ≡ []
    → length p.all < p.config.max
    → ask_all p now n ≡ (p, replicate n connecting)
unfolding ask_all
ask_all-connecting p now zero up free room = refl
ask_all-connecting p now (suc n) up free room =
    rw (acquire_start-connecting p now up free room, ask_all-connecting p now n up free room) refl

answer_all-connecting :
    (p : Pool) (now n : ℕ)
    → let r = answer_all p now (replicate n connecting) in
      (r.1 ≡ all_got p.next_conn n)
      × (length r.0.all ≡ length p.all + n)
      × (r.0.config.max ≡ p.config.max)
unfolding answer_all answer_one acquire_connected track
answer_all-connecting p now zero = (refl, omega arith, refl)
answer_all-connecting p now (suc n) =
    let rest = answer_all-connecting (acquire_connected p now none).0 now n in
    (
      ap (◌∷◌ (got p.next_conn)) rest.0,
      omega (arith, rest.1, length-append p.all (p.next_conn ∷ [])),
      rest.2,
    )

-- `max` does not bound the pool: when it is not shutting down, is below `max` and has no free
-- connection, all of any number of clients that ask while the factory is busy get past the test
-- against `max`, and when the factory answers each has a new connection of its own, so that the pool
-- has as many more, whatever `max` is.
pub acquire_overshoots :
    (p : Pool) (now n : ℕ)
    → p.shutting_down ≡ false
    → p.free ≡ []
    → length p.all < p.config.max
    → let asked = ask_all p now n in
      let r = answer_all asked.0 now asked.1 in
      (asked.1 ≡ replicate n connecting)
      × (r.1 ≡ all_got p.next_conn n)
      × (length r.0.all ≡ length p.all + n)
      × (r.0.config.max ≡ p.config.max)
acquire_overshoots p now n up free room =
    let r = answer_all-connecting p now n in
    rw (ask_all-connecting p now n up free room) (refl, r.0, r.1, r.2)

-- A whole `acquire_impl`, when nothing interrupts its call of the factory.
finish_acquire : ℕ → Option PoolError → Pool × Acquire → Pool × Acquire
finish_acquire now r (q, connecting) = acquire_connected q now r
finish_acquire now r (q, other) = (q, other)

pub acquire_alone : Pool → ℕ → Option PoolError → Pool × Acquire
unfolding finish_acquire
acquire_alone p now r = finish_acquire now r (acquire_start p now)

length-acquire_connected :
    (p : Pool) (now : ℕ) (r : Option PoolError)
    → length (acquire_connected p now r).0.all ≤ length p.all + 1
unfolding acquire_connected track
length-acquire_connected p now none = omega (arith, length-append p.all (p.next_conn ∷ []))
length-acquire_connected p now (some e) = omega arith

acquire_open-bound :
    (p : Pool) (now : ℕ) (r : Option PoolError) (xs : List ℕ)
    → length p.all ≤ p.config.max
    → length (finish_acquire now r (acquire_open p now xs)).0.all ≤ p.config.max
unfolding finish_acquire acquire_open take_free enqueue
acquire_open-bound p now r (c ∷ rest) h = h
acquire_open-bound p now r [] h = choice (ltb (length p.all) p.config.max) refl
  where
    choice :
        (b : Bool)
        → ltb (length p.all) p.config.max ≡ b
        → length
            (finish_acquire now r
              (if b then (p, connecting) else (enqueue p, Acquire.waiting p.next_waiter))).0.all
          ≤ p.config.max
    choice true e = omega (arith, length-acquire_connected p now r, ltb→lt _ _ e)
    choice false e = h

-- With one client at a time, whose call of the factory nothing interrupts, a pool within `max`
-- stays within it.
pub acquire_alone-bound :
    (p : Pool) (now : ℕ) (r : Option PoolError)
    → length p.all ≤ p.config.max
    → length (acquire_alone p now r).0.all ≤ p.config.max
unfolding acquire_alone finish_acquire acquire_start
acquire_alone-bound p now r h = choice p.shutting_down
  where
    choice :
        (b : Bool)
        → length
            (finish_acquire now r (
              if b
              then (p, Acquire.refused PoolError.pool_shutdown)
              else acquire_open p now p.free)).0.all
          ≤ p.config.max
    choice true = h
    choice false = acquire_open-bound p now r p.free h

one_at_most : (c : ℕ) (xs : List ℕ) → (if contains c xs then 1 else 0) ≤ 1
one_at_most c xs = ground arith

reap_loop-least :
    (old : ℕ → Bool) (least : ℕ) (free owned : List ℕ)
    → least ≤ length owned
    → least ≤ length (reap_loop old least free owned).left
unfolding reap_loop
reap_loop-least old least [] owned h = h
reap_loop-least old least (c ∷ cs) owned h = elim (Bool-cases (old c && ltb least (length owned))) [
  | inl go ↦ rw go (
      reap_loop-least old least cs (erase_one c owned) (
        omega (
          arith,
          ltb→lt least (length owned) (and-true (old c) (ltb least (length owned)) go).1,
          length-erase_one c owned,
          one_at_most c owned,
        )))
  | inr stay ↦ rw stay (reap_loop-least old least cs owned h)
]

-- The reaper never takes a pool of at least `min` connections below `min`.
pub reap-least :
    (p : Pool) (now : ℕ) → p.config.min ≤ length p.all → p.config.min ≤ length (reap p now).all
unfolding reap
reap-least p now h =
    reap_loop-least (too_old p.info now p.config.idle_timeout_sec) p.config.min p.free p.all h

contains-insert : (c : ℕ) (xs : List ℕ) → contains c (insert c xs) ≡ true
unfolding insert
contains-insert c xs = ground arith

-- When the pool is not shutting down, a checked-out connection that comes back healthy and open
-- goes to the longest waiter, which finds it when it wakes; it stays checked out, and the free
-- list is not touched.
pub release_serves_oldest :
    (p : Pool) (c now w : ℕ) (ws : List ℕ)
    → contains c p.active ≡ true
    → p.shutting_down ≡ false
    → p.waiters ≡ w ∷ ws
    → let q = release p c true true now in
      (result_of w q.handed ≡ some c)
      × (q.waiters ≡ ws)
      × (q.free ≡ p.free)
      × (contains c q.active ≡ true)
unfolding release hand_over result_of
release_serves_oldest p c now w ws held up queue =
    let left = erase_one c p.active in
    (
      ground (arith, contains-insert c left),
      ground (arith, contains-insert c left),
      ground (arith, contains-insert c left),
      ground (arith, contains-insert c left),
    )

-- In a pool within `max`, when a checked-out connection comes back unhealthy or closed, the pool
-- falls below `max` and yet nobody who waits is woken: the waiters and what was handed over stay
-- as they are.
pub release_unhealthy_starves :
    (p : Pool) (c now : ℕ) (healthy is_open : Bool)
    → contains c p.active ≡ true
    → contains c p.all ≡ true
    → length p.all ≤ p.config.max
    → (healthy && is_open) ≡ false
    → let q = release p c healthy is_open now in
      (q.waiters ≡ p.waiters) × (q.handed ≡ p.handed) × (length q.all < q.config.max)
unfolding release discard
release_unhealthy_starves p c now healthy is_open held owned bound bad =
    (ground arith, ground arith, ground (arith, length-erase_one c p.all))
