-- ===== src/Pool.antt =====
-- pool/src/connection_pool.cpp, connection_pool.h, pooled_connection.h and pool/types.h. All bodies run
-- on one strand, so a body runs without interruption up to its `co_await`: each function below is
-- such a stretch. A connection is a number, given in the order of `track`; so is a waiter. The clock,
-- the factory's answer and the state of a socket are arguments.
pub mod Counts
pub mod Ownership
pub mod Capacity
pub mod InSync
pub mod Manager
pub mod Lease
pub mod Clients
use dbmesh.Core.Config.{PoolConfig}
use dbmesh.Prelude.{
  ℕ, suc, zero, ◌+◌, ◌-◌, ◌*◌, ◌%◌, ◌^◌, Bool, true, false, not, ◌&&◌, ◌||◌, List, [], ◌∷◌, ◌++◌,
  Option, none, some, if◌then◌else◌, ltb, ◌==◌, length, is_empty,
}

-- `enum class PoolError`.
pub data PoolError : Type 0 where
  pool_exhausted connect_failed backend_unavailable queue_full timed_out pool_shutdown : PoolError

-- `enum class ConnectionState`.
pub data ConnectionState : Type 0 where
  idle in_use validating closed : ConnectionState

-- The bookkeeping of a `PooledConnection`.
pub record Info : Type 0 where
  pub state : ConnectionState
  pub last_used : ℕ

-- The atomics that `sync_metrics` stores.
pub record Metrics : Type 0 where
  pub free_count : ℕ
  pub active_count : ℕ
  pub waiter_count : ℕ
  pub total_count : ℕ

pub record Pool : Type 0 where
  pub config : PoolConfig
  pub all : List ℕ
  pub free : List ℕ
  pub active : List ℕ
  pub waiters : List ℕ
  -- What `release` handed over, newest first: the waiter and its connection.
  pub handed : List (ℕ × ℕ)
  pub shutting_down : Bool
  pub metrics : Metrics
  pub total_acquired : ℕ
  pub info : ℕ → Info
  -- The connections on which `close` was called.
  pub closed_conns : List ℕ
  pub next_conn : ℕ
  pub next_waiter : ℕ

abbrev pub contains : ℕ → List ℕ → Bool
contains x [] = false
contains x (y ∷ ys) = y == x || contains x ys

-- `unordered_set::insert`.
unfoldable pub insert : ℕ → List ℕ → List ℕ
insert x xs = if contains x xs then xs else x ∷ xs

-- The first occurrence goes: `untrack`, and `erase` on the set and the queue of waiters.
unfoldable pub erase_one : ℕ → List ℕ → List ℕ
erase_one x [] = []
erase_one x (y ∷ ys) = let rest = erase_one x ys in if y == x then ys else y ∷ rest

abbrev pub write_info : (ℕ → Info) → ℕ → Info → ℕ → Info
write_info f c i x = if x == c then i else f x

abbrev pub sync_metrics : Pool → Pool
sync_metrics p = record p {
  metrics = record {
    free_count = length p.free;
    active_count = length p.active;
    waiter_count = length p.waiters;
    total_count = length p.all;
  };
}

abbrev pub count_acquired : ℕ → ℕ
count_acquired n = (n + 1) % 2 ^ 64

-- `track`: the new connection's number is `p.next_conn`.
unfoldable pub track : Pool → ℕ → Pool
track p now = record p {
  all = p.all ++ p.next_conn ∷ [];
  info = write_info p.info p.next_conn (record { state = idle; last_used = now });
  next_conn = p.next_conn + 1;
}

-- Where `acquire_impl` stands after its first stretch.
pub data Acquire : Type 0 where
  refused : PoolError → Acquire
  got : ℕ → Acquire
  -- In `co_await factory_()`.
  connecting : Acquire
  -- In `co_await waiter->timer.async_wait`.
  waiting : ℕ → Acquire

-- The fast path, with the front of the free list.
unfoldable pub take_free : Pool → ℕ → ℕ → List ℕ → Pool
take_free p now c rest = sync_metrics (record p {
  free = rest;
  info = write_info p.info c (record { state = in_use; last_used = now });
  active = insert c p.active;
  total_acquired = count_acquired p.total_acquired;
})

unfoldable pub enqueue : Pool → Pool
enqueue p =
    sync_metrics
      (record p { waiters = p.waiters ++ p.next_waiter ∷ []; next_waiter = p.next_waiter + 1 })

unfoldable pub acquire_open : Pool → ℕ → List ℕ → Pool × Acquire
unfolding take_free enqueue
acquire_open p now (c ∷ rest) = (take_free p now c rest, got c)
acquire_open p now [] =
    if ltb (length p.all) p.config.max then (p, connecting) else (enqueue p, waiting p.next_waiter)

unfoldable pub acquire_start : Pool → ℕ → Pool × Acquire
unfolding acquire_open
acquire_start p now =
    if p.shutting_down then (p, refused pool_shutdown) else acquire_open p now p.free

-- `acquire_impl` behind `co_await factory_()`; the factory's error is passed on.
unfoldable pub acquire_connected : Pool → ℕ → Option PoolError → Pool × Acquire
unfolding track
acquire_connected p now (some e) = (p, refused e)
acquire_connected p now none =
    let q = track p now in
    (
      sync_metrics (record q {
        info = write_info q.info p.next_conn (record { state = in_use; last_used = now });
        active = insert p.next_conn q.active;
        total_acquired = count_acquired q.total_acquired;
      }),
      got p.next_conn,
    )

-- The connection that was handed to a waiter.
unfoldable pub result_of : ℕ → List (ℕ × ℕ) → Option ℕ
result_of w [] = none
result_of w ((v, c) ∷ rest) = if v == w then some c else result_of w rest

unfoldable pub acquire_resumed : Pool → ℕ → Option ℕ → Pool × Acquire
acquire_resumed p w (some c) =
    (record p { total_acquired = count_acquired p.total_acquired }, got c)
acquire_resumed p w none =
    (sync_metrics (record p { waiters = erase_one w p.waiters }), refused timed_out)

-- `acquire_impl` behind the wait: the timer ran out, or was cancelled by `release` or `drain`.
unfoldable pub acquire_woken : Pool → ℕ → Pool × Acquire
unfolding acquire_resumed erase_one result_of
acquire_woken p w = acquire_resumed p w (result_of w p.handed)

-- Unhealthy, shutting down, or a socket that is closed.
unfoldable pub discard : Pool → ℕ → Pool
discard p c = sync_metrics (record p { closed_conns = c ∷ p.closed_conns; all = erase_one c p.all })

unfoldable pub hand_over : Pool → ℕ → ℕ → List ℕ → Pool
hand_over p c now (w ∷ rest) = sync_metrics (record p {
  waiters = rest;
  info = write_info p.info c (record { state = in_use; last_used = (p.info c).last_used });
  active = insert c p.active;
  handed = (w, c) ∷ p.handed;
})
hand_over p c now [] = sync_metrics (record p {
  info = write_info p.info c (record { state = idle; last_used = now });
  free = p.free ++ c ∷ [];
})

unfoldable pub release : Pool → ℕ → Bool → Bool → ℕ → Pool
unfolding discard hand_over erase_one
release p c healthy is_open now =
    let q = record p { active = erase_one c p.active } in
    if not (contains c p.active)
    then p
    else if not healthy || q.shutting_down || not is_open
    then discard q c
    else hand_over q c now q.waiters

-- One round of `warm_impl`, number `i`: whether it goes to the factory.
unfoldable pub warm_check : Pool → ℕ → Bool
warm_check p i = ltb i p.config.min && not p.shutting_down && ltb (length p.all) p.config.max

-- `warm_impl` behind `co_await factory_()` when the factory gave a connection.
unfoldable pub warm_connected : Pool → ℕ → Pool
unfolding track
warm_connected p now =
    let q = track p now in sync_metrics (record q { free = q.free ++ p.next_conn ∷ [] })

unfoldable pub drain : Pool → Pool
drain p = sync_metrics (record p {
  shutting_down = true;
  waiters = [];
  closed_conns = p.active ++ (p.free ++ p.closed_conns);
  free = [];
  active = [];
  all = [];
})

-- The loop of the idle reaper over the free list: the connections kept, all that are left, and
-- those closed.
pub record Reaped : Type 0 where
  pub kept : List ℕ
  pub left : List ℕ
  pub shut : List ℕ

-- `std::chrono::seconds(1)` in ticks of the steady clock, nanoseconds.
abbrev pub ticks : ℕ
ticks = 1000000000

abbrev pub too_old : (ℕ → Info) → ℕ → ℕ → ℕ → Bool
too_old info now timeout c = ltb (timeout * ticks) (now - (info c).last_used)

unfoldable pub reap_loop : (ℕ → Bool) → ℕ → List ℕ → List ℕ → Reaped
unfolding erase_one
reap_loop old least [] owned = record { kept = []; left = owned; shut = [] }
reap_loop old least (c ∷ cs) owned =
    let go = old c && ltb least (length owned) in
    let r = reap_loop old least cs (if go then erase_one c owned else owned) in
    if go then record r { shut = c ∷ r.shut } else record r { kept = c ∷ r.kept }

-- One round of the idle reaper, when its timer ran out and the pool is not shutting down.
unfoldable pub reap : Pool → ℕ → Pool
unfolding reap_loop
reap p now =
    let r = reap_loop (too_old p.info now p.config.idle_timeout_sec) p.config.min p.free p.all in
    sync_metrics (record p { free = r.kept; all = r.left; closed_conns = r.shut ++ p.closed_conns })

unfoldable pub init : PoolConfig → Pool
init c = record {
  config = c;
  all = [];
  free = [];
  active = [];
  waiters = [];
  handed = [];
  shutting_down = false;
  metrics = record { free_count = 0; active_count = 0; waiter_count = 0; total_count = 0 };
  total_acquired = 0;
  info = λ c. record { state = idle; last_used = 0 };
  closed_conns = [];
  next_conn = 0;
  next_waiter = 0;
}
