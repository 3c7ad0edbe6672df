-- ===== src/Pool/Clients.antt =====
-- connection_pool.cpp with its clients: who holds which connection, in any interleaving of the
-- stretches of `acquire`, `release`, `warm`, `drain` and the idle reaper.
pub mod Weights
pub mod Exclusive
pub mod Returns
pub mod Run
use dbmesh.Prelude.{
  ℕ, ◌+◌, Bool, true, false, List, [], ◌∷◌, Option, none, some, get_elem?, set, if◌then◌else◌, ◌==◌,
}
use dbmesh.Pool.{
  Pool, PoolError, Acquire, refused, got, connecting, waiting, acquire_start, acquire_connected,
  acquire_woken, release, warm_connected, drain, reap, result_of,
}

-- Where a client stands: with no connection, in the factory, in the queue, or with a connection.
pub data Client : Type 0 where
  outside in_factory : Client
  in_queue holds : ℕ → Client

pub record System : Type 0 where
  pub pool : Pool
  pub clients : List Client

abbrev pub client_after : Acquire → Client
client_after (refused e) = outside
client_after (got c) = holds c
client_after connecting = in_factory
client_after (waiting w) = in_queue w

-- The next stretch of client number `i`, or one of the pool's own.
pub data Step : Type 0 where
  asks : ℕ → ℕ → Step
  connects : ℕ → ℕ → Option PoolError → Step
  wakes : ℕ → Step
  returns : ℕ → Bool → Bool → ℕ → Step
  warms : ℕ → Step
  drains : Step
  reaps : ℕ → Step

abbrev pub moved : System → ℕ → Pool × Acquire → System
moved s i r = record { pool = r.0; clients = set s.clients i (client_after r.1) }

abbrev pub ask : System → ℕ → ℕ → Option Client → System
ask s i now (some outside) = moved s i (acquire_start s.pool now)
ask s i now _ = s

abbrev pub answer : System → ℕ → ℕ → Option PoolError → Option Client → System
answer s i now r (some in_factory) = moved s i (acquire_connected s.pool now r)
answer s i now r _ = s

abbrev pub wake : System → ℕ → Option Client → System
wake s i (some (in_queue w)) = moved s i (acquire_woken s.pool w)
wake s i _ = s

abbrev pub give_back : System → ℕ → Bool → Bool → ℕ → Option Client → System
give_back s i healthy is_open now (some (holds c)) = record {
  pool = release s.pool c healthy is_open now;
  clients = set s.clients i outside;
}
give_back s i healthy is_open now _ = s

-- A client that does not stand where the step begins does not move.
unfoldable pub step : System → Step → System
step s (asks i now) = ask s i now (get_elem? s.clients i)
step s (connects i now r) = answer s i now r (get_elem? s.clients i)
step s (wakes i) = wake s i (get_elem? s.clients i)
step s (returns i healthy is_open now) = give_back s i healthy is_open now (get_elem? s.clients i)
step s (warms now) = record s { pool = warm_connected s.pool now }
step s drains = record s { pool = drain s.pool }
step s (reaps now) = record s { pool = reap s.pool now }

unfoldable pub run : System → List Step → System
unfolding step
run s [] = s
run s (e ∷ es) = run (step s e) es

-- How often a connection is held, by a client or for one that waits and was handed it.
abbrev pub weight : ℕ → List (ℕ × ℕ) → Client → ℕ
weight c handed (holds d) = if d == c then 1 else 0
weight c handed (in_queue w) = elim (result_of w handed) [
  | none ↦ 0
  | some d ↦ if d == c then 1 else 0
]
weight c handed _ = 0

abbrev pub held : ℕ → List (ℕ × ℕ) → List Client → ℕ
held c handed [] = 0
held c handed (x ∷ xs) = weight c handed x + held c handed xs

abbrev pub waits_as : ℕ → Client → ℕ
waits_as w (in_queue v) = if v == w then 1 else 0
waits_as w _ = 0

abbrev pub queued : ℕ → List Client → ℕ
queued w [] = 0
queued w (x ∷ xs) = waits_as w x + queued w xs
