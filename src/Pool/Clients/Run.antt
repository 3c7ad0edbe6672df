-- ===== src/Pool/Clients/Run.antt =====
-- connection_pool.cpp: the clients' steps one after the other, from a new pool.
use dbmesh.Prelude.{
  ℕ, zero, suc, ◌≤◌, ◌≡◌, ◌≢◌, replicate, refl, arith, Bool, true, false, List, [], ◌∷◌, Option,
  none, some, get_elem?, set, if◌then◌else◌, ltb, length, sym, ◌∙◌, ap,
}
use dbmesh.Core.Config.{PoolConfig}
use dbmesh.Pool.{
  Pool, PoolError, Acquire, refused, connecting, waiting, acquire_start, acquire_open,
  acquire_connected, acquire_woken, enqueue, result_of, init,
}
use dbmesh.Pool.Counts.{count}
use dbmesh.Pool.Ownership.{init-Owned}
use dbmesh.Pool.Clients.{
  Client, outside, in_factory, in_queue, holds, System, client_after, Step, asks, connects, wakes,
  returns, warms, drains, reaps, moved, ask, answer, wake, give_back, step, run, held, queued,
}
use dbmesh.Pool.Clients.Weights.{held-set}
use dbmesh.Pool.Clients.Exclusive.{
  Exclusive, stays-Exclusive, take_free-Exclusive, enqueue-Exclusive, connected-Exclusive,
}
use dbmesh.Pool.Clients.Returns.{
  warm-Exclusive, drain-Exclusive, reap-Exclusive, resumed-Exclusive, release-Exclusive,
}

if-moved :
    (s : System) (i : ℕ) (b : Bool) (x y : Pool × Acquire)
    → Exclusive x.0 (set s.clients i (client_after x.1))
    → Exclusive y.0 (set s.clients i (client_after y.1))
    → Exclusive (if b then x else y).0 (set s.clients i (client_after (if b then x else y).1))
if-moved s i true x y h k = h
if-moved s i false x y h k = k

-- The invariant on a system.
abbrev Sound : System → Type 0
Sound s = Exclusive s.pool s.clients

module _ (s : System) (i : ℕ) (v : Sound s) where
  same : (x : Client) → get_elem? s.clients i ≡ some x → Exclusive s.pool (set s.clients i x)
  same x e = stays-Exclusive s.pool s.clients i x x e (λ c. omega arith) (λ w. omega arith) v

  leaves :
      (x : Client) → get_elem? s.clients i ≡ some x → Exclusive s.pool (set s.clients i outside)
  leaves x e =
      stays-Exclusive s.pool s.clients i x outside e (λ c. omega arith) (λ w. omega arith) v

  in_factory-Exclusive :
      get_elem? s.clients i ≡ some outside → Exclusive s.pool (set s.clients i in_factory)
  in_factory-Exclusive e =
      stays-Exclusive s.pool s.clients i outside in_factory e (λ c. omega arith) (λ w. omega arith)
        v

  open-Exclusive :
      (now : ℕ) (xs : List ℕ)
      → get_elem? s.clients i ≡ some outside
      → s.pool.free ≡ xs
      → Sound (moved s i (acquire_open s.pool now xs))
  unfolding acquire_open
  open-Exclusive now (c ∷ rest) e f = take_free-Exclusive s.pool s.clients i now c rest e f v
  open-Exclusive now [] e f =
      if-moved s i (ltb (length s.pool.all) s.pool.config.max) (s.pool, connecting)
        (enqueue s.pool, waiting s.pool.next_waiter) (in_factory-Exclusive e)
        (enqueue-Exclusive s.pool s.clients i e v)

  ask-Exclusive : (now : ℕ) (o : Option Client) → get_elem? s.clients i ≡ o → Sound (ask s i now o)
  unfolding acquire_start
  ask-Exclusive now (some outside) e =
      if-moved s i s.pool.shutting_down (s.pool, refused PoolError.pool_shutdown)
        (acquire_open s.pool now s.pool.free) (same outside e)
        (open-Exclusive now s.pool.free e refl)
  ask-Exclusive now none e = v
  ask-Exclusive now (some in_factory) e = v
  ask-Exclusive now (some (in_queue w)) e = v
  ask-Exclusive now (some (holds c)) e = v

  answer-Exclusive :
      (now : ℕ) (r : Option PoolError) (o : Option Client)
      → get_elem? s.clients i ≡ o
      → Sound (answer s i now r o)
  unfolding acquire_connected
  answer-Exclusive now none (some in_factory) e = connected-Exclusive s.pool s.clients i now e v
  answer-Exclusive now (some err) (some in_factory) e = leaves in_factory e
  answer-Exclusive now r none e = v
  answer-Exclusive now r (some outside) e = v
  answer-Exclusive now r (some (in_queue w)) e = v
  answer-Exclusive now r (some (holds c)) e = v

  wake-Exclusive : (o : Option Client) → get_elem? s.clients i ≡ o → Sound (wake s i o)
  unfolding acquire_woken
  wake-Exclusive (some (in_queue w)) e =
      resumed-Exclusive s.pool s.clients i w (result_of w s.pool.handed) e refl v
  wake-Exclusive none e = v
  wake-Exclusive (some outside) e = v
  wake-Exclusive (some in_factory) e = v
  wake-Exclusive (some (holds c)) e = v

  give_back-Exclusive :
      (healthy is_open : Bool) (now : ℕ) (o : Option Client)
      → get_elem? s.clients i ≡ o
      → Sound (give_back s i healthy is_open now o)
  give_back-Exclusive healthy is_open now (some (holds c)) e =
      release-Exclusive s.pool s.clients i c now healthy is_open e v
  give_back-Exclusive healthy is_open now none e = v
  give_back-Exclusive healthy is_open now (some outside) e = v
  give_back-Exclusive healthy is_open now (some in_factory) e = v
  give_back-Exclusive healthy is_open now (some (in_queue w)) e = v

step-Exclusive : (s : System) (e : Step) → Sound s → Sound (step s e)
unfolding step
step-Exclusive s (asks i now) v = ask-Exclusive s i v now (get_elem? s.clients i) refl
step-Exclusive s (connects i now r) v = answer-Exclusive s i v now r (get_elem? s.clients i) refl
step-Exclusive s (wakes i) v = wake-Exclusive s i v (get_elem? s.clients i) refl
step-Exclusive s (returns i healthy is_open now) v =
    give_back-Exclusive s i v healthy is_open now (get_elem? s.clients i) refl
step-Exclusive s (warms now) v = warm-Exclusive s.pool s.clients now v
step-Exclusive s drains v = drain-Exclusive s.pool s.clients v
step-Exclusive s (reaps now) v = reap-Exclusive s.pool s.clients now v

run-Exclusive : (s : System) (es : List Step) → Sound s → Sound (run s es)
unfolding run
run-Exclusive s [] v = v
run-Exclusive s (e ∷ es) v = run-Exclusive (step s e) es (step-Exclusive s e v)

-- So many clients, and a new pool.
abbrev pub beginning : PoolConfig → ℕ → System
beginning config n = record { pool = init config; clients = replicate n outside }

held-outside : (c n : ℕ) (h : List (ℕ × ℕ)) → held c h (replicate n outside) ≡ 0
held-outside c zero h = refl
held-outside c (suc n) h = omega (arith, held-outside c n h)

queued-outside : (w n : ℕ) → queued w (replicate n outside) ≡ 0
queued-outside w zero = refl
queued-outside w (suc n) = omega (arith, queued-outside w n)

beginning-Exclusive : (config : PoolConfig) (n : ℕ) → Sound (beginning config n)
unfolding init result_of
beginning-Exclusive config n = record {
  owned = init-Owned config;
  once = λ c. omega (arith, held-outside c n []);
  fresh = λ c h. held-outside c n [];
  queued_once = λ w. omega (arith, queued-outside w n);
  queued_fresh = λ w h. queued-outside w n;
  waits_once = λ w. omega arith;
  waits_fresh = λ w h. refl;
  handed_fresh = λ w h. refl;
  not_handed = λ w h. absurd (omega arith);
}

held-at :
    (c : ℕ) (h : List (ℕ × ℕ)) (cs : List Client) (i : ℕ)
    → get_elem? cs i ≡ some (holds c)
    → 1 ≤ held c h cs
held-at c h cs i e = ground (arith, held-set c h cs i outside e)

at-set :
    (cs : List Client) (i j : ℕ) (y : Client) {x : Client}
    → i ≢ j
    → get_elem? cs j ≡ some x
    → get_elem? (set cs i y) j ≡ some x
at-set [] i j y d e = cc
at-set (z ∷ cs) zero zero y d e = absurd (d refl)
at-set (z ∷ cs) zero (suc j) y d e = e
at-set (z ∷ cs) (suc i) zero y d e = e
at-set (z ∷ cs) (suc i) (suc j) y d e = at-set cs i j y (λ q. d (ap suc q)) e

-- In every interleaving of any number of clients, the warming, the idle reaper and the drain, from a
-- new pool: two clients that hold connections hold different ones, and neither of these is in the
-- free list.
pub run-beginning-Exclusive :
    (config : PoolConfig) (n : ℕ) (es : List Step) (i j c d : ℕ)
    → i ≢ j
    → get_elem? (run (beginning config n) es).clients i ≡ some (holds c)
    → get_elem? (run (beginning config n) es).clients j ≡ some (holds d)
    → (c ≢ d)
      × (count c (run (beginning config n) es).pool.free ≡ 0)
      × (count d (run (beginning config n) es).pool.free ≡ 0)
run-beginning-Exclusive config n es i j c d apart e e' =
    let s = run (beginning config n) es in
    let v = run-Exclusive (beginning config n) es (beginning-Exclusive config n) in
    let mine = held-at c s.pool.handed s.clients i e in
    let theirs = held-at d s.pool.handed s.clients j e' in
    (
      λ q.
          let both =
            held-at c s.pool.handed (set s.clients i outside) j
              (at-set s.clients i j outside apart e' ∙ ap (λ x. some (holds x)) (sym q)) in
          ground (arith, held-set c s.pool.handed s.clients i outside e, v.once c, both),
      omega (arith, mine, v.once c),
      omega (arith, theirs, v.once d),
    )
