-- ===== src/Frontend/Route/Returned.antt =====
-- mysql_connection.cpp: the connection that a query takes, up to the query's end.
use mathlib.Core.Path.{subst}
use dbmesh.Prelude.{
  ℕ, ◌∷◌, ◌≡◌, refl, Bool, true, false, Option, none, some, Bytes, bytes_eq, bytes_eq_iff,
  bytes_eq_self, if◌then◌else◌, lookup-assign, Bool-cases, Option-cases, inl, inr, sym, ◌∙◌, ap,
}
use dbmesh.Core.Types.{Result, ok, err}
use dbmesh.Routing.Types.{RoutingError, RoutePlan}
use dbmesh.Routing.Engine.{plan}
use dbmesh.Pool.{
  Pool, PoolError, Acquire, refused, got, connecting, waiting, acquire_start, acquire_connected,
  acquire_woken, release,
}
use dbmesh.Pool.Manager.{get_pool}
use dbmesh.Pool.Lease.{
  Calm, Quiet, Taken, Queued, Acquired, Answered, Quiet-self, acquire_start-Acquired,
  acquire_connected-Answered, acquire_woken-Answered, release-Quiet,
}
use dbmesh.Protocol.Constants.{cmd_query}
use dbmesh.Frontend.{Session}
use dbmesh.Frontend.Route.{
  Mesh, Phase, sends, done, in_factory, in_queue, holds, no_pool, view_of, no_context, put_pool,
  after_acquire, acquired, with_plan, route_start, on_pool, route_connected, route_woken,
  route_forwarded,
}
use dbmesh.Frontend.Route.Alone.{finish_acquire, finish_exchange, Sockets, exchange, route_alone}
use dbmesh.Frontend.Route.Ends.{Ends, AllEnd, Answers, forward-Ends}

-- Every pool of the mesh is calm.
abbrev pub AllCalm : Mesh → Type 0
AllCalm m = (id : Bytes) (p : Pool) → get_pool m.pools id ≡ some p → Calm p

-- Each pool has what it had: the connections that are checked out, and nobody waits.
abbrev pub Settled : Mesh → Mesh → Type 0
Settled m0 m =
    (id : Bytes) (q : Pool)
    → get_pool m.pools id ≡ some q
    → (p : Pool) × (get_pool m0.pools id ≡ some p) × Quiet p q

-- The pool of this backend alone has changed, in this way.
record Changed (m0 m : Mesh) (id : Bytes) (R : Pool → Pool → Type 0) : Type 0 where
  before : Pool
  after : Pool
  had : get_pool m0.pools id ≡ some before
  has : get_pool m.pools id ≡ some after
  related : R before after
  others : (j : Bytes) → bytes_eq id j ≡ false → get_pool m.pools j ≡ get_pool m0.pools j

-- What holds where a query stands.
abbrev At : Mesh → Mesh → Phase → Type 0
At m0 m (sends b) = Settled m0 m
At m0 m done = Settled m0 m
At m0 m (in_factory id) = Changed m0 m id Quiet
At m0 m (in_queue id w) = Changed m0 m id (λ p q. Queued p q w)
At m0 m (holds id c) = Changed m0 m id (λ p q. Taken p q c)

get_pool-put_pool :
    (m : Mesh) (id j : Bytes) (p : Pool)
    → get_pool (put_pool m id p).pools j ≡ (if bytes_eq id j then some p else get_pool m.pools j)
unfolding get_pool
get_pool-put_pool m id j p = lookup-assign id j p m.pools.pools

put-Changed :
    (m0 m : Mesh) (id : Bytes) (R S : Pool → Pool → Type 0) (ch : Changed m0 m id R) (q : Pool)
    → S ch.before q
    → Changed m0 (put_pool m id q) id S
put-Changed m0 m id R S ch q h = record {
  before = ch.before;
  after = q;
  had = ch.had;
  has = get_pool-put_pool m id id q ∙ rw (bytes_eq_self id) refl;
  related = h;
  others = λ j other. get_pool-put_pool m id j q ∙ rw other (ch.others j other);
}

Changed-Settled : (m0 m : Mesh) (id : Bytes) → AllCalm m0 → Changed m0 m id Quiet → Settled m0 m
Changed-Settled m0 m id calm ch j q found = elim (Bool-cases (bytes_eq id j)) [
  | inl same ↦
      let e : id ≡ j = (bytes_eq_iff id j).0 same in
      let it : get_pool m.pools id ≡ some q = ap (get_pool m.pools) e ∙ found in
      let same_pool : ch.after ≡ q = cc in
      (
        ch.before,
        ap (get_pool m0.pools) (sym e) ∙ ch.had,
        subst (Quiet ch.before) same_pool ch.related,
      )
  | inr other ↦
      let had : get_pool m0.pools j ≡ some q = sym (ch.others j other) ∙ found in
      let c = calm j q had in (q, had, Quiet-self q c.calm_owned c.calm_nobody)
]

Settled-self : (m : Mesh) → AllCalm m → Settled m m
Settled-self m calm id q found =
    let c = calm id q found in (q, found, Quiet-self q c.calm_owned c.calm_nobody)

on_pool-has :
    (m : Mesh) (id : Bytes) (f : Pool → Mesh × Phase) {p : Pool}
    → get_pool m.pools id ≡ some p
    → on_pool m id f ≡ f p
unfolding on_pool
on_pool-has m id f h = rw (h, on_pool) refl

with_plan-missing :
    (m : Mesh) (now : ℕ) (p : RoutePlan)
    → get_pool m.pools p.plan_backend ≡ none
    → with_plan m now (ok p) ≡ (m, sends (no_pool p.plan_backend))
unfolding with_plan
with_plan-missing m now p h = rw (h, with_plan) refl

with_plan-has :
    (m : Mesh) (now : ℕ) (p : RoutePlan) {pool : Pool}
    → get_pool m.pools p.plan_backend ≡ some pool
    → with_plan m now (ok p) ≡ acquired m p.plan_backend (acquire_start pool now)
unfolding with_plan
with_plan-has m now p h = rw (h, with_plan) refl

-- The query has its connection, or is over.
abbrev Arrived : Mesh → Mesh → Phase → Type 0
Arrived m0 m (sends b) = Settled m0 m
Arrived m0 m done = Settled m0 m
Arrived m0 m (holds id c) = Changed m0 m id (λ p q. Taken p q c)
Arrived m0 m _ = ⊥

-- The query is over, and each pool has what it had.
abbrev pub Over : Mesh → Mesh → Phase → Type 0
Over m0 m (sends b) = Settled m0 m
Over m0 m done = Settled m0 m
Over m0 m _ = ⊥

module _ (m0 : Mesh) (calm : AllCalm m0) (m : Mesh) (id : Bytes) (R : Pool → Pool → Type 0)
    (ch : Changed m0 m id R) where
  after_acquire-At :
      (q : Pool) (a : Acquire)
      → Acquired ch.before q a
      → At m0 (put_pool m id q) (after_acquire id a)
  after_acquire-At q (refused e) h =
      Changed-Settled m0 _ id calm (put-Changed m0 m id R Quiet ch q h)
  after_acquire-At q (got c) h = put-Changed m0 m id R (λ x y. Taken x y c) ch q h
  after_acquire-At q connecting h = put-Changed m0 m id R Quiet ch q h
  after_acquire-At q (waiting w) h = put-Changed m0 m id R (λ x y. Queued x y w) ch q h

  after_acquire-Arrived :
      (q : Pool) (a : Acquire)
      → Answered ch.before q a
      → Arrived m0 (put_pool m id q) (after_acquire id a)
  after_acquire-Arrived q (refused e) h =
      Changed-Settled m0 _ id calm (put-Changed m0 m id R Quiet ch q h)
  after_acquire-Arrived q (got c) h = put-Changed m0 m id R (λ x y. Taken x y c) ch q h
  after_acquire-Arrived q connecting h = absurd h
  after_acquire-Arrived q (waiting w) h = absurd h

module _ (m0 : Mesh) (calm : AllCalm m0) where
  finish_acquire-Arrived :
      (now : ℕ) (answer : Option PoolError) (m : Mesh) (phase : Phase)
      → At m0 m phase
      → Arrived m0 (finish_acquire now answer (m, phase)).0 (finish_acquire now answer (m, phase)).1
  unfolding route_connected route_woken
  finish_acquire-Arrived now answer m (sends b) h = h
  finish_acquire-Arrived now answer m done h = h
  finish_acquire-Arrived now answer m (holds id c) h = h
  finish_acquire-Arrived now answer m (in_factory id) ch =
      let r = acquire_connected ch.after now answer in
      subst (λ (t : Mesh × Phase). Arrived m0 t.0 t.1) (sym (on_pool-has m id _ ch.has))
        (after_acquire-Arrived m0 calm m id _ ch r.0 r.1
          (acquire_connected-Answered ch.before ch.after now answer ch.related))
  finish_acquire-Arrived now answer m (in_queue id w) ch =
      let r = acquire_woken ch.after w in
      subst (λ (t : Mesh × Phase). Arrived m0 t.0 t.1) (sym (on_pool-has m id _ ch.has))
        (after_acquire-Arrived m0 calm m id _ ch r.0 r.1
          (acquire_woken-Answered ch.before ch.after w ch.related))

  told :
      (m : Mesh) (healthy : Bool) (id b : Bytes)
      → Settled m0 m
      → Over m0 m (if healthy then done else sends b)
  told m true id b h = h
  told m false id b h = h

  finish_exchange-Over :
      (exchanged : Option Bool) (healthy is_open : Bool) (now : ℕ) (m : Mesh) (phase : Phase)
      → exchanged ≡ some healthy
      → Arrived m0 m phase
      → (r : Mesh × Phase) × (finish_exchange exchanged is_open now (m, phase) ≡ some r)
        × Over m0 r.0 r.1
  unfolding route_forwarded
  finish_exchange-Over none healthy is_open now m phase e h = cc
  finish_exchange-Over (some b) healthy is_open now m (sends x) e h = ((m, sends x), refl, h)
  finish_exchange-Over (some b) healthy is_open now m done e h = ((m, done), refl, h)
  finish_exchange-Over (some b) healthy is_open now m (in_factory id) e h = absurd h
  finish_exchange-Over (some b) healthy is_open now m (in_queue id w) e h = absurd h
  finish_exchange-Over (some b) healthy is_open now m (holds id c) e ch =
      let q = release ch.after c b is_open now in
      (
        route_forwarded m id c b is_open now,
        refl,
        subst (λ (t : Mesh × Phase). Over m0 t.0 t.1) (sym (on_pool-has m id _ ch.has))
            (told (put_pool m id q) b id _ (
              Changed-Settled m0 _ id calm (
                put-Changed m0 m id _ Quiet ch q
                  (release-Quiet ch.before ch.after c b is_open now ch.related)))),
      )

  with_plan-At :
      (now : ℕ) (r : Result RoutePlan RoutingError)
      → At m0 (with_plan m0 now r).0 (with_plan m0 now r).1
  unfolding with_plan
  with_plan-At now (err e) = Settled-self m0 calm
  with_plan-At now (ok p) = elim (Option-cases (get_pool m0.pools p.plan_backend)) [
    | inl missing ↦
        subst (λ (t : Mesh × Phase). At m0 t.0 t.1) (sym (with_plan-missing m0 now p missing))
          (Settled-self m0 calm)
    | inr (pool, found) ↦
        let r = acquire_start pool now in
        let id = p.plan_backend in
        let c = calm id pool found in
        let ch : Changed m0 m0 id Quiet = record {
          before = pool;
          after = pool;
          had = found;
          has = found;
          related = Quiet-self pool c.calm_owned c.calm_nobody;
          others = λ j other. refl;
        } in
        subst (λ (t : Mesh × Phase). At m0 t.0 t.1) (sym (with_plan-has m0 now p found))
          (after_acquire-At m0 calm m0 id Quiet ch r.0 r.1 (acquire_start-Acquired pool now c))
  ]

-- When nobody waits for a connection and nothing comes between the stretches of a query, the query
-- ends, whatever the plan is, whatever the factory answers, and whichever writes fail: then it has one
-- payload left to send or is done, every pool had its place before, is consistent, and has the same
-- connections checked out as before. The factory does answer; the backend sends a whole response, or
-- its connection breaks; neither the query nor a packet of the response has a size that is a positive
-- multiple of `MAX_PACKET_SIZE`; and `write_packet` has a round more than each of them has bytes.
pub route_alone-Over :
    (uniform : ℕ → ℕ → ℕ) (m : Mesh) (s : Session) (sql : Bytes) (now : ℕ)
    (answer : Option PoolError) (rounds : ℕ) (k : Sockets)
    → AllCalm m
    → Ends rounds (cmd_query ∷ sql)
    → AllEnd rounds k.packets
    → Answers k.packets k.silent
    → (r : Mesh × Phase) × (route_alone uniform m s sql now answer rounds k ≡ some r)
      × Over m r.0 r.1
unfolding route_start
route_alone-Over uniform m s sql now answer rounds k calm query all answers =
    let planned =
      plan uniform m.schemas m.backends m.routing sql (view_of s) no_context m.counters in
    let m1 : Mesh = record m { counters = planned.1 } in
    let started = with_plan m1 now planned.0 in
    let got_it = finish_acquire now answer started in
    let (healthy, e) =
      forward-Ends k.backend_fails k.client_fails rounds (cmd_query ∷ sql) k.packets k.silent query
        all answers in
    finish_exchange-Over m1 calm (exchange rounds sql k) healthy k.is_open now got_it.0 got_it.1 e (
      finish_acquire-Arrived m1 calm now answer started.0 started.1
        (with_plan-At m1 calm now planned.0))
