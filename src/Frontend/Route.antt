-- ===== src/Frontend/Route.antt =====
-- mysql_connection.cpp: `route_and_forward`, in stretches between its suspensions. What the sessions
-- share is the mesh; between two stretches other sessions may change it.
pub mod Returned
pub mod Ends
pub mod Alone
use dbmesh.Prelude.{
  ℕ, suc, zero, map, Bool, true, false, List, [], ◌∷◌, ◌++◌, Option, none, some, Bytes, codes,
  if◌then◌else◌, take, length, assign, is_some,
}
use dbmesh.Core.Types.{Result, ok, err}
use dbmesh.Core.Config.{RoutingConfig}
use dbmesh.Routing.Types.{
  RoutingError, no_schema_config, no_backend_available, backend_disconnected, firewall_blocked,
  rate_limited, pool_queue_full, SessionView, RoutePlan,
}
use dbmesh.Routing.Schemas.{SchemaRegistry}
use dbmesh.Routing.Backends.{Registry}
use dbmesh.Routing.Policies.{Context, Counters}
use dbmesh.Routing.Engine.{plan}
use dbmesh.Pool.{
  Pool, PoolError, Acquire, refused, got, connecting, waiting, acquire_start, acquire_connected,
  acquire_woken, release,
}
use dbmesh.Pool.Manager.{PoolManager, get_pool}
use dbmesh.Protocol.Packets.{make_err}
use dbmesh.Protocol.Framer.{Packet, write_packet}
use dbmesh.Protocol.Constants.{con_count_error}
use dbmesh.Frontend.{Session, routing_error_to_mysql, proxy_result}

-- What `engine_` and `pool_manager_` lead to.
pub record Mesh : Type 0 where
  pub schemas : SchemaRegistry
  pub backends : Registry
  pub routing : RoutingConfig
  pub counters : Counters
  pub pools : PoolManager

-- Where the coroutine of a query stands: it has one payload left to send, or is done without one; it
-- is in the factory of a backend's pool, in its queue, or holds a connection of it.
pub data Phase : Type 0 where
  sends : Bytes → Phase
  done : Phase
  in_factory : Bytes → Phase
  in_queue : Bytes → ℕ → Phase
  holds : Bytes → ℕ → Phase

abbrev pub routing_error_str : RoutingError → Bytes
routing_error_str no_schema_config = codes "no_schema_config"
routing_error_str no_backend_available = codes "no_backend_available"
routing_error_str backend_disconnected = codes "backend_disconnected"
routing_error_str firewall_blocked = codes "firewall_blocked"
routing_error_str rate_limited = codes "rate_limited"
routing_error_str pool_queue_full = codes "pool_queue_full"

-- The errors.
abbrev pub not_planned : RoutingError → Bytes
not_planned e =
    make_err (routing_error_to_mysql e) (codes "HY000")
      (codes "DBMesh routing: " ++ routing_error_str e)

abbrev pub no_pool : Bytes → Bytes
no_pool id =
    make_err 1105 (codes "HY000") (codes "DBMesh: no pool for backend '" ++ (id ++ codes "'"))

abbrev pub unavailable : Bytes → Bytes
unavailable id =
    make_err con_count_error (codes "08004")
      (codes "DBMesh: backend pool unavailable for '" ++ (id ++ codes "'"))

abbrev pub disconnected : Bytes → Bytes
disconnected id =
    make_err con_count_error (codes "08S01")
      (codes "DBMesh: backend '" ++ (id ++ codes "' disconnected during query"))

abbrev pub view_of : Session → SessionView
view_of s = record {
  current_schema = s.current_db;
  in_transaction = s.in_transaction;
  autocommit = s.autocommit;
  pinned_backend = none;
}

abbrev pub no_context : Context
no_context = record { active_connections = none; latency_us = none }

-- A pool that was changed through its pointer.
abbrev pub put_pool : Mesh → Bytes → Pool → Mesh
put_pool m id p = record m { pools = record { pools = assign id p m.pools.pools } }

-- `pool->acquire()`, after one of its stretches.
abbrev pub after_acquire : Bytes → Acquire → Phase
after_acquire id (refused e) = sends (unavailable id)
after_acquire id (got c) = holds id c
after_acquire id connecting = in_factory id
after_acquire id (waiting w) = in_queue id w

abbrev pub acquired : Mesh → Bytes → Pool × Acquire → Mesh × Phase
acquired m id r = (put_pool m id r.0, after_acquire id r.1)

unfoldable pub with_plan : Mesh → ℕ → Result RoutePlan RoutingError → Mesh × Phase
with_plan m now (err e) = (m, sends (not_planned e))
with_plan m now (ok p) = elim (get_pool m.pools p.plan_backend) [
  | none ↦ (m, sends (no_pool p.plan_backend))
  | some pool ↦ acquired m p.plan_backend (acquire_start pool now)
]

-- From the start: the plan, the pool and the first stretch of `acquire`.
unfoldable pub route_start : (ℕ → ℕ → ℕ) → Mesh → Session → Bytes → ℕ → Mesh × Phase
unfolding with_plan
route_start uniform m s sql now =
    let planned =
      plan uniform m.schemas m.backends m.routing sql (view_of s) no_context m.counters in
    with_plan (record m { counters = planned.1 }) now planned.0

-- The pools are there until the shutdown; then their coroutines are gone.
unfoldable pub on_pool : Mesh → Bytes → (Pool → Mesh × Phase) → Mesh × Phase
on_pool m id f = elim (get_pool m.pools id) [ none ↦ (m, done) | some p ↦ f p ]

-- The factory has answered.
unfoldable pub route_connected : Mesh → Bytes → ℕ → Option PoolError → Mesh × Phase
unfolding on_pool
route_connected m id now answer = on_pool m id (λ p. acquired m id (acquire_connected p now answer))

-- The wait is over.
unfoldable pub route_woken : Mesh → Bytes → ℕ → Mesh × Phase
unfolding on_pool
route_woken m id w = on_pool m id (λ p. acquired m id (acquire_woken p w))

-- `send` of one packet after the other on the client's socket, on which `client j` says which writes
-- of the packet number `j` fail: whether all were written. `none` is a `write_packet` that uses up
-- its rounds.
unfoldable pub send_all : (ℕ → ℕ → Bool) → ℕ → ℕ → List Packet → Option Bool
send_all client rounds j [] = some true
send_all client rounds j (p ∷ ps) = elim (write_packet (client j) rounds p.payload p.sequence) [
  | none ↦ none
  | some w ↦ elim w.outcome [ err e ↦ some false | ok next ↦ send_all client rounds (suc j) ps ]
]

-- `proxy_result`, on the packets that the backend sends: behind them its connection breaks, or it is
-- `silent` for ever. Each packet is sent on with the sequence number that it came with. A failure to
-- send is an exception, which `route_and_forward` takes for a failure of the exchange.
unfoldable pub relay : (ℕ → ℕ → Bool) → ℕ → List Packet → Bool → Option Bool
unfolding send_all
relay client rounds packets silent =
    let r = proxy_result (map (λ (p : Packet). p.payload) packets) in
    elim (send_all client rounds 0 (take (length r.0) packets)) [
      | none ↦ none
      | some false ↦ some false
      | some true ↦ if is_some r.1 then some true else if silent then none else some false
    ]

-- The exchange with the backend, on whose socket `backend` says which writes fail: the query is
-- written, and the result is relayed. What `ok` is then; `none` when the exchange never ends.
unfoldable pub forward : (ℕ → Bool) → (ℕ → ℕ → Bool) → ℕ → Bytes → List Packet → Bool → Option Bool
unfolding relay
forward backend client rounds query packets silent = elim (write_packet backend rounds query 0) [
  | none ↦ none
  | some w ↦ elim w.outcome [ err e ↦ some false | ok next ↦ relay client rounds packets silent ]
]

-- Behind the exchange: the connection is released, and a failure is told.
unfoldable pub route_forwarded : Mesh → Bytes → ℕ → Bool → Bool → ℕ → Mesh × Phase
unfolding on_pool
route_forwarded m id c healthy is_open now = on_pool m id (λ p. (
  put_pool m id (release p c healthy is_open now),
  if healthy then done else sends (disconnected id),
))
