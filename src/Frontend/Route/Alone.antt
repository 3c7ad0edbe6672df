-- ===== src/Frontend/Route/Alone.antt =====
-- mysql_connection.cpp: the stretches of one query, one behind the other.
use dbmesh.Prelude.{ℕ, List, ◌∷◌, Bool, Option, none, some, Bytes}
use dbmesh.Pool.{PoolError}
use dbmesh.Protocol.Framer.{Packet}
use dbmesh.Protocol.Constants.{cmd_query}
use dbmesh.Frontend.{Session}
use dbmesh.Frontend.Route.{
  Mesh, Phase, in_factory, in_queue, holds, route_start, route_connected, route_woken,
  route_forwarded, forward,
}

-- One query with nothing between its stretches: what the factory answers, if it is asked, and the
-- exchange with the backend.
abbrev pub finish_acquire : ℕ → Option PoolError → Mesh × Phase → Mesh × Phase
finish_acquire now answer (m, in_factory id) = route_connected m id now answer
finish_acquire now answer (m, in_queue id w) = route_woken m id w
finish_acquire now answer (m, phase) = (m, phase)

abbrev pub finish_exchange : Option Bool → Bool → ℕ → Mesh × Phase → Option (Mesh × Phase)
finish_exchange none is_open now (m, holds id c) = none
finish_exchange (some healthy) is_open now (m, holds id c) =
    some (route_forwarded m id c healthy is_open now)
finish_exchange exchanged is_open now (m, phase) = some (m, phase)

-- How the two sockets and the backend behave in the exchange.
pub record Sockets : Type 0 where
  pub backend_fails : ℕ → Bool
  pub client_fails : ℕ → ℕ → Bool
  pub packets : List Packet
  pub silent : Bool
  pub is_open : Bool

abbrev pub exchange : ℕ → Bytes → Sockets → Option Bool
exchange rounds sql k =
    forward k.backend_fails k.client_fails rounds (cmd_query ∷ sql) k.packets k.silent

abbrev pub route_alone :
    (ℕ → ℕ → ℕ)
    → Mesh
    → Session
    → Bytes
    → ℕ
    → Option PoolError
    → ℕ
    → Sockets
    → Option (Mesh × Phase)
route_alone uniform m s sql now answer rounds k =
    finish_exchange (exchange rounds sql k) k.is_open now
      (finish_acquire now answer (route_start uniform m s sql now))
