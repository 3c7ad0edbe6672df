-- ===== src/Routing/Policies.antt =====
-- routing/src/routing_policies.cpp. A policy object keeps a counter; the generator of random numbers
-- is the parameter `uniform`, of which `std::uniform_int_distribution` documents the bounds.
pub mod Picks
pub mod Fairness
use Prim.Native.Nat.{max}
use dbmesh.Prelude.{
  ℕ, suc, zero, ◌+◌, ◌-◌, ◌%◌, ◌^◌, Bool, true, false, not, ◌&&◌, ◌||◌, List, [], ◌∷◌, Option, none,
  some, Bytes, if◌then◌else◌, ltb, length, get_elem?,
}
use dbmesh.Core.Types.{
  Policy, round_robin, weighted, least_connections, latency, random, failover, consistent_hashing,
  Health, failed, draining,
}
use dbmesh.Routing.Backends.{BackendEntry}

-- `RoutingContext`: each signal may be missing.
pub record Context : Type 0 where
  pub active_connections : Option (Bytes → ℕ)
  pub latency_us : Option (Bytes → ℕ)

-- The counters of the policy objects that hold one, `std::atomic<std::size_t>`.
pub record Counters : Type 0 where
  pub rr_counter : ℕ
  pub lc_counter : ℕ
  pub lat_counter : ℕ
  pub ch_counter : ℕ

abbrev pub no_counts : Counters
no_counts = record { rr_counter = 0; lc_counter = 0; lat_counter = 0; ch_counter = 0 }

-- `fetch_add(1)`.
abbrev pub bump : ℕ → ℕ
bump n = (n + 1) % 2 ^ 64

abbrev pub id_of : Option BackendEntry → Bytes
id_of none = []
id_of (some e) = e.id

-- `c[i]->id`.
abbrev pub id_at : List BackendEntry → ℕ → Bytes
id_at c i = id_of (get_elem? c i)

-- `c[counter % c.size()]->id`.
abbrev pub rotate : List BackendEntry → ℕ → Bytes
rotate c counter = id_at c (counter % length c)

-- `std::max(1, e->weight)`: the weight is an `int`, so a pattern from 2 ^ 31 on is negative.
abbrev pub share : BackendEntry → ℕ
share e = if ltb e.weight (2 ^ 31) then max 1 e.weight else 1

unfoldable pub total_share : List BackendEntry → ℕ
total_share [] = 0
total_share (e ∷ es) = share e + total_share es

-- `pick -= share; if (pick < 0) return e->id`; behind the loop, the last candidate.
unfoldable pub pick_share : List BackendEntry → Bytes → ℕ → Bytes
pick_share [] last pick = last
pick_share (e ∷ es) last pick =
    let rest = pick_share es e.id (pick - share e) in if ltb pick (share e) then e.id else rest

-- The candidate with the least signal, below the bound so far; empty if none is.
unfoldable pub least : (Bytes → ℕ) → List BackendEntry → Bytes → ℕ → Bytes
least signal [] best best_n = best
least signal (e ∷ es) best best_n =
    let better = least signal es e.id (signal e.id) in
    let same = least signal es best best_n in if ltb (signal e.id) best_n then better else same

abbrev pub size_max : ℕ
size_max = 2 ^ 64 - 1

abbrev pub is_down : Health → Bool
is_down failed = true
is_down draining = true
is_down _ = false

unfoldable pub first_up : List BackendEntry → Bytes → Bytes
first_up [] front = front
first_up (e ∷ es) front = let rest = first_up es front in if is_down e.state then rest else e.id

-- `RoutingPolicy::select` of the object that `PolicyFactory::create` makes for each enum value, on
-- candidates that are not empty; the counters afterwards.
unfoldable pub choose :
    (ℕ → ℕ → ℕ) → Policy → List BackendEntry → Context → Counters → Bytes × Counters
choose uniform round_robin c ctx k =
    (rotate c k.rr_counter, record k { rr_counter = bump k.rr_counter })
choose uniform weighted c ctx k = (pick_share c [] (uniform 0 (total_share c - 1)), k)
choose uniform least_connections c ctx k = elim ctx.active_connections [
  | none ↦ (rotate c k.lc_counter, record k { lc_counter = bump k.lc_counter })
  | some signal ↦ (least signal c [] size_max, k)
]
choose uniform latency c ctx k = elim ctx.latency_us [
  | none ↦ (rotate c k.lat_counter, record k { lat_counter = bump k.lat_counter })
  | some signal ↦ (least signal c [] size_max, k)
]
choose uniform random c ctx k = (id_at c (uniform 0 (length c - 1)), k)
choose uniform failover c ctx k = (first_up c (id_at c 0), k)
choose uniform consistent_hashing c ctx k =
    (rotate c k.ch_counter, record k { ch_counter = bump k.ch_counter })

-- The whole method: an empty list gives the empty id.
unfoldable pub policy_select :
    (ℕ → ℕ → ℕ) → Policy → List BackendEntry → Context → Counters → Bytes × Counters
unfolding choose
policy_select uniform p [] ctx k = ([], k)
policy_select uniform p (e ∷ es) ctx k = choose uniform p (e ∷ es) ctx k
