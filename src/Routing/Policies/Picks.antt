-- ===== src/Routing/Policies/Picks.antt =====
-- routing_policies.cpp: which candidate each policy picks.
use mathlib.Core.Path.{subst}
use dbmesh.Prelude.{
  ℕ, suc, zero, ◌+◌, ◌-◌, ◌%◌, ◌≤◌, ◌<◌, ◌≡◌, ◌⊎◌, inl, inr, refl, arith, List, [], ◌∷◌, ◌++◌,
  Option, none, some, Bytes, ltb, length, Bool-cases, Option-cases, ltb→lt, sym, ap,
}
use dbmesh.Core.Types.{
  Policy, round_robin, weighted, least_connections, latency, random, failover, consistent_hashing,
}
use dbmesh.Routing.Backends.{BackendEntry}
use dbmesh.Routing.Policies.{
  Context, Counters, id_at, share, total_share, pick_share, least, size_max, first_up, choose,
  policy_select, is_down,
}

abbrev pub InList : BackendEntry → List BackendEntry → Type 0
InList e [] = ⊥
InList e (x ∷ xs) = (x ≡ e) ⊎ InList e xs

-- The id is that of a candidate.
abbrev pub Picked : Bytes → List BackendEntry → Type 0
Picked b c = (e : BackendEntry) × InList e c × (e.id ≡ b)

Picked-cons : {b : Bytes} (x : BackendEntry) (c : List BackendEntry) → Picked b c → Picked b (x ∷ c)
Picked-cons x c (e, i, h) = (e, inr i, h)

id_at-Picked : (c : List BackendEntry) (i : ℕ) → i < length c → Picked (id_at c i) c
id_at-Picked [] i h = elim h [ ]
id_at-Picked (e ∷ es) zero h = (e, inl refl, refl)
id_at-Picked (e ∷ es) (suc i) h = Picked-cons e es (id_at-Picked es i (omega arith))

first_up-Picked : (x : BackendEntry) (es : List BackendEntry) → Picked (first_up es x.id) (x ∷ es)
unfolding first_up
first_up-Picked x [] = (x, inl refl, refl)
first_up-Picked x (e ∷ es) = elim (Bool-cases (is_down e.state)) [
  | inl down ↦
      let (y, i, h) = first_up-Picked x es in
      (y, elim i [ inl f ↦ inl f | inr j ↦ inr (inr j) ], rw down h)
  | inr up ↦ (e, inr (inl refl), rw up)
]

past_share : (a b d : ℕ) → a + b + d - a ≡ b + d
past_share a b d = omega arith

-- Each candidate owns an interval of draws that is as long as its share: a draw that is less than
-- its share above the sum of the shares before it gives it.
pub pick_share-interval :
    (xs ys : List BackendEntry) (e : BackendEntry) (last : Bytes) (d : ℕ)
    → d < share e
    → pick_share (xs ++ e ∷ ys) last (total_share xs + d) ≡ e.id
unfolding pick_share total_share
pick_share-interval [] ys e last d h = ground arith
pick_share-interval (x ∷ xs) ys e last d h = ground (
  arith,
  pick_share-interval xs ys e x.id d h,
  ap (pick_share (xs ++ e ∷ ys) x.id) (past_share (share x) (total_share xs) d),
)

pick_share-Picked :
    (x : BackendEntry) (es : List BackendEntry) (d : ℕ) → Picked (pick_share es x.id d) (x ∷ es)
unfolding pick_share
pick_share-Picked x [] d = (x, inl refl, refl)
pick_share-Picked x (e ∷ es) d = elim (Bool-cases (ltb d (share e))) [
  | inl here ↦ (e, inr (inl refl), rw here)
  | inr later ↦ let (y, i, h) = pick_share-Picked e es (d - share e) in (y, inr i, rw later h)
]

-- What `least` returns: a candidate whose signal is below the bound and least, or what it had.
abbrev pub AllAtLeast : (Bytes → ℕ) → ℕ → List BackendEntry → Type 0
AllAtLeast signal n [] = Unit
AllAtLeast signal n (e ∷ es) = (n ≤ signal e.id) × AllAtLeast signal n es

abbrev Outcome : (Bytes → ℕ) → List BackendEntry → Bytes → ℕ → Bytes → Type 0
Outcome signal es best n r =
    ((r ≡ best) × AllAtLeast signal n es)
    ⊎ (Picked r es × (signal r < n) × AllAtLeast signal (signal r) es)

Outcome-better :
    (signal : Bytes → ℕ) (e : BackendEntry) (es : List BackendEntry) (best r : Bytes) (n : ℕ)
    → signal e.id < n
    → Outcome signal es e.id (signal e.id) r
    → Outcome signal (e ∷ es) best n r
Outcome-better signal e es best r n less (inl (q, a)) =
    subst (Outcome signal (e ∷ es) best n) (sym q)
      (inr ((e, inl refl, refl), less, (omega arith, a)))
Outcome-better signal e es best r n less (inr (p, l, a)) =
    inr (Picked-cons e es p, omega arith, (omega arith, a))

Outcome-same :
    (signal : Bytes → ℕ) (e : BackendEntry) (es : List BackendEntry) (best r : Bytes) (n : ℕ)
    → n ≤ signal e.id
    → Outcome signal es best n r
    → Outcome signal (e ∷ es) best n r
Outcome-same signal e es best r n more (inl (q, a)) = inl (q, (more, a))
Outcome-same signal e es best r n more (inr (p, l, a)) =
    inr (Picked-cons e es p, l, (omega arith, a))

least_cases :
    (signal : Bytes → ℕ) (es : List BackendEntry) (best : Bytes) (n : ℕ)
    → Outcome signal es best n (least signal es best n)
unfolding least
least_cases signal [] best n = inl (refl, tt)
least_cases signal (e ∷ es) best n = elim (Bool-cases (ltb (signal e.id) n)) [
  | inl less ↦ subst (Outcome signal (e ∷ es) best n) (rw less) (
      Outcome-better signal e es best _ n (ltb→lt _ _ less)
        (least_cases signal es e.id (signal e.id)))
  | inr more ↦
      subst (Outcome signal (e ∷ es) best n) (rw more)
        (Outcome-same signal e es best _ n (ground arith) (least_cases signal es best n))
]

-- No candidate has a signal below the greatest number: `least` then returns the empty id.
abbrev SaturatedBy : Option (Bytes → ℕ) → List BackendEntry → Type 0
SaturatedBy none c = ⊥
SaturatedBy (some signal) c = AllAtLeast signal size_max c

abbrev pub Saturated : Policy → Context → List BackendEntry → Type 0
Saturated least_connections ctx c = SaturatedBy ctx.active_connections c
Saturated latency ctx c = SaturatedBy ctx.latency_us c
Saturated _ ctx c = ⊥

-- What the standard library documents of a uniform distribution.
abbrev pub Uniform : (ℕ → ℕ → ℕ) → Type 0
Uniform u = (lo hi : ℕ) → lo ≤ hi → (lo ≤ u lo hi) × (u lo hi ≤ hi)

rotate-Picked :
    (e : BackendEntry) (es : List BackendEntry) (n : ℕ)
    → Picked (id_at (e ∷ es) (n % length (e ∷ es))) (e ∷ es)
rotate-Picked e es n = id_at-Picked (e ∷ es) (n % length (e ∷ es)) (omega arith)

least-Picked :
    (signal : Bytes → ℕ) (c : List BackendEntry)
    → Picked (least signal c [] size_max) c
      ⊎ ((least signal c [] size_max ≡ []) × AllAtLeast signal size_max c)
least-Picked signal c = elim (least_cases signal c [] size_max) [
  | inl (q, a) ↦ inr (q, a)
  | inr (p, l, a) ↦ inl p
]

weighted-Picked :
    (e : BackendEntry) (es : List BackendEntry) (d : ℕ) → Picked (pick_share (e ∷ es) [] d) (e ∷ es)
unfolding pick_share
weighted-Picked e es d = elim (Bool-cases (ltb d (share e))) [
  | inl here ↦ (e, inl refl, rw here)
  | inr later ↦ rw later (pick_share-Picked e es (d - share e))
]

failover-Picked :
    (e : BackendEntry) (es : List BackendEntry) → Picked (first_up (e ∷ es) e.id) (e ∷ es)
unfolding first_up
failover-Picked e es = elim (Bool-cases (is_down e.state)) [
  | inl down ↦ rw down (first_up-Picked e es)
  | inr up ↦ (e, inl refl, rw up)
]

-- Every policy picks a candidate from a list that is not empty, unless it goes by a signal that is
-- the greatest number at every candidate: then it gives the empty id. The draws keep their bounds.
pub policy_select-Picked :
    (uniform : ℕ → ℕ → ℕ) (p : Policy) (e : BackendEntry) (es : List BackendEntry) (ctx : Context)
    (k : Counters)
    → Uniform uniform
    → Picked (policy_select uniform p (e ∷ es) ctx k).0 (e ∷ es)
      ⊎ (((policy_select uniform p (e ∷ es) ctx k).0 ≡ []) × Saturated p ctx (e ∷ es))
unfolding policy_select choose
policy_select-Picked u round_robin e es ctx k h = inl (rotate-Picked e es k.rr_counter)
policy_select-Picked u weighted e es ctx k h = inl (weighted-Picked e es _)
policy_select-Picked u least_connections e es ctx k h = elim (Option-cases ctx.active_connections) [
  | inl n ↦ rw (n, choose) (inl (rotate-Picked e es k.lc_counter))
  | inr (signal, n) ↦ rw (n, choose) (least-Picked signal (e ∷ es))
]
policy_select-Picked u latency e es ctx k h = elim (Option-cases ctx.latency_us) [
  | inl n ↦ rw (n, choose) (inl (rotate-Picked e es k.lat_counter))
  | inr (signal, n) ↦ rw (n, choose) (least-Picked signal (e ∷ es))
]
policy_select-Picked u random e es ctx k h =
    inl (id_at-Picked (e ∷ es) _ (omega (arith, (h 0 (length (e ∷ es) - 1) (omega arith)).1)))
policy_select-Picked u failover e es ctx k h = inl (failover-Picked e es)
policy_select-Picked u consistent_hashing e es ctx k h = inl (rotate-Picked e es k.ch_counter)

-- By connections or latency the pick has the least signal of all candidates, unless the signal is
-- the greatest number at each of them, and then the pick is empty.
pub least-AllAtLeast :
    (signal : Bytes → ℕ) (c : List BackendEntry)
    → let best = least signal c [] size_max in
      ((best ≡ []) × AllAtLeast signal size_max c)
      ⊎ (Picked best c × AllAtLeast signal (signal best) c)
least-AllAtLeast signal c = elim (least_cases signal c [] size_max) [
  | inl h ↦ inl h
  | inr (p, l, a) ↦ inr (p, a)
]
