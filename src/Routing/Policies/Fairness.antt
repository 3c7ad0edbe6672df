-- ===== src/Routing/Policies/Fairness.antt =====
-- routing_policies.cpp: the round robin over a cycle of calls.
use native.Mathlib.Nat.{mod-eq_of_lt, mod-add-mod, add-mod_right, mod-lt}
use dbmesh.Prelude.{
  Bool-cases, ◌⊎◌, inl, inr, ℕ, suc, zero, ◌+◌, ◌-◌, ◌%◌, ◌^◌, ◌≤◌, ◌<◌, ◌≡◌, arith, List, [], ◌∷◌,
  length, leb, ap, ◌∙◌, sym,
}
use dbmesh.Core.Types.{round_robin}
use dbmesh.Routing.Backends.{BackendEntry}
use dbmesh.Routing.Policies.{Context, Counters, id_at, bump, choose, policy_select}

-- The counters after `t` more calls on the same candidates.
abbrev pub after_calls : (ℕ → ℕ → ℕ) → List BackendEntry → Context → Counters → ℕ → Counters
after_calls uniform c ctx k zero = k
after_calls uniform c ctx k (suc t) =
    after_calls uniform c ctx (policy_select uniform round_robin c ctx k).1 t

pub after_calls-counter :
    (uniform : ℕ → ℕ → ℕ) (e : BackendEntry) (es : List BackendEntry) (ctx : Context) (k : Counters)
    (t : ℕ)
    → k.rr_counter + t < 2 ^ 64
    → (after_calls uniform (e ∷ es) ctx k t).rr_counter ≡ k.rr_counter + t
unfolding policy_select choose
after_calls-counter uniform e es ctx k zero h = omega arith
after_calls-counter uniform e es ctx k (suc t) h =
    let next = record k { rr_counter = bump k.rr_counter } in
    omega (arith, after_calls-counter uniform e es ctx next t (omega arith))

split_at : (r i : ℕ) → (r ≤ i) ⊎ (i < r)
split_at r i = elim (Bool-cases (leb r i)) [
  | inl t ↦ inl (ground arith)
  | inr f ↦ inr (ground arith)
]

ahead : (r i : ℕ) → r ≤ i → r + (i - r) ≡ i
ahead r i h = omega arith

around : (n r i : ℕ) → r < n → r + (i + n - r) ≡ i + n
around n r i h = omega arith

-- The turn at which candidate `i` comes, of `n`, when the counter stands at `r` modulo `n`.
turn : (n r i : ℕ) → i < n → r < n → (t : ℕ) × (t < n) × ((r + t) % n ≡ i)
turn n r i h g = elim (split_at r i) [
  | inl low ↦ (i - r, omega arith, ap (λ x. x % n) (ahead r i low) ∙ mod-eq_of_lt h)
  | inr high ↦ (
    i + n - r,
    omega arith,
    ap (λ x. x % n) (around n r i g) ∙ add-mod_right i n ∙ mod-eq_of_lt h,
  )
]

-- The round robin is fair: as long as the counter does not wrap, each candidate is served in one of
-- any as many calls in a row as there are candidates.
pub policy_select-served :
    (uniform : ℕ → ℕ → ℕ) (c : List BackendEntry) (ctx : Context) (k : Counters) (i : ℕ)
    → i < length c
    → k.rr_counter + length c ≤ 2 ^ 64
    → (t : ℕ) × (t < length c)
      × ((policy_select uniform round_robin c ctx (after_calls uniform c ctx k t)).0 ≡ id_at c i)
unfolding policy_select choose
policy_select-served uniform [] ctx k i h g = elim h [ ]
policy_select-served uniform (e ∷ es) ctx k i h g =
    let n = length (e ∷ es) in
    let (t, early, there) = turn n (k.rr_counter % n) i h (mod-lt k.rr_counter (omega arith)) in
    (
      t,
      early,
      ap (λ x. id_at (e ∷ es) (x % n))
            (after_calls-counter uniform e es ctx k t (omega (arith, early, g)))
          ∙ ap (id_at (e ∷ es)) (sym (mod-add-mod k.rr_counter n t) ∙ there),
    )
