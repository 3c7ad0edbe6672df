-- ===== src/Routing/Selector/Sound.antt =====
-- backend_selector.cpp: what a selected backend is, and when there is none.
use mathlib.Core.Path.{subst}
use dbmesh.Prelude.{
  ℕ, ◌≡◌, ◌≢◌, ◌⊎◌, inl, inr, refl, arith, Bool, true, false, ◌&&◌, List, [], ◌∷◌, some, Bytes,
  if◌then◌else◌, get_elem?, Bool-cases, Option-cases, is_empty, value_or, sym, ◌∙◌, ap,
}
use dbmesh.Core.Types.{Role, primary, replica, role_eq, ok, Policy}
use dbmesh.Core.Config.{SchemaConfig, RoutingConfig}
use dbmesh.Routing.Backends.{BackendEntry, Registry, get_group, get_group_by_role, with_role}
use dbmesh.Routing.Backends.Coherence.{mem}
use dbmesh.Routing.Policies.{Context, Counters, policy_select}
use dbmesh.Routing.Policies.Picks.{InList, Picked, Saturated, Uniform, policy_select-Picked}
use dbmesh.Routing.Selector.{
  usable_for_role, lags_behind, filter, deref, usable, candidates, settle, select,
}

-- What makes a backend fit for a role: it has it, it is healthy (for the primary also degraded), and
-- a replica does not lag behind where the selector is aware of replication.
abbrev pub Fits : RoutingConfig → Role → BackendEntry → Type 0
Fits defaults role e =
    (e.role ≡ role)
    × (usable_for_role e.state role ≡ true)
    × (lags_behind role defaults.replication_aware defaults.max_replica_lag_ms e ≡ false)

-- The entry stands in the registry, under a pointer that the group lists.
abbrev pub InGroup : Registry → Bytes → BackendEntry → Type 0
InGroup reg g e = (r : ℕ) × (mem r (get_group reg g) ≡ true) × (get_elem? reg.entries r ≡ some e)

-- What the filter asks of an entry.
abbrev Passes : Role → ℕ → Bool → BackendEntry → Type 0
Passes role max_lag aware e =
    (usable_for_role e.state role ≡ true) × (lags_behind role aware max_lag e ≡ false)

Passes-cons :
    (e x : BackendEntry) (es rest : List BackendEntry) (role : Role) (max_lag : ℕ) (aware : Bool)
    → Passes role max_lag aware x
    → (InList e rest → InList e es × Passes role max_lag aware e)
    → InList e (x ∷ rest)
    → InList e (x ∷ es) × Passes role max_lag aware e
Passes-cons e x es rest role max_lag aware p ih (inl q) =
    (inl q, subst (Passes role max_lag aware) q p)
Passes-cons e x es rest role max_lag aware p ih (inr i) = let (j, p') = ih i in (inr j, p')

InList-filter :
    (e : BackendEntry) (es : List BackendEntry) (role : Role) (max_lag : ℕ) (aware : Bool)
    → InList e (filter es role max_lag aware)
    → InList e es × Passes role max_lag aware e
unfolding filter
InList-filter e [] role max_lag aware h = absurd h
InList-filter e (x ∷ es) role max_lag aware h =
    let ih = InList-filter e es role max_lag aware in
    elim (Bool-cases (usable_for_role x.state role)) [
      | inr bad ↦
          let (j, p) = ih (subst (InList e) {y = filter es role max_lag aware} (rw bad) h) in
          (inr j, p)
      | inl good ↦ elim (Bool-cases (lags_behind role aware max_lag x)) [
        | inl slow ↦
            let (j, p) =
              ih (subst (InList e) {y = filter es role max_lag aware} (rw (good, slow)) h) in
            (inr j, p)
        | inr fast ↦
            Passes-cons e x es _ role max_lag aware (good, fast) ih
              (subst (InList e) {y = x ∷ filter es role max_lag aware} (rw (good, fast)) h)
      ]
    ]

pub role_of_eq : (a b : Role) → role_eq a b ≡ true → a ≡ b
role_of_eq primary primary h = refl
role_of_eq primary replica h = cc
role_of_eq replica primary h = cc
role_of_eq replica replica h = refl

-- A pointer of the list, to an entry of the role.
abbrev Points : List BackendEntry → Role → List ℕ → BackendEntry → Type 0
Points es role rs e = (r : ℕ) × (mem r rs ≡ true) × (get_elem? es r ≡ some e) × (e.role ≡ role)

Points-cons :
    (es : List BackendEntry) (role : Role) (x : ℕ) (rs : List ℕ) (e : BackendEntry)
    → Points es role rs e
    → Points es role (x ∷ rs) e
Points-cons es role x rs e (r, m, g, q) = (r, ground arith, g, q)

InList-deref :
    (e : BackendEntry) (es : List BackendEntry) (role : Role) (rs : List ℕ)
    → InList e (deref es (with_role es role rs))
    → Points es role rs e
unfolding deref with_role
InList-deref e es role [] h = absurd h
InList-deref e es role (x ∷ rs) h =
    let ih = InList-deref e es role rs in
    elim (Option-cases (get_elem? es x)) [
      | inl n ↦
          Points-cons es role x rs e
            (ih (subst (InList e) {y = deref es (with_role es role rs)} (rw (n, with_role)) h))
      | inr (y, n) ↦ elim (Bool-cases (role_eq y.role role)) [
        | inr other ↦ Points-cons es role x rs e (
            ih
              (subst (InList e) {y = deref es (with_role es role rs)} (rw (n, with_role, other)) h))
        | inl same ↦ elim (at_head y n same h) [
          | inl q ↦ (
            x,
            ground arith,
            n ∙ ap some q,
            ap (λ (z : BackendEntry). z.role) (sym q) ∙ role_of_eq y.role role same,
          )
          | inr i ↦ Points-cons es role x rs e (ih i)
        ]
      ]
    ]
  where
    at_head :
        (y : BackendEntry)
        → get_elem? es x ≡ some y
        → role_eq y.role role ≡ true
        → InList e (deref es (with_role es role (x ∷ rs)))
        → (y ≡ e) ⊎ InList e (deref es (with_role es role rs))
    at_head y n same h =
        subst (InList e) {y = y ∷ deref es (with_role es role rs)}
          (rw (n, with_role, same, deref, n)) h

-- Every usable candidate of a role fits it and stands in the group.
usable-Fits :
    (reg : Registry) (defaults : RoutingConfig) (g : Bytes) (role : Role) (e : BackendEntry)
    → InList e (usable reg defaults g role)
    → InGroup reg g e × Fits defaults role e
unfolding get_group_by_role
usable-Fits reg defaults g role e h =
    let (i, p) = InList-filter e _ role defaults.max_replica_lag_ms defaults.replication_aware h in
    let (r, m, n, q) = InList-deref e reg.entries role (get_group reg g) i in
    ((r, m, n), (q, p.0, p.1))

-- What a backend chosen for a role is.
abbrev pub Chosen : Registry → RoutingConfig → Bytes → Role → BackendEntry → Type 0
Chosen reg defaults g role e =
    Fits defaults role e
    ⊎ ((role ≡ replica) × (usable reg defaults g replica ≡ []) × Fits defaults primary e)

primary_only : (b : Bool) (xs : List BackendEntry) → (if b && false then xs else xs) ≡ xs
primary_only true xs = refl
primary_only false xs = refl

is_empty→nil {ℓ} : {A : Type ℓ} (xs : List A) → is_empty xs ≡ true → xs ≡ []
is_empty→nil [] h = refl
is_empty→nil (x ∷ xs) h = cc

candidates-Chosen :
    (reg : Registry) (defaults : RoutingConfig) (g : Bytes) (role : Role) (e : BackendEntry)
    → InList e (candidates reg defaults g role)
    → InGroup reg g e × Chosen reg defaults g role e
unfolding candidates
candidates-Chosen reg defaults g primary e h =
    let (i, f) = usable-Fits reg defaults g primary e (subst (InList e) (primary_only _ _) h) in
    (i, inl f)
candidates-Chosen reg defaults g replica e h =
    elim (Bool-cases (is_empty (usable reg defaults g replica))) [
      | inr some_left ↦
          let (i, f) =
            usable-Fits reg defaults g replica e
              (subst (InList e) {y = usable reg defaults g replica} (rw some_left) h) in
          (i, inl f)
      | inl none_left ↦
          let (i, f) =
            usable-Fits reg defaults g primary e
              (subst (InList e) {y = usable reg defaults g primary} (rw none_left) h) in
          (i, inr (refl, is_empty→nil _ none_left, f))
    ]

settle-ok :
    (cs : List BackendEntry) (k : Counters) (c : Bytes × Counters) {b : Bytes}
    → (settle cs k c).0 ≡ ok b
    → (cs ≢ []) × (c.0 ≡ b) × (b ≢ [])
unfolding settle
settle-ok [] k c h = cc
settle-ok (e ∷ es) k ([], k') h = cc
settle-ok (e ∷ es) k (x ∷ xs, k') h = ((λ q. cc), cc, (λ q. cc))

settle-named :
    (cs : List BackendEntry) (k : Counters) (c : Bytes × Counters)
    → cs ≢ []
    → c.0 ≢ []
    → (b : Bytes) × ((settle cs k c).0 ≡ ok b)
unfolding settle
settle-named [] k c h n = absurd (h refl)
settle-named (e ∷ es) k ([], k') h n = absurd (n refl)
settle-named (e ∷ es) k (x ∷ xs, k') h n = (x ∷ xs, refl)

policy_select-named :
    (uniform : ℕ → ℕ → ℕ) (p : Policy) (cs : List BackendEntry) (ctx : Context) (k : Counters)
    {b : Bytes}
    → Uniform uniform
    → cs ≢ []
    → (policy_select uniform p cs ctx k).0 ≡ b
    → b ≢ []
    → Picked b cs
policy_select-named uniform p [] ctx k u h q n = absurd (h refl)
policy_select-named uniform p (e ∷ es) ctx k u h q n =
    elim (policy_select-Picked uniform p e es ctx k u) [
      | inl (x, i, f) ↦ (x, i, f ∙ q)
      | inr (empty, s) ↦ absurd (n (sym q ∙ empty))
    ]

policy_select-nonempty :
    (uniform : ℕ → ℕ → ℕ) (p : Policy) (cs : List BackendEntry) (ctx : Context) (k : Counters)
    → Uniform uniform
    → cs ≢ []
    → ((e : BackendEntry) → InList e cs → e.id ≢ [])
    → ¬ Saturated p ctx cs
    → (policy_select uniform p cs ctx k).0 ≢ []
policy_select-nonempty uniform p [] ctx k u h named fresh q = h refl
policy_select-nonempty uniform p (e ∷ es) ctx k u h named fresh q =
    elim (policy_select-Picked uniform p e es ctx k u) [
      | inl (x, i, f) ↦ named x i (f ∙ q)
      | inr (empty, s) ↦ fresh s
    ]

module _ (uniform : ℕ → ℕ → ℕ) (reg : Registry) (defaults : RoutingConfig) (schema : SchemaConfig)
    (role : Role) (ctx : Context) (k : Counters) (law : Uniform uniform) where
  -- A selected backend stands in the schema's group, has the role asked for, is usable for it, and
  -- as a replica does not lag behind; or, for a read, no replica of the group is usable and it is
  -- a usable primary. This holds for every policy, when the draws keep their bounds.
  pub select-Chosen :
      {b : Bytes}
      → (select uniform reg defaults schema role ctx k).0 ≡ ok b
      → (e : BackendEntry) × (e.id ≡ b)
        × InGroup reg schema.backend_group e
        × Chosen reg defaults schema.backend_group role e
  unfolding select
  select-Chosen h =
      let cs = candidates reg defaults schema.backend_group role in
      let p = value_or schema.routing_policy defaults.default_policy in
      let (some_left, q, n) = settle-ok cs k (policy_select uniform p cs ctx k) h in
      let (e, i, f) = policy_select-named uniform p cs ctx k law some_left q n in
      let (g, c) = candidates-Chosen reg defaults schema.backend_group role e i in (e, f, g, c)

  -- When there is a candidate, every candidate has a name, and the policy's signal, if it has one,
  -- is not the greatest number at all of them, `select` does give a backend.
  pub select-available :
      candidates reg defaults schema.backend_group role ≢ []
      → ((e : BackendEntry)
          → InList e (candidates reg defaults schema.backend_group role)
          → e.id ≢ [])
      → ¬ Saturated
          (value_or schema.routing_policy defaults.default_policy)
          ctx
          (candidates reg defaults schema.backend_group role)
      → (b : Bytes) × ((select uniform reg defaults schema role ctx k).0 ≡ ok b)
  unfolding select
  select-available some_left named fresh =
      let cs = candidates reg defaults schema.backend_group role in
      let p = value_or schema.routing_policy defaults.default_policy in
      settle-named cs k (policy_select uniform p cs ctx k) some_left
        (policy_select-nonempty uniform p cs ctx k law some_left named fresh)
