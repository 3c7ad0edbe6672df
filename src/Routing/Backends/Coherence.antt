-- ===== src/Routing/Backends/Coherence.antt =====
-- backend_registry.cpp: the index by group against the map by id.
use dbmesh.Prelude.{
  ℕ, suc, zero, ◌≡◌, ◌↔◌, Bool, true, false, ◌&&◌, ◌||◌, List, [], ◌∷◌, ◌++◌, Option, none, some,
  Bytes, refl, arith, bytes_eq, bytes_eq_iff, is_some, lookup, lookup-assign, lookup-erase,
  lookup-emplace, assign, emplace, erase, length, get_elem?, set, ◌==◌, ◌⊎◌, inl, inr, sym, ◌∙◌,
  Option-cases, Bool-cases, and-true, ==_iff, ap, bytes_eq→eq,
}
use dbmesh.Core.Types.{Health, Role}
use dbmesh.Core.Config.{BackendConfig}
use dbmesh.Routing.Backends.{
  BackendEntry, entry_of, ById, Registry, or_empty, group_at, push_group, index_groups, get,
  get_group, init, update_at, update_found, update_state, update_role, update_lag, build,
  load_entries, load, add, remove,
}

abbrev pub mem : ℕ → List ℕ → Bool
mem r [] = false
mem r (x ∷ xs) = x == r || mem r xs

-- The map holds this pair.
abbrev pub InMap : Bytes → ℕ → ById → Type 0
InMap k r [] = ⊥
InMap k r ((j, x) ∷ m) = ((j ≡ k) × (x ≡ r)) ⊎ InMap k r m

-- A walk over a map visits its pairs, in some order.
abbrev pub Walks : (ById → ById) → Type 0
Walks walk = (m : ById) (k : Bytes) (r : ℕ) → InMap k r (walk m) ↔ InMap k r m

abbrev pub Unique : ById → Type 0
Unique [] = Unit
Unique ((k, r) ∷ m) = (lookup k m ≡ none) × Unique m

Unique-assign : (k : Bytes) (v : ℕ) (m : ById) → Unique m → Unique (assign k v m)
unfolding assign lookup
Unique-assign k v [] u = (refl, tt)
Unique-assign k v ((j, w) ∷ m) u =
    ground
      (arith, Unique-assign k v m u.1, lookup-assign k j v m, bytes_eq_iff j k, bytes_eq_iff k j)

Unique-emplace : (k : Bytes) (v : ℕ) (m : ById) → Unique m → Unique (emplace k v m)
unfolding emplace lookup
Unique-emplace k v [] u = (refl, tt)
Unique-emplace k v ((j, w) ∷ m) u =
    ground
      (arith, Unique-emplace k v m u.1, lookup-emplace k j v m, bytes_eq_iff j k, bytes_eq_iff k j)

Unique-erase : (k : Bytes) (m : ById) → Unique m → Unique (erase k m)
unfolding erase lookup
Unique-erase k [] u = tt
Unique-erase k ((j, w) ∷ m) u = ground (arith, Unique-erase k m u.1, lookup-erase k j m)

InMap→some : (k : Bytes) (r : ℕ) (m : ById) → InMap k r m → is_some (lookup k m) ≡ true
unfolding lookup
InMap→some k r [] h = absurd h
InMap→some k r ((j, x) ∷ m) (inl (e, f)) = ground (arith, bytes_eq_iff j k)
InMap→some k r ((j, x) ∷ m) (inr h) = ground (arith, InMap→some k r m h)

InMap→lookup : (k : Bytes) (r : ℕ) (m : ById) → Unique m → InMap k r m → lookup k m ≡ some r
unfolding lookup
InMap→lookup k r [] u h = absurd h
InMap→lookup k r ((j, x) ∷ m) u (inl (e, f)) = ground (arith, bytes_eq_iff j k)
InMap→lookup k r ((j, x) ∷ m) u (inr h) =
    ground (arith, bytes_eq_iff j k, InMap→some k r m h, InMap→lookup k r m u.1 h)

lookup→InMap : (k : Bytes) (r : ℕ) (m : ById) → lookup k m ≡ some r → InMap k r m
unfolding lookup
lookup→InMap k r [] h = cc
lookup→InMap k r ((j, x) ∷ m) h = ground (arith, bytes_eq_iff j k, lookup→InMap k r m)

abbrev is_group : Option Bytes → Bytes → Bool
is_group none g = false
is_group (some h) g = bytes_eq h g

-- Whether some pair of a list points to `r`, which is of group `g`.
abbrev serves : List BackendEntry → Bytes → ℕ → ById → Bool
serves es g r [] = false
serves es g r ((k, x) ∷ m) = (x == r && is_group (group_at es x) g) || serves es g r m

mem-append_one : (r x : ℕ) (xs : List ℕ) → mem r (xs ++ x ∷ []) ≡ (mem r xs || x == r)
mem-append_one r x [] = ground arith
mem-append_one r x (y ∷ ys) = ground (arith, mem-append_one r x ys)

mem-push_group :
    (o : Option Bytes) (g : Bytes) (r x : ℕ) (m : List (Bytes × List ℕ))
    → mem r (or_empty (lookup g (push_group o x m)))
      ≡ (mem r (or_empty (lookup g m)) || (x == r && is_group o g))
mem-push_group none g r x m = ground arith
mem-push_group (some h) g r x m = ground (
  arith,
  lookup-assign h g (or_empty (lookup h m) ++ x ∷ []) m,
  mem-append_one r x (or_empty (lookup h m)),
  bytes_eq_iff h g,
)

mem-index_groups :
    (es : List BackendEntry) (g : Bytes) (r : ℕ) (w : ById) (m : List (Bytes × List ℕ))
    → mem r (or_empty (lookup g (index_groups es w m)))
      ≡ (mem r (or_empty (lookup g m)) || serves es g r w)
unfolding index_groups
mem-index_groups es g r [] m = ground arith
mem-index_groups es g r ((k, x) ∷ w) m = ground (
  arith,
  mem-push_group (group_at es x) g r x m,
  mem-index_groups es g r w (push_group (group_at es x) x m),
)

or-true : (a b : Bool) → (a || b) ≡ true → (a ≡ true) ⊎ (b ≡ true)
or-true true b h = inl refl
or-true false b h = inr h

group_of :
    (es : List BackendEntry) (g : Bytes) (r x : ℕ)
    → x ≡ r
    → is_group (group_at es x) g ≡ true
    → group_at es r ≡ some g
group_of es g r x e h = elim (Option-cases (group_at es x)) [
  | inl n ↦ absurd (cc (rw n at h))
  | inr (a, n) ↦ rw (← e, n) (ap some (bytes_eq→eq a g (rw n at h)))
]

serves→ :
    (es : List BackendEntry) (g : Bytes) (r : ℕ) (m : ById)
    → serves es g r m ≡ true
    → (k : Bytes) × InMap k r m × (group_at es r ≡ some g)
serves→ es g r [] h = cc
serves→ es g r ((k, x) ∷ m) h =
    elim (or-true (x == r && is_group (group_at es x) g) (serves es g r m) h) [
      | inl now ↦
          let (a, b) = and-true (x == r) (is_group (group_at es x) g) now in
          (k, inl (refl, (==_iff x r).0 a), group_of es g r x ((==_iff x r).0 a) b)
      | inr later ↦ let (k', i, e) = serves→ es g r m later in (k', inr i, e)
    ]

→serves :
    (es : List BackendEntry) (g k : Bytes) (r : ℕ) (m : ById)
    → InMap k r m
    → group_at es r ≡ some g
    → serves es g r m ≡ true
→serves es g k r [] h e = absurd h
→serves es g k r ((j, x) ∷ m) (inl (a, b)) e = ground (arith, bytes_eq_iff g g)
→serves es g k r ((j, x) ∷ m) (inr h) e = ground (arith, →serves es g k r m h e)

-- What the two indexes of a registry owe each other.
pub record Coherent (reg : Registry) : Type 0 where
  -- No id stands twice in the map.
  pub unique : Unique reg.current.by_id
  -- A backend is listed in a group exactly when some id maps to it and it is of that group.
  pub listed :
      (g : Bytes) (r : ℕ)
      → mem r (get_group reg g) ≡ true
        ↔ ((k : Bytes) × (get reg k ≡ some r) × (group_at reg.entries r ≡ some g))

module _ (walk : ById → ById) (walks : Walks walk) where
  build-listed :
      (es : List BackendEntry) (m : ById) (g : Bytes) (r : ℕ)
      → Unique m
      → mem r (or_empty (lookup g (build walk es m).by_group)) ≡ true
        ↔ ((k : Bytes) × (lookup k m ≡ some r) × (group_at es r ≡ some g))
  unfolding build lookup
  build-listed es m g r u =
      let index = mem-index_groups es g r (walk m) [] in
      (
        (λ h.
            let (k, i, e) = serves→ es g r (walk m) (sym index ∙ h) in
            (k, InMap→lookup k r m u ((walks m k r).0 i), e)),
        (λ h.
            index ∙ →serves es g h.0 r (walk m) ((walks m h.0 r).1 (lookup→InMap h.0 r m h.1)) h.2),
      )

  build-Coherent :
      (es : List BackendEntry) (m : ById) (v : ℕ)
      → Unique m
      → Coherent (record { entries = es; current = build walk es m; version = v })
  unfolding get_group get build
  build-Coherent es m v u = record { unique = u; listed = λ g r. build-listed es m g r u }

  load_entries-Unique :
      (es : List BackendEntry) (m : ById) (cs : List BackendConfig)
      → Unique m
      → Unique (load_entries walk es m cs).1
  unfolding load_entries
  load_entries-Unique es m [] u = u
  load_entries-Unique es m (c ∷ cs) u =
      load_entries-Unique (es ++ entry_of c ∷ []) (emplace c.id (length es) m) cs
        (Unique-emplace c.id (length es) m u)

group_at-set :
    (es : List BackendEntry) (r x : ℕ) (e f : BackendEntry)
    → get_elem? es r ≡ some e
    → f.group ≡ e.group
    → group_at (set es r f) x ≡ group_at es x
group_at-set [] r x e f h g = refl
group_at-set (y ∷ es) zero zero e f h g = ground arith
group_at-set (y ∷ es) zero (suc x) e f h g = refl
group_at-set (y ∷ es) (suc r) zero e f h g = refl
group_at-set (y ∷ es) (suc r) (suc x) e f h g = group_at-set es r x e f h g

group_at-update_at :
    (f : BackendEntry → BackendEntry) (es : List BackendEntry) (r x : ℕ)
    → ((e : BackendEntry) → (f e).group ≡ e.group)
    → group_at (update_at f es r) x ≡ group_at es x
unfolding update_at
group_at-update_at f es r x keep = elim (Option-cases (get_elem? es r)) [
  | inl n ↦ rw (n, update_at)
  | inr (e, n) ↦ rw (n, update_at) (group_at-set es r x e (f e) n (keep e))
]

update_found-Coherent :
    (f : BackendEntry → BackendEntry) (reg : Registry) (v : ℕ) (o : Option ℕ)
    → ((e : BackendEntry) → (f e).group ≡ e.group)
    → Coherent reg
    → Coherent (update_found f reg v o)
unfolding update_found get get_group
update_found-Coherent f reg v none keep c = c
update_found-Coherent f reg v (some x) keep c = record {
  unique = c.unique;
  listed = λ g r. rw (group_at-update_at f reg.entries x r keep) (c.listed g r);
}

-- An operation of the registry.
pub data Op : Type 0 where
  loads : List BackendConfig → Op
  adds : BackendConfig → Op
  removes : Bytes → Op
  states : Bytes → Health → Op
  roles : Bytes → Role → Op
  lags : Bytes → ℕ → Op

pub step : (ById → ById) → Registry → Op → Registry
step walk reg (loads cs) = load walk reg cs
step walk reg (adds c) = add walk reg c
step walk reg (removes id) = remove walk reg id
step walk reg (states id st) = update_state reg id st
step walk reg (roles id role) = update_role reg id role
step walk reg (lags id lag) = update_lag reg id lag

pub run : (ById → ById) → Registry → List Op → Registry
unfolding step
run walk reg [] = reg
run walk reg (o ∷ os) = run walk (step walk reg o) os

module _ (walk : ById → ById) (walks : Walks walk) where
  step-Coherent : (reg : Registry) (o : Op) → Coherent reg → Coherent (step walk reg o)
  unfolding step load add remove update_state update_role update_lag
  step-Coherent reg (loads cs) c =
      build-Coherent walk walks _ _ _ (load_entries-Unique walk walks reg.entries [] cs tt)
  step-Coherent reg (adds b) c = build-Coherent walk walks _ _ _ (Unique-assign b.id _ _ c.unique)
  step-Coherent reg (removes id) c = elim (Bool-cases (is_some (lookup id reg.current.by_id))) [
    | inl here ↦ rw (here, remove) (build-Coherent walk walks _ _ _ (Unique-erase id _ c.unique))
    | inr gone ↦ rw (gone, remove) c
  ]
  step-Coherent reg (states id st) c = update_found-Coherent _ reg _ (get reg id) (λ e. refl) c
  step-Coherent reg (roles id role) c = update_found-Coherent _ reg _ (get reg id) (λ e. refl) c
  step-Coherent reg (lags id lag) c = update_found-Coherent _ reg _ (get reg id) (λ e. refl) c

  run-Coherent : (reg : Registry) (os : List Op) → Coherent reg → Coherent (run walk reg os)
  unfolding run
  run-Coherent reg [] c = c
  run-Coherent reg (o ∷ os) c = run-Coherent (step walk reg o) os (step-Coherent reg o c)

  init-Coherent : Coherent init
  unfolding init get get_group lookup
  init-Coherent = record { unique = tt; listed = λ g r. ((λ h. cc), (λ h. absurd (cc h.1))) }

  -- After any history of loads, additions, removals and updates in place, whatever order the maps
  -- are walked in, no id stands twice, and `get_group` lists exactly the backends of that group
  -- that `get` finds under some id.
  pub run-init-Coherent : (os : List Op) → Coherent (run walk init os)
  run-init-Coherent os = run-Coherent init os init-Coherent
