-- ===== src/Routing/Backends/Updates.antt =====
-- backend_registry.cpp: what the holder of an older snapshot sees of an update in place.
use dbmesh.Prelude.{
  ℕ, suc, zero, ◌<◌, ◌≡◌, ◌≢◌, List, [], ◌∷◌, ◌++◌, some, Bytes, refl, arith, bytes_eq_iff, lookup,
  lookup-assign, length, get_elem?, set, ap, ◌∙◌,
}
use dbmesh.Core.Types.{Health}
use dbmesh.Core.Config.{BackendConfig}
use dbmesh.Routing.Backends.{
  BackendEntry, entry_of, ById, Registry, Snapshot, get, update_at, update_found, update_state, add,
  build,
}

module _ {ℓ} {A : Type ℓ} where
  get_elem?-set :
      (xs : List A) (i : ℕ) (a b : A) → get_elem? xs i ≡ some a → get_elem? (set xs i b) i ≡ some b
  get_elem?-set [] i a b h = cc
  get_elem?-set (x ∷ xs) zero a b h = refl
  get_elem?-set (x ∷ xs) (suc i) a b h = get_elem?-set xs i a b h

  get_elem?-set_ne :
      (xs : List A) (i j : ℕ) (b : A) → j ≢ i → get_elem? (set xs i b) j ≡ get_elem? xs j
  get_elem?-set_ne [] i j b h = refl
  get_elem?-set_ne (x ∷ xs) zero zero b h = absurd (h refl)
  get_elem?-set_ne (x ∷ xs) zero (suc j) b h = refl
  get_elem?-set_ne (x ∷ xs) (suc i) zero b h = refl
  get_elem?-set_ne (x ∷ xs) (suc i) (suc j) b h = get_elem?-set_ne xs i j b (λ e. h (ap suc e))

  get_elem?-append_left :
      (xs ys : List A) (i : ℕ) {a : A} → get_elem? xs i ≡ some a → get_elem? (xs ++ ys) i ≡ some a
  get_elem?-append_left [] ys i h = cc
  get_elem?-append_left (x ∷ xs) ys zero h = h
  get_elem?-append_left (x ∷ xs) ys (suc i) h = get_elem?-append_left xs ys i h

  get_elem?-append_last : (xs : List A) (a : A) → get_elem? (xs ++ a ∷ []) (length xs) ≡ some a
  get_elem?-append_last [] a = refl
  get_elem?-append_last (x ∷ xs) a = get_elem?-append_last xs a

  get_elem?-lt : (xs : List A) (i : ℕ) {a : A} → get_elem? xs i ≡ some a → i < length xs
  get_elem?-lt [] i h = cc
  get_elem?-lt (x ∷ xs) zero h = omega arith
  get_elem?-lt (x ∷ xs) (suc i) h = omega (arith, get_elem?-lt xs i h)

-- An update of a known id changes that entry's state, which every snapshot that points to it sees,
-- and no other entry and no snapshot.
pub update_state_shared :
    (reg : Registry) (id : Bytes) (st : Health) {r : ℕ} {e : BackendEntry}
    → get reg id ≡ some r
    → get_elem? reg.entries r ≡ some e
    → (get_elem? (update_state reg id st).entries r ≡ some (record e { state = st }))
      × ((x : ℕ) → x ≢ r → get_elem? (update_state reg id st).entries x ≡ get_elem? reg.entries x)
      × ((update_state reg id st).current ≡ reg.current)
unfolding update_state update_found update_at
update_state_shared reg id st {r} {e} h k = (
  rw (h, update_found, k, update_at) (get_elem?-set reg.entries r e _ k),
  (λ x n. rw (h, update_found, k, update_at) (get_elem?-set_ne reg.entries r x _ n)),
  rw (h, update_found),
)

-- Adding a backend whose id is taken makes a new entry: an update by that id then leaves the entry
-- of the older snapshots as it was, and is found under the id.
pub update_state-add :
    (walk : ById → ById) (reg : Registry) (c : BackendConfig) (st : Health) {r : ℕ}
    {e : BackendEntry}
    → get reg c.id ≡ some r
    → get_elem? reg.entries r ≡ some e
    → let reg' = update_state (add walk reg c) c.id st in
      (get_elem? reg'.entries r ≡ some e)
      × (get reg' c.id ≡ some (length reg.entries))
      × (get_elem? reg'.entries (length reg.entries) ≡ some (record (entry_of c) { state = st }))
unfolding get add build
update_state-add walk reg c st {r} {e} h k =
    let new = add walk reg c in
    let found : get new c.id ≡ some (length reg.entries) = ground (
      arith,
      lookup-assign c.id c.id (length reg.entries) reg.current.by_id,
      bytes_eq_iff c.id c.id,
    ) in
    let seen =
      update_state_shared new c.id st {e = entry_of c} found
        (get_elem?-append_last reg.entries (entry_of c)) in
    (
      seen.1 r (λ q. absurd (omega (arith, get_elem?-lt reg.entries r k)))
          ∙ get_elem?-append_left reg.entries (entry_of c ∷ []) r k,
      ap (λ (s : Snapshot). lookup c.id s.by_id) seen.2 ∙ found,
      seen.0,
    )
