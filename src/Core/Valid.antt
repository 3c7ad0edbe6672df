-- ===== src/Core/Valid.antt =====
-- core/src/config.cpp: what `validate` accepts.
use dbmesh.Prelude.{
  ℕ, Bool, true, false, ◌&&◌, List, [], ◌∷◌, map, Option, none, some, Bytes, bytes_eq_iff, ◌==◌,
  ==_iff, is_empty, NotIn, Distinct, ◌≡◌, ◌≢◌, ◌↔◌, refl, arith, ◌∙◌,
}
use dbmesh.Core.Config.{Config, BackendConfig, SchemaConfig}
use dbmesh.Core.Validate.{Invalid, seen, check_backends, check_schemas, validate, or_next, fails}

abbrev pub Complete : BackendConfig → Type 0
Complete b = (b.id ≢ []) × (b.host ≢ []) × (b.port ≢ 0) × (b.group ≢ [])

abbrev pub AllComplete : List BackendConfig → Type 0
AllComplete [] = Unit
AllComplete (b ∷ bs) = Complete b × AllComplete bs

abbrev pub Named : SchemaConfig → Type 0
Named s = (s.name ≢ []) × (s.backend_group ≢ [])

abbrev pub AllNamed : List SchemaConfig → Type 0
AllNamed [] = Unit
AllNamed (s ∷ ss) = Named s × AllNamed ss

abbrev pub ids : List BackendConfig → List Bytes
ids = map (λ (b : BackendConfig). b.id)

abbrev pub names : List SchemaConfig → List Bytes
names = map (λ (s : SchemaConfig). s.name)

-- What the program relies on of a configuration.
pub record Valid (cfg : Config) : Type 0 where
  pub has_id : cfg.node.id ≢ []
  pub mysql_port : cfg.listeners.mysql.enabled ≡ true → cfg.listeners.mysql.port ≢ 0
  pub postgres_port : cfg.listeners.postgres.enabled ≡ true → cfg.listeners.postgres.port ≢ 0
  pub api_port : cfg.api.port ≢ 0
  pub backends_complete : AllComplete cfg.backends
  pub backends_distinct : Distinct [] (ids cfg.backends)
  pub schemas_named : AllNamed cfg.schemas
  pub schemas_distinct : Distinct [] (names cfg.schemas)
  pub some_backend : cfg.listeners.mysql.enabled ≡ true → cfg.backends ≢ []
  pub some_schema : cfg.listeners.mysql.enabled ≡ true → cfg.schemas ≢ []

is_empty_iff {ℓ} : {A : Type ℓ} (xs : List A) → (is_empty xs ≡ true) ↔ (xs ≡ [])
is_empty_iff [] = (λ h. refl, λ h. refl)
is_empty_iff (x ∷ xs) = (λ h. cc, λ h. cc)

seen-NotIn : (s : Bytes) (ts : List Bytes) → (seen s ts ≡ false) ↔ NotIn s ts
unfolding seen
seen-NotIn s [] = (λ h. tt, λ h. refl)
seen-NotIn s (t ∷ ts) = ground (arith, bytes_eq_iff t s, seen-NotIn s ts)

check_backends_iff :
    (before : List Bytes) (bs : List BackendConfig)
    → (check_backends before bs ≡ none) ↔ (AllComplete bs × Distinct before (ids bs))
unfolding check_backends
check_backends_iff before [] = (λ h. (tt, tt), λ h. refl)
check_backends_iff before (b ∷ bs) = ground (
  arith,
  is_empty_iff b.id,
  is_empty_iff b.host,
  is_empty_iff b.group,
  ==_iff b.port 0,
  seen-NotIn b.id before,
  check_backends_iff (b.id ∷ before) bs,
)

check_schemas_iff :
    (before : List Bytes) (ss : List SchemaConfig)
    → (check_schemas before ss ≡ none) ↔ (AllNamed ss × Distinct before (names ss))
unfolding check_schemas
check_schemas_iff before [] = (λ h. (tt, tt), λ h. refl)
check_schemas_iff before (s ∷ ss) = ground (
  arith,
  is_empty_iff s.name,
  is_empty_iff s.backend_group,
  seen-NotIn s.name before,
  check_schemas_iff (s.name ∷ before) ss,
)

or_next-none : (a b : Option Invalid) → or_next a b ≡ none → (a ≡ none) × (b ≡ none)
or_next-none none b h = (refl, h)
or_next-none (some e) b h = cc

fails_not : (test : Bool) (e : Invalid) → fails test e ≡ none → test ≡ false
fails_not true e h = cc
fails_not false e h = refl

-- A check that both an enabled listener and a fault must meet.
guarded_iff :
    (enabled fault : Bool) → ((enabled && fault) ≡ false) ↔ (enabled ≡ true → fault ≡ true → ⊥)
guarded_iff enabled fault = ground arith

port_not_zero :
    (enabled : Bool) (port : ℕ) → (enabled && port == 0) ≡ false → enabled ≡ true → port ≢ 0
port_not_zero enabled port h e z = ground arith

not_empty {ℓ} :
    {A : Type ℓ} (enabled : Bool) (xs : List A)
    → (enabled && is_empty xs) ≡ false
    → enabled ≡ true
    → xs ≢ []
not_empty enabled xs h e z = (guarded_iff enabled (is_empty xs)).0 h e ((is_empty_iff xs).1 z)

no_fault {ℓ} :
    {A : Type ℓ} (enabled : Bool) (xs : List A)
    → (enabled ≡ true → xs ≢ [])
    → (enabled && is_empty xs) ≡ false
no_fault enabled xs h = (guarded_iff enabled (is_empty xs)).1 (λ e z. h e ((is_empty_iff xs).0 z))

no_zero : (enabled : Bool) (port : ℕ) → (enabled ≡ true → port ≢ 0) → (enabled && port == 0) ≡ false
no_zero enabled port h = (guarded_iff enabled (port == 0)).1 (λ e z. h e ((==_iff port 0).0 z))

passes :
    (test : Bool) (e : Invalid) (next : Option Invalid)
    → test ≡ false
    → or_next (fails test e) next ≡ next
passes test e next h = rw h refl

off : (test : Bool) → test ≡ false → test ≡ true → ⊥
off test h t = cc

Valid-sound : (cfg : Config) → validate cfg ≡ none → Valid cfg
unfolding validate
Valid-sound cfg h =
    let mysql = cfg.listeners.mysql in
    let postgres = cfg.listeners.postgres in
    let (a, h1) = or_next-none _ _ h in
    let (b, h2) = or_next-none _ _ h1 in
    let (c, h3) = or_next-none _ _ h2 in
    let (d, h4) = or_next-none _ _ h3 in
    let (bs, h5) = or_next-none _ _ h4 in
    let (ss, h6) = or_next-none _ _ h5 in
    let (e, f) = or_next-none _ _ h6 in
    let backends = (check_backends_iff [] cfg.backends).0 bs in
    let schemas = (check_schemas_iff [] cfg.schemas).0 ss in
    record {
      has_id = λ z. off _ (fails_not _ _ a) ((is_empty_iff cfg.node.id).1 z);
      mysql_port = port_not_zero mysql.enabled mysql.port (fails_not _ _ b);
      postgres_port = port_not_zero postgres.enabled postgres.port (fails_not _ _ c);
      api_port = λ z. off _ (fails_not _ _ d) ((==_iff cfg.api.port 0).1 z);
      backends_complete = backends.0;
      backends_distinct = backends.1;
      schemas_named = schemas.0;
      schemas_distinct = schemas.1;
      some_backend = not_empty mysql.enabled cfg.backends (fails_not _ _ e);
      some_schema = not_empty mysql.enabled cfg.schemas (fails_not _ _ f);
    }

false_of_not : (test : Bool) → (test ≡ true → ⊥) → test ≡ false
false_of_not test h = ground arith

Valid-complete : (cfg : Config) → Valid cfg → validate cfg ≡ none
unfolding validate
Valid-complete cfg v =
    let mysql = cfg.listeners.mysql in
    let postgres = cfg.listeners.postgres in
    let a = false_of_not (is_empty cfg.node.id) (λ h. v.has_id ((is_empty_iff cfg.node.id).0 h)) in
    let b = no_zero mysql.enabled mysql.port v.mysql_port in
    let c = no_zero postgres.enabled postgres.port v.postgres_port in
    let d = false_of_not (cfg.api.port == 0) (λ h. v.api_port ((==_iff cfg.api.port 0).0 h)) in
    let bs = (check_backends_iff [] cfg.backends).1 (v.backends_complete, v.backends_distinct) in
    let ss = (check_schemas_iff [] cfg.schemas).1 (v.schemas_named, v.schemas_distinct) in
    let e = no_fault mysql.enabled cfg.backends v.some_backend in
    let f = no_fault mysql.enabled cfg.schemas v.some_schema in
    passes _ _ _ a
    ∙ passes _ _ _ b
    ∙ passes _ _ _ c
    ∙ passes _ _ _ d
    ∙ rw (bs, ss) (passes _ _ _ e ∙ rw f refl)

-- `validate` accepts exactly the valid configurations: a named node, no enabled listener of a
-- protocol and no API on port 0, every backend with an id, a host, a port and a group, every schema
-- with a name and a group, no id and no name twice, and a backend and a schema if the MySQL
-- listener is enabled.
pub validate-Valid : (cfg : Config) → (validate cfg ≡ none) ↔ Valid cfg
validate-Valid cfg = (Valid-sound cfg, Valid-complete cfg)
