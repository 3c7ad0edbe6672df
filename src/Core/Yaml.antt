-- ===== src/Core/Yaml.antt =====
-- The part of yaml-cpp that core/src/config.cpp calls, as an interface, and the conversions that
-- config.cpp makes with it. A call that throws gives `err`.
use dbmesh.Prelude.{
  ℕ, ◌%◌, ◌^◌, Bool, ◌&&◌, List, [], ◌∷◌, Bytes, codes, bytes_eq, if◌then◌else◌, assign, Option,
  some,
}
use dbmesh.Core.Types.{
  Result, ok, err, Role, primary, replica, Policy, round_robin, weighted, least_connections,
  latency, random, failover, consistent_hashing, NodeMode, standalone, cluster, BackendType, mysql,
  mariadb, postgres, rds_mysql, rds_mariadb, rds_postgres, RecoveryMode, stateless, basic, advanced,
  strict, AffinityMode, no_affinity, by_schema, by_backend, transaction, FailoverPolicy, immediate,
  graceful, manual,
}

-- `YAML::Exception`, or another `std::exception`.
pub data Thrown : Type 0 where
  yaml_exception std_exception : Thrown

abbrev pub Parsed {ℓ} : Type ℓ → Type ℓ
Parsed A = Result A Thrown

infixl 5 ◌>>=◌
abbrev pub ◌>>=◌ {ℓ κ} : {A : Type ℓ} {B : Type κ} → Parsed A → (A → Parsed B) → Parsed B
ok a >>= f = f a
err e >>= f = err e

-- A node that `operator[]` does not find is a node that is not defined.
pub record Yaml : Type 1 where
  pub Node : Type 0
  pub at : Node → Bytes → Parsed Node
  pub is_defined : Node → Bool
  pub is_sequence : Node → Bool
  pub is_map : Node → Bool
  -- What a loop over the node visits, as a sequence and as a map.
  pub items : Node → List Node
  pub pairs : Node → List (Node × Node)
  -- `as<T>`.
  pub as_string : Node → Parsed Bytes
  pub as_u32 : Node → Parsed ℕ
  pub as_bool : Node → Parsed Bool
  pub as_double : Node → Parsed ℕ

-- `if (s == "…") return …;` for each name, and then `throw`.
unfoldable pub named {ℓ} : {A : Type ℓ} → List (Bytes × A) → Bytes → Parsed A
named [] s = err std_exception
named ((name, a) ∷ rest) s = let later = named rest s in if bytes_eq s name then ok a else later

abbrev pub node_modes : List (Bytes × NodeMode)
node_modes = (codes "standalone", standalone) ∷ (codes "cluster", cluster) ∷ []

abbrev pub backend_types : List (Bytes × BackendType)
backend_types =
    (codes "mysql", mysql)
    ∷ (codes "mariadb", mariadb)
    ∷ (codes "postgres", postgres)
    ∷ (codes "rds-mysql", rds_mysql)
    ∷ (codes "rds-mariadb", rds_mariadb)
    ∷ (codes "rds-postgres", rds_postgres)
    ∷ []

abbrev pub backend_roles : List (Bytes × Role)
backend_roles = (codes "primary", primary) ∷ (codes "replica", replica) ∷ []

abbrev pub recovery_modes : List (Bytes × RecoveryMode)
recovery_modes =
    (codes "STATELESS", stateless)
    ∷ (codes "BASIC", basic)
    ∷ (codes "ADVANCED", advanced)
    ∷ (codes "STRICT", strict)
    ∷ []

abbrev pub affinity_modes : List (Bytes × AffinityMode)
affinity_modes =
    (codes "NONE", no_affinity)
    ∷ (codes "SCHEMA", by_schema)
    ∷ (codes "BACKEND", by_backend)
    ∷ (codes "TRANSACTION", transaction)
    ∷ []

abbrev pub routing_policies : List (Bytes × Policy)
routing_policies =
    (codes "round_robin", round_robin)
    ∷ (codes "weighted", weighted)
    ∷ (codes "least_connections", least_connections)
    ∷ (codes "latency", latency)
    ∷ (codes "random", random)
    ∷ (codes "failover", failover)
    ∷ (codes "consistent_hashing", consistent_hashing)
    ∷ []

abbrev pub failover_policies : List (Bytes × FailoverPolicy)
failover_policies =
    (codes "IMMEDIATE", immediate) ∷ (codes "GRACEFUL", graceful) ∷ (codes "MANUAL", manual) ∷ []

module _ (yaml : Yaml) where
  -- `if (n["k"]) x = n["k"].as<T>();`, with the old value of `x`.
  abbrev pub field {ℓ} : {A : Type ℓ} → yaml.Node → Bytes → (yaml.Node → Parsed A) → A → Parsed A
  field n k convert old = do
    child ← yaml.at n k
    if yaml.is_defined child then convert child else ok old

  -- `if (!n) return x;`.
  abbrev pub present {ℓ} : {A : Type ℓ} → yaml.Node → A → Parsed A → Parsed A
  present n default parsed = if yaml.is_defined n then parsed else ok default

  unfoldable pub each {ℓ} : {A : Type ℓ} → (yaml.Node → Parsed A) → List yaml.Node → Parsed (List A)
  each convert [] = ok []
  each convert (n ∷ ns) = do a ← convert n; rest ← each convert ns; ok (a ∷ rest)

  -- `if (n["k"] && n["k"].IsSequence()) for (…) x.push_back(…);`, where `x` is empty before.
  abbrev pub sequence {ℓ} :
      {A : Type ℓ} → yaml.Node → Bytes → (yaml.Node → Parsed A) → List A → Parsed (List A)
  sequence n k convert old = do
    child ← yaml.at n k
    if yaml.is_defined child && yaml.is_sequence child
        then each convert (yaml.items child)
        else ok old

  -- `b.tags[kv.first.as<std::string>()] = kv.second.as<std::string>()` for each pair; in C++17 the
  -- right side is evaluated first.
  unfoldable pub string_map :
      List (yaml.Node × yaml.Node) → List (Bytes × Bytes) → Parsed (List (Bytes × Bytes))
  string_map [] m = ok m
  string_map ((k, v) ∷ rest) m = do
    value ← yaml.as_string v
    key ← yaml.as_string k
    string_map rest (assign key value m)

  -- `static_cast<uint16_t>(n.as<uint32_t>())`.
  abbrev pub as_port : yaml.Node → Parsed ℕ
  as_port n = do v ← yaml.as_u32 n; ok (v % 2 ^ 16)

  abbrev pub as_named {ℓ} : {A : Type ℓ} → List (Bytes × A) → yaml.Node → Parsed A
  as_named names n = do s ← yaml.as_string n; named names s

  -- The same for a field that is a `std::optional`.
  abbrev pub as_some {ℓ} : {A : Type ℓ} → (yaml.Node → Parsed A) → yaml.Node → Parsed (Option A)
  as_some convert n = do v ← convert n; ok (some v)
