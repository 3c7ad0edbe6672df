-- ===== src/Application.antt =====
-- core/src/application.cpp: what is started from the configuration, signals and reloads.
pub mod Started
pub mod Reloads
pub mod Fresh
use dbmesh.Prelude.{
  ℕ, Bool, true, false, List, [], ◌∷◌, Option, none, some, if◌then◌else◌, Bytes, ltb, ◌-◌,
}
use dbmesh.Core.Config.{Config, BackendConfig}
use dbmesh.Routing.Schemas.{SchemaRegistry, empty_registry}
use dbmesh.Routing.Schemas as Schemas
use dbmesh.Routing.Backends.{Registry, ById}
use dbmesh.Routing.Backends as Backends
use dbmesh.Pool.Manager.{PoolManager, no_pools, create_pool_with_factory}

-- What `start_subsystems` makes.
pub record Subsystems : Type 0 where
  pub schema_registry : SchemaRegistry
  pub backend_registry : Registry
  pub pool_manager : PoolManager
  pub listening : Bool

unfoldable pub create_pools : PoolManager → List BackendConfig → PoolManager
create_pools m [] = m
create_pools m (b ∷ bs) = create_pools (create_pool_with_factory m b) bs

unfoldable pub start_subsystems : (ById → ById) → Config → Subsystems
unfolding create_pools
start_subsystems walk config = record {
  schema_registry = Schemas.load empty_registry config.schemas;
  backend_registry = Backends.load walk Backends.init config.backends;
  pool_manager = create_pools no_pools config.backends;
  listening = config.listeners.mysql.enabled;
}

-- The configuration that is in use, whether a shutdown was requested, whether the event loop was
-- told to stop, and whether the signals are waited for.
pub record Application : Type 0 where
  pub config : Config
  pub subsystems : Subsystems
  pub shutting_down : Bool
  pub stopped : Bool
  pub armed : Bool

pub data Signal : Type 0 where
  sigterm sigint sighup another : Signal

unfoldable pub request_shutdown : Application → Application
request_shutdown a =
    if a.shutting_down then a else record a { shutting_down = true; stopped = true }

abbrev pub on_config_reload : Application → Option Config → Application
on_config_reload a none = a
on_config_reload a (some c) = record a { config = c }

-- `if (!shutting_down_) arm_signals();`.
abbrev pub rearm : Application → Application
rearm a = if a.shutting_down then a else record a { armed = true }

-- The signal handler has run out when it is called; `reloaded` is what the file gives now.
unfoldable pub on_signal : Application → Signal → Option Config → Application
unfolding request_shutdown
on_signal a sigterm reloaded = request_shutdown (record a { armed = false })
on_signal a sigint reloaded = request_shutdown (record a { armed = false })
on_signal a sighup reloaded = rearm (on_config_reload (record a { armed = false }) reloaded)
on_signal a another reloaded = rearm (record a { armed = false })

-- The threads that run the event loop beside the main thread.
abbrev pub extra_threads : Config → ℕ
extra_threads config =
    if ltb 1 config.listeners.mysql.io_threads then config.listeners.mysql.io_threads - 1 else 0
