-- ===== src/Core.antt =====
-- core: the types that all parts share, and the configuration.
pub mod Types
pub mod Config
pub mod Yaml
pub mod Parse
pub mod Validate
pub mod Valid
pub mod Load
pub mod Logger
