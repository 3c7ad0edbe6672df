-- ===== src/Examples.antt =====
-- Concrete runs of the models, and the theorems at concrete inputs.
mod Classifying
mod Planning
mod Registries
mod Wire
mod Pooling
mod Clients
mod Commands
mod Starting
mod Logging
mod Sessions
mod Connecting
