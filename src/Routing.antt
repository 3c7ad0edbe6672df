-- ===== src/Routing.antt =====
-- routing/: the synchronous pipeline that turns a SQL text into a route plan.
pub mod Types
pub mod Classifier
pub mod Extractor
pub mod Schemas
pub mod Backends
pub mod Policies
pub mod Selector
pub mod Engine
