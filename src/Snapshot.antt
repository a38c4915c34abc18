-- ===== src/Snapshot.antt =====
-- The runtime operator's snapshot of the resources of a product
-- (app/runtime-operator/pkg/database).
pub mod Matrix
pub mod State
pub mod Query
pub mod Load
pub mod Legal
pub mod Options
pub mod Namespaces
pub mod Repos
pub mod Examples
