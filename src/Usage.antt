-- ===== src/Usage.antt =====
-- What the runtime operator remembers of the runtimes that it deployed on a cluster
-- (app/runtime-operator/internal/syncer/v2/cache).
pub mod Spaces
pub mod Secret
pub mod Accounts
pub mod Products
pub mod Controller
