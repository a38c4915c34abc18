-- ===== src/Task.antt =====
-- The tasks of the runtime operator (app/runtime-operator/internal/syncer/v2/task): the deployment and
-- the clean-up of a runtime, as calls of the components of a cluster.
pub mod Component
pub mod Listener
pub mod Action
pub mod Products
pub mod Permissions
pub mod Deployer
pub mod Deploy
pub mod Load
pub mod Setup
pub mod Ending
pub mod Pipeline
pub mod Others
pub mod Invariants
pub mod Yields
pub mod Hashes
pub mod Safe
pub mod Careful
pub mod Success
pub mod Errors
pub mod Outcome
pub mod Examples
