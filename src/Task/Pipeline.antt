-- ===== src/Task/Pipeline.antt =====
-- The tasks of pipeline runtimes (app/runtime-operator/internal/syncer/v2/task/pipelineRuntime.go and
-- pipelineRuntimeHookSpace.go).
pub mod Deployer
pub mod Sources
pub mod Consumers
pub mod HookSpace
pub mod Steps
pub mod Deploy
pub mod Load
pub mod Careful
pub mod Scopes
pub mod Requests
pub mod Hooked
pub mod Outcome
pub mod Created
pub mod Examples
