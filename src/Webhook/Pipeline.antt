-- ===== src/Webhook/Pipeline.antt =====
-- The validation of pipeline runtimes (api/kubernetes/v1alpha1/projectpipelineruntime_webhook.go).
pub mod Static
pub mod Hooks
pub mod Validate
pub mod Compare
