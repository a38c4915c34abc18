-- ===== src/Webhook/Deployment.antt =====
-- The validation of deployment runtimes (api/kubernetes/v1alpha1/deploymentruntime_webhook.go).
pub mod Used
pub mod Conflicts
pub mod FailOpen
pub mod Validate
pub mod Accepted
pub mod Examples
