-- ===== src/Webhook.antt =====
-- The admission webhooks of api/kubernetes/v1alpha1.
pub mod Client
pub mod Permission
pub mod Namespaces
pub mod Pipeline
pub mod Deployment
pub mod Config
pub mod Dependents
pub mod Cluster
pub mod Examples
