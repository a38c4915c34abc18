-- ===== src/Resource.antt =====
-- The custom resources of api/kubernetes/v1alpha1 and the `Runtime` interface over two of them.
pub mod Meta
pub mod CodeRepo
pub mod Cluster
pub mod Deployment
pub mod Pipeline
pub mod Runtime
pub mod Samples
