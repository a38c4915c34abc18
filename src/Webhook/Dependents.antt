-- ===== src/Webhook/Dependents.antt =====
-- What refers to a cluster, an environment or a code repository, and so keeps it from being deleted
-- (api/kubernetes/v1alpha1: cluster_webhook.go, environment_webhook.go, coderepo_webhook.go,
-- deploymentruntime_webhook.go, projectpipelineruntime_webhook.go). The functions are called in the
-- order of the files that register them.
pub mod Exact
use Prim.Native.String.{String, ◌++◌}
use mathlib.Core.Bool.{Bool}
use mathlib.Core.Option.{none}
use mathlib.Core.List
use mathlib.Core.List.{List, [], ◌∷◌}
use text.Mathlib.Text.{◌==◌}
use nautes.Common.Tests.{if◌then◌else◌, is_empty}
use nautes.Common.Result.{Result, ok, err, errorf, Check, wrap, fail_if, ◌>>=◌, ◌>>◌}
use nautes.Resource.Meta.{Environment}
use nautes.Resource.Cluster.{Cluster}
use nautes.Resource.CodeRepo.{CodeRepo}
use nautes.Resource.Deployment.{DeploymentRuntime}
use nautes.Resource.Pipeline.{ProjectPipelineRuntime}
use nautes.Webhook.Client.{ValidateClient, K8sClient}
use nautes.Webhook.Permission.{get_code_repo_name}

-- The loop over a list of resources, with the text that stands for one.
unfoldable pub dependents :
    {A : Type 0} → (refers : A → Bool) (text : A → String) → List A → List String
dependents refers text [] = []
dependents refers text (item ∷ items) =
    let rest = dependents refers text items in if refers item then text item ∷ rest else rest

-- The loop of `GetDependencies` over what its functions return.
unfoldable pub join : List (Result (List String)) → Result (List String)
join [] = ok []
join (call ∷ calls) = do resources ← call; more ← join calls; ok (List.◌++◌ resources more)

module _ (client : K8sClient) (cluster_name : String) where
  unfoldable pub cluster_from_cluster : Result (List String)
  unfolding dependents
  cluster_from_cluster = do
    items ← client.list_clusters
    ok (
        dependents (λ (c : Cluster). c.spec.host_cluster == cluster_name)
          (λ c. "cluster/" ++ c.meta.name) items)

  unfoldable pub cluster_from_deployment_runtime : Result (List String)
  unfolding dependents
  cluster_from_deployment_runtime = do
    items ← client.list_deployment_runtimes none
    ok (
        dependents (λ (r : DeploymentRuntime). r.status.cluster == cluster_name)
          (λ r. "deploymentRuntime/" ++ (r.meta.namespace ++ ("/" ++ r.meta.name))) items)

  unfoldable pub cluster_from_pipeline_runtime : Result (List String)
  unfolding dependents
  cluster_from_pipeline_runtime = do
    items ← client.list_pipeline_runtimes none
    ok (
        dependents (λ (r : ProjectPipelineRuntime). r.status.cluster == cluster_name)
          (λ r. "pipelineRuntime/" ++ (r.meta.namespace ++ ("/" ++ r.meta.name))) items)

  unfoldable pub cluster_dependencies : Result (List String)
  unfolding join cluster_from_cluster cluster_from_deployment_runtime cluster_from_pipeline_runtime
  cluster_dependencies = join (
      wrap "get dependent resources failed: %w" cluster_from_cluster
      ∷ wrap "get dependent resources failed: %w" cluster_from_deployment_runtime
      ∷ wrap "get dependent resources failed: %w" cluster_from_pipeline_runtime
      ∷ [])

module _ (client : ValidateClient) (product_name env_name : String) where
  unfoldable pub environment_from_deployment_runtime : Result (List String)
  unfolding dependents
  environment_from_deployment_runtime = do
    items ← client.list_deployment_runtimes product_name
    ok (
        dependents (λ (r : DeploymentRuntime). r.spec.destination.environment == env_name)
          (λ r. "deploymentRuntime/" ++ r.meta.name) items)

  unfoldable pub environment_from_pipeline_runtime : Result (List String)
  unfolding dependents
  environment_from_pipeline_runtime = do
    items ← client.list_project_pipeline_runtimes product_name
    ok (
        dependents (λ (r : ProjectPipelineRuntime). r.spec.destination.environment == env_name)
          (λ r. "pipelineRuntime/" ++ r.meta.name) items)

  unfoldable pub environment_dependencies : Result (List String)
  unfolding join environment_from_deployment_runtime environment_from_pipeline_runtime
  environment_dependencies =
      join (environment_from_deployment_runtime ∷ environment_from_pipeline_runtime ∷ [])

unfoldable pub is_deletable_environment : ValidateClient → Environment → Check
unfolding environment_dependencies
is_deletable_environment client r = do
  dependencies ← environment_dependencies client r.meta.namespace r.meta.name
  if is_empty dependencies
      then ok tt
      else err (errorf "environment referenced by [%s], not allowed to be deleted" dependencies)

module _ (client : ValidateClient) (use_real_name : Bool) (code_repo_name : String) where
  -- The product of the repository, whose runtimes are listed.
  unfoldable pub product_of_code_repo : Result String
  unfolding get_code_repo_name
  product_of_code_repo = do
    code_repo ← client.get_code_repo code_repo_name
    fail_if (code_repo.spec.product == "") (
        errorf "product of code repo %s is empty" (get_code_repo_name use_real_name code_repo ∷ []))
    ok code_repo.spec.product

  unfoldable pub code_repo_from_deployment_runtime : Result (List String)
  unfolding dependents product_of_code_repo
  code_repo_from_deployment_runtime = do
    product ← product_of_code_repo
    items ← client.list_deployment_runtimes product
    ok (
        dependents (λ (r : DeploymentRuntime). r.spec.manifest_source.code_repo == code_repo_name)
          (λ r. "deploymentRuntime/" ++ r.meta.name) items)

  unfoldable pub code_repo_from_pipeline_runtime : Result (List String)
  unfolding dependents product_of_code_repo
  code_repo_from_pipeline_runtime = do
    product ← product_of_code_repo
    items ← client.list_project_pipeline_runtimes product
    ok (
        dependents (λ (r : ProjectPipelineRuntime). r.spec.pipeline_source == code_repo_name)
          (λ r. "pipelineRuntime/" ++ r.meta.name) items)

  unfoldable pub code_repo_dependencies : Result (List String)
  unfolding join code_repo_from_deployment_runtime code_repo_from_pipeline_runtime
  code_repo_dependencies = join (
      wrap "get dependent resources failed: %w" code_repo_from_deployment_runtime
      ∷ wrap "get dependent resources failed: %w" code_repo_from_pipeline_runtime
      ∷ [])

unfoldable pub is_deletable_code_repo : ValidateClient → (use_real_name : Bool) → CodeRepo → Check
unfolding code_repo_dependencies
is_deletable_code_repo client use_real_name r = do
  dependencies ← code_repo_dependencies client use_real_name r.meta.name
  if is_empty dependencies
      then ok tt
      else err (errorf "coderepo referenced by [%s], not allowed to be deleted" dependencies)
