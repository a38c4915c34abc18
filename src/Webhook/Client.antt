-- ===== src/Webhook/Client.antt =====
-- `ValidateClient` of api/kubernetes/v1alpha1/global_webhook.go: what the webhooks read from the
-- API server, and its implementation `ValidateClientFromK8s` over a Kubernetes client.
use Prim.Native.String.{String, ◌++◌}
use mathlib.Core.Option.{Option, none, some}
use mathlib.Core.List.{List, [], ◌∷◌}
use text.Mathlib.Text.{◌==◌}
use nautes.Common.Tests.{if◌then◌else◌}
use nautes.Common.Result.{Result, ok, err, errorf, ◌>>=◌}
use nautes.Resource.Meta.{Environment}
use nautes.Resource.CodeRepo.{CodeRepo, CodeRepoBinding}
use nautes.Resource.Cluster.{Cluster}
use nautes.Resource.Deployment.{DeploymentRuntime}
use nautes.Resource.Pipeline.{ProjectPipelineRuntime}
use nautes.Resource.Runtime.{Runtime, get_product, get_destination}

pub record ValidateClient : Type 0 where
  pub get_code_repo : String → Result CodeRepo
  pub get_environment : (product_name name : String) → Result Environment
  pub list_environments : Result (List Environment)
  pub get_cluster : String → Result Cluster
  pub list_code_repo_bindings : (product_name repo_name : String) → Result (List CodeRepoBinding)
  pub list_deployment_runtimes : (product_name : String) → Result (List DeploymentRuntime)
  pub list_project_pipeline_runtimes :
      (product_name : String) → Result (List ProjectPipelineRuntime)

-- `getClient`: the client that the webhook's main function sets, or nil.
abbrev pub get_client : Option ValidateClient → Result ValidateClient
get_client none = err (errorf "kubernetes client is not initialized" [])
get_client (some client) = ok client

-- The calls of `client.Client` that `ValidateClientFromK8s` makes: the lists by field selector, by
-- namespace (`none` is the list over all namespaces) and the read of one object.
pub record K8sClient : Type 0 where
  pub list_code_repos_by_name : String → Result (List CodeRepo)
  pub get_environment : (namespace name : String) → Result Environment
  pub list_environments : Result (List Environment)
  pub list_clusters : Result (List Cluster)
  pub list_clusters_by_name : String → Result (List Cluster)
  pub list_bindings_by_product_and_repo : String → Result (List CodeRepoBinding)
  pub list_deployment_runtimes : Option String → Result (List DeploymentRuntime)
  pub list_pipeline_runtimes : Option String → Result (List ProjectPipelineRuntime)

-- `&list.Items[0]` if the list has exactly one item.
unfoldable pub exactly_one {ℓ} : {A : Type ℓ} → (message name : String) → List A → Result A
exactly_one message name (x ∷ []) = ok x
exactly_one message name items = err (errorf message (name ∷ []))

-- No namespace option is passed for the empty product.
unfoldable pub in_product : String → Option String
in_product product_name = if product_name == "" then none else some product_name

unfoldable pub validate_client_from_k8s : K8sClient → ValidateClient
unfolding exactly_one in_product
validate_client_from_k8s c = record {
  get_code_repo = λ name. do
    items ← c.list_code_repos_by_name name
    exactly_one "returned %d results based on coderepo name %s" name items;
  get_environment = c.get_environment;
  list_environments = c.list_environments;
  get_cluster = λ name. do
    items ← c.list_clusters_by_name name
    exactly_one "returned %d results based on cluster name %s" name items;
  list_code_repo_bindings = λ product_name repo_name.
      c.list_bindings_by_product_and_repo (product_name ++ ("/" ++ repo_name));
  list_deployment_runtimes = λ product_name. c.list_deployment_runtimes (in_product product_name);
  list_project_pipeline_runtimes =
      λ product_name. c.list_pipeline_runtimes (in_product product_name);
}

-- The cluster of the environment that the runtime is bound for.
unfoldable pub get_cluster_by_runtime : ValidateClient → Runtime → Result Cluster
unfolding get_product get_destination
get_cluster_by_runtime client runtime = do
  env ← client.get_environment (get_product runtime) (get_destination runtime)
  client.get_cluster env.spec.cluster
