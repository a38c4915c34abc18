-- ===== src/Webhook/Cluster/Examples.antt =====
-- A cluster with one component that is configured, and an environment and a repository that nothing
-- refers to.
use Prim.Native.String.{String}
use mathlib.Core.Path.{◌≡◌, refl}
use mathlib.Core.Logic.{◌⊎◌, ◌↔◌}
use mathlib.Core.Bool.{Bool, true, false}
use mathlib.Core.Option.{none}
use mathlib.Core.List.{[], ◌∷◌}
use text.Mathlib.Text.{◌==◌}
use nautes.Common.Result.{ok}
use nautes.Resource.Cluster.{Cluster, cluster_work_type_deployment}
use nautes.Resource.CodeRepo.{CodeRepo}
use nautes.Resource.Samples.{env_on, repo_of, worker_cluster, deployment_in}
use nautes.Webhook.Client.{ValidateClient, K8sClient}
use nautes.Webhook.Config.{ClusterComponentConfig, ThridPartComponent}
use nautes.Webhook.Dependents.{is_deletable_code_repo}
use nautes.Webhook.Dependents.Exact.{IsClear, IsUnreferenced, is_deletable_code_repo_iff}
use nautes.Webhook.Cluster.{check_cluster_components, validate_cluster}
use nautes.Webhook.Cluster.Accepted.{
  IsWellShaped, IsSameShape, validate_cluster_of_deletion_iff,
  validate_cluster_of_update-IsWellShaped,
}

abbrev worker : Cluster
worker = worker_cluster "host" cluster_work_type_deployment

abbrev argocd : ThridPartComponent
argocd = record {
  name = "argocd";
  namespace = "argocd";
  component_type = "deployment";
  is_default = true;
  general = false;
  properties = [];
}

-- The components that a worker cluster for deployments has.
abbrev config : ClusterComponentConfig
config = record {
  third_part_component_list = argocd ∷ [];
  components_definition = record {
    host = [];
    worker = record {
      physical = record { deployment = "deployment" ∷ []; pipeline = [] };
      virtual = record { deployment = []; pipeline = [] };
    };
  };
}

abbrev any_value : (value pattern : String) → Bool
any_value value pattern = true

-- No cluster is hosted on another one, and one runtime is bound for `dev`.
abbrev quiet : K8sClient
quiet = record {
  list_code_repos_by_name = λ name. ok (repo_of name "cart" ∷ []);
  get_environment = λ namespace name. ok (env_on name "host");
  list_environments = ok [];
  list_clusters = ok (worker ∷ []);
  list_clusters_by_name = λ name. ok (worker ∷ []);
  list_bindings_by_product_and_repo = λ key. ok [];
  list_deployment_runtimes = λ product. ok (deployment_in "web" "shop" "dev" "web-ns" ∷ []);
  list_pipeline_runtimes = λ product. ok [];
}

abbrev quiet_client : ValidateClient
quiet_client = record {
  get_code_repo = λ name. ok (repo_of name "cart");
  get_environment = λ product_name name. ok (env_on name "host");
  list_environments = ok [];
  get_cluster = λ name. ok worker;
  list_code_repo_bindings = λ product_name repo_name. ok [];
  list_deployment_runtimes = λ product_name. ok (deployment_in "web" "shop" "dev" "web-ns" ∷ []);
  list_project_pipeline_runtimes = λ product_name. ok [];
}

validate_cluster_of_deletion_iff_example :
    (validate_cluster any_value (ok config) quiet worker none true ≡ ok tt)
    ↔ IsUnreferenced quiet "host"
validate_cluster_of_deletion_iff_example =
    validate_cluster_of_deletion_iff any_value (ok config) quiet worker none

validate_cluster_of_update-IsWellShaped_example :
    IsWellShaped worker
    × (check_cluster_components any_value (ok config) worker ≡ ok tt)
    × (IsUnreferenced quiet "host" ⊎ IsSameShape worker worker)
unfolding validate_cluster
validate_cluster_of_update-IsWellShaped_example =
    validate_cluster_of_update-IsWellShaped any_value (ok config) quiet worker worker refl

is_deletable_code_repo_iff_example :
    (is_deletable_code_repo quiet_client false (repo_of "code" "cart") ≡ ok tt) ↔ (
      (repo : CodeRepo) × (quiet_client.get_code_repo "code" ≡ ok repo)
      × ((repo.spec.product == "") ≡ false)
      × IsClear
          (quiet_client.list_deployment_runtimes repo.spec.product)
          (λ runtime. runtime.spec.manifest_source.code_repo == "code")
      × IsClear
          (quiet_client.list_project_pipeline_runtimes repo.spec.product)
          (λ runtime. runtime.spec.pipeline_source == "code"))
is_deletable_code_repo_iff_example =
    is_deletable_code_repo_iff quiet_client false (repo_of "code" "cart")
