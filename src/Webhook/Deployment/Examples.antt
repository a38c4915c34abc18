-- ===== src/Webhook/Deployment/Examples.antt =====
-- Concrete runs of the validation of deployment runtimes on the small resources of
-- Resource/Samples.antt.
use mathlib.Core.Path.{◌≡◌, refl}
use mathlib.Core.Logic.{◌↔◌, ◌⊎◌, inl}
use mathlib.Core.Bool.{true, false}
use mathlib.Core.Option.{none, some}
use mathlib.Core.List.{[], ◌∷◌}
use nautes.Common.Result.{Result, ok, err, not_found}
use nautes.Common.Lists.{Any}
use nautes.Resource.Meta.{Environment}
use nautes.Resource.Cluster.{Cluster, cluster_work_type_deployment, get_namespaces_map}
use nautes.Resource.Deployment.{DeploymentRuntime, DeployHistory}
use nautes.Resource.Samples.{env_on, repo_of, worker_cluster, deployment_in, history_of}
use nautes.Webhook.Client.{ValidateClient, get_cluster_by_runtime}
use nautes.Webhook.Deployment.Used.{check_namespaces_is_used, get_used_namespaces_in_cluster}
use nautes.Webhook.Deployment.Conflicts.{HasKeys, Conflicts}
use nautes.Webhook.Deployment.Conflicts.Exact.{check_namespaces_is_used_iff}
use nautes.Webhook.Deployment.FailOpen.{check_namespaces_is_used_of_dangling}
use nautes.Webhook.Deployment.Validate.{
  same_manifest, check_runtime_can_deploy_on_cluster, check_runtime_is_duplicate,
  validate_project_ref, validate_new, validate,
}
use nautes.Webhook.Deployment.Accepted.{
  IsDeployable, with_namespaces, validate-IsDeployable, validate-namespaces_unchecked,
}

abbrev deployer : Cluster
deployer = worker_cluster "prod" cluster_work_type_deployment

abbrev prod_env : Environment
prod_env = env_on "prod" "prod"

abbrev web : DeploymentRuntime
web = deployment_in "web" "shop" "prod" "web-ns"

-- A runtime of another product in the same environment.
abbrev mail : DeploymentRuntime
mail = deployment_in "mail" "post" "prod" "mail-ns"

abbrev deployed_web : DeploymentRuntime
deployed_web = record web {
  status = record { cluster = "prod"; deploy_history = some (history_of web) };
}

abbrev client_of : Result Environment → ValidateClient
client_of environment = record {
  get_code_repo = λ name. ok (repo_of name "cart");
  get_environment = λ product_name name. environment;
  list_environments = ok (prod_env ∷ []);
  get_cluster = λ name. ok deployer;
  list_code_repo_bindings = λ product_name repo_name. ok [];
  list_deployment_runtimes = λ product_name. ok (web ∷ mail ∷ []);
  list_project_pipeline_runtimes = λ product_name. ok [];
}

abbrev client : ValidateClient
client = client_of (ok prod_env)

client-HasKeys : HasKeys client
client-HasKeys p e q f same = refl

abbrev broken : ValidateClient
broken = client_of (err not_found)

broken-HasKeys : HasKeys broken
broken-HasKeys p e q f same = refl

check_namespaces_is_used_iff_example :
    (check_namespaces_is_used client web ≡ ok tt)
    ↔ ¬ Any (Conflicts client client-HasKeys web "prod") (web ∷ mail ∷ [])
unfolding get_used_namespaces_in_cluster
check_namespaces_is_used_iff_example =
    check_namespaces_is_used_iff client client-HasKeys web prod_env (web ∷ mail ∷ []) refl refl refl

check_namespaces_is_used_of_dangling_example : check_namespaces_is_used broken web ≡ ok tt
check_namespaces_is_used_of_dangling_example =
    check_namespaces_is_used_of_dangling broken broken-HasKeys web (web ∷ mail ∷ []) refl (inl refl)

web-validate : validate false client web ≡ ok []
unfolding validate validate_project_ref get_cluster_by_runtime validate_new
    check_runtime_can_deploy_on_cluster get_namespaces_map check_runtime_is_duplicate
    check_namespaces_is_used
web-validate = refl

validate-IsDeployable_example :
    ((web.status.deploy_history ≡ none) × IsDeployable client web deployer (web ∷ mail ∷ []))
    ⊎ (history : DeployHistory) × (web.status.deploy_history ≡ some history)
      × (web.spec.destination.environment ≡ history.destination.environment)
      × ((same_manifest web.spec.manifest_source history.manifest_source ≡ true)
          ⊎ IsDeployable client web deployer (web ∷ mail ∷ []))
unfolding get_cluster_by_runtime
validate-IsDeployable_example =
    validate-IsDeployable false client web deployer (web ∷ mail ∷ []) [] web-validate refl refl

validate-namespaces_unchecked_example :
    validate false client (with_namespaces deployed_web ("mail-ns" ∷ []))
    ≡ validate false client deployed_web
unfolding same_manifest
validate-namespaces_unchecked_example =
    validate-namespaces_unchecked false client deployed_web (history_of web) ("mail-ns" ∷ []) refl
      refl refl
