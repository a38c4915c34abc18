-- ===== src/Webhook/Deployment/Validate.antt =====
-- `Validate` and its checks, `ValidateProjectRef`, `ValidateCreate`, `ValidateUpdate` and `Compare`
-- of api/kubernetes/v1alpha1/deploymentruntime_webhook.go.
use Prim.Native.String.{String}
use mathlib.Core.Bool.{Bool, ◌&&◌, ◌||◌, not}
use mathlib.Core.Option.{Option, none, some}
use mathlib.Core.List.{List, [], ◌∷◌}
use text.Mathlib.Text.{◌==◌}
use nautes.Common.Tests.{if◌then◌else◌, is_empty}
use nautes.Common.Result.{Result, Check, ok, err, Error, errorf, wrapf, wrap, ◌>>=◌, ◌>>◌, fail_if}
use nautes.Common.Lists.{has}
use nautes.Resource.Cluster.{cluster_usage_worker, cluster_work_type_deployment, get_namespaces_map}
use nautes.Resource.Deployment.{
  DeploymentRuntime, DeploymentRuntimeSpec, DeployHistory, ManifestSource,
}
use nautes.Resource.Runtime.{deployment}
use nautes.Webhook.Client.{ValidateClient, get_client, get_cluster_by_runtime}
use nautes.Webhook.Permission.{has_code_repo_permission}
use nautes.Webhook.Deployment.Used.{check_namespaces_is_used}

-- `reflect.DeepEqual` on manifest sources, which are three strings.
unfoldable pub same_manifest : ManifestSource → ManifestSource → Bool
same_manifest a b =
    a.code_repo == b.code_repo && a.target_revision == b.target_revision && a.path == b.path

-- Same manifest, product and environment.
unfoldable pub compare : DeploymentRuntime → DeploymentRuntime → Bool
unfolding same_manifest
compare d val =
    same_manifest d.spec.manifest_source val.spec.manifest_source
    && val.spec.product == d.spec.product
    && val.spec.destination.environment == d.spec.destination.environment

-- The first of the runtime's namespaces that belongs to a component of the cluster fails.
unfoldable pub check_component_namespaces : (components namespaces : List String) → Check
unfolding has
check_component_namespaces components [] = ok tt
check_component_namespaces components (namespace ∷ namespaces) =
    let rest = check_component_namespaces components namespaces in
    if has components namespace
    then err (errorf "deployment runtime can not use component namespace %s" (namespace ∷ []))
    else rest

unfoldable pub check_duplicates : DeploymentRuntime → List DeploymentRuntime → Check
unfolding compare
check_duplicates runtime [] = ok tt
check_duplicates runtime (other ∷ others) =
    let rest = check_duplicates runtime others in
    if other.meta.name == runtime.meta.name
    then rest
    else if compare runtime other
    then err (errorf "can not deploy same repo to the same destination" [])
    else rest

module _ (client : ValidateClient) where
  unfoldable pub check_runtime_can_deploy_on_cluster : DeploymentRuntime → Check
  unfolding check_component_namespaces
  check_runtime_can_deploy_on_cluster runtime = do
    cluster ←
        wrap "get cluster by runtime failed: %w"
          (get_cluster_by_runtime client (deployment runtime))
    fail_if
        (not (cluster.spec.usage == cluster_usage_worker)
          || not (cluster.spec.worker_type == cluster_work_type_deployment))
        (errorf "cluster is not a deployment cluster" [])
    check_component_namespaces (get_namespaces_map cluster.spec.components_list)
        runtime.spec.destination.namespaces

  unfoldable pub check_runtime_is_duplicate : DeploymentRuntime → Check
  unfolding check_duplicates
  check_runtime_is_duplicate runtime = do
    runtimes ←
        wrap "list deployment runtimes failed: %w"
          (client.list_deployment_runtimes runtime.spec.product)
    check_duplicates runtime runtimes

-- The reason is kept as the error itself, where the source keeps its text.
pub record IllegalProjectRef : Type 0 where
  pub project_name : String
  pub reason : Error

unfoldable pub find_illegal_project_refs :
    (permission : String → Check) → List String → List IllegalProjectRef
find_illegal_project_refs permission [] = []
find_illegal_project_refs permission (project ∷ projects) =
    let illegal = find_illegal_project_refs permission projects in
    elim (permission project) [
      | ok _ ↦ illegal
      | err e ↦
          record { project_name = project; reason = wrapf "project %s is illegal: %s" e } ∷ illegal
    ]

module _ (use_real_name : Bool) (client : ValidateClient) where
  unfoldable pub validate_project_ref : DeploymentRuntime → Result (List IllegalProjectRef)
  unfolding find_illegal_project_refs
  validate_project_ref r = do
    code_repo ← client.get_code_repo r.spec.manifest_source.code_repo
    ok (
        find_illegal_project_refs
          (λ project.
            has_code_repo_permission client use_real_name code_repo.spec.product project
              code_repo.meta.name)
          r.spec.projects_ref)

  -- The checks of a runtime that is not deployed, or whose manifest changed.
  unfoldable pub validate_new : DeploymentRuntime → Result (List IllegalProjectRef)
  validate_new r = do
    check_runtime_can_deploy_on_cluster client r
    check_runtime_is_duplicate client r
    check_namespaces_is_used client r
    validate_project_ref r

  unfoldable pub validate_deployed :
      DeploymentRuntime → DeployHistory → Result (List IllegalProjectRef)
  unfolding same_manifest
  validate_deployed r history =
      if not (r.spec.destination.environment == history.destination.environment)
      then err (errorf "the deployed environment cannot be changed" [])
      else if same_manifest r.spec.manifest_source history.manifest_source
      then validate_project_ref r
      else validate_new r

  unfoldable pub validate : DeploymentRuntime → Result (List IllegalProjectRef)
  unfolding validate_deployed
  validate r = elim r.status.deploy_history [
    | none ↦ validate_new r
    | some history ↦ validate_deployed r history
  ]

unfoldable pub reject_illegal : List IllegalProjectRef → Check
reject_illegal illegal =
    fail_if (not (is_empty illegal)) (errorf "no permission project reference found %v" [])

unfoldable pub validate_create : Bool → Option ValidateClient → DeploymentRuntime → Check
unfolding reject_illegal
validate_create use_real_name kubernetes_client r = do
  client ← get_client kubernetes_client
  illegal ← validate use_real_name client r
  reject_illegal illegal

-- `deep_equal` is `reflect.DeepEqual` on the specifications.
unfoldable pub validate_update :
    (deep_equal : DeploymentRuntimeSpec → DeploymentRuntimeSpec → Bool)
    → Bool
    → Option ValidateClient
    → (r old : DeploymentRuntime) → Check
unfolding reject_illegal
validate_update deep_equal use_real_name kubernetes_client r old = do
  client ← get_client kubernetes_client
  if deep_equal r.spec old.spec
      then ok tt
      else (do illegal ← validate use_real_name client r; reject_illegal illegal)
