-- ===== src/Webhook/Deployment/Accepted.antt =====
-- Lemmas on `Validate` of api/kubernetes/v1alpha1/deploymentruntime_webhook.go and its checks.
use Prim.Native.String.{String}
use mathlib.Core.Path.{◌≡◌, refl}
use mathlib.Core.Logic.{◌⊎◌, ◌↔◌, inl, inr}
use mathlib.Core.Bool.{Bool, true, false}
use mathlib.Core.Option.{none, some}
use mathlib.Core.List.{List, [], ◌∷◌}
use native.Mathlib.Omega.{arith}
use text.Mathlib.TextEquality.{eq_iff}
use nautes.Common.Tests.{Option-cases, Bool-cases}
use nautes.Common.Result.{ok}
use nautes.Common.Lists.{All, has, set_of, has-set_of}
use nautes.Resource.Cluster.{
  Cluster, cluster_usage_worker, cluster_work_type_deployment, get_namespaces, get_namespaces_map,
}
use nautes.Resource.Deployment.{DeploymentRuntime, DeployHistory}
use nautes.Resource.Runtime.{deployment}
use nautes.Webhook.Client.{ValidateClient, get_cluster_by_runtime}
use nautes.Webhook.Deployment.Used.{check_namespaces_is_used}
use nautes.Webhook.Deployment.Validate.{
  IllegalProjectRef, same_manifest, compare, check_component_namespaces, check_duplicates,
  check_runtime_can_deploy_on_cluster, check_runtime_is_duplicate, validate_new, validate_deployed,
  validate, validate_project_ref,
}

-- None of the namespaces is one of the components'.
abbrev Avoids : (components namespaces : List String) → Type 0
Avoids components = All (λ namespace. has components namespace ≡ false)

check_component_namespaces_iff :
    (components namespaces : List String)
    → (check_component_namespaces components namespaces ≡ ok tt) ↔ Avoids components namespaces
unfolding check_component_namespaces
check_component_namespaces_iff components [] = ((λ h. tt), λ h. refl)
check_component_namespaces_iff components (n ∷ namespaces) =
    let ih = check_component_namespaces_iff components namespaces in
    ((λ h. ground (arith, ih)), λ h. ground (arith, ih))

-- The other runtime deploys the same manifest of the same product to the same environment.
pub record SameTarget (runtime other : DeploymentRuntime) : Type 0 where
  pub code_repo : runtime.spec.manifest_source.code_repo ≡ other.spec.manifest_source.code_repo
  pub target_revision :
      runtime.spec.manifest_source.target_revision ≡ other.spec.manifest_source.target_revision
  pub path : runtime.spec.manifest_source.path ≡ other.spec.manifest_source.path
  pub product : other.spec.product ≡ runtime.spec.product
  pub environment : other.spec.destination.environment ≡ runtime.spec.destination.environment

compare_iff :
    (runtime other : DeploymentRuntime) → (compare runtime other ≡ true) ↔ SameTarget runtime other
unfolding compare
compare_iff r o =
    let a = eq_iff r.spec.manifest_source.code_repo o.spec.manifest_source.code_repo in
    let b = eq_iff r.spec.manifest_source.target_revision o.spec.manifest_source.target_revision in
    let c = eq_iff r.spec.manifest_source.path o.spec.manifest_source.path in
    let d = eq_iff o.spec.product r.spec.product in
    let e = eq_iff o.spec.destination.environment r.spec.destination.environment in
    ((λ h. ground (arith, a, b, c, d, e)), λ h. ground (arith, a, b, c, d, e))

abbrev pub IsNotDuplicated : DeploymentRuntime → DeploymentRuntime → Type 0
IsNotDuplicated runtime other = (other.meta.name ≡ runtime.meta.name) ⊎ ¬ SameTarget runtime other

check_duplicates_iff :
    (runtime : DeploymentRuntime) (others : List DeploymentRuntime)
    → (check_duplicates runtime others ≡ ok tt) ↔ All (IsNotDuplicated runtime) others
unfolding check_duplicates
check_duplicates_iff r [] = ((λ h. tt), λ h. refl)
check_duplicates_iff r (o ∷ others) =
    let ih = check_duplicates_iff r others in
    let same = compare_iff r o in
    let name = eq_iff o.meta.name r.meta.name in
    ((λ h. ground (arith, ih, same, name)), λ h. ground (arith, ih, same, name))

-- What the full checks guarantee of a runtime, its cluster and the runtimes of its product.
pub record IsDeployable (client : ValidateClient) (r : DeploymentRuntime) (cluster : Cluster)
    (runtimes : List DeploymentRuntime) : Type 0 where
  pub worker : cluster.spec.usage ≡ cluster_usage_worker
  pub work_type : cluster.spec.worker_type ≡ cluster_work_type_deployment
  pub namespaces :
      All
        (λ namespace. has (get_namespaces cluster.spec.components_list) namespace ≡ false)
        r.spec.destination.namespaces
  pub not_duplicated : All (IsNotDuplicated r) runtimes
  pub not_used : check_namespaces_is_used client r ≡ ok tt

Avoids-get_namespaces_map :
    (components namespaces : List String)
    → Avoids (set_of components) namespaces
    → Avoids components namespaces
Avoids-get_namespaces_map components [] h = tt
Avoids-get_namespaces_map components (n ∷ namespaces) h = (
  ground (arith, h, has-set_of components n),
  Avoids-get_namespaces_map components namespaces h.1,
)

module _ (use_real_name : Bool) (client : ValidateClient) (r : DeploymentRuntime)
    (cluster : Cluster) (runtimes : List DeploymentRuntime) where
  validate_new-IsDeployable :
      (illegal : List IllegalProjectRef)
      → validate_new use_real_name client r ≡ ok illegal
      → get_cluster_by_runtime client (deployment r) ≡ ok cluster
      → client.list_deployment_runtimes r.spec.product ≡ ok runtimes
      → IsDeployable client r cluster runtimes
  unfolding validate_new check_runtime_can_deploy_on_cluster check_runtime_is_duplicate
      get_namespaces_map
  validate_new-IsDeployable illegal h found listed =
      let components = get_namespaces cluster.spec.components_list in
      let avoids =
        check_component_namespaces_iff (set_of components) r.spec.destination.namespaces in
      let distinct = check_duplicates_iff r runtimes in
      record {
        worker = ground (arith, h, found, eq_iff cluster.spec.usage cluster_usage_worker);
        work_type =
            ground (arith, h, found, eq_iff cluster.spec.worker_type cluster_work_type_deployment);
        namespaces = Avoids-get_namespaces_map components _ (ground (arith, h, found, avoids));
        not_duplicated = ground (arith, h, found, listed, distinct);
        not_used = ground (arith, h, found, listed);
      }

  -- If the validation returns, with the cluster and the runtimes of the product as read, then a
  -- runtime with a deploy history still has the environment of that history; and unless it has a
  -- history with its present manifest, the cluster is a deployment worker, the runtime names no
  -- namespace of a component, no other runtime of the product has its target, and the check for
  -- namespaces of other products accepted.
  pub validate-IsDeployable :
      (illegal : List IllegalProjectRef)
      → validate use_real_name client r ≡ ok illegal
      → get_cluster_by_runtime client (deployment r) ≡ ok cluster
      → client.list_deployment_runtimes r.spec.product ≡ ok runtimes
      → ((r.status.deploy_history ≡ none) × IsDeployable client r cluster runtimes)
        ⊎ (history : DeployHistory) × (r.status.deploy_history ≡ some history)
          × (r.spec.destination.environment ≡ history.destination.environment)
          × ((same_manifest r.spec.manifest_source history.manifest_source ≡ true)
              ⊎ IsDeployable client r cluster runtimes)
  unfolding validate validate_deployed
  validate-IsDeployable illegal h found listed = elim (Option-cases r.status.deploy_history) [
    | inl fresh ↦
        inl (fresh, validate_new-IsDeployable illegal (ground (arith, h, fresh)) found listed)
    | inr (past, deployed) ↦
        let environment = eq_iff r.spec.destination.environment past.destination.environment in
        inr (
          past,
          deployed,
          ground (arith, h, deployed, environment),
          elim (Bool-cases (same_manifest r.spec.manifest_source past.manifest_source)) [
            | inl unchanged ↦ inl unchanged
            | inr changed ↦ inr (
                validate_new-IsDeployable illegal
                  (ground (arith, h, deployed, changed, environment)) found listed)
          ],
        )
  ]

abbrev pub with_namespaces : DeploymentRuntime → List String → DeploymentRuntime
with_namespaces r namespaces = record r {
  spec = record r.spec { destination = record r.spec.destination { namespaces = namespaces } };
}

-- For a deployed runtime whose environment and manifest are those of its history, the result does
-- not depend on the namespaces that it names: they may be a component's or another product's.
pub validate-namespaces_unchecked :
    (use_real_name : Bool) (client : ValidateClient) (r : DeploymentRuntime)
    (history : DeployHistory) (namespaces : List String)
    → r.status.deploy_history ≡ some history
    → r.spec.destination.environment ≡ history.destination.environment
    → same_manifest r.spec.manifest_source history.manifest_source ≡ true
    → validate use_real_name client (with_namespaces r namespaces) ≡ validate use_real_name client r
unfolding validate validate_deployed validate_project_ref
validate-namespaces_unchecked u client r history namespaces deployed environment manifest =
    let same = eq_iff r.spec.destination.environment history.destination.environment in
    ground (arith, deployed, environment, manifest, same)
