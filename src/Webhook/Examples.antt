-- ===== src/Webhook/Examples.antt =====
-- Concrete runs of the webhooks on the small resources of Resource/Samples.antt.
use mathlib.Core.Path.{◌≡◌, refl}
use mathlib.Core.Logic.{◌⊎◌, ◌↔◌}
use mathlib.Core.Bool.{false}
use mathlib.Core.Option.{some}
use mathlib.Core.List.{List, [], ◌∷◌}
use nautes.Common.Result.{ok}
use nautes.Common.Lists.{Any}
use nautes.Resource.Meta.{Environment}
use nautes.Resource.Cluster.{Cluster, cluster_work_type_pipeline}
use nautes.Resource.Pipeline.{ProjectPipelineRuntime}
use nautes.Resource.Runtime.{Runtime, deployment}
use nautes.Resource.Samples.{
  env_on, repo_of, binding_of, worker_cluster, deployment_in, pipeline_in, scan_hooks, scan_rule,
}
use nautes.Webhook.Client.{ValidateClient, get_cluster_by_runtime}
use nautes.Webhook.Permission.{
  has_code_repo_permission, Owned, Covers, has_code_repo_permission_iff,
}
use nautes.Webhook.Namespaces.{GetUsedNamespacesOptions, get_runtimes, get_used_namespaces}
use nautes.Webhook.Namespaces.Exact.{Listed, Uses, get_used_namespaces_iff}
use nautes.Webhook.Pipeline.Static.{static_check}
use nautes.Webhook.Pipeline.Static.Sound as StaticSound
use nautes.Webhook.Pipeline.Static.Sound.{static_check_iff}
use nautes.Webhook.Pipeline.Hooks.{
  get_event_source_types_from_pipeline_runtime, validate_hooks, convert_metadata_array_to_map,
}
use nautes.Webhook.Pipeline.Hooks.Sound as HooksSound
use nautes.Webhook.Pipeline.Hooks.Sound.{validate_hooks_iff}
use nautes.Webhook.Pipeline.Validate
use nautes.Webhook.Pipeline.Validate.{WebhookEnv, permission_of}
use nautes.Webhook.Pipeline.Validate.Accepted.{IsAdmissible, validate-IsAdmissible}

abbrev pipeline_worker : Cluster
pipeline_worker = worker_cluster "build" cluster_work_type_pipeline

abbrev build_env : Environment
build_env = env_on "ci" "build"

abbrev cart_pipeline : ProjectPipelineRuntime
cart_pipeline = pipeline_in "cart-ci" "ci" "cart-code"

-- One repository, which belongs to another project and is bound to the whole product.
abbrev client : ValidateClient
client = record {
  get_code_repo = λ name. ok (repo_of name "billing");
  get_environment = λ product_name name. ok build_env;
  list_environments = ok (build_env ∷ []);
  get_cluster = λ name. ok pipeline_worker;
  list_code_repo_bindings = λ product_name repo_name. ok (binding_of "cart-code" ∷ []);
  list_deployment_runtimes = λ product_name. ok (deployment_in "web" "shop" "ci" "web-ns" ∷ []);
  list_project_pipeline_runtimes = λ product_name. ok [];
}

abbrev env : WebhookEnv
env = record {
  nautes_namespace = ok "nautes";
  get_config_map = λ namespace name. ok (("tekton", "[scan]") ∷ []);
  unmarshal_metadata = λ json. ok (scan_rule ∷ []);
  use_real_name = false;
}

abbrev build_options : GetUsedNamespacesOptions
build_options = record { exclude_runtimes = []; in_cluster = "build" }

-- The runtimes that the client lists.
abbrev runtimes : List Runtime
runtimes = deployment (deployment_in "web" "shop" "ci" "web-ns") ∷ []

has_code_repo_permission_iff_example :
    (has_code_repo_permission client false "shop" "cart" "cart-code" ≡ ok tt) ↔ (
      Owned (repo_of "cart-code" "billing") "shop" "cart"
      ⊎ Any (Covers "cart") (binding_of "cart-code" ∷ []))
has_code_repo_permission_iff_example =
    has_code_repo_permission_iff client false "shop" "cart" "cart-code"
      (repo_of "cart-code" "billing") (binding_of "cart-code" ∷ []) refl refl

get_used_namespaces_iff_example :
    Listed (("build", "web-ns" ∷ []) ∷ []) "build" "web-ns"
    ↔ Any (Uses build_options (build_env ∷ []) "build" "web-ns") runtimes
unfolding get_runtimes get_used_namespaces
get_used_namespaces_iff_example =
    get_used_namespaces_iff build_options (build_env ∷ []) "build" "web-ns" client runtimes
      (("build", "web-ns" ∷ []) ∷ []) refl refl refl

static_check_iff_example :
    (static_check cart_pipeline ≡ ok tt) ↔ StaticSound.IsWellFormed cart_pipeline
static_check_iff_example = static_check_iff cart_pipeline

validate_hooks_iff_example :
    (validate_hooks (some scan_hooks) ("gitlab" ∷ []) pipeline_worker (scan_rule ∷ []) ≡ ok tt)
    ↔ HooksSound.IsWellFormed scan_hooks
        (convert_metadata_array_to_map [] (scan_rule ∷ []))
        ("gitlab" ∷ [])
validate_hooks_iff_example =
    validate_hooks_iff scan_hooks ("gitlab" ∷ []) pipeline_worker (scan_rule ∷ []) refl

cart_pipeline-validate : Validate.validate env client cart_pipeline ≡ ok []
unfolding Validate.validate static_check get_cluster_by_runtime has_code_repo_permission
    Validate.check_additional_permission get_used_namespaces Validate.check_namespace_free
    Validate.check_hooks Validate.pipeline_component Validate.get_pipeline_hooks_meta_data
    validate_hooks get_event_source_types_from_pipeline_runtime Validate.find_illegal_event_sources
    get_runtimes
cart_pipeline-validate = refl

validate-IsAdmissible_example :
    IsAdmissible env client cart_pipeline pipeline_worker runtimes (build_env ∷ [])
unfolding get_runtimes get_cluster_by_runtime
validate-IsAdmissible_example =
    validate-IsAdmissible env client cart_pipeline pipeline_worker runtimes (build_env ∷ []) []
      cart_pipeline-validate refl refl refl
