-- ===== src/Webhook/Pipeline/Validate.antt =====
-- `Validate`, `ValidateCreate`, `ValidateUpdate` and `GetPipelineHooksMetaData` of
-- api/kubernetes/v1alpha1/projectpipelineruntime_webhook.go.
pub mod Accepted
use Prim.Native.String.{String}
use mathlib.Core.Bool.{Bool, true, false, ◌||◌, ◌&&◌, not}
use mathlib.Core.Option.{Option, none, some}
use mathlib.Core.List.{List, [], ◌∷◌, map}
use text.Mathlib.Text.{◌==◌}
use nautes.Common.Tests.{if◌then◌else◌, is_empty}
use nautes.Common.Result.{
  Result, Check, ok, err, Error, errorf, wrapf, not_found, nil_dereference, wrap, ◌>>=◌, ◌>>◌,
  fail_if,
}
use nautes.Common.Lists.{has}
use nautes.Common.Maps.{Map, lookup}
use nautes.Resource.Cluster.{Cluster, Component, cluster_usage_worker, cluster_work_type_pipeline}
use nautes.Resource.Pipeline.{
  Gitlab, EventSource, HookMetadata, AdditionalResources, ProjectPipelineRuntime,
  ProjectPipelineRuntimeSpec, get_namespace,
}
use nautes.Resource.Runtime.{Runtime, pipeline}
use nautes.Webhook.Client.{ValidateClient, get_client, get_cluster_by_runtime}
use nautes.Webhook.Permission.{has_code_repo_permission}
use nautes.Webhook.Namespaces.{get_used_namespaces}
use nautes.Webhook.Pipeline.Static.{static_check}
use nautes.Webhook.Pipeline.Hooks.{validate_hooks, get_event_source_types_from_pipeline_runtime}

-- What the webhook reads beside the resources: the namespace of the configuration file, config
-- maps, the JSON of the hook rules, and whether `USEREALNAME` is set.
pub record WebhookEnv : Type 0 where
  pub nautes_namespace : Result String
  pub get_config_map : (namespace name : String) → Result (Map String)
  pub unmarshal_metadata : String → Result (List HookMetadata)
  pub use_real_name : Bool

abbrev pub config_map_name_hooks_metadata : String
config_map_name_hooks_metadata = "nautes-hooks-metadata"

unfoldable pub metadata_of_config_map :
    WebhookEnv → (pipeline_name : String) → Result (Map String) → Result (List HookMetadata)
unfolding lookup
metadata_of_config_map env pipeline_name (ok cm) = elim (lookup pipeline_name cm) [
  | none ↦ ok []
  | some metadata_json ↦
      wrap "unmarshal meta data failed: %w" (env.unmarshal_metadata metadata_json)
]
metadata_of_config_map env pipeline_name (err not_found) = ok []
metadata_of_config_map env pipeline_name (err nil_dereference) = err nil_dereference
metadata_of_config_map env pipeline_name (err e) = err (wrapf "get hooks metadata failed: %w" e)

unfoldable pub get_pipeline_hooks_meta_data :
    WebhookEnv → (pipeline_name : String) → Result (List HookMetadata)
unfolding metadata_of_config_map
get_pipeline_hooks_meta_data env pipeline_name = do
  namespace ← wrap "load nautes config failed: %w" env.nautes_namespace
  metadata_of_config_map env pipeline_name
      (env.get_config_map namespace config_map_name_hooks_metadata)

-- The reason is kept as the error itself, where the source keeps its text.
pub record IllegalEventSource : Type 0 where
  pub event_source : EventSource
  pub reason : Error

-- The repository that an event source listens to; `none` for a source that the check passes over.
unfoldable pub gitlab_repo : EventSource → Option String
gitlab_repo es = elim es.gitlab [
  | none ↦ none
  | some gitlab ↦ if gitlab.repo_name == "" then none else some gitlab.repo_name
]

unfoldable pub repo_reason : (permission : String → Check) → EventSource → Option Error
unfolding gitlab_repo
repo_reason permission es = elim (gitlab_repo es) [
  | none ↦ none
  | some repo_name ↦ elim (permission repo_name) [ ok _ ↦ none | err e ↦ some e ]
]

unfoldable pub find_illegal_event_sources :
    (permission : String → Check) → List EventSource → List IllegalEventSource
unfolding repo_reason
find_illegal_event_sources permission [] = []
find_illegal_event_sources permission (es ∷ rest) =
    let illegal = find_illegal_event_sources permission rest in
    elim (repo_reason permission es) [
      | none ↦ illegal
      | some e ↦ record { event_source = es; reason = e } ∷ illegal
    ]

unfoldable pub check_additional_permission :
    (permission : String → Check) → Option AdditionalResources → Check
check_additional_permission permission none = ok tt
check_additional_permission permission (some res) = elim res.git [
  | none ↦ ok tt
  | some git ↦
      if git.code_repo == ""
      then ok tt
      else wrap "pipeline can not use code repo %s in additional resource: %s"
          (permission git.code_repo)
]

unfoldable pub check_namespace_free : (cluster_name namespace : String) → Map (List String) → Check
unfolding lookup has
check_namespace_free cluster_name namespace usage = elim (lookup cluster_name usage) [
  | none ↦ ok tt
  | some namespaces ↦
      fail_if (has namespaces namespace)
        (errorf "namespace %s is used by other runtime" (namespace ∷ []))
]

unfoldable pub pipeline_component : Cluster → Result Component
pipeline_component cluster = elim cluster.spec.components_list.pipeline [
  | none ↦ err (errorf "cluster component pipeline is empty" [])
  | some component ↦ ok component
]

module _ (env : WebhookEnv) (client : ValidateClient) where
  abbrev pub permission_of : ProjectPipelineRuntime → String → Check
  permission_of r repo_name =
      has_code_repo_permission client env.use_real_name r.meta.namespace r.spec.project repo_name

  unfoldable pub check_hooks : ProjectPipelineRuntime → Cluster → Check
  check_hooks r cluster = do
    component ← pipeline_component cluster
    metadata ←
        wrap "get hooks metadata failed: %w" (get_pipeline_hooks_meta_data env component.name)
    wrap "hook is illegal: %w" (
        validate_hooks r.spec.hooks (get_event_source_types_from_pipeline_runtime r) cluster
          metadata)

  unfoldable pub validate : ProjectPipelineRuntime → Result (List IllegalEventSource)
  validate r = do
    static_check r
    cluster ← wrap "get cluster by runtime failed: %w" (get_cluster_by_runtime client (pipeline r))
    fail_if
        (not (cluster.spec.usage == cluster_usage_worker)
          || not (cluster.spec.worker_type == cluster_work_type_pipeline))
        (errorf "cluster is not a pipeline cluster" [])
    permission_of r r.spec.pipeline_source
    check_additional_permission (permission_of r) r.spec.additional_resources
    usage ← wrap "get used namespaces in cluster %s failed: %w" (
        get_used_namespaces client
          (record { exclude_runtimes = pipeline r ∷ []; in_cluster = cluster.meta.name }))
    check_namespace_free cluster.meta.name (get_namespace r) usage
    check_hooks r cluster
    ok (find_illegal_event_sources (permission_of r) r.spec.event_sources)

unfoldable pub reject_illegal : (format : String) → List IllegalEventSource → Check
reject_illegal format illegal = fail_if (not (is_empty illegal)) (errorf format [])

unfoldable pub validate_create : WebhookEnv → Option ValidateClient → ProjectPipelineRuntime → Check
validate_create env kubernetes_client r = do
  client ← get_client kubernetes_client
  illegal ← validate env client r
  reject_illegal "no permission code repo found %v" illegal

-- `deep_equal` is `reflect.DeepEqual` on the specifications.
unfoldable pub validate_update :
    (deep_equal : ProjectPipelineRuntimeSpec → ProjectPipelineRuntimeSpec → Bool)
    → WebhookEnv
    → Option ValidateClient
    → (r old : ProjectPipelineRuntime) → Check
validate_update deep_equal env kubernetes_client r old = do
  client ← get_client kubernetes_client
  if deep_equal r.spec old.spec then ok tt else (do
    illegal ← validate env client r
    reject_illegal "no permission code repo found in event source %v" illegal)
