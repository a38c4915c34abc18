-- ===== src/Webhook/Cluster.antt =====
-- `ValidateCluster` of api/kubernetes/v1alpha1/cluster_webhook.go and its checks.
pub mod Accepted
pub mod Examples
use Prim.Native.String.{String}
use mathlib.Core.Bool.{Bool, true, false, not, ◌&&◌, ◌||◌}
use mathlib.Core.Option
use mathlib.Core.Option.{Option, none, some}
use mathlib.Core.List.{List, [], ◌∷◌}
use text.Mathlib.Text.{◌==◌}
use nautes.Common.Tests.{if◌then◌else◌, is_empty, is_some}
use nautes.Common.Result.{Result, ok, err, errorf, Check, fail_if, ◌>>=◌, ◌>>◌}
use nautes.Common.Lists.{has}
use nautes.Common.Maps.{Map, lookup}
use nautes.Resource.Cluster.{
  Component, Cluster, cluster_usage_host, cluster_type_physical, cluster_type_virtual,
  convert_components_list_to_map, get_namespaces_map,
}
use nautes.Webhook.Client.{K8sClient}
use nautes.Webhook.Config.{
  Propertie, ThridPartComponent, ClusterComponentConfig, get_third_part_component_by_name,
  get_cluster_components_definition,
}
use nautes.Webhook.Dependents.{cluster_dependencies}

-- The loop over the reserved namespaces.
unfoldable pub check_reserved : (namespaces : List String) → Map (List String) → Check
unfolding has
check_reserved namespaces [] = ok tt
check_reserved namespaces ((namespace, products) ∷ reserved) =
    let rest = check_reserved namespaces reserved in
    if has namespaces namespace
    then rest
    else err (errorf "reserved namespace %s is not in component list" (namespace ∷ []))

unfoldable pub static_check : Cluster → Check
unfolding check_reserved get_namespaces_map
static_check r = do
  fail_if (r.spec.usage == cluster_usage_host && not (r.spec.cluster_type == cluster_type_physical))
      (errorf "host cluster can not be a virtual cluster" [])
  fail_if (r.spec.usage == cluster_usage_host && not (r.spec.worker_type == ""))
      (errorf "host cluster's work type should be empty" [])
  fail_if (r.spec.cluster_type == cluster_type_physical && not (r.spec.host_cluster == ""))
      (errorf "host cluster can not belong to another host" [])
  fail_if (r.spec.cluster_type == cluster_type_virtual && r.spec.host_cluster == "")
      (errorf "virtual cluster must have a host" [])
  check_reserved (get_namespaces_map r.spec.components_list)
      r.spec.reserved_namespaces_allowed_products

-- The loop over the categories, with the components found and the categories whose component is nil.
-- A category that no component has is passed over.
unfoldable pub collect_components :
    Map (Option Component) → (categories : List String) → List Component × List String
unfolding lookup
collect_components components [] = ([], [])
collect_components components (category ∷ categories) =
    let rest = collect_components components categories in
    elim (lookup category components) [
      | none ↦ rest
      | some found ↦ elim found [
        | none ↦ (rest.0, category ∷ rest.1)
        | some component ↦ (component ∷ rest.0, rest.1)
      ]
    ]

unfoldable pub get_components_by_categories :
    Cluster → (categories : List String) → Result (List Component)
unfolding collect_components convert_components_list_to_map
get_components_by_categories cluster categories =
    let (components, missing) =
      collect_components (convert_components_list_to_map cluster.spec.components_list) categories in
    if is_empty missing
    then ok components
    else err
        (errorf "cluster %s is missing the following components [%s]" (cluster.meta.name ∷ missing))

-- What may not change while something refers to the cluster.
unfoldable pub is_same_shape : (r old : Cluster) → Bool
is_same_shape r old =
    r.spec.cluster_kind == old.spec.cluster_kind
    && r.spec.cluster_type == old.spec.cluster_type
    && r.spec.usage == old.spec.usage
    && r.spec.host_cluster == old.spec.host_cluster
    && r.spec.worker_type == old.spec.worker_type

unfoldable pub check_dependencies : K8sClient → (r old : Cluster) → Check
unfolding cluster_dependencies is_same_shape
check_dependencies client r old = do
  dependencies ← cluster_dependencies client r.meta.name
  fail_if (not (is_empty dependencies) && not (is_same_shape r old)) (
      errorf
        "cluster referenced by [%s], modifying [cluster kind, cluster type, usage, host cluster, worker type] is not allowed"
        dependencies)

unfoldable pub check_deletable : K8sClient → Cluster → Check
unfolding cluster_dependencies
check_deletable client r = do
  dependencies ← cluster_dependencies client r.meta.name
  if is_empty dependencies
      then ok tt
      else err (errorf "cluster referenced by [%s], not allowed to be deleted" dependencies)

unfoldable pub check_old : K8sClient → Cluster → (old : Option Cluster) → Check
unfolding check_dependencies
check_old client r none = ok tt
check_old client r (some old) = check_dependencies client r old

-- Whether a value matches a pattern, for the patterns of the configuration, which compile.
module _ (is_valid_regex : (value pattern : String) → Bool) where
  unfoldable pub validate_property_value :
      (val : Option String) → Propertie → (component_name : String) → Check
  validate_property_value none prop component_name =
      fail_if prop.required
        (errorf "the '%s' of component %s is a required value" (prop.name ∷ component_name ∷ []))
  validate_property_value (some val) prop component_name =
      fail_if (not (is_valid_regex val prop.regex_pattern)) (
        errorf "the value %s of the component matches incorrectly, meeting the following rule: %s"
          (val ∷ prop.regex_pattern ∷ []))

  -- The names of the properties whose value is missing or does not match.
  unfoldable pub invalid_properties : Component → List Propertie → List String
  unfolding validate_property_value lookup
  invalid_properties component [] = []
  invalid_properties component (prop ∷ props) =
      let rest = invalid_properties component props in
      elim (validate_property_value (lookup prop.name component.additions) prop component.name) [
        | ok valid ↦ rest
        | err e ↦ prop.name ∷ rest
      ]

  -- The loop over the components, with the names of the invalid ones; an unknown component ends it.
  unfoldable pub invalid_components : ClusterComponentConfig → List Component → Result (List String)
  unfolding get_third_part_component_by_name invalid_properties
  invalid_components config [] = ok []
  invalid_components config (component ∷ components) = do
    third_part ← get_third_part_component_by_name config component.name
    rest ← invalid_components config components
    ok (
        if is_empty (invalid_properties component third_part.properties)
        then rest
        else component.name ∷ rest)

  unfoldable pub validate_components : ClusterComponentConfig → List Component → Check
  unfolding invalid_components
  validate_components config components = do
    invalid ← invalid_components config components
    fail_if (not (is_empty invalid))
        (errorf "validation of component list failed with errors: %s" invalid)

  -- `loaded` is the configuration as `NewClusterComponentConfig` reads it.
  unfoldable pub check_cluster_components :
      (loaded : Result ClusterComponentConfig) → Cluster → Check
  unfolding get_cluster_components_definition get_components_by_categories validate_components
  check_cluster_components loaded cluster = do
    config ← loaded
    definition ← get_cluster_components_definition config (record {
      name = cluster.meta.name;
      usage = cluster.spec.usage;
      cluster_type = cluster.spec.cluster_type;
      work_type = cluster.spec.worker_type;
    })
    components ← get_components_by_categories cluster definition
    fail_if (is_empty components) (errorf "failed to get following components [%s]" definition)
    validate_components config components

  unfoldable pub validate_cluster :
      (loaded : Result ClusterComponentConfig)
      → K8sClient
      → (r : Cluster) (old : Option Cluster) (is_delete : Bool) → Check
  unfolding check_deletable static_check check_cluster_components check_old
  validate_cluster loaded client r old true = check_deletable client r
  validate_cluster loaded client r old false =
      static_check r >> (check_cluster_components loaded r >> check_old client r old)
