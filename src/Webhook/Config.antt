-- ===== src/Webhook/Config.antt =====
-- The configuration of the components of clusters (pkg/config/cluster), as it is after the files are
-- read.
use Prim.Native.String.{String, ◌++◌}
use mathlib.Core.Bool.{Bool}
use mathlib.Core.Option.{Option, none, some}
use mathlib.Core.List.{List, [], ◌∷◌}
use text.Mathlib.Text.{◌==◌}
use nautes.Common.Tests.{if◌then◌else◌}
use nautes.Common.Result.{Result, ok, err, errorf}
use nautes.Common.Maps.{Map, lookup}
use nautes.Resource.Cluster.{
  cluster_usage_host, cluster_usage_worker, cluster_type_physical, cluster_type_virtual,
  cluster_work_type_deployment, cluster_work_type_pipeline,
}

pub record Propertie : Type 0 where
  pub name : String
  pub property_type : String
  pub regex_pattern : String
  pub required : Bool
  pub default_value : String

-- Without the install paths.
pub record ThridPartComponent : Type 0 where
  pub name : String
  pub namespace : String
  pub component_type : String
  pub is_default : Bool
  pub general : Bool
  pub properties : List Propertie

pub record WorkerTypeComponentDefinition : Type 0 where
  pub deployment : List String
  pub pipeline : List String

pub record ClusterTypeComponentDefinition : Type 0 where
  pub physical : WorkerTypeComponentDefinition
  pub virtual : WorkerTypeComponentDefinition

pub record UsageComponentDefinition : Type 0 where
  pub host : List String
  pub worker : ClusterTypeComponentDefinition

-- Without the common configuration, which no modelled code reads.
pub record ClusterComponentConfig : Type 0 where
  pub third_part_component_list : List ThridPartComponent
  pub components_definition : UsageComponentDefinition

pub record ClusterInfo : Type 0 where
  pub name : String
  pub usage : String
  pub cluster_type : String
  pub work_type : String

unfoldable pub find_by_name : (name : String) → List ThridPartComponent → Option ThridPartComponent
find_by_name name [] = none
find_by_name name (item ∷ items) =
    let rest = find_by_name name items in if item.name == name then some item else rest

unfoldable pub get_third_part_component_by_name :
    ClusterComponentConfig → (name : String) → Result ThridPartComponent
unfolding find_by_name
get_third_part_component_by_name c name = elim (find_by_name name c.third_part_component_list) [
  | none ↦ err (errorf "failed to get component %s from third-part components list" (name ∷ []))
  | some item ↦ ok item
]

abbrev pub definition_key : (usage cluster_type work_type : String) → String
definition_key usage cluster_type work_type = usage ++ ("|" ++ (cluster_type ++ ("|" ++ work_type)))

unfoldable pub get_components_definition_map : ClusterComponentConfig → Map (List String)
get_components_definition_map c =
    let worker = c.components_definition.worker in
    (definition_key cluster_usage_host cluster_type_physical "", c.components_definition.host)
    ∷ (
      definition_key cluster_usage_worker cluster_type_physical cluster_work_type_deployment,
      worker.physical.deployment,
    )
    ∷ (
      definition_key cluster_usage_worker cluster_type_virtual cluster_work_type_deployment,
      worker.virtual.deployment,
    )
    ∷ (
      definition_key cluster_usage_worker cluster_type_physical cluster_work_type_pipeline,
      worker.physical.pipeline,
    )
    ∷ (
      definition_key cluster_usage_worker cluster_type_virtual cluster_work_type_pipeline,
      worker.virtual.pipeline,
    )
    ∷ []

unfoldable pub get_cluster_components_definition :
    ClusterComponentConfig → ClusterInfo → Result (List String)
unfolding get_components_definition_map lookup
get_cluster_components_definition c cluster =
    let key = definition_key cluster.usage cluster.cluster_type cluster.work_type in
    elim (lookup key (get_components_definition_map c)) [
      | none ↦ err (
          errorf "failed to match component type [%s], please check if the cluster %s is correct"
            (key ∷ cluster.name ∷ []))
      | some component_list ↦ ok component_list
    ]
