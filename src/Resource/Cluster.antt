-- ===== src/Resource/Cluster.antt =====
-- Clusters and their components (api/kubernetes/v1alpha1/cluster_types.go, cluster_functions.go).
use Prim.Native.Nat.{ℕ}
use Prim.Native.String.{String}
use mathlib.Core.Option.{Option, none, some}
use mathlib.Core.List.{List, [], ◌∷◌}
use nautes.Common.Lists.{set_of}
use nautes.Common.Maps.{Map}
use nautes.Resource.Meta.{ObjectMeta}

pub record Component : Type 0 where
  pub name : String
  pub namespace : String
  pub additions : Map String

pub record ComponentsList : Type 0 where
  pub cert_management : Option Component
  pub deployment : Option Component
  pub event_listener : Option Component
  pub gateway : Option Component
  pub multi_tenant : Option Component
  pub pipeline : Option Component
  pub progressive_delivery : Option Component
  pub secret_management : Option Component
  pub secret_sync : Option Component
  pub oauth_proxy : Option Component

pub record ClusterResourceInfo : Type 0 where
  pub kind : String
  pub group : String

pub record ClusterSpec : Type 0 where
  pub api_server : String
  pub cluster_type : String
  pub cluster_kind : String
  pub usage : String
  pub host_cluster : String
  pub primary_domain : String
  pub worker_type : String
  pub components_list : ComponentsList
  pub reserved_namespaces_allowed_products : Map (List String)
  pub product_allowed_cluster_resources : Map (List ClusterResourceInfo)

pub record ClusterEntryPoint : Type 0 where
  pub http_port : ℕ
  pub https_port : ℕ
  pub service_type : String

pub record ClusterStatus : Type 0 where
  pub entry_points : Map ClusterEntryPoint
  pub product_id_map : Map String

pub record Cluster : Type 0 where
  pub meta : ObjectMeta
  pub spec : ClusterSpec
  pub status : ClusterStatus

abbrev pub cluster_usage_host : String
cluster_usage_host = "host"

abbrev pub cluster_usage_worker : String
cluster_usage_worker = "worker"

abbrev pub cluster_type_physical : String
cluster_type_physical = "physical"

abbrev pub cluster_type_virtual : String
cluster_type_virtual = "virtual"

abbrev pub cluster_work_type_deployment : String
cluster_work_type_deployment = "deployment"

abbrev pub cluster_work_type_pipeline : String
cluster_work_type_pipeline = "pipeline"

-- The fields that reflection visits, each under its `componentName` tag, in declaration order.
unfoldable pub convert_components_list_to_map : ComponentsList → Map (Option Component)
convert_components_list_to_map c =
    ("certManagement", c.cert_management)
    ∷ ("deployment", c.deployment)
    ∷ ("eventListener", c.event_listener)
    ∷ ("gateway", c.gateway)
    ∷ ("multiTenant", c.multi_tenant)
    ∷ ("pipeline", c.pipeline)
    ∷ ("progressiveDelivery", c.progressive_delivery)
    ∷ ("secretManagement", c.secret_management)
    ∷ ("secretSync", c.secret_sync)
    ∷ ("oauthProxy", c.oauth_proxy)
    ∷ []

-- The namespaces of the components that are not nil.
unfoldable pub collect_namespaces : Map (Option Component) → List String
collect_namespaces [] = []
collect_namespaces ((tag, none) ∷ fields) = collect_namespaces fields
collect_namespaces ((tag, some component) ∷ fields) =
    component.namespace ∷ collect_namespaces fields

unfoldable pub get_namespaces : ComponentsList → List String
unfolding convert_components_list_to_map collect_namespaces
get_namespaces c = collect_namespaces (convert_components_list_to_map c)

unfoldable pub get_namespaces_map : ComponentsList → List String
unfolding get_namespaces set_of
get_namespaces_map c = set_of (get_namespaces c)
