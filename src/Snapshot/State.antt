-- ===== src/Snapshot/State.antt =====
-- `RuntimeDataBase` of app/runtime-operator/pkg/database/database.go and what it reads.
use Prim.Native.String.{String}
use mathlib.Core.Option.{Option, none}
use mathlib.Core.List.{List, []}
use nautes.Common.Result.{Result}
use nautes.Common.Maps.{Map}
use nautes.Resource.Meta.{Product, Project, Environment}
use nautes.Resource.CodeRepo.{CodeRepo, CodeRepoProvider, CodeRepoBinding}
use nautes.Resource.Cluster.{Cluster}
use nautes.Resource.Deployment.{DeploymentRuntime}
use nautes.Resource.Pipeline.{ProjectPipelineRuntime}
use nautes.Snapshot.Matrix.{PermissionMatrix}

-- The Kubernetes client and the namespace are arguments of the functions that use them.
pub record RuntimeDataBase : Type 0 where
  pub clusters : Map Cluster
  pub code_repo_providers : Map CodeRepoProvider
  pub code_repos : Map CodeRepo
  pub deployment_runtimes : Map DeploymentRuntime
  pub environments : Map Environment
  pub pipeline_runtimes : Map ProjectPipelineRuntime
  pub product : Option Product
  pub product_code_repo : Option CodeRepo
  pub permission_matrix : PermissionMatrix
  pub projects : Map Project

unfoldable pub get_empty_runtime_data_source : RuntimeDataBase
get_empty_runtime_data_source = record {
  clusters = [];
  code_repo_providers = [];
  code_repos = [];
  deployment_runtimes = [];
  environments = [];
  pipeline_runtimes = [];
  product = none;
  product_code_repo = none;
  permission_matrix = [];
  projects = [];
}

-- The calls that the snapshot makes: lists in a namespace, a list by one label over all
-- namespaces, the read of a product, and `url.JoinPath` of the standard library.
pub record SnapshotClient : Type 0 where
  pub list_clusters : (namespace : String) → Result (List Cluster)
  pub list_code_repo_providers : (namespace : String) → Result (List CodeRepoProvider)
  pub get_product : (namespace name : String) → Result Product
  pub list_code_repos_by_label : (label value : String) → Result (List CodeRepo)
  pub list_environments : (namespace : String) → Result (List Environment)
  pub list_projects : (namespace : String) → Result (List Project)
  pub list_code_repos : (namespace : String) → Result (List CodeRepo)
  pub list_deployment_runtimes : (namespace : String) → Result (List DeploymentRuntime)
  pub list_pipeline_runtimes : (namespace : String) → Result (List ProjectPipelineRuntime)
  pub list_code_repo_bindings : (namespace : String) → Result (List CodeRepoBinding)
  pub join_path : (base : String) → List String → Result String
