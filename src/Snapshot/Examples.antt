-- ===== src/Snapshot/Examples.antt =====
-- Concrete runs of the snapshot on the small resources of Resource/Samples.antt.
use mathlib.Core.Path.{◌≡◌, refl}
use mathlib.Core.Logic.{◌⊎◌, ◌↔◌}
use mathlib.Core.Bool.{true, false}
use mathlib.Core.Option
use mathlib.Core.Option.{none, some}
use mathlib.Core.List.{[], ◌∷◌}
use nautes.Common.Result.{ok, err}
use nautes.Common.Lists.{Any, has}
use nautes.Common.Maps.{keys, lookup, values}
use nautes.Resource.Cluster.{cluster_work_type_deployment, cluster_work_type_pipeline}
use nautes.Resource.Deployment.{DeploymentRuntime}
use nautes.Resource.Pipeline.{ProjectPipelineRuntime}
use nautes.Resource.Samples.{
  shop, cart, env_on, repo_of, product_repo, gitlab_provider, binding_of, worker_cluster,
  deployment_in, pipeline_in,
}
use nautes.Snapshot.Matrix.{build_matrix, list_code_repos_in_project}
use nautes.Snapshot.Matrix.Exact.{Binds, Owns, build_matrix_iff}
use nautes.Snapshot.State.{RuntimeDataBase, SnapshotClient, get_empty_runtime_data_source}
use nautes.Snapshot.Query.{list_runtimes}
use nautes.Snapshot.Legal.{remove_illegal_repos_in_pipeline_runtime}
use nautes.Snapshot.Legal.Kept.{legal_form, remove_illegal-keeps}
use nautes.Snapshot.Load.{new_runtime_data_source}
use nautes.Snapshot.Options.{ListOptions}
use nautes.Snapshot.Namespaces.{list_used_namespaces}
use nautes.Snapshot.Namespaces.Exact
use nautes.Snapshot.Namespaces.Exact.{Listed, Covered, list_used_namespaces_iff}
use nautes.Snapshot.Repos.{list_used_code_repos}
use nautes.Snapshot.Repos.Found
use nautes.Snapshot.Repos.Found.{repo_names, Lists}
use nautes.Snapshot.Repos.Exact.{list_used_code_repos_iff}

abbrev web : DeploymentRuntime
web = deployment_in "web" "shop" "prod" "web-ns"

abbrev cart_pipeline : ProjectPipelineRuntime
cart_pipeline = pipeline_in "cart-ci" "ci" "cart-code"

abbrev client : SnapshotClient
client = record {
  list_clusters = λ namespace. ok (
      worker_cluster "prod" cluster_work_type_deployment
      ∷ worker_cluster "build" cluster_work_type_pipeline
      ∷ []);
  list_code_repo_providers = λ namespace. ok (gitlab_provider ∷ []);
  get_product = λ namespace name. ok shop;
  list_code_repos_by_label = λ label value. ok (product_repo ∷ []);
  list_environments = λ namespace. ok (env_on "prod" "prod" ∷ env_on "ci" "build" ∷ []);
  list_projects = λ namespace. ok (cart ∷ []);
  list_code_repos = λ namespace. ok (repo_of "web" "" ∷ repo_of "cart-code" "cart" ∷ []);
  list_deployment_runtimes = λ namespace. ok (web ∷ []);
  list_pipeline_runtimes = λ namespace. ok (cart_pipeline ∷ []);
  list_code_repo_bindings = λ namespace. ok (binding_of "web" ∷ []);
  join_path = λ base segments. ok base;
}

abbrev db : RuntimeDataBase
db = record get_empty_runtime_data_source {
  clusters =
      ("prod", worker_cluster "prod" cluster_work_type_deployment)
      ∷ ("build", worker_cluster "build" cluster_work_type_pipeline)
      ∷ [];
  environments = ("prod", env_on "prod" "prod") ∷ ("ci", env_on "ci" "build") ∷ [];
  code_repos = ("web", repo_of "web" "") ∷ ("cart-code", repo_of "cart-code" "cart") ∷ [];
  deployment_runtimes = ("web", web) ∷ [];
  pipeline_runtimes = ("cart-ci", cart_pipeline) ∷ [];
  product = some shop;
  product_code_repo = some product_repo;
  projects = ("cart", cart) ∷ [];
}

abbrev on_prod : ListOptions
on_prod = record {
  in_cluster = "prod";
  exclude_runtimes = [];
  without_deleted_runtimes = true;
  without_product_info = false;
}

build_matrix_iff_example :
    (has
        (list_code_repos_in_project "cart"
          (build_matrix "shop" (("cart", cart) ∷ []) (binding_of "web" ∷ []) db.code_repos))
        "web"
      ≡ true)
    ↔ (Any (λ p. p.meta.name ≡ "cart") (values (("cart", cart) ∷ []))
        × (Any (Binds "cart" "web" "shop") (binding_of "web" ∷ [])
            ⊎ Any (Owns "cart" "web") (values db.code_repos)))
build_matrix_iff_example =
    build_matrix_iff "cart" "web" "shop" (("cart", cart) ∷ []) (binding_of "web" ∷ []) db.code_repos

remove_illegal-keeps_example :
    lookup "cart-ci" (remove_illegal_repos_in_pipeline_runtime db).pipeline_runtimes
    ≡ Option.map (legal_form db.permission_matrix) (lookup "cart-ci" db.pipeline_runtimes)
unfolding has keys
remove_illegal-keeps_example = remove_illegal-keeps db "cart-ci" (refl, tt)

list_used_namespaces_iff_example :
    Listed (("prod", "web-ns" ∷ "shop" ∷ []) ∷ []) "prod" "web-ns" ↔ (
      Any (Exact.Uses db on_prod "prod" "web-ns") (list_runtimes db)
      ⊎ ((on_prod.without_product_info ≡ false)
          × (shop.meta.name ≡ "web-ns")
          × Any (Covered db on_prod "prod" "web-ns") (list_runtimes db)))
unfolding list_used_namespaces get_empty_runtime_data_source
list_used_namespaces_iff_example =
    list_used_namespaces_iff db on_prod "prod" "web-ns" shop (("prod", "web-ns" ∷ "shop" ∷ []) ∷ [])
      refl refl

list_used_code_repos_iff_example : Lists (repo_of "web" "" ∷ product_repo ∷ []) "web" ↔ (
    Any (Found.Uses db on_prod "web") (list_runtimes db)
    ⊎ ((on_prod.without_product_info ≡ false) × (product_repo.meta.name ≡ "web")))
unfolding list_used_code_repos get_empty_runtime_data_source
list_used_code_repos_iff_example =
    list_used_code_repos_iff db on_prod "web" product_repo (repo_of "web" "" ∷ product_repo ∷ [])
      refl refl

abbrev everywhere : ListOptions
everywhere = record on_prod { in_cluster = ""; without_product_info = true }

-- The snapshot that the client's resources give.
abbrev loaded : RuntimeDataBase
loaded = elim (new_runtime_data_source client "shop" "nautes") [
  | ok snapshot ↦ snapshot
  | err e ↦ get_empty_runtime_data_source
]
