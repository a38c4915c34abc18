-- ===== src/Snapshot/Load.antt =====
-- `NewRuntimeSnapshot` and the caching functions of app/runtime-operator/pkg/database/database.go.
pub mod Loaded
use Prim.Native.String.{String}
use mathlib.Core.Option.{Option, none, some}
use mathlib.Core.List.{List, [], ◌∷◌}
use nautes.Common.Result.{Result, ok, err, errorf, deref, ◌>>=◌}
use nautes.Common.Maps.{Map, lookup, lookup_or, assign, delete, values}
use nautes.Resource.Meta.{ObjectMeta, Product, Project, Environment, label_from_product}
use nautes.Resource.CodeRepo.{CodeRepo, CodeRepoProvider}
use nautes.Resource.Cluster.{Cluster}
use nautes.Resource.Deployment.{DeploymentRuntime}
use nautes.Resource.Pipeline.{ProjectPipelineRuntime}
use nautes.Snapshot.Matrix.{build_matrix}
use nautes.Snapshot.State.{RuntimeDataBase, SnapshotClient, get_empty_runtime_data_source}
use nautes.Snapshot.Query.{get_code_repo_url}
use nautes.Snapshot.Legal.{remove_illegal_repos_in_runtime}

-- The objects by name; a later object replaces an earlier one of its name.
unfoldable pub convert_list_to_map {ℓ} : {A : Type ℓ} → (A → String) → List A → Map A → Map A
unfolding assign
convert_list_to_map get_name [] m = m
convert_list_to_map get_name (obj ∷ objs) m =
    convert_list_to_map get_name objs (assign (get_name obj) obj m)

module _ (client : SnapshotClient) where
  unfoldable pub cache_nautes_resources_from_cluster :
      (nautes_namespace : String) → RuntimeDataBase → Result RuntimeDataBase
  unfolding convert_list_to_map
  cache_nautes_resources_from_cluster nautes_namespace db = do
    clusters ← client.list_clusters nautes_namespace
    providers ← client.list_code_repo_providers nautes_namespace
    ok (record db {
      clusters = convert_list_to_map (λ (c : Cluster). c.meta.name) clusters [];
      code_repo_providers =
          convert_list_to_map (λ (p : CodeRepoProvider). p.meta.name) providers [];
    })

  -- Exactly one repository carries the label of the product.
  unfoldable pub the_product_code_repo : List CodeRepo → Result CodeRepo
  the_product_code_repo (repo ∷ []) = ok repo
  the_product_code_repo repos = err (errorf "found %d code repo by product name" [])

  unfoldable pub cache_product_resources_from_cluster :
      (nautes_namespace product_name : String) → RuntimeDataBase → Result RuntimeDataBase
  unfolding the_product_code_repo convert_list_to_map
  cache_product_resources_from_cluster nautes_namespace product_name db = do
    product ← client.get_product nautes_namespace product_name
    labelled ← client.list_code_repos_by_label label_from_product product.meta.name
    product_code_repo ← the_product_code_repo labelled
    envs ← client.list_environments product_name
    projects ← client.list_projects product_name
    code_repos ← client.list_code_repos product_name
    deploy_runtimes ← client.list_deployment_runtimes product_name
    pipeline_runtimes ← client.list_pipeline_runtimes product_name
    ok (record db {
      product = some product;
      product_code_repo = some product_code_repo;
      environments = convert_list_to_map (λ (e : Environment). e.meta.name) envs [];
      projects = convert_list_to_map (λ (p : Project). p.meta.name) projects [];
      code_repos = convert_list_to_map (λ (c : CodeRepo). c.meta.name) code_repos [];
      deployment_runtimes =
          convert_list_to_map (λ (r : DeploymentRuntime). r.meta.name) deploy_runtimes [];
      pipeline_runtimes =
          convert_list_to_map (λ (r : ProjectPipelineRuntime). r.meta.name) pipeline_runtimes [];
    })

  -- `metav1.ObjectMeta{Name: name, Labels: labels}`
  abbrev name_and_labels : String → Map String → ObjectMeta
  name_and_labels name labels = record {
    name = name;
    namespace = "";
    labels = labels;
    deletion_timestamp = none;
  }

  -- A repository with its full address and nothing but the name of its metadata.
  unfoldable pub with_url : CodeRepo → String → CodeRepo
  with_url repo code_repo_url = record repo {
    meta = name_and_labels repo.meta.name [];
    spec = record repo.spec { url = code_repo_url };
  }

  -- The loop over the repositories; each round writes the map that later rounds read.
  unfoldable pub convert_code_repos : Map CodeRepo → RuntimeDataBase → Result RuntimeDataBase
  unfolding get_code_repo_url with_url assign
  convert_code_repos [] db = ok db
  convert_code_repos ((name, code_repo) ∷ entries) db = elim (get_code_repo_url client db name) [
    | err e ↦ err e
    | ok code_repo_url ↦
        convert_code_repos entries
          (record db { code_repos = assign name (with_url code_repo code_repo_url) db.code_repos })
  ]

  unfoldable pub strip_product_code_repo : CodeRepo → CodeRepo
  strip_product_code_repo repo = record repo {
    meta = name_and_labels repo.meta.name repo.meta.labels;
  }

  unfoldable pub convert_code_repos_to_runtime_format : RuntimeDataBase → Result RuntimeDataBase
  unfolding convert_code_repos strip_product_code_repo
  convert_code_repos_to_runtime_format db = do
    converted ← convert_code_repos db.code_repos db
    ok (elim converted.product_code_repo [
      | none ↦ converted
      | some repo ↦ record converted { product_code_repo = some (strip_product_code_repo repo) }
    ])

  unfoldable pub cache_permission_matrix : RuntimeDataBase → Result RuntimeDataBase
  unfolding build_matrix
  cache_permission_matrix db = do
    product ← deref db.product
    bindings ← client.list_code_repo_bindings product.meta.name
    ok (record db {
      permission_matrix = build_matrix product.meta.name db.projects bindings db.code_repos;
    })

  unfoldable pub new_runtime_data_source :
      (product_name nautes_namespace : String) → Result RuntimeDataBase
  unfolding get_empty_runtime_data_source
  new_runtime_data_source product_name nautes_namespace = do
    base ← cache_nautes_resources_from_cluster nautes_namespace get_empty_runtime_data_source
    loaded ← cache_product_resources_from_cluster nautes_namespace product_name base
    converted ← convert_code_repos_to_runtime_format loaded
    permitted ← cache_permission_matrix converted
    ok (remove_illegal_repos_in_runtime permitted)
