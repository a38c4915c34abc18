-- ===== src/Snapshot/Query.antt =====
-- The getters of the snapshot (app/runtime-operator/pkg/database/database.go).
use Prim.Native.String.{String, ◌++◌}
use mathlib.Core.Option.{none, some}
use mathlib.Core.List
use mathlib.Core.List.{List, [], ◌∷◌, map}
use text.Mathlib.Text.{◌==◌}
use nautes.Common.Tests.{if◌then◌else◌}
use nautes.Common.Result.{Result, ok, err, errorf, deref, ◌>>=◌}
use nautes.Common.Maps.{Map, lookup, lookup_or, values}
use nautes.Resource.Meta.{Product, label_from_product}
use nautes.Resource.CodeRepo.{CodeRepo, CodeRepoProvider}
use nautes.Resource.Cluster.{Cluster}
use nautes.Resource.Pipeline.{ProjectPipelineRuntime}
use nautes.Resource.Runtime.{Runtime, deployment, pipeline, get_destination}
use nautes.Snapshot.State.{RuntimeDataBase, SnapshotClient}

-- `v, ok := m[name]; if !ok { return fmt.Errorf(message, name) }`
unfoldable pub find_or_fail {ℓ} : {A : Type ℓ} → (message name : String) → Map A → Result A
unfolding lookup
find_or_fail message name m = elim (lookup name m) [
  | none ↦ err (errorf message (name ∷ []))
  | some a ↦ ok a
]

unfoldable pub get_product : RuntimeDataBase → String → Result Product
get_product db name = elim db.product [
  | none ↦ err (errorf "product not found" [])
  | some product ↦
      if product.meta.name == name then ok product else err (errorf "product not found" [])
]

unfoldable pub get_product_code_repo : RuntimeDataBase → String → Result CodeRepo
unfolding lookup_or
get_product_code_repo db name = do
  repo ← deref db.product_code_repo
  if lookup_or "" label_from_product repo.meta.labels == name
      then ok repo
      else err (errorf "product coderepo not found" [])

unfoldable pub get_code_repo_provider : RuntimeDataBase → String → Result CodeRepoProvider
unfolding find_or_fail
get_code_repo_provider db name =
    find_or_fail "code repo provider %s not found" name db.code_repo_providers

-- The repository of the product itself comes first.
unfoldable pub get_code_repo : RuntimeDataBase → String → Result CodeRepo
unfolding find_or_fail
get_code_repo db name =
    let found = find_or_fail "get code repo %s failed" name db.code_repos in
    elim db.product_code_repo [
      | none ↦ found
      | some repo ↦ if repo.meta.name == name then ok repo else found
    ]

unfoldable pub find_repo_by_url : List CodeRepo → String → Result CodeRepo
find_repo_by_url [] code_repo_url = err (errorf "coderepo not found" [])
find_repo_by_url (repo ∷ repos) code_repo_url =
    if repo.spec.url == code_repo_url then ok repo else find_repo_by_url repos code_repo_url

unfoldable pub get_code_repo_by_url : RuntimeDataBase → String → Result CodeRepo
unfolding find_repo_by_url values
get_code_repo_by_url db code_repo_url = find_repo_by_url (values db.code_repos) code_repo_url

unfoldable pub get_code_repo_url : SnapshotClient → RuntimeDataBase → String → Result String
unfolding get_code_repo
get_code_repo_url client db name = do
  code_repo ← get_code_repo db name
  if code_repo.spec.url == ""
      then (do
        provider ←
            find_or_fail "code repo provider %s not found" code_repo.spec.code_repo_provider
              db.code_repo_providers
        product ← deref db.product
        url ←
            client.join_path provider.spec.ssh_address
              (product.spec.name ∷ code_repo.spec.repo_name ∷ [])
        ok (url ++ ".git"))
      else ok code_repo.spec.url

unfoldable pub list_pipeline_runtimes : RuntimeDataBase → List ProjectPipelineRuntime
unfolding values
list_pipeline_runtimes db = values db.pipeline_runtimes

unfoldable pub get_runtime : RuntimeDataBase → (name runtime_type : String) → Result Runtime
unfolding find_or_fail
get_runtime db name runtime_type =
    if runtime_type == "deploymentRuntime"
    then (do
      runtime ← find_or_fail "runtime %s not found" name db.deployment_runtimes
      ok (deployment runtime))
    else if runtime_type == "pipelineRuntime"
    then (do
      runtime ← find_or_fail "runtime %s not found" name db.pipeline_runtimes
      ok (pipeline runtime))
    else err (errorf "unknow runtime type %s" (runtime_type ∷ []))

unfoldable pub list_runtimes : RuntimeDataBase → List Runtime
unfolding values
list_runtimes db =
    List.◌++◌ (map deployment (values db.deployment_runtimes))
      (map pipeline (values db.pipeline_runtimes))

unfoldable pub get_cluster : RuntimeDataBase → String → Result Cluster
unfolding find_or_fail
get_cluster db name = find_or_fail "get cluster %s failed" name db.clusters

unfoldable pub get_cluster_by_runtime : RuntimeDataBase → Runtime → Result Cluster
unfolding get_cluster get_destination
get_cluster_by_runtime db runtime = do
  env ← find_or_fail "get env %s failed" (get_destination runtime) db.environments
  get_cluster db env.spec.cluster
