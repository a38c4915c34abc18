-- ===== src/Snapshot/Repos.antt =====
-- `ListUsedCodeRepos` of app/runtime-operator/pkg/database/database.go and the two listings it
-- joins.
pub mod Found
pub mod Exact
use Prim.Native.String.{String}
use mathlib.Core.Bool.{Bool, true, false, not}
use mathlib.Core.Option.{Option, none, some}
use mathlib.Core.List.{List, [], ◌∷◌, ◌++◌, map}
use text.Mathlib.Text.{◌==◌}
use nautes.Common.Tests.{if◌then◌else◌}
use nautes.Common.Result.{Result, ok, err, deref, ◌>>=◌}
use nautes.Common.Lists.{has, insert}
use nautes.Common.Maps.{Map, assign, values}
use nautes.Resource.CodeRepo.{CodeRepo}
use nautes.Resource.Pipeline.{ProjectPipelineRuntime}
use nautes.Resource.Runtime.{Runtime, deployment, pipeline}
use nautes.Snapshot.State.{RuntimeDataBase}
use nautes.Snapshot.Query.{get_cluster_by_runtime, get_code_repo}
use nautes.Snapshot.Options.{ListOptions, match_request}

-- The repository of the additional resources of a pipeline runtime.
unfoldable pub additional_repo : ProjectPipelineRuntime → Option String
additional_repo r = elim r.spec.additional_resources [
  | none ↦ none
  | some resources ↦ elim resources.git [
    | none ↦ none
    | some git ↦ if git.code_repo == "" then none else some git.code_repo
  ]
]

-- The name under which a runtime looks its repository up.
unfoldable pub used_repo : Runtime → Option String
unfolding additional_repo
used_repo (deployment r) = some r.spec.manifest_source.code_repo
used_repo (pipeline r) = additional_repo r

-- The state of the two loops: the names that were looked up, and the repositories found.
pub record Collected : Type 0 where
  pub looked_up : List String
  pub repos : List CodeRepo

-- One round of either loop.
unfoldable pub collect_repo : RuntimeDataBase → ListOptions → Runtime → Collected → Result Collected
unfolding used_repo has insert get_cluster_by_runtime match_request get_code_repo
collect_repo db options runtime collected = elim (used_repo runtime) [
  | none ↦ ok collected
  | some name ↦ if has collected.looked_up name then ok collected else (do
    cluster ← get_cluster_by_runtime db runtime
    if not (match_request options runtime cluster.meta.name) then ok collected else (do
      repo ← get_code_repo db name
      ok (record {
        looked_up = insert name collected.looked_up;
        repos = collected.repos ++ repo ∷ [];
      })))
]

unfoldable pub collect_repos :
    RuntimeDataBase → ListOptions → List Runtime → Collected → Result Collected
unfolding collect_repo
collect_repos db options [] collected = ok collected
collect_repos db options (runtime ∷ runtimes) collected =
    elim (collect_repo db options runtime collected) [
      | err e ↦ err e
      | ok next ↦ collect_repos db options runtimes next
    ]

unfoldable pub list_deployment_runtime_used_code_repos :
    RuntimeDataBase → ListOptions → Result (List CodeRepo)
unfolding collect_repos values
list_deployment_runtime_used_code_repos db options = do
  collected ←
      collect_repos db options (map deployment (values db.deployment_runtimes))
        (record { looked_up = []; repos = [] })
  ok collected.repos

unfoldable pub list_pipeline_runtime_used_code_repos :
    RuntimeDataBase → ListOptions → Result (List CodeRepo)
unfolding collect_repos values
list_pipeline_runtime_used_code_repos db options = do
  collected ←
      collect_repos db options (map pipeline (values db.pipeline_runtimes))
        (record { looked_up = []; repos = [] })
  ok collected.repos

-- `repoSet[repo.Name] = repo` for each repository
unfoldable pub add_repos : List CodeRepo → Map CodeRepo → Map CodeRepo
unfolding assign
add_repos [] repo_set = repo_set
add_repos (repo ∷ repos) repo_set = add_repos repos (assign repo.meta.name repo repo_set)

unfoldable pub list_used_code_repos : RuntimeDataBase → ListOptions → Result (List CodeRepo)
unfolding list_deployment_runtime_used_code_repos list_pipeline_runtime_used_code_repos add_repos
    values
list_used_code_repos db options = do
  deployment_used ← list_deployment_runtime_used_code_repos db options
  pipeline_used ← list_pipeline_runtime_used_code_repos db options
  let repos = values (add_repos pipeline_used (add_repos deployment_used []))
  if options.without_product_info
      then ok repos
      else (do own ← deref db.product_code_repo; ok (repos ++ own ∷ []))
