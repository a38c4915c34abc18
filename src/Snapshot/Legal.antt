-- ===== src/Snapshot/Legal.antt =====
-- `removeIllegalReposInPipelineRuntime` and `removeEventSourceInPipelineRuntime` of
-- app/runtime-operator/pkg/database/database.go.
pub mod Kept
use Prim.Native.String.{String}
use mathlib.Core.Bool.{Bool, true, false, not}
use mathlib.Core.Option.{Option, none, some}
use mathlib.Core.List.{List, [], ◌∷◌, map}
use nautes.Common.Tests.{if◌then◌else◌, is_empty}
use nautes.Common.Lists.{has, keep}
use nautes.Common.Maps.{Map, assign, delete}
use nautes.Resource.Pipeline.{EventSource, PipelineTrigger, ProjectPipelineRuntime}
use nautes.Snapshot.Matrix.{PermissionMatrix, list_code_repos_in_project}
use nautes.Snapshot.State.{RuntimeDataBase}

-- The source listens to no repository, or to one of the project's.
unfoldable pub is_legal_source : (repos : List String) → EventSource → Bool
unfolding has
is_legal_source repos es = elim es.gitlab [ none ↦ true | some gitlab ↦ has repos gitlab.repo_name ]

unfoldable pub source_names : List EventSource → List String
source_names sources = map (λ (es : EventSource). es.name) sources

-- Triggers of event sources that are gone are dropped.
unfoldable pub remove_event_source_in_pipeline_runtime :
    ProjectPipelineRuntime → ProjectPipelineRuntime
unfolding keep has source_names
remove_event_source_in_pipeline_runtime r =
    let names = source_names r.spec.event_sources in
    record r {
      spec = record r.spec {
        pipeline_triggers =
            keep (λ (t : PipelineTrigger). has names t.event_source) r.spec.pipeline_triggers;
      };
    }

-- The new runtime: the illegal event sources and their triggers are left out.
unfoldable pub legalize : (repos : List String) → ProjectPipelineRuntime → ProjectPipelineRuntime
unfolding keep is_legal_source remove_event_source_in_pipeline_runtime
legalize repos r = remove_event_source_in_pipeline_runtime (record r {
  spec = record r.spec { event_sources = keep (is_legal_source repos) r.spec.event_sources };
})

-- One round of the loop. After either `delete` it goes on to the assignment of the new runtime.
unfoldable pub remove_illegal_in_runtime :
    PermissionMatrix
    → (runtime_name : String) → ProjectPipelineRuntime
    → Map ProjectPipelineRuntime
    → Map ProjectPipelineRuntime
unfolding list_code_repos_in_project has delete assign legalize
remove_illegal_in_runtime matrix runtime_name runtime runtimes =
    let repos = list_code_repos_in_project runtime.spec.project matrix in
    let runtimes' = if is_empty repos then delete runtime_name runtimes else runtimes in
    let runtimes'' =
      if not (has repos runtime.spec.pipeline_source)
      then delete runtime_name runtimes'
      else runtimes' in
    assign runtime_name (legalize repos runtime) runtimes''

-- The loop over the map; the entries to visit are those that it had before.
unfoldable pub remove_illegal_in_runtimes :
    PermissionMatrix
    → (entries : Map ProjectPipelineRuntime) → Map ProjectPipelineRuntime
    → Map ProjectPipelineRuntime
unfolding remove_illegal_in_runtime
remove_illegal_in_runtimes matrix [] runtimes = runtimes
remove_illegal_in_runtimes matrix ((name, runtime) ∷ entries) runtimes =
    remove_illegal_in_runtimes matrix entries
      (remove_illegal_in_runtime matrix name runtime runtimes)

unfoldable pub remove_illegal_repos_in_pipeline_runtime : RuntimeDataBase → RuntimeDataBase
unfolding remove_illegal_in_runtimes
remove_illegal_repos_in_pipeline_runtime db = record db {
  pipeline_runtimes =
      remove_illegal_in_runtimes db.permission_matrix db.pipeline_runtimes db.pipeline_runtimes;
}

unfoldable pub remove_illegal_repos_in_runtime : RuntimeDataBase → RuntimeDataBase
unfolding remove_illegal_repos_in_pipeline_runtime
remove_illegal_repos_in_runtime db = remove_illegal_repos_in_pipeline_runtime db
