-- ===== src/Task/Pipeline/Sources.antt =====
-- The event sources of a pipeline runtime and the variables of its consumers
-- (app/runtime-operator/internal/syncer/v2/task/pipelineRuntime.go). The order of the GitLab event
-- sources, that of a Go map, is the one of the list.
use Prim.Native.String.{String}
use mathlib.Core.Option.{Option, none, some}
use mathlib.Core.List.{List, [], ◌∷◌, ◌++◌}
use text.Mathlib.Text.{◌==◌}
use nautes.Common.Tests.{if◌then◌else◌, is_some}
use nautes.Common.Maps.{Map, lookup, assign, values}
use nautes.Common.Result.{Result, ok, err, errorf, wrap, deref, ◌>>=◌}
use nautes.Resource.Pipeline.{ProjectPipelineRuntime, Gitlab, Calendar}
use nautes.Resource.Pipeline
use nautes.Snapshot.State.{RuntimeDataBase}
use nautes.Snapshot.Query.{get_code_repo, get_code_repo_provider}
use nautes.Task.Component.{MachineAccount}
use nautes.Task.Listener.{EventSource, EventSourceSet}
use nautes.Task.Pipeline.Deployer.{
  PipelineRuntimeDeployer, namespace_of, build_unique_id, build_calendar_event_name,
  get_id_from_code_repo, get_code_repo_api_server_addr,
}

-- The event source of a repository. A repository without a webhook is a nil dereference.
unfoldable pub gitlab_source : RuntimeDataBase → (repo_name : String) → Result EventSource
unfolding get_code_repo_api_server_addr get_code_repo get_id_from_code_repo
gitlab_source db repo_name = do
  api_server ←
      wrap "get gitlab api server addr failed: %w" (get_code_repo_api_server_addr db repo_name)
  code_repo ← wrap "get code repo failed: %w" (get_code_repo db repo_name)
  webhook ← deref code_repo.spec.webhook
  ok (record {
    name = repo_name;
    gitlab = some (record {
      api_server = api_server;
      events = webhook.events;
      code_repo = repo_name;
      repo_id = get_id_from_code_repo repo_name;
    });
    calendar = none;
  })

-- One round of the loop of `getGitlabEventSourcesFromEventSource`.
unfoldable pub add_gitlab_source :
    RuntimeDataBase → Option Gitlab → Map EventSource → Result (Map EventSource)
unfolding gitlab_source lookup assign
add_gitlab_source db none event_map = ok event_map
add_gitlab_source db (some src) event_map =
    if is_some (lookup src.repo_name event_map)
    then ok event_map
    else (gitlab_source db src.repo_name >>= λ source. ok (assign src.repo_name source event_map))

unfoldable pub collect_gitlab_sources :
    RuntimeDataBase → List Pipeline.EventSource → Map EventSource → Result (Map EventSource)
unfolding add_gitlab_source
collect_gitlab_sources db [] event_map = ok event_map
collect_gitlab_sources db (source ∷ sources) event_map = do
  more ← add_gitlab_source db source.gitlab event_map
  collect_gitlab_sources db sources more

unfoldable pub get_gitlab_event_sources :
    RuntimeDataBase → List Pipeline.EventSource → Result (List EventSource)
unfolding collect_gitlab_sources values
get_gitlab_event_sources db sources = do
  event_map ← collect_gitlab_sources db sources []
  ok (values event_map)

unfoldable pub calendar_source : (name : String) → Calendar → EventSource
unfolding build_calendar_event_name
calendar_source name calendar = record {
  name = build_calendar_event_name name;
  gitlab = none;
  calendar = some (record {
    schedule = calendar.schedule;
    interval = calendar.interval;
    exclusion_dates = calendar.exclusion_dates;
    timezone = calendar.timezone;
  });
}

unfoldable pub get_event_calendar : List Pipeline.EventSource → List EventSource
unfolding calendar_source
get_event_calendar [] = []
get_event_calendar (source ∷ sources) = elim source.calendar [
  | none ↦ get_event_calendar sources
  | some calendar ↦ calendar_source source.name calendar ∷ get_event_calendar sources
]

unfoldable pub convert_runtime_to_event_source :
    RuntimeDataBase → ProjectPipelineRuntime → Result EventSourceSet
unfolding build_unique_id get_gitlab_event_sources get_event_calendar
convert_runtime_to_event_source db runtime = do
  gitlab_events ← get_gitlab_event_sources db runtime.spec.event_sources
  ok (record {
    meta = record { product = runtime.meta.namespace; name = runtime.meta.name };
    unique_id = build_unique_id runtime.meta.namespace runtime.meta.name;
    event_sources = gitlab_events ++ get_event_calendar runtime.spec.event_sources;
  })

unfoldable pub get_event_source_from_set : List EventSource → (name : String) → Result EventSource
get_event_source_from_set [] name = err (errorf "event source %s not found" (name ∷ []))
get_event_source_from_set (source ∷ sources) name =
    if source.name == name then ok source else get_event_source_from_set sources name

unfoldable pub get_pipeline_from_pipelines :
    (name : String) → List Pipeline.Pipeline → Result Pipeline.Pipeline
get_pipeline_from_pipelines name [] =
    err (errorf "can not find pipeline %s in pipelines" (name ∷ []))
get_pipeline_from_pipelines name (pipeline ∷ pipelines) =
    if pipeline.name == name then ok pipeline else get_pipeline_from_pipelines name pipelines

unfoldable pub get_event_source_from_event_sources :
    (name : String) → List Pipeline.EventSource → Result Pipeline.EventSource
get_event_source_from_event_sources name [] =
    err (errorf "can not find event source %s in event sources" (name ∷ []))
get_event_source_from_event_sources name (source ∷ sources) =
    if source.name == name then ok source else get_event_source_from_event_sources name sources

unfoldable pub build_builtin_vars :
    (dash_board_url : String)
    → PipelineRuntimeDeployer
    → (pipeline_revision code_repo_name : String) → MachineAccount
    → Pipeline.Pipeline
    → Result (Map String)
unfolding get_code_repo get_code_repo_provider namespace_of assign
build_builtin_vars dash_board_url prd pipeline_revision code_repo_name account pipeline = do
  code_repo ← get_code_repo prd.snapshot code_repo_name
  provider ← get_code_repo_provider prd.snapshot code_repo.spec.code_repo_provider
  let builtin_vars : Map String =
      ("ServiceAccount", account.name)
      ∷ ("Namespace", namespace_of prd)
      ∷ ("PipelineCodeRepoName", code_repo.meta.name)
      ∷ ("PipelineCodeRepoURL", code_repo.spec.url)
      ∷ ("PipelineFilePath", pipeline.path)
      ∷ ("ProviderType", provider.spec.provider_type)
      ∷ ("CodeRepoProviderURL", provider.spec.api_server)
      ∷ ("PipelineLabel", pipeline.label)
      ∷ ("PipelineDashBoardURL", dash_board_url)
      ∷ []
  ok (
      if pipeline_revision == ""
      then builtin_vars
      else assign "PipelineRevision" pipeline_revision builtin_vars)

unfoldable pub add_event_source_to_builtin_vars :
    RuntimeDataBase → Map String → (repo_name : String) → Result (Map String)
unfolding get_code_repo assign
add_event_source_to_builtin_vars db vars repo_name = do
  code_repo ← wrap "get code repo %s failed: %w" (get_code_repo db repo_name)
  ok (
      assign "EventSourceCodeRepoURL" code_repo.spec.url
        (assign "EventSourceCodeRepoName" code_repo.meta.name vars))
