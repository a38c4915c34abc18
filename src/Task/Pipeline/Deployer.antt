-- ===== src/Task/Pipeline/Deployer.antt =====
-- `PipelineRuntimeDeployer` of app/runtime-operator/internal/syncer/v2/task/pipelineRuntime.go: its
-- state and what it computes from the runtime and the snapshot without a call of a component. Sets
-- are visited in the order in which they were filled.
use Prim.Native.String.{String, ◌++◌}
use Prim.Native.Char.{code}
use Prim.Native.Nat.{ℕ, compare, Ordering}
use mathlib.Core.Bool.{Bool, true, false}
use mathlib.Core.Option.{Option, none, some}
use mathlib.Core.List.{List, [], ◌∷◌}
use text.Mathlib.Text.{◌==◌}
use nautes.Common.Tests.{if◌then◌else◌}
use nautes.Common.Lists.{set_of}
use nautes.Common.Maps.{Map, lookup}
use nautes.Common.Result.{Result, ok, err, errorf, ◌>>=◌}
use nautes.Resource.CodeRepo.{CodeRepo, CodeRepoProvider}
use nautes.Resource.Pipeline.{
  ProjectPipelineRuntime, EventSource, Gitlab, AdditionalResourcesGit, AdditionalResources,
}
use nautes.Resource.Pipeline
use nautes.Snapshot.State.{RuntimeDataBase}
use nautes.Snapshot.Query.{get_code_repo, get_code_repo_provider}
use nautes.Usage.Secret.{SecretInfo, secret_type_code_repo, code_repo_permission_read_only}
use nautes.Task.Component.{MachineAccount, Space, Application, space_type_kubernetes}
use nautes.Task.Listener.{RequestResource, Filter, equal_to, match, event_source_type_calendar}

-- `PipelineRuntimeSyncHistory`
pub record PipelineSyncHistory : Type 0 where
  pub cluster : String
  pub space : Option Space
  pub code_repo : String
  pub unique_id : String
  pub account : Option MachineAccount
  pub app : Option Application
  pub permissions : List SecretInfo
  pub hook_resources : Option (List RequestResource)

pub record PipelineRuntimeDeployer : Type 0 where
  pub runtime : ProjectPipelineRuntime
  pub snapshot : RuntimeDataBase
  pub code_repo : CodeRepo
  pub repo_provider : CodeRepoProvider
  pub product_id : String
  pub product_name : String
  pub cache : PipelineSyncHistory

-- The fields that a task writes, `newCache` and `reqResources`.
pub record Progress : Type 0 where
  pub history : PipelineSyncHistory
  pub req_resources : List RequestResource

abbrev pub name_of : PipelineRuntimeDeployer → String
name_of prd = prd.runtime.meta.name

-- `GetNamespaces()[0]`
unfoldable pub namespace_of : PipelineRuntimeDeployer → String
unfolding Pipeline.get_namespace
namespace_of prd = Pipeline.get_namespace prd.runtime

unfoldable pub account_name_of : PipelineRuntimeDeployer → String
unfolding Pipeline.get_account
account_name_of prd = Pipeline.get_account prd.runtime

unfoldable pub build_additional_app_name : (runtime_name : String) → String
build_additional_app_name runtime_name = runtime_name ++ "-additional"

unfoldable pub build_unique_id : (product name : String) → String
build_unique_id product name = product ++ "-" ++ name

unfoldable pub build_calendar_event_name : (event_name : String) → String
build_calendar_event_name event_name = event_name ++ "-" ++ event_source_type_calendar

is_dash : ℕ → Bool
is_dash c = elim (compare c b'-') [ Ordering.eq ↦ true | _ ↦ false ]

-- What follows the first dash, and nothing where there is none.
unfoldable pub get_id_from_code_repo : (name : String) → String
unfolding is_dash
get_id_from_code_repo String.[] = ""
get_id_from_code_repo (String.◌∷◌ c s) = if is_dash (code c) then s else get_id_from_code_repo s

-- The URL and the repository of the application: those of the named repository where no URL is given.
unfoldable pub additional_source :
    RuntimeDataBase → AdditionalResourcesGit → Result (String × String)
unfolding get_code_repo
additional_source db git =
    if git.url == ""
    then (get_code_repo db git.code_repo >>= λ repo. ok (repo.spec.url, repo.meta.name))
    else ok (git.url, "")

abbrev pub space_of : (product_id namespace : String) → Space
space_of product_id namespace = record {
  meta = record { product = product_id; name = namespace };
  space_type = space_type_kubernetes;
  kubernetes = some namespace;
  server = none;
}

unfoldable pub additional_git : Option AdditionalResources → Option AdditionalResourcesGit
additional_git none = none
additional_git (some resources) = resources.git

unfoldable pub build_app_of :
    PipelineRuntimeDeployer → Option AdditionalResourcesGit → Result (Option Application)
unfolding additional_source build_additional_app_name namespace_of
build_app_of prd none = ok none
build_app_of prd (some add_resources) = do
  source ← additional_source prd.snapshot add_resources
  ok (
      some (record {
        meta = record {
          product = prd.runtime.meta.namespace;
          name = build_additional_app_name (name_of prd);
        };
        git = some (record {
          url = source.0;
          revision = add_resources.revision;
          path = add_resources.path;
          code_repo = source.1;
        });
        destinations = space_of prd.product_id (namespace_of prd) ∷ [];
      }))

unfoldable pub build_app : PipelineRuntimeDeployer → Result (Option Application)
unfolding build_app_of additional_git
build_app prd = build_app_of prd (additional_git prd.runtime.spec.additional_resources)

abbrev pub code_repo_permission : (provider_type id permission : String) → SecretInfo
code_repo_permission provider_type id permission = record {
  secret_type = secret_type_code_repo;
  code_repo = some (record {
    provider_type = provider_type;
    id = id;
    user = "default";
    permission = permission;
  });
  artifact_account = none;
}

abbrev pub code_repo_permission_read_write : String
code_repo_permission_read_write = "readwrite"

abbrev pub code_repo_permission_access_token : String
code_repo_permission_access_token = "accesstoken-api"

-- The repositories of the event sources, in their order.
unfoldable pub gitlab_repos : List EventSource → List String
gitlab_repos [] = []
gitlab_repos (source ∷ sources) = elim source.gitlab [
  | none ↦ gitlab_repos sources
  | some gitlab ↦ gitlab.repo_name ∷ gitlab_repos sources
]

unfoldable pub access_tokens : (provider_type : String) → List String → List SecretInfo
access_tokens provider_type [] = []
access_tokens provider_type (repo_name ∷ repo_names) =
    code_repo_permission provider_type repo_name code_repo_permission_access_token
    ∷ access_tokens provider_type repo_names

-- Each repository that the event sources name once.
unfoldable pub get_permissions_from_runtime : PipelineRuntimeDeployer → List SecretInfo
unfolding access_tokens set_of gitlab_repos
get_permissions_from_runtime prd =
    let provider_type = prd.repo_provider.spec.provider_type in
    code_repo_permission provider_type prd.code_repo.meta.name code_repo_permission_read_only
    ∷ code_repo_permission provider_type prd.code_repo.meta.name code_repo_permission_read_write
    ∷ access_tokens provider_type (set_of (gitlab_repos prd.runtime.spec.event_sources))

-- `gitlabWebhookEventToGitlabEventHeaderMapping`
abbrev pub event_headers : Map String
event_headers =
    ("deployment_events", "Deployment Hook")
    ∷ ("issues_events", "Issue Hook")
    ∷ ("job_events", "Job Hook")
    ∷ ("merge_requests_events", "Merge Request Hook")
    ∷ ("note_events", "Note Hook")
    ∷ ("pipeline_events", "Pipeline Hook")
    ∷ ("push_events", "Push Hook")
    ∷ ("releases_events", "Release Hook")
    ∷ ("tag_push_events", "Tag Push Hook")
    ∷ []

unfoldable pub headers_of : (events : List String) → Result (List String)
unfolding lookup
headers_of [] = ok []
headers_of (event ∷ events) = elim (lookup event event_headers) [
  | none ↦ err (errorf "un support event type %s" (event ∷ []))
  | some event_head ↦ headers_of events >>= λ rest. ok (event_head ∷ rest)
]

unfoldable pub get_gitlab_filters : Gitlab → Result (List Filter)
unfolding headers_of
get_gitlab_filters event_source = do
  events ← headers_of event_source.events
  let by_type : Filter = record {
    key = "headers.X-Gitlab-Event";
    value = events;
    comparator = equal_to;
  }
  ok (
      if event_source.revision == ""
      then by_type ∷ []
      else by_type
        ∷ record { key = "event.body.ref"; value = event_source.revision ∷ []; comparator = match }
        ∷ [])

unfoldable pub get_code_repo_api_server_addr : RuntimeDataBase → (name : String) → Result String
unfolding get_code_repo get_code_repo_provider
get_code_repo_api_server_addr db name = do
  code_repo ← get_code_repo db name
  provider ← get_code_repo_provider db code_repo.spec.code_repo_provider
  ok provider.spec.api_server
