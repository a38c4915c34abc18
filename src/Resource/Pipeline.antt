-- ===== src/Resource/Pipeline.antt =====
-- Pipeline runtimes and hooks (api/kubernetes/v1alpha1/projectpipelineruntime_types.go and its
-- functions, pkg/resource).
use Prim.Native.String.{String}
use mathlib.Core.Bool.{Bool}
use mathlib.Core.Option.{Option}
use mathlib.Core.List.{List, [], ◌∷◌}
use text.Mathlib.Text.{◌==◌}
use nautes.Common.Tests.{if◌then◌else◌}
use nautes.Common.Maps.{Map}
use nautes.Common.Result.{Result, ok, err, errorf}
use nautes.Resource.Meta.{ObjectMeta}

pub record Gitlab : Type 0 where
  pub repo_name : String
  pub revision : String
  pub events : List String

pub record Calendar : Type 0 where
  pub schedule : String
  pub interval : String
  pub exclusion_dates : List String
  pub timezone : String

pub record EventSource : Type 0 where
  pub name : String
  pub gitlab : Option Gitlab
  pub calendar : Option Calendar

pub record UserPipelineInputSource : Type 0 where
  pub built_in_var : Option String
  pub from_event : Option String

pub record TransmissionMethodKustomization : Type 0 where
  pub path : String

pub record TransmissionMethod : Type 0 where
  pub kustomization : Option TransmissionMethodKustomization

pub record UserPipelineInput : Type 0 where
  pub source : UserPipelineInputSource
  pub transmission_method : TransmissionMethod

pub record PipelineTrigger : Type 0 where
  pub event_source : String
  pub pipeline : String
  pub revision : String
  pub inputs : List UserPipelineInput

pub record Pipeline : Type 0 where
  pub name : String
  pub label : String
  pub path : String

pub record Hook : Type 0 where
  pub name : String
  pub alias : Option String
  pub vars : Map String

pub record Hooks : Type 0 where
  pub pre_hooks : List Hook
  pub post_hooks : List Hook

pub record AdditionalResourcesGit : Type 0 where
  pub code_repo : String
  pub url : String
  pub revision : String
  pub path : String

pub record AdditionalResources : Type 0 where
  pub git : Option AdditionalResourcesGit

pub record ProjectPipelineDestination : Type 0 where
  pub environment : String
  pub namespace : String

pub record ProjectPipelineRuntimeSpec : Type 0 where
  pub project : String
  pub pipeline_source : String
  pub pipelines : List Pipeline
  pub destination : ProjectPipelineDestination
  pub event_sources : List EventSource
  pub isolation : String
  pub pipeline_triggers : List PipelineTrigger
  pub additional_resources : Option AdditionalResources
  pub hooks : Option Hooks
  pub account : String

-- Of the status, the cluster that the runtime was deployed on.
pub record ProjectPipelineRuntimeStatus : Type 0 where
  pub cluster : String

pub record ProjectPipelineRuntime : Type 0 where
  pub meta : ObjectMeta
  pub spec : ProjectPipelineRuntimeSpec
  pub status : ProjectPipelineRuntimeStatus

pub record HookMetadata : Type 0 where
  pub name : String
  pub is_pre_hook : Bool
  pub is_post_hook : Bool
  pub support_event_source_types : List String

unfoldable pub get_namespace : ProjectPipelineRuntime → String
get_namespace r =
    if r.spec.destination.namespace == "" then r.meta.name else r.spec.destination.namespace

unfoldable pub get_namespaces : ProjectPipelineRuntime → List String
unfolding get_namespace
get_namespaces r = get_namespace r ∷ []

unfoldable pub get_account : ProjectPipelineRuntime → String
get_account r = if r.spec.account == "" then r.meta.name else r.spec.account

unfoldable pub find_event_source : List EventSource → String → Result EventSource
find_event_source [] name = err (errorf "can not find event source %s in runtime" (name ∷ []))
find_event_source (es ∷ rest) name = if es.name == name then ok es else find_event_source rest name

unfoldable pub get_event_source : ProjectPipelineRuntime → String → Result EventSource
unfolding find_event_source
get_event_source r name = find_event_source r.spec.event_sources name

unfoldable pub find_pipeline : List Pipeline → String → Result Pipeline
find_pipeline [] name = err (errorf "can not find pipeline %s in runtime" (name ∷ []))
find_pipeline (p ∷ rest) name = if p.name == name then ok p else find_pipeline rest name

unfoldable pub get_pipeline : ProjectPipelineRuntime → String → Result Pipeline
unfolding find_pipeline
get_pipeline r name = find_pipeline r.spec.pipelines name
