-- ===== src/Task/Pipeline/Consumers.antt =====
-- The consumers of a pipeline runtime
-- (app/runtime-operator/internal/syncer/v2/task/pipelineRuntime.go): one for each trigger and kind of
-- event source, with the hooks that the pipeline component makes for it.
use Prim.Native.String.{String}
use mathlib.Core.Option
use mathlib.Core.Option.{Option, none, some}
use mathlib.Core.List.{List, [], ◌∷◌, ◌++◌}
use nautes.Common.Maps.{Map}
use nautes.Common.Result.{Result, ok, err, deref}
use nautes.Resource.Pipeline.{PipelineTrigger, UserPipelineInput, Gitlab, Calendar}
use nautes.Task.Component.{MachineAccount}
use nautes.Task.Listener.{
  EventSource, EventSourceSet, EventTask, Consumer, ConsumerSet, HooksInitInfo,
  event_source_type_calendar, event_source_type_gitlab, event_task_type_raw,
}
use nautes.Task.Action.{
  World, Action, ask, lift, pure, wrapped, modify_new_cache, pipeline_get_hooks, ◌>>=◌, ◌>>◌,
}
use nautes.Task.Pipeline.Deployer.{
  PipelineRuntimeDeployer, Progress, name_of, build_calendar_event_name, get_gitlab_filters,
}
use nautes.Task.Pipeline.Sources.{
  get_event_source_from_set, get_pipeline_from_pipelines, get_event_source_from_event_sources,
  build_builtin_vars, add_event_source_to_builtin_vars,
}

-- The error is dropped, and the source that is then nil is dereferenced.
unfoldable pub source_of_set : List EventSource → (name : String) → Result EventSource
unfolding get_event_source_from_set
source_of_set sources name = elim (get_event_source_from_set sources name) [
  | ok source ↦ ok source
  | err e ↦ deref none
]

module _ (world : World) (prd : PipelineRuntimeDeployer) where
  unfoldable pub get_event_task :
      EventSource
      → (event_source_type : String) → (builtin_vars : Map String)
      → (user_vars : List UserPipelineInput) → (event_types : List String)
      → Action Progress EventTask
  get_event_task event_source event_source_type builtin_vars user_vars event_types = do
    let info : HooksInitInfo = record {
      builtin_vars = builtin_vars;
      user_request_inputs = user_vars;
      hooks = Option.get_or prd.runtime.spec.hooks (record { pre_hooks = []; post_hooks = [] });
      event_source = event_source;
      event_source_type = event_source_type;
      event_types = event_types;
    }
    answer ←
        wrapped "get hooks failed: %w"
          (ask (λ calls. world.hooks calls info) (pipeline_get_hooks info))
    modify_new_cache
        (λ progress. record progress { req_resources = progress.req_resources ++ answer.1 })
    pure (record {
      task_type = event_task_type_raw;
      vars = answer.0.request_vars;
      raw = some answer.0.resource;
    })

  -- What the GitLab branch adds to the variables, which the calendar branch then sees too.
  unfoldable pub event_vars : (builtin_vars : Map String) → Option Gitlab → Result (Map String)
  unfolding add_event_source_to_builtin_vars
  event_vars builtin_vars none = ok builtin_vars
  event_vars builtin_vars (some gitlab) =
      add_event_source_to_builtin_vars prd.snapshot builtin_vars gitlab.repo_name

  module _ (unique_id : String) (sources : List EventSource) (inputs : List UserPipelineInput)
      (vars : Map String) where
    unfoldable pub gitlab_consumers : Option Gitlab → Action Progress (List Consumer)
    unfolding get_gitlab_filters source_of_set get_event_task
    gitlab_consumers none = pure []
    gitlab_consumers (some gitlab) = do
      filters ← lift (get_gitlab_filters gitlab)
      event_source ← lift (source_of_set sources gitlab.repo_name)
      task ← get_event_task event_source event_source_type_gitlab vars inputs gitlab.events
      let consumer : Consumer = record {
        unique_id = unique_id;
        event_source_name = gitlab.repo_name;
        event_source_type = event_source_type_gitlab;
        event_types = gitlab.events;
        filters = filters;
        task = task;
      }
      pure (consumer ∷ [])

    unfoldable pub calendar_consumers :
        (name : String) → Option Calendar → Action Progress (List Consumer)
    unfolding build_calendar_event_name source_of_set get_event_task
    calendar_consumers name none = pure []
    calendar_consumers name (some calendar) = do
      event_source ← lift (source_of_set sources (build_calendar_event_name name))
      task ← get_event_task event_source event_source_type_calendar vars inputs []
      let consumer : Consumer = record {
        unique_id = unique_id;
        event_source_name = build_calendar_event_name name;
        event_source_type = event_source_type_calendar;
        event_types = [];
        filters = [];
        task = task;
      }
      pure (consumer ∷ [])

  module _ (unique_id : String) (account : MachineAccount) (sources : List EventSource) where
    unfoldable pub convert_trigger : PipelineTrigger → Action Progress (List Consumer)
    unfolding get_pipeline_from_pipelines get_event_source_from_event_sources build_builtin_vars
        event_vars gitlab_consumers calendar_consumers
    convert_trigger trigger = do
      pipeline ← lift (get_pipeline_from_pipelines trigger.pipeline prd.runtime.spec.pipelines)
      source ←
          lift (
            get_event_source_from_event_sources trigger.event_source prd.runtime.spec.event_sources)
      builtin_vars ← lift (
          build_builtin_vars world.pipeline_dash_board_url prd trigger.revision
            prd.runtime.spec.pipeline_source account pipeline)
      vars ← lift (event_vars builtin_vars source.gitlab)
      of_gitlab ← gitlab_consumers unique_id sources trigger.inputs vars source.gitlab
      of_calendar ←
          calendar_consumers unique_id sources trigger.inputs vars source.name source.calendar
      pure (of_gitlab ++ of_calendar)

    unfoldable pub convert_triggers : List PipelineTrigger → Action Progress (List Consumer)
    unfolding convert_trigger
    convert_triggers [] = pure []
    convert_triggers (trigger ∷ triggers) = do
      consumers ← convert_trigger trigger
      rest ← convert_triggers triggers
      pure (consumers ++ rest)

  unfoldable pub convert_runtime_to_consumers :
      MachineAccount → EventSourceSet → Action Progress ConsumerSet
  unfolding convert_triggers
  convert_runtime_to_consumers account set = do
    consumers ←
        convert_triggers set.unique_id account set.event_sources prd.runtime.spec.pipeline_triggers
    pure (record {
      meta = record { product = prd.product_id; name = name_of prd };
      account = account;
      consumers = consumers;
    })
