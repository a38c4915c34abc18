-- ===== src/Webhook/Pipeline/Static.antt =====
-- `StaticCheck` and `checkUserPipelineInputSourceIsLegal` of
-- api/kubernetes/v1alpha1/projectpipelineruntime_webhook.go.
pub mod Sound
use Prim.Native.String.{String, ◌++◌}
use mathlib.Core.Bool.{Bool, true, false, ◌&&◌, not}
use mathlib.Core.Option.{Option, none, some}
use mathlib.Core.List.{List, [], ◌∷◌, map}
use text.Mathlib.Text.{◌==◌}
use nautes.Common.Tests.{if◌then◌else◌, is_some}
use nautes.Common.Result.{Check, ok, err, Error, errorf, ◌>>=◌, ◌>>◌, fail_if}
use nautes.Common.Lists.{has, insert}
use nautes.Resource.Pipeline.{
  EventSource, Pipeline, PipelineTrigger, UserPipelineInput, AdditionalResources,
  ProjectPipelineRuntime,
}

-- The loop that fails at the first name that an earlier round has recorded in `seen`.
unfoldable pub check_unique : (format : String) (seen names : List String) → Check
unfolding has
check_unique format seen [] = ok tt
check_unique format seen (name ∷ names) =
    let rest = check_unique format (name ∷ seen) names in
    if has seen name then err (errorf format (name ∷ [])) else rest

-- A git source names a repository or a URL.
unfoldable pub check_additional_resources : Option AdditionalResources → Check
check_additional_resources none = ok tt
check_additional_resources (some res) = elim res.git [
  | none ↦ ok tt
  | some git ↦
      fail_if (git.code_repo == "" && git.url == "")
        (errorf "code repo and url can not be empty at the same time" [])
]

-- `fmt.Sprintf("%s|%s|%s", ...)`
unfoldable pub trigger_tag : PipelineTrigger → String
trigger_tag t = t.event_source ++ ("|" ++ (t.pipeline ++ ("|" ++ t.revision)))

unfoldable pub check_triggers :
    (event_source_names pipeline_names tags : List String) → List PipelineTrigger → Check
unfolding has trigger_tag
check_triggers sources pipelines tags [] = ok tt
check_triggers sources pipelines tags (trigger ∷ triggers) =
    let rest = check_triggers sources pipelines (trigger_tag trigger ∷ tags) triggers in
    if not (has sources trigger.event_source)
    then err (errorf "found non-existent event source %s in trigger" (trigger.event_source ∷ []))
    else if not (has pipelines trigger.pipeline)
    then err (errorf "found non-existent pipeline %s in trigger" (trigger.pipeline ∷ []))
    else if has tags (trigger_tag trigger)
    then err (
        errorf "trigger is duplicate, event source %s, pipeline %s, trigger %s"
          (trigger.event_source ∷ trigger.pipeline ∷ trigger.revision ∷ []))
    else rest

unfoldable pub check_input : UserPipelineInput → Check
check_input input = do
  fail_if (not (is_some input.source.built_in_var) && not (is_some input.source.from_event))
      (errorf "builtInVar and fromEvent cannot be empty at the same time" [])
  fail_if (is_some input.source.built_in_var && is_some input.source.from_event)
      (errorf "both builtInVar and fromEvent has value" [])
  fail_if (not (is_some input.transmission_method.kustomization))
      (errorf "transmission method can not be nil" [])

unfoldable pub check_inputs : List UserPipelineInput → Check
unfolding check_input
check_inputs [] = ok tt
check_inputs (input ∷ inputs) = check_input input >> check_inputs inputs

unfoldable pub check_user_pipeline_input_source_is_legal : List PipelineTrigger → Check
unfolding check_inputs
check_user_pipeline_input_source_is_legal [] = ok tt
check_user_pipeline_input_source_is_legal (trigger ∷ triggers) =
    check_inputs trigger.inputs >> check_user_pipeline_input_source_is_legal triggers

abbrev pub event_source_names : ProjectPipelineRuntime → List String
event_source_names r = map (λ (es : EventSource). es.name) r.spec.event_sources

abbrev pub pipeline_names : ProjectPipelineRuntime → List String
pipeline_names r = map (λ (p : Pipeline). p.name) r.spec.pipelines

unfoldable pub static_check : ProjectPipelineRuntime → Check
unfolding check_unique check_additional_resources check_triggers
    check_user_pipeline_input_source_is_legal
static_check r = do
  check_unique "event source %s is duplicate" [] (event_source_names r)
  check_unique "pipeline %s is duplicate" [] (pipeline_names r)
  check_additional_resources r.spec.additional_resources
  check_triggers (event_source_names r) (pipeline_names r) [] r.spec.pipeline_triggers
  check_user_pipeline_input_source_is_legal r.spec.pipeline_triggers
