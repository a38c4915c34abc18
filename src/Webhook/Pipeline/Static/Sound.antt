-- ===== src/Webhook/Pipeline/Static/Sound.antt =====
-- Well formed pipeline runtimes and `StaticCheck` of
-- api/kubernetes/v1alpha1/projectpipelineruntime_webhook.go.
use Prim.Native.String.{String}
use mathlib.Core.Path.{subst, sym, ◌≡◌, refl}
use mathlib.Core.Logic.{◌⊎◌, ◌↔◌, inl, inr}
use mathlib.Core.Bool.{true, false}
use mathlib.Core.Option.{Option, none, some}
use mathlib.Core.List.{List, [], ◌∷◌, map}
use native.Mathlib.Omega.{arith}
use text.Mathlib.TextEquality.{eq_iff}
use nautes.Common.Tests.{is_some, Option-cases}
use nautes.Common.Result.{ok}
use nautes.Common.Lists.{All, has}
use nautes.Common.Distinct.{Distinct, Fresh, Fresh-cons_iff, Fresh-nil}
use nautes.Resource.Pipeline.{
  PipelineTrigger, UserPipelineInput, AdditionalResources, AdditionalResourcesGit,
  ProjectPipelineRuntime,
}
use nautes.Webhook.Pipeline.Static.{
  check_unique, check_additional_resources, trigger_tag, check_triggers, check_input, check_inputs,
  check_user_pipeline_input_source_is_legal, event_source_names, pipeline_names, static_check,
}

check_unique_iff :
    (format : String) (seen names : List String)
    → (check_unique format seen names ≡ ok tt) ↔ (Fresh seen names × Distinct names)
unfolding check_unique
check_unique_iff format seen [] = ((λ h. (tt, tt)), λ h. refl)
check_unique_iff format seen (name ∷ names) =
    let ih = check_unique_iff format (name ∷ seen) names in
    let fresh = Fresh-cons_iff name seen names in
    ((λ h. ground (arith, ih, fresh)), λ h. ground (arith, ih, fresh))

-- A trigger names an event source and a pipeline of the runtime.
abbrev pub Refers : (sources pipelines : List String) → PipelineTrigger → Type 0
Refers sources pipelines trigger =
    (has sources trigger.event_source ≡ true) × (has pipelines trigger.pipeline ≡ true)

check_triggers_iff :
    (sources pipelines tags : List String) (triggers : List PipelineTrigger)
    → (check_triggers sources pipelines tags triggers ≡ ok tt) ↔ (
        All (Refers sources pipelines) triggers
        × Fresh tags (map trigger_tag triggers)
        × Distinct (map trigger_tag triggers))
unfolding check_triggers
check_triggers_iff sources pipelines tags [] = ((λ h. (tt, tt, tt)), λ h. refl)
check_triggers_iff sources pipelines tags (t ∷ ts) =
    let ih = check_triggers_iff sources pipelines (trigger_tag t ∷ tags) ts in
    let fresh = Fresh-cons_iff (trigger_tag t) tags (map trigger_tag ts) in
    ((λ h. ground (arith, ih, fresh)), λ h. ground (arith, ih, fresh))

-- An input has exactly one source and a transmission method.
abbrev pub IsLegalInput : UserPipelineInput → Type 0
IsLegalInput input =
    ((is_some input.source.built_in_var ≡ true) × (is_some input.source.from_event ≡ false)
      ⊎ (is_some input.source.built_in_var ≡ false) × (is_some input.source.from_event ≡ true))
    × (is_some input.transmission_method.kustomization ≡ true)

check_input_iff : (input : UserPipelineInput) → (check_input input ≡ ok tt) ↔ IsLegalInput input
unfolding check_input
check_input_iff input = ((λ h. ground arith), λ h. ground arith)

check_inputs_iff :
    (inputs : List UserPipelineInput) → (check_inputs inputs ≡ ok tt) ↔ All IsLegalInput inputs
unfolding check_inputs
check_inputs_iff [] = ((λ h. tt), λ h. refl)
check_inputs_iff (input ∷ inputs) =
    let first = check_input_iff input in
    let ih = check_inputs_iff inputs in
    ((λ h. ground (arith, first, ih)), λ h. ground (arith, first, ih))

check_legal_iff :
    (triggers : List PipelineTrigger)
    → (check_user_pipeline_input_source_is_legal triggers ≡ ok tt)
      ↔ All (λ t. All IsLegalInput t.inputs) triggers
unfolding check_user_pipeline_input_source_is_legal
check_legal_iff [] = ((λ h. tt), λ h. refl)
check_legal_iff (t ∷ ts) =
    let first = check_inputs_iff t.inputs in
    let ih = check_legal_iff ts in
    ((λ h. ground (arith, first, ih)), λ h. ground (arith, first, ih))

abbrev pub NamesSource : AdditionalResourcesGit → Type 0
NamesSource git = ¬ ((git.code_repo ≡ "") × (git.url ≡ ""))

abbrev pub IsSourceNamed : Option AdditionalResourcesGit → Type 0
IsSourceNamed none = Unit
IsSourceNamed (some git) = NamesSource git

-- A git source of additional resources names a repository or a URL.
abbrev pub HasGitSource : Option AdditionalResources → Type 0
HasGitSource none = Unit
HasGitSource (some res) = IsSourceNamed res.git

check_additional_resources_iff :
    (res : Option AdditionalResources) → (check_additional_resources res ≡ ok tt) ↔ HasGitSource res
unfolding check_additional_resources
check_additional_resources_iff none = ((λ h. tt), λ h. refl)
check_additional_resources_iff (some res) = elim (Option-cases res.git) [
  | inl e ↦ ((λ h. subst IsSourceNamed (sym e) tt), λ h. rw (e, check_additional_resources))
  | inr (git, e) ↦
      let code_repo = eq_iff git.code_repo "" in
      let url = eq_iff git.url "" in
      (
        (λ h.
            subst IsSourceNamed (sym e) (λ unnamed. ground (arith, e, h, unnamed, code_repo, url))),
        λ h. let named = subst IsSourceNamed e h in ground (arith, e, named, code_repo, url),
      )
]

-- A well formed pipeline runtime.
pub record IsWellFormed (r : ProjectPipelineRuntime) : Type 0 where
  pub sources : Distinct (event_source_names r)
  pub pipelines : Distinct (pipeline_names r)
  pub resources : HasGitSource r.spec.additional_resources
  pub refers : All (Refers (event_source_names r) (pipeline_names r)) r.spec.pipeline_triggers
  pub tags : Distinct (map trigger_tag r.spec.pipeline_triggers)
  pub inputs : All (λ t. All IsLegalInput t.inputs) r.spec.pipeline_triggers

-- The static check accepts a pipeline runtime exactly if the names of its event sources and those
-- of its pipelines are distinct, a git source of its additional resources names a repository or a
-- URL, its triggers refer to its own event sources and pipelines and have distinct tags, and each
-- input of a trigger has exactly one source and a transmission method.
pub static_check_iff : (r : ProjectPipelineRuntime) → (static_check r ≡ ok tt) ↔ IsWellFormed r
unfolding static_check
static_check_iff r =
    let sources = event_source_names r in
    let pipelines = pipeline_names r in
    let triggers = r.spec.pipeline_triggers in
    let a = check_unique_iff "event source %s is duplicate" [] sources in
    let b = check_unique_iff "pipeline %s is duplicate" [] pipelines in
    let c = check_additional_resources_iff r.spec.additional_resources in
    let d = check_triggers_iff sources pipelines [] triggers in
    let e = check_legal_iff triggers in
    let f = Fresh-nil sources in
    let g = Fresh-nil pipelines in
    let k = Fresh-nil (map trigger_tag triggers) in
    ((λ h. ground (arith, a, b, c, d, e)), λ h. ground (arith, a, b, c, d, e, f, g, k))
