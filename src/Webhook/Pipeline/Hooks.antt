-- ===== src/Webhook/Pipeline/Hooks.antt =====
-- `validateHooks` of api/kubernetes/v1alpha1/projectpipelineruntime_webhook.go.
pub mod Sound
use Prim.Native.String.{String}
use mathlib.Core.Bool.{Bool, true, false, not}
use mathlib.Core.Option
use mathlib.Core.Option.{Option, none, some}
use mathlib.Core.List.{List, [], ◌∷◌}
use nautes.Common.Tests.{if◌then◌else◌, is_some, is_empty}
use nautes.Common.Result.{Result, Check, ok, err, errorf, wrap, deref, ◌>>=◌, ◌>>◌, fail_if}
use nautes.Resource.Cluster.{Cluster}
use nautes.Common.Lists.{has, insert, set_of, difference}
use nautes.Common.Maps.{Map, lookup, assign}
use nautes.Resource.Pipeline.{EventSource, Hook, Hooks, HookMetadata, ProjectPipelineRuntime}

abbrev pub event_source_type_gitlab : String
event_source_type_gitlab = "gitlab"

abbrev pub event_source_type_calendar : String
event_source_type_calendar = "calendar"

unfoldable pub collect_event_source_types : List EventSource → List String → List String
unfolding insert
collect_event_source_types [] types = types
collect_event_source_types (es ∷ rest) types =
    let types' = if is_some es.gitlab then insert event_source_type_gitlab types else types in
    let types'' =
      if is_some es.calendar then insert event_source_type_calendar types' else types' in
    collect_event_source_types rest types''

unfoldable pub get_event_source_types_from_pipeline_runtime : ProjectPipelineRuntime → List String
unfolding collect_event_source_types
get_event_source_types_from_pipeline_runtime r = collect_event_source_types r.spec.event_sources []

-- The alias, or the name of a hook without one.
unfoldable pub get_hook_name : Hook → String
get_hook_name hook = Option.get_or hook.alias hook.name

unfoldable pub is_hook_support_event_source_types : (supported types : List String) → Check
unfolding difference set_of
is_hook_support_event_source_types supported types =
    if is_empty supported
    then ok tt
    else (let unsupported = difference (set_of types) (set_of supported) in
        fail_if (not (is_empty unsupported))
          (errorf "hook doesn't support event source %v" unsupported))

-- A later item of the array replaces an earlier one of the same name.
unfoldable pub convert_metadata_array_to_map :
    Map HookMetadata → List HookMetadata → Map HookMetadata
unfolding assign
convert_metadata_array_to_map metadata_map [] = metadata_map
convert_metadata_array_to_map metadata_map (m ∷ ms) =
    convert_metadata_array_to_map (assign m.name m metadata_map) ms

unfoldable pub validate_hook_general :
    Hook → HookMetadata → (event_source_types exist_hook_name exist_alias : List String) → Check
unfolding has get_hook_name is_hook_support_event_source_types
validate_hook_general hook rule event_source_types exist_hook_name exist_alias = do
  fail_if (has exist_hook_name hook.name) (errorf "a duplicate hook %s was found" (hook.name ∷ []))
  fail_if (has exist_alias (get_hook_name hook))
      (errorf "hook alias %s is used by other hook" (get_hook_name hook ∷ []))
  wrap "hook %s verify failed: %w"
      (is_hook_support_event_source_types rule.support_event_source_types event_source_types)

-- The two loops differ in the flag of the rule that they read and in its message. The names and
-- the aliases of the hooks seen so far are the state; the aliases are returned for the next loop.
unfoldable pub validate_hook_list :
    (message : String) (allowed : HookMetadata → Bool) (rules : Map HookMetadata)
    (event_source_types : List String)
    → List Hook
    → (hook_types hook_names : List String) → Result (List String)
unfolding lookup validate_hook_general insert
validate_hook_list message allowed rules types [] hook_types hook_names = ok hook_names
validate_hook_list message allowed rules types (hook ∷ hooks) hook_types hook_names =
    let rest =
      validate_hook_list message allowed rules types hooks (insert hook.name hook_types)
        (insert (get_hook_name hook) hook_names) in
    elim (lookup hook.name rules) [
      | none ↦ err (errorf "unknown hook %s" (hook.name ∷ []))
      | some rule ↦ fail_if (not (allowed rule)) (errorf message (hook.name ∷ [])) >>= λ _.
          validate_hook_general hook rule types hook_types hook_names >>= λ _. rest
    ]

-- The names are distinct within each stage, the aliases over both. The name of the cluster's event
-- listener is read before the loops, which do nothing with it.
unfoldable pub validate_hooks :
    Option Hooks → (event_source_types : List String) → Cluster → List HookMetadata → Check
unfolding convert_metadata_array_to_map validate_hook_list
validate_hooks none event_source_types cluster rules = ok tt
validate_hooks (some hooks) event_source_types cluster rules = do
  event_listener ← deref cluster.spec.components_list.event_listener
  let rule_map = convert_metadata_array_to_map [] rules
  hook_names ←
      validate_hook_list "hook %s can not be a pre hook" (λ rule. rule.is_pre_hook) rule_map
        event_source_types hooks.pre_hooks [] []
  all_hook_names ←
      validate_hook_list "hook %s can not be a post hook" (λ rule. rule.is_post_hook) rule_map
        event_source_types hooks.post_hooks [] hook_names
  ok tt
