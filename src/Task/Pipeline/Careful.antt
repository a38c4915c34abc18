-- ===== src/Task/Pipeline/Careful.antt =====
-- The steps of `Deploy` and `Delete` of app/runtime-operator/internal/syncer/v2/task/pipelineRuntime.go
-- leave the other runtimes of the product what they use.
pub mod Accounts
pub mod Deploying
use Prim.Native.Nat.{ℕ}
use Prim.Native.String.{String}
use mathlib.Core.Path.{◌≡◌, refl, sym, ◌∙◌}
use mathlib.Core.Logic.{inl, inr}
use mathlib.Core.Bool.{Bool, true, false}
use mathlib.Core.Option.{Option, none, some}
use mathlib.Core.List.{List, [], ◌∷◌}
use text.Mathlib.Text.{◌==◌}
use nautes.Common.Tests.{Bool-cases}
use nautes.Common.Lists.{Any, All-of, has, has_head, set_of}
use nautes.Common.Maps.{Map}
use nautes.Common.Result.{ok, deref}
use nautes.Usage.Secret.{SecretInfo}
use nautes.Usage.Spaces.{SpaceUsage}
use nautes.Usage.Accounts.{account_is_removable}
use nautes.Usage.Products.{ProductUsage}
use nautes.Resource.Pipeline.{PipelineTrigger, UserPipelineInput, Gitlab, Calendar}
use nautes.Task.Component.{MachineAccount, Space, Application}
use nautes.Task.Listener.{RequestResource, EventSource, EventSourceSet, HookSpace, AuthInfo}
use nautes.Task.Action.{
  World, Run, handler_create_resource, handler_delete_resource, tenant_add_space_user,
}
use nautes.Task.Deployer.{space_request, get_account}
use nautes.Task.Others.{Others, others, others_of-update_spaces, others_of-delete_runtime}
use nautes.Task.Invariants.{
  Keeps, >>-Keeps, >>=-Keeps, gets-Keeps, pure-Keeps, lift-Keeps, lift-then-Keeps, wrapped-Keeps,
}
use nautes.Task.Safe.{Scope}
use nautes.Task.Careful.{
  IsGood, modify_account-IsCareful, modify_new_cache-IsCareful, call-IsCareful, ask-IsCareful,
  each-IsCareful, delete_product-IsCareful, delete_product_account-IsCareful,
  revoke_account_permissions-IsCareful,
}
use nautes.Task.Pipeline.Deployer.{
  PipelineRuntimeDeployer, Progress, name_of, build_additional_app_name,
}
use nautes.Task.Pipeline.Consumers.{
  get_event_task, gitlab_consumers, calendar_consumers, convert_trigger, convert_triggers,
  convert_runtime_to_consumers,
}
use nautes.Task.Pipeline.HookSpace.{
  same_space, create_hook_resource, delete_hook_resources, remove_unused_hook_resource,
}
use nautes.Task.Pipeline.Steps.{
  sync_listen_events, delete_listen_events, sync_namespace_permission, withdraw_from_account,
  forget_account, revoke_old_permissions,
}
use nautes.Task.Pipeline.Deploy.{
  leave_account, leave_old_account, drop_account_if, clean_account, delete_product_if,
}

-- The scope allows the runtime to give the space up, and to deal with the application.
abbrev pub IsOwnSpace : Scope → Others → Option Space → Type 0
IsOwnSpace scope o none = Unit
IsOwnSpace scope o (some space) =
    scope.Frees o space.meta.name
    × ((account_name : String) → scope.Leaves o space.meta.name account_name)

abbrev pub IsOwnApp : Scope → Others → Option Application → Type 0
IsOwnApp scope o none = Unit
IsOwnApp scope o (some app) = scope.Owns o app.meta.name

-- What the steps keep to is what the scope allows.
pub record Fits (prd : PipelineRuntimeDeployer) (scope : Scope) (o : Others) : Type 0 where
  pub space : IsOwnSpace scope o prd.cache.space
  pub app : scope.Owns o (build_additional_app_name (name_of prd))
  pub old_app : IsOwnApp scope o prd.cache.app

module _ (world : World) (hash : SecretInfo → ℕ) (resource_hash : RequestResource → ℕ)
    (prd : PipelineRuntimeDeployer) (scope : Scope) (mine : List String) (start : ProductUsage)
    (Own : List String → SpaceUsage → Type 0) where
  abbrev pub IsFine : Run Progress → Type 0
  IsFine = IsGood (name_of prd) hash scope mine start Own

  get_event_task-IsCareful :
      (source : EventSource) (event_source_type : String) (vars : Map String)
      (inputs : List UserPipelineInput) (event_types : List String)
      → Keeps IsFine (get_event_task world prd source event_source_type vars inputs event_types)
  unfolding get_event_task
  get_event_task-IsCareful source event_source_type vars inputs event_types =
      >>=-Keeps IsFine
        (wrapped-Keeps IsFine _
          (ask-IsCareful (name_of prd) hash scope mine start Own world _ _ tt))
        (λ answer.
          >>-Keeps IsFine (modify_new_cache-IsCareful (name_of prd) hash scope mine start Own _)
            (pure-Keeps IsFine _))

  gitlab_consumers-IsCareful :
      (unique_id : String) (sources : List EventSource) (inputs : List UserPipelineInput)
      (vars : Map String) (gitlab : Option Gitlab)
      → Keeps IsFine (gitlab_consumers world prd unique_id sources inputs vars gitlab)
  unfolding gitlab_consumers
  gitlab_consumers-IsCareful unique_id sources inputs vars none = pure-Keeps IsFine _
  gitlab_consumers-IsCareful unique_id sources inputs vars (some gitlab) =
      >>=-Keeps IsFine (lift-Keeps IsFine _) (λ filters.
        >>=-Keeps IsFine (lift-Keeps IsFine _) (λ source.
          >>=-Keeps IsFine (get_event_task-IsCareful source _ vars inputs gitlab.events)
            (λ task. pure-Keeps IsFine _)))

  calendar_consumers-IsCareful :
      (unique_id : String) (sources : List EventSource) (inputs : List UserPipelineInput)
      (vars : Map String) (name : String) (calendar : Option Calendar)
      → Keeps IsFine (calendar_consumers world prd unique_id sources inputs vars name calendar)
  unfolding calendar_consumers
  calendar_consumers-IsCareful unique_id sources inputs vars name none = pure-Keeps IsFine _
  calendar_consumers-IsCareful unique_id sources inputs vars name (some calendar) =
      >>=-Keeps IsFine (lift-Keeps IsFine _) (λ source.
        >>=-Keeps IsFine (get_event_task-IsCareful source _ vars inputs [])
          (λ task. pure-Keeps IsFine _))

  convert_triggers-IsCareful :
      (unique_id : String) (account : MachineAccount) (sources : List EventSource)
      (triggers : List PipelineTrigger)
      → Keeps IsFine (convert_triggers world prd unique_id account sources triggers)
  unfolding convert_triggers convert_trigger
  convert_triggers-IsCareful unique_id account sources [] = pure-Keeps IsFine _
  convert_triggers-IsCareful unique_id account sources (trigger ∷ triggers) =
      >>=-Keeps IsFine
        (>>=-Keeps IsFine (lift-Keeps IsFine _) (λ pipeline.
          >>=-Keeps IsFine (lift-Keeps IsFine _) (λ source.
            >>=-Keeps IsFine (lift-Keeps IsFine _) (λ builtin_vars.
              >>=-Keeps IsFine (lift-Keeps IsFine _) (λ vars.
                >>=-Keeps IsFine
                  (gitlab_consumers-IsCareful unique_id sources trigger.inputs vars source.gitlab)
                  (λ of_gitlab.
                    >>=-Keeps IsFine
                      (calendar_consumers-IsCareful unique_id sources trigger.inputs vars
                        source.name source.calendar)
                      (λ of_calendar. pure-Keeps IsFine _)))))))
        (λ consumers.
          >>=-Keeps IsFine (convert_triggers-IsCareful unique_id account sources triggers)
            (λ rest. pure-Keeps IsFine _))

  delete_hook_resources-IsCareful :
      (space : Space) (res : List RequestResource)
      → Keeps IsFine (delete_hook_resources world space res)
  unfolding delete_hook_resources
  delete_hook_resources-IsCareful space res =
      each-IsCareful (name_of prd) hash scope mine start Own world _ (handler_delete_resource space)
        res (All-of (λ req. tt) res)

  remove_unused_hook_resource-IsCareful :
      (old_space new_space : Option HookSpace)
      → Keeps IsFine (remove_unused_hook_resource world resource_hash old_space new_space)
  unfolding remove_unused_hook_resource
  remove_unused_hook_resource-IsCareful none new_space = pure-Keeps IsFine tt
  remove_unused_hook_resource-IsCareful (some old_space) none = delete_hook_resources-IsCareful _ _
  remove_unused_hook_resource-IsCareful (some old_space) (some new_space) =
      elim (Bool-cases (same_space old_space.base_space new_space.base_space)) [
        | inl same ↦ rw (same) (wrapped-Keeps IsFine _ (delete_hook_resources-IsCareful _ _))
        | inr moved ↦ rw (moved) (delete_hook_resources-IsCareful _ _)
      ]
