-- ===== src/Task/Pipeline/Steps.antt =====
-- The steps of `deploy` and `delete` of `PipelineRuntimeDeployer`
-- (app/runtime-operator/internal/syncer/v2/task/pipelineRuntime.go).
use Prim.Native.Nat.{ℕ}
use mathlib.Core.Option.{Option, none, some}
use mathlib.Core.List.{List, [], ◌∷◌}
use nautes.Common.Result.{Result, ok, err, nil_dereference, deref}
use nautes.Common.Lists.{set_of}
use nautes.Usage.Secret.{SecretInfo}
use nautes.Usage.Accounts.{update_spaces, account_is_removable}
use nautes.Usage.Accounts
use nautes.Task.Component.{MachineAccount, Space, Application}
use nautes.Task.Listener.{RequestResource, HookSpace, AuthInfo}
use nautes.Task.Action.{
  World, Step, pure, lift, ask, gets, wrapped, call, each, modify_usage, modify_new_cache, ◌>>=◌,
  ◌>>◌, tenant_get_space, tenant_add_space_user, tenant_delete_space_user, deployment_create_app,
  deployment_delete_app, listener_create_event_source, listener_delete_event_source,
  listener_create_consumer, listener_delete_consumer,
}
use nautes.Task.Permissions.{revoke_account_permissions}
use nautes.Task.Deployer.{space_request}
use nautes.Task.Pipeline.Deployer.{
  PipelineRuntimeDeployer, PipelineSyncHistory, Progress, name_of, namespace_of, account_name_of,
  build_app,
}
use nautes.Task.Pipeline.Sources.{convert_runtime_to_event_source}
use nautes.Task.Pipeline.Consumers.{convert_runtime_to_consumers}
use nautes.Task.Pipeline.HookSpace.{
  remove_duplicate_requests, create_hook_resource, remove_unused_hook_resource,
}

-- A change of the history.
abbrev pub modify_history : (PipelineSyncHistory → PipelineSyncHistory) → Step Progress
modify_history f = modify_new_cache (λ progress. record progress { history = f progress.history })

-- The resources of the last deployment and the space that they are in, which is dereferenced.
unfoldable pub old_hook_space :
    Option Space → Option (List RequestResource) → Result (Option HookSpace)
old_hook_space space none = ok none
old_hook_space none (some resources) = err nil_dereference
old_hook_space (some space) (some resources) =
    ok (some (record { base_space = space; deploy_resources = resources }))

-- The same where the code tests the space too.
unfoldable pub kept_hook_space : Option Space → Option (List RequestResource) → Option HookSpace
kept_hook_space none resources = none
kept_hook_space (some space) none = none
kept_hook_space (some space) (some resources) =
    some (record { base_space = space; deploy_resources = resources })

-- A space whose error is dropped: it is then nil, and dereferenced.
unfoldable pub unchecked : Result Space → Result Space
unchecked (ok space) = ok space
unchecked (err e) = deref none

module _ (world : World) (hash : SecretInfo → ℕ) (resource_hash : RequestResource → ℕ)
    (prd : PipelineRuntimeDeployer) where
  -- The part of `syncListenEvents` on the resources of the hooks.
  unfoldable pub sync_hook_resources : AuthInfo → Space → List RequestResource → Step Progress
  unfolding create_hook_resource remove_unused_hook_resource old_hook_space
  sync_hook_resources auth_info space resources = do
    wrapped "create hook space failed: %w" (create_hook_resource world auth_info space resources)
    old_space ← lift (old_hook_space prd.cache.space prd.cache.hook_resources)
    wrapped "remove unused hook resources failed: %w" (
        remove_unused_hook_resource world resource_hash old_space
          (some (record { base_space = space; deploy_resources = resources })))
    modify_history (λ history. record history { hook_resources = some resources })

  unfoldable pub sync_listen_events : MachineAccount → AuthInfo → Step Progress
  unfolding convert_runtime_to_event_source convert_runtime_to_consumers namespace_of
      remove_duplicate_requests sync_hook_resources
  sync_listen_events account auth_info = do
    set ←
        wrapped "get event source failed: %w"
          (lift (convert_runtime_to_event_source prd.snapshot prd.runtime))
    modify_history (λ history. record history { unique_id = set.unique_id })
    wrapped "create event source failed: %w" (call world (listener_create_event_source set))
    consumers ←
        wrapped "get consumers failed: %w" (convert_runtime_to_consumers world prd account set)
    space ← wrapped "get space failed: %w" (
        ask (λ calls. world.space calls prd.product_id (namespace_of prd))
          (tenant_get_space prd.product_id (namespace_of prd)))
    resources ← gets (λ run. remove_duplicate_requests resource_hash run.new_cache.req_resources)
    sync_hook_resources auth_info space resources
    wrapped "create consumer failed: %w" (call world (listener_create_consumer consumers))

  unfoldable pub delete_listen_events : Step Progress
  unfolding remove_unused_hook_resource kept_hook_space
  delete_listen_events = do
    wrapped "delete event source failed: %w"
        (call world (listener_delete_event_source prd.cache.unique_id))
    wrapped "delete consumer failed: %w"
        (call world (listener_delete_consumer prd.product_id (name_of prd)))
    wrapped "remove unused hook resources failed: %w" (
        remove_unused_hook_resource world resource_hash
          (kept_hook_space prd.cache.space prd.cache.hook_resources) none)
    modify_history (λ history. record history { hook_resources = none })

  -- The application that the runtime asks for is created; where it asks for none, that of the last
  -- deployment is deleted.
  unfoldable pub deploy_or_delete_app : (app old_app : Option Application) → Step Progress
  deploy_or_delete_app (some app) old_app = do
    modify_history (λ history. record history { app = some app })
    call world (deployment_create_app app)
  deploy_or_delete_app none (some old_app) = call world (deployment_delete_app old_app)
  deploy_or_delete_app none none = pure tt

  unfoldable pub deploy_or_delete_additional_resource : Step Progress
  unfolding build_app deploy_or_delete_app
  deploy_or_delete_additional_resource = do
    app ← wrapped "get additional app failed: %w" (lift (build_app prd))
    deploy_or_delete_app app prd.cache.app

  unfoldable pub revoke_old_permissions : (old_account : MachineAccount) → Step Progress
  unfolding revoke_account_permissions
  revoke_old_permissions old_account =
      revoke_account_permissions world hash (name_of prd) old_account prd.cache.permissions

  unfoldable pub sync_namespace_permission : Step Progress
  unfolding namespace_of account_name_of each update_spaces set_of
  sync_namespace_permission = do
    each (namespace_of prd ∷ []) (λ namespace. wrapped "add user %s to space %s failed: %w" (
        call world
          (tenant_add_space_user (space_request prd.product_id namespace (account_name_of prd)))))
    modify_usage (λ usage. record usage {
      account =
          update_spaces usage.account (account_name_of prd) (name_of prd)
            (set_of (namespace_of prd ∷ []));
    })

  -- Where other runtimes use the old account, it loses what this runtime had for it.
  unfoldable pub withdraw_from_account : (old_account : MachineAccount) → Step Progress
  unfolding revoke_old_permissions
  withdraw_from_account old_account = do
    wrapped "clean up old account failed: %w" (revoke_old_permissions old_account)
    old_space ← lift (deref prd.cache.space)
    wrapped "remove user %s from space %s failed :%w" (
        call world (
          tenant_delete_space_user
            (space_request prd.product_id old_space.meta.name old_account.name)))

  unfoldable pub forget_account : (old_account : MachineAccount) → Step Progress
  unfolding Accounts.delete_runtime
  forget_account old_account = modify_usage (λ usage. record usage {
    account = Accounts.delete_runtime usage.account old_account.name (name_of prd);
  })
