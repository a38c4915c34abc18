-- ===== src/Task/Pipeline/Deploy.antt =====
-- `Deploy` and `Delete` of `PipelineRuntimeDeployer`
-- (app/runtime-operator/internal/syncer/v2/task/pipelineRuntime.go).
use Prim.Native.Nat.{ℕ}
use Prim.Native.String.{String}
use mathlib.Core.Bool.{Bool, true, false}
use mathlib.Core.Option
use mathlib.Core.Option.{Option, none, some}
use mathlib.Core.List.{[]}
use text.Mathlib.Text.{◌==◌}
use nautes.Common.Tests.{if◌then◌else◌, is_empty}
use nautes.Common.Result.{Result, ok, err, errorf}
use nautes.Common.Lists.{insert, remove}
use nautes.Usage.Secret.{SecretInfo}
use nautes.Usage.Accounts.{account_is_removable}
use nautes.Usage.Products.{ProductUsage, Yaml, new_empty_product_usage}
use nautes.Usage.Controller.{Stored, ConfigMapClient, get_product_usage}
use nautes.Task.Component.{MachineAccount, Space}
use nautes.Task.Listener.{RequestResource}
use nautes.Task.Action.{
  World, Step, pure, ask, gets, wrapped, call, modify_usage, ◌>>=◌, ◌>>◌, tenant_create_space,
  tenant_delete_space, tenant_get_space, tenant_create_account, secret_create_account,
}
use nautes.Task.Products.{create_product, delete_product, delete_product_account}
use nautes.Task.Permissions.{sync_account_permissions, revoke_account_permissions}
use nautes.Task.Deployer.{get_account}
use nautes.Task.Ending.{Outcome, with_usage, ended}
use nautes.Task.Pipeline.Deployer.{
  PipelineRuntimeDeployer, Progress, name_of, namespace_of, account_name_of,
  get_permissions_from_runtime,
}
use nautes.Task.Pipeline.Steps.{
  modify_history, unchecked, sync_listen_events, delete_listen_events,
  deploy_or_delete_additional_resource, sync_namespace_permission, withdraw_from_account,
  forget_account,
}

module _ (world : World) (hash : SecretInfo → ℕ) (resource_hash : RequestResource → ℕ)
    (prd : PipelineRuntimeDeployer) where
  unfoldable pub leave_account : (old_account : MachineAccount) → Step Progress
  unfolding account_is_removable delete_product_account withdraw_from_account forget_account
  leave_account old_account = do
    is_removable ←
        gets (λ run. account_is_removable run.usage.account old_account.name (name_of prd))
    if is_removable
        then wrapped "delete machine account failed: %w" (delete_product_account world old_account)
        else withdraw_from_account world hash resource_hash prd old_account
    forget_account world hash resource_hash prd old_account

  -- The branch of `deploy` for a runtime whose account is another one than at the last deployment.
  unfoldable pub leave_old_account : (old_account : Option MachineAccount) → Step Progress
  unfolding leave_account account_name_of
  leave_old_account none = pure tt
  leave_old_account (some old_account) =
      if account_name_of prd == old_account.name then pure tt else leave_account old_account

  -- `deploy` from where the usage of the product is known.
  unfoldable pub deploy : Step Progress
  unfolding insert create_product leave_old_account namespace_of account_name_of unchecked
      sync_namespace_permission get_account get_permissions_from_runtime sync_account_permissions
      sync_listen_events deploy_or_delete_additional_resource
  deploy = do
    modify_usage (λ usage. record usage { runtimes = insert (name_of prd) usage.runtimes })
    wrapped "create product in components failed: %w"
        (create_product world prd.product_id prd.product_name)
    leave_old_account prd.cache.account
    call world (tenant_create_space prd.product_id (namespace_of prd))
    space ←
        ask (λ calls. unchecked (world.space calls prd.product_id (namespace_of prd)))
          (tenant_get_space prd.product_id (namespace_of prd))
    modify_history (λ history. record history { space = some space })
    wrapped "create account failed: %w"
        (call world (tenant_create_account prd.product_id (account_name_of prd)))
    wrapped "sync namespace permission failed: %w"
        (sync_namespace_permission world hash resource_hash prd)
    account ←
        wrapped "get account info failed: %w"
          (get_account world prd.product_id (account_name_of prd))
    auth_info ←
        wrapped "create account in secret store failed: %w"
          (ask (λ calls. world.auth_info calls account) (secret_create_account account))
    wrapped "sync account in secret store failed: %w" (
        sync_account_permissions world hash (name_of prd) account (get_permissions_from_runtime prd)
          prd.cache.permissions)
    modify_history (λ history. record history {
      permissions = get_permissions_from_runtime prd;
      account = some account;
    })
    wrapped "sync listen events failed: %w"
        (sync_listen_events world hash resource_hash prd account auth_info)
    wrapped "deploy app failed: %w"
        (deploy_or_delete_additional_resource world hash resource_hash prd)

  unfoldable pub drop_account_if :
      (is_removable : Bool) → (old_account : MachineAccount) → Step Progress
  unfolding delete_product_account
  drop_account_if false old_account = pure tt
  drop_account_if true old_account =
      wrapped "delete account failed: %w" (delete_product_account world old_account)

  -- The branch of `delete` for a runtime that has had an account.
  unfoldable pub clean_account : (old_account : Option MachineAccount) → Step Progress
  unfolding revoke_account_permissions account_is_removable drop_account_if forget_account
  clean_account none = pure tt
  clean_account (some old_account) = do
    wrapped "revoke permission in secret management failed: %w"
        (revoke_account_permissions world hash (name_of prd) old_account prd.cache.permissions)
    is_removable ←
        gets (λ run. account_is_removable run.usage.account old_account.name (name_of prd))
    drop_account_if is_removable old_account
    forget_account world hash resource_hash prd old_account
    modify_history (λ history. record history { account = none })

  unfoldable pub clean_space : (old_space : Option Space) → Step Progress
  clean_space none = pure tt
  clean_space (some old_space) = do
    wrapped "delete space %s failed: %w"
        (call world (tenant_delete_space prd.product_id old_space.meta.name))
    modify_history (λ history. record history { space = none })

  unfoldable pub delete_product_if : (is_last : Bool) → Step Progress
  unfolding delete_product
  delete_product_if false = pure tt
  delete_product_if true =
      wrapped "delete product in components failed: %w"
        (delete_product world prd.product_id prd.product_name)

  -- `delete` from where the usage of the product is known.
  unfoldable pub delete : Step Progress
  unfolding remove delete_listen_events deploy_or_delete_additional_resource clean_account
      clean_space delete_product_if
  delete = do
    modify_usage (λ usage. record usage { runtimes = remove (name_of prd) usage.runtimes })
    delete_listen_events world hash resource_hash prd
    deploy_or_delete_additional_resource world hash resource_hash prd
    clean_account prd.cache.account
    clean_space prd.cache.space
    is_last ← gets (λ run. is_empty run.usage.runtimes)
    delete_product_if is_last

  abbrev pub first_progress : Progress
  first_progress = record { history = prd.cache; req_resources = [] }

  module _ (client : ConfigMapClient) (yaml : Yaml) (cluster_name : String) where
    unfoldable pub deploy_with : Result (Option ProductUsage) → Stored → Outcome Progress
    unfolding with_usage ended deploy new_empty_product_usage
    deploy_with (err e) stored =
        ended first_progress (err (errorf "add product usage failed" [])) stored
    deploy_with (ok product_usage) stored =
        with_usage client yaml cluster_name prd.product_id first_progress deploy
          (Option.get_or product_usage new_empty_product_usage) stored

    unfoldable pub run_deploy : Stored → Outcome Progress
    unfolding deploy_with get_product_usage
    run_deploy stored =
        deploy_with (get_product_usage client yaml cluster_name stored prd.product_id) stored

    unfoldable pub delete_with : Result (Option ProductUsage) → Stored → Outcome Progress
    unfolding with_usage ended delete
    delete_with (err e) stored = ended first_progress (err e) stored
    delete_with (ok none) stored = ended first_progress (ok tt) stored
    delete_with (ok (some product_usage)) stored =
        with_usage client yaml cluster_name prd.product_id first_progress delete product_usage
          stored

    unfoldable pub run_delete : Stored → Outcome Progress
    unfolding delete_with get_product_usage
    run_delete stored =
        delete_with (get_product_usage client yaml cluster_name stored prd.product_id) stored
