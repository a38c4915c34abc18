-- ===== src/Task/Deploy.antt =====
-- `Deploy` and `Delete` of `DeploymentRuntimeDeployer`
-- (app/runtime-operator/internal/syncer/v2/task/deploymentRuntime.go). `UpdateProductUsage` is
-- deferred, so it runs after each outcome, a panic too; an error of it is only logged.
use Prim.Native.Nat.{ℕ}
use Prim.Native.String.{String}
use mathlib.Core.Bool.{Bool, true, false}
use mathlib.Core.Option
use mathlib.Core.Option.{Option, none, some}
use mathlib.Core.List.{[], ◌∷◌}
use nautes.Common.Tests.{is_empty}
use nautes.Common.Result.{Result, ok, err, wrap}
use nautes.Common.Lists.{insert, remove, set_of, union, difference}
use nautes.Usage.Secret.{SecretInfo}
use nautes.Usage.Spaces.{update_space_usage, list_spaces}
use nautes.Usage.Spaces
use nautes.Usage.Products.{ProductUsage, Yaml, new_empty_product_usage}
use nautes.Usage.Controller.{Stored, ConfigMapClient, get_product_usage}
use nautes.Task.Component.{MachineAccount}
use nautes.Task.Action.{
  World, SyncHistory, Step, pure, wrapped, gets, call, each, modify_usage, modify_new_cache, ◌>>◌,
  ◌>>=◌, tenant_create_space, tenant_delete_space, tenant_create_account, deployment_create_app,
  deployment_delete_app, secret_create_account,
}
use nautes.Task.Products.{create_product, delete_product}
use nautes.Task.Permissions.{sync_account_permissions, revoke_account_permissions}
use nautes.Task.Ending.{Outcome, with_usage, ended}
use nautes.Task.Deployer.{
  DeploymentRuntimeDeployer, name_of, spaces_of, account_name_of, build_app,
  get_permissions_from_runtime, add_spaces_user, leave_old_account, drop_account,
  delete_outdate_spaces, get_account,
}

module _ (world : World) (hash : SecretInfo → ℕ) (drd : DeploymentRuntimeDeployer) where
  -- `deploy` from where the usage of the product is known.
  unfoldable pub deploy : Step SyncHistory
  unfolding create_product each update_space_usage leave_old_account add_spaces_user get_account
      sync_account_permissions get_permissions_from_runtime delete_outdate_spaces build_app insert
      union set_of spaces_of account_name_of
  deploy = do
    modify_usage (λ usage. record usage { runtimes = insert (name_of drd) usage.runtimes })
    wrapped "create product in components failed: %w"
        (create_product world drd.product_id drd.product_name)
    each (spaces_of drd) (λ space.
        wrapped "create space failed: %w" (call world (tenant_create_space drd.product_id space)))
    modify_usage (λ usage. record usage {
      space = update_space_usage usage.space (name_of drd) (set_of (spaces_of drd));
    })
    modify_new_cache (λ cache. record cache { spaces = union (spaces_of drd) cache.spaces })
    leave_old_account world hash drd drd.cache.account
    wrapped "create account in product failed: %w"
        (call world (tenant_create_account drd.product_id (account_name_of drd)))
    add_spaces_user world hash drd
    account ←
        wrapped "get account %s's info failed: %w"
          (get_account world drd.product_id (account_name_of drd))
    wrapped "create account in secret management failed: %w"
        (call world (secret_create_account account))
    wrapped "sync permission in secret management failed: %w" (
        sync_account_permissions world hash (name_of drd) account (get_permissions_from_runtime drd)
          drd.cache.permissions)
    modify_new_cache (λ cache. record cache {
      permissions = get_permissions_from_runtime drd;
      account = some account;
    })
    delete_outdate_spaces world hash drd
    call world (deployment_create_app (build_app drd))

  -- The branch of `delete` for a runtime that has had an account.
  unfoldable pub clean_account : (old_account : Option MachineAccount) → Step SyncHistory
  unfolding revoke_account_permissions drop_account
  clean_account none = pure tt
  clean_account (some old_account) = do
    wrapped "revoke permission in secret management failed: %w"
        (revoke_account_permissions world hash (name_of drd) old_account drd.cache.permissions)
    drop_account world hash drd "delete product account failed: %w" old_account

  unfoldable pub delete_product_if : (is_last : Bool) → Step SyncHistory
  unfolding delete_product
  delete_product_if false = pure tt
  delete_product_if true =
      wrapped "delete product in components failed: %w"
        (delete_product world drd.product_id drd.product_name)

  -- `delete` from where the usage of the product is known.
  unfoldable pub delete : Step SyncHistory
  unfolding remove Spaces.delete_runtime build_app clean_account list_spaces difference each
      delete_product_if
  delete = do
    modify_usage (λ usage. record usage {
      runtimes = remove (name_of drd) usage.runtimes;
      space = Spaces.delete_runtime usage.space (name_of drd);
    })
    call world (deployment_delete_app (build_app drd))
    clean_account drd.cache.account
    product_spaces ← gets (λ run. list_spaces run.usage.space (name_of drd ∷ []))
    each (difference drd.cache.spaces product_spaces) (λ space.
        wrapped "delete space failed: %w" (call world (tenant_delete_space drd.product_id space)))
    is_last ← gets (λ run. is_empty run.usage.runtimes)
    delete_product_if is_last

  module _ (client : ConfigMapClient) (yaml : Yaml) (cluster_name : String) where
    unfoldable pub deploy_with : Result (Option ProductUsage) → Stored → Outcome SyncHistory
    unfolding with_usage ended deploy new_empty_product_usage
    deploy_with (err e) stored = ended drd.cache (err e) stored
    deploy_with (ok product_usage) stored =
        with_usage client yaml cluster_name drd.product_id drd.cache deploy
          (Option.get_or product_usage new_empty_product_usage) stored

    unfoldable pub run_deploy : Stored → Outcome SyncHistory
    unfolding deploy_with get_product_usage
    run_deploy stored =
        deploy_with
          (wrap "get usage failed: %w"
            (get_product_usage client yaml cluster_name stored drd.product_id))
          stored

    unfoldable pub delete_with : Result (Option ProductUsage) → Stored → Outcome SyncHistory
    unfolding with_usage ended delete
    delete_with (err e) stored = ended drd.cache (err e) stored
    delete_with (ok none) stored = ended drd.cache (ok tt) stored
    delete_with (ok (some product_usage)) stored =
        with_usage client yaml cluster_name drd.product_id drd.cache delete product_usage stored

    unfoldable pub run_delete : Stored → Outcome SyncHistory
    unfolding delete_with get_product_usage
    run_delete stored =
        delete_with
          (wrap "get usage failed: %w"
            (get_product_usage client yaml cluster_name stored drd.product_id))
          stored
