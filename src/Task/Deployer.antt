-- ===== src/Task/Deployer.antt =====
-- `DeploymentRuntimeDeployer` of app/runtime-operator/internal/syncer/v2/task/deploymentRuntime.go: the
-- deployment and the deletion of a deployment runtime. `UpdateProductUsage` is deferred, so it runs
-- after each outcome, a panic too.
use Prim.Native.Nat.{ℕ}
use Prim.Native.String.{String}
use mathlib.Core.Option.{Option, none, some}
use mathlib.Core.List.{List, [], ◌∷◌}
use text.Mathlib.Text.{◌==◌}
use nautes.Common.Tests.{if◌then◌else◌}
use nautes.Common.Lists.{remove, set_of, difference}
use nautes.Resource.Deployment.{DeploymentRuntime}
use nautes.Resource.Deployment
use nautes.Resource.CodeRepo
use nautes.Resource.CodeRepo.{CodeRepoProvider}
use nautes.Usage.Secret.{SecretInfo, secret_type_code_repo, code_repo_permission_read_only}
use nautes.Usage.Spaces.{list_spaces}
use nautes.Usage.Accounts.{
  AccountUsage, account_of, update_spaces, list_account_spaces, account_is_removable,
}
use nautes.Usage.Accounts
use nautes.Task.Component.{
  PermissionRequest, MachineAccount, Space, Application, request_scope_account,
  space_type_kubernetes,
}
use nautes.Task.Action.{
  World, SyncHistory, Action, Step, pure, wrapped, gets, call, each, modify_usage, modify_new_cache,
  ◌>>◌, ◌>>=◌, tenant_delete_space, tenant_add_space_user, tenant_delete_space_user,
  tenant_get_account,
}
use nautes.Task.Products.{delete_product_account}
use nautes.Task.Permissions.{revoke_account_permissions}

pub record DeploymentRuntimeDeployer : Type 0 where
  pub runtime : DeploymentRuntime
  pub code_repo : CodeRepo.CodeRepo
  pub repo_provider : CodeRepoProvider
  pub product_id : String
  pub product_name : String
  pub cache : SyncHistory

-- The name of the runtime, its spaces and its account.
abbrev pub name_of : DeploymentRuntimeDeployer → String
name_of drd = drd.runtime.meta.name

unfoldable pub spaces_of : DeploymentRuntimeDeployer → List String
unfolding Deployment.get_namespaces
spaces_of drd = Deployment.get_namespaces drd.runtime

unfoldable pub account_name_of : DeploymentRuntimeDeployer → String
unfolding Deployment.get_account
account_name_of drd = Deployment.get_account drd.runtime

-- The request for an account of the product to use a space.
abbrev pub space_request : (product_id space account_name : String) → PermissionRequest
space_request product_id space account_name = record {
  resource = record { product = product_id; name = space };
  user = account_name;
  request_scope = request_scope_account;
}

unfoldable pub build_spaces : (product_id : String) → (namespaces : List String) → List Space
build_spaces product_id [] = []
build_spaces product_id (ns ∷ namespaces) =
    record {
      meta = record { product = product_id; name = ns };
      space_type = space_type_kubernetes;
      kubernetes = some ns;
      server = none;
    }
    ∷ build_spaces product_id namespaces

unfoldable pub build_app : DeploymentRuntimeDeployer → Application
unfolding build_spaces spaces_of
build_app drd = record {
  meta = record { product = drd.product_id; name = name_of drd };
  git = some (record {
    url = drd.code_repo.spec.url;
    revision = drd.runtime.spec.manifest_source.target_revision;
    path = drd.runtime.spec.manifest_source.path;
    code_repo = drd.code_repo.meta.name;
  });
  destinations = build_spaces drd.product_id (spaces_of drd);
}

unfoldable pub get_permissions_from_runtime : DeploymentRuntimeDeployer → List SecretInfo
get_permissions_from_runtime drd =
    record {
      secret_type = secret_type_code_repo;
      code_repo = some (record {
        provider_type = drd.repo_provider.spec.provider_type;
        id = drd.code_repo.meta.name;
        user = "default";
        permission = code_repo_permission_read_only;
      });
      artifact_account = none;
    }
    ∷ []

unfoldable pub get_account :
    {Cache : Type 0} → World → (product_name name : String) → Action Cache MachineAccount
get_account world product_name name run = (
  world.account run.calls product_name name,
  record run { calls = tenant_get_account product_name name ∷ run.calls },
)

module _ (world : World) (hash : SecretInfo → ℕ) (drd : DeploymentRuntimeDeployer) where
  unfoldable pub add_spaces_user : Step SyncHistory
  unfolding each update_spaces spaces_of account_name_of
  add_spaces_user = do
    each (spaces_of drd) (λ space. wrapped "add user %s to space %s failed: %w" (
        call world
          (tenant_add_space_user (space_request drd.product_id space (account_name_of drd)))))
    modify_usage (λ usage. record usage {
      account =
          update_spaces usage.account (account_name_of drd) (name_of drd) (set_of (spaces_of drd));
    })

  -- On the old account, `drd.cache.Account`.
  unfoldable pub delete_spaces_user : (old_account : MachineAccount) → Step SyncHistory
  unfolding each account_of list_account_spaces difference
  delete_spaces_user old_account = do
    account_spaces ← gets (λ run.
        list_account_spaces (account_of run.usage.account old_account.name) (name_of drd ∷ []))
    each (difference drd.cache.spaces account_spaces) (λ space.
        wrapped "delete user %s from space %s failed: %w" (
          call world
            (tenant_delete_space_user (space_request drd.product_id space old_account.name))))

  -- `DeleteProductAccount` if no other runtime uses the account, and what is left of it in the usage.
  unfoldable pub drop_account :
      (format : String) → (old_account : MachineAccount) → Step SyncHistory
  unfolding account_is_removable delete_product_account Accounts.delete_runtime
  drop_account format old_account = do
    is_removable ←
        gets (λ run. account_is_removable run.usage.account old_account.name (name_of drd))
    if is_removable then wrapped format (delete_product_account world old_account) else pure tt
    modify_usage (λ usage. record usage {
      account = Accounts.delete_runtime usage.account old_account.name (name_of drd);
    })

  unfoldable pub leave_account : (old_account : MachineAccount) → Step SyncHistory
  unfolding revoke_account_permissions delete_spaces_user drop_account
  leave_account old_account = do
    wrapped "revoke old account permissions failed: %w"
        (revoke_account_permissions world hash (name_of drd) old_account drd.cache.permissions)
    wrapped "delete space user failed: %w" (delete_spaces_user old_account)
    drop_account "delete account failed: %w" old_account

  -- The branch of `deploy` for a runtime whose account is another one than at the last deployment.
  unfoldable pub leave_old_account : (old_account : Option MachineAccount) → Step SyncHistory
  unfolding leave_account account_name_of
  leave_old_account none = pure tt
  leave_old_account (some old_account) =
      if old_account.name == account_name_of drd then pure tt else leave_account old_account

  -- The space is deleted, and then no longer listed as one of the runtime.
  unfoldable pub delete_outdate_space : (space : String) → Step SyncHistory
  unfolding remove
  delete_outdate_space space = do
    wrapped "delete outdate spaces failed: %w"
        (call world (tenant_delete_space drd.product_id space))
    modify_new_cache (λ cache. record cache { spaces = remove space cache.spaces })

  unfoldable pub delete_outdate_spaces : Step SyncHistory
  unfolding list_spaces difference each delete_outdate_space
  delete_outdate_spaces = do
    used ← gets (λ run. list_spaces run.usage.space [])
    each (difference drd.cache.spaces used) delete_outdate_space
