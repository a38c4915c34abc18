-- ===== src/Task/Products.antt =====
-- The calls that create and delete a product and an account in the components
-- (app/runtime-operator/internal/syncer/v2/task/syncer.go).
use Prim.Native.String.{String}
use mathlib.Core.List.{[], ◌∷◌}
use text.Mathlib.Text.{◌==◌}
use nautes.Common.Tests.{if◌then◌else◌}
use nautes.Common.Result.{errorf, ok, err, Check}
use nautes.Task.Component.{
  PermissionRequest, MachineAccount, request_scope_product, is_account_not_found,
}
use nautes.Task.Action.{
  World, Step, raise, wrapped, call, ◌>>◌, deployment_create_product, deployment_delete_product,
  deployment_add_product_user, deployment_delete_product_user, tenant_create_product,
  tenant_delete_product, tenant_delete_account, secret_delete_account,
}

-- The request for the permissions of the product's group.
abbrev pub product_request : (product_id product_name : String) → PermissionRequest
product_request product_id product_name = record {
  resource = record { product = product_id; name = product_id };
  user = product_name;
  request_scope = request_scope_product;
}

-- No error is made of an account that is not there.
unfoldable pub ignore_account_not_found : Check → Check
unfolding is_account_not_found
ignore_account_not_found (ok done) = ok done
ignore_account_not_found (err e) = if is_account_not_found e then ok tt else err e

module _ {Cache : Type 0} (world : World) where
  unfoldable pub create_product : (product_id product_name : String) → Step Cache
  create_product product_id product_name = do
    wrapped "create product in multi tenant failed: %w"
        (call world (tenant_create_product product_id))
    wrapped "create product in deployment failed: %w"
        (call world (deployment_create_product product_id))
    wrapped "grant deployment product %s admin permission to group %s failed: %w"
        (call world (deployment_add_product_user (product_request product_id product_name)))

  unfoldable pub delete_product : (product_id product_name : String) → Step Cache
  delete_product product_id product_name = do
    wrapped "revoke deployment product %s admin permission from group %s failed: %w"
        (call world (deployment_delete_product_user (product_request product_id product_name)))
    wrapped "delete product in multi tenant failed: %w"
        (call world (tenant_delete_product product_id))
    wrapped "delete product in deployment failed: %w"
        (call world (deployment_delete_product product_id))

  -- The deletion of an account, which need not be there.
  unfoldable pub forgiving : Step Cache → Step Cache
  unfolding ignore_account_not_found
  forgiving step run = let (result, after) = step run in (ignore_account_not_found result, after)

  unfoldable pub delete_product_account : MachineAccount → Step Cache
  unfolding forgiving
  delete_product_account account =
      if account.product == ""
      then raise (errorf "account %s is not belongs to product" (account.name ∷ []))
      else do
        wrapped "delete account %s in secret management failed: %w"
            (forgiving (call world (secret_delete_account account)))
        wrapped "delete account %s in multi tenant failed: %w"
            (forgiving (call world (tenant_delete_account account.product account.name)))
