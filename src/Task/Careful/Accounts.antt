-- ===== src/Task/Careful/Accounts.antt =====
-- The steps of `Deploy` and `Delete` of app/runtime-operator/internal/syncer/v2/task/deploymentRuntime.go leave the
-- other runtimes of the product what they use.
use Prim.Native.Nat.{ℕ}
use Prim.Native.String.{String}
use mathlib.Core.Path.{◌≡◌, refl, sym, subst, ◌∙◌}
use mathlib.Core.Logic.{inl, inr}
use mathlib.Core.Bool.{Bool, true, false}
use mathlib.Core.Option.{Option, none, some}
use mathlib.Core.List.{List, []}
use text.Mathlib.Text.{◌==◌}
use nautes.Common.Tests.{Bool-cases}
use nautes.Common.Lists.{Any, has, All-imp, All-of, set_of}
use nautes.Usage.Secret.{SecretInfo}
use nautes.Usage.Spaces.{SpaceUsage}
use nautes.Usage.Accounts.{account_of, account_is_removable}
use nautes.Usage.Products.{ProductUsage}
use nautes.Task.Component.{MachineAccount}
use nautes.Task.Action.{
  SyncHistory, Call, World, Run, tenant_add_space_user, tenant_delete_space_user,
}
use nautes.Task.Deployer.{
  DeploymentRuntimeDeployer, name_of, spaces_of, account_name_of, space_request, add_spaces_user,
  delete_spaces_user, drop_account, leave_account, leave_old_account, get_account,
}
use nautes.Task.Deploy.{clean_account, delete_product_if}
use nautes.Task.Others.{Others, others, others_of-update_spaces, others_of-delete_runtime}
use nautes.Task.Invariants.{Keeps, >>-Keeps, gets-Keeps, pure-Keeps, wrapped-Keeps}
use nautes.Task.Hashes.{All-difference}
use nautes.Task.Safe.{Scope, HasSpace, UsesSpace, unlisted_account_space, removable_lem}
use nautes.Task.Careful.{
  IsGood, modify_account-IsCareful, each-IsCareful, delete_product-IsCareful,
  delete_product_account-IsCareful, revoke_account_permissions-IsCareful,
}

-- What the steps keep to is what the scope allows.
pub record Fits (drd : DeploymentRuntimeDeployer) (scope : Scope) (o : Others) : Type 0 where
  pub frees :
      (space : String)
      → has drd.cache.spaces space ≡ true
      → ¬ Any (HasSpace space) o.space
      → scope.Frees o space
  pub leaves :
      (space account_name : String)
      → ¬ Any (UsesSpace space) (o.account account_name)
      → scope.Leaves o space account_name
  pub owns : scope.Owns o (name_of drd)

module _ (world : World) (hash : SecretInfo → ℕ) (drd : DeploymentRuntimeDeployer) (scope : Scope)
    (mine : List String) (start : ProductUsage) (Own : List String → SpaceUsage → Type 0) where
  abbrev pub IsFine : Run SyncHistory → Type 0
  IsFine = IsGood (name_of drd) hash scope mine start Own

  pub add_spaces_user-IsCareful : Keeps IsFine (add_spaces_user world hash drd)
  unfolding add_spaces_user
  add_spaces_user-IsCareful =
      >>-Keeps IsFine
        (each-IsCareful (name_of drd) hash scope mine start Own world _
          (λ space.
            tenant_add_space_user (space_request drd.product_id space (account_name_of drd)))
          (spaces_of drd) (All-of (λ space. tt) (spaces_of drd)))
        (modify_account-IsCareful (name_of drd) hash scope mine start Own _ (λ u.
          others_of-update_spaces (name_of drd) u.account (account_name_of drd)
            (set_of (spaces_of drd))))

  pub delete_spaces_user-IsCareful :
      Fits drd scope (others (name_of drd) start)
      → (old_account : MachineAccount)
      → Keeps IsFine (delete_spaces_user world hash drd old_account)
  unfolding delete_spaces_user
  delete_spaces_user-IsCareful fits old_account =
      let make : String → Call =
        λ space. tenant_delete_space_user (space_request drd.product_id space old_account.name) in
      gets-Keeps IsFine _ _ (λ run good.
        each-IsCareful (name_of drd) hash scope mine start Own world _ make _ (
          All-imp
            (λ space absent. fits.leaves space old_account.name (
              subst (λ (o : Others). ¬ Any (UsesSpace space) (o.account old_account.name)) good.same
                (unlisted_account_space (name_of drd)
                  (account_of run.usage.account old_account.name) space absent)))
            _ (All-difference drd.cache.spaces _)))

  pub drop_account-IsCareful :
      (format : String) (old_account : MachineAccount)
      → Keeps IsFine (drop_account world hash drd format old_account)
  unfolding drop_account
  drop_account-IsCareful format old_account = gets-Keeps IsFine _ _ (λ run good.
      >>-Keeps IsFine
        (elim (Bool-cases (account_is_removable run.usage.account old_account.name (name_of drd))) [
          | inl removable ↦
              let unused =
                sym (λ i. (good.same i).account old_account.name)
                ∙ removable_lem (name_of drd) run.usage.account old_account.name removable in
              rw (removable) (
                wrapped-Keeps IsFine _ (
                  delete_product_account-IsCareful (name_of drd) hash scope mine start Own world
                    old_account unused))
          | inr used ↦ rw (used) (pure-Keeps IsFine tt)
        ])
        (modify_account-IsCareful (name_of drd) hash scope mine start Own _
          (λ u. others_of-delete_runtime (name_of drd) u.account old_account.name)))

  pub leave_account-IsCareful :
      Fits drd scope (others (name_of drd) start)
      → (old_account : MachineAccount) → Keeps IsFine (leave_account world hash drd old_account)
  unfolding leave_account
  leave_account-IsCareful fits old_account =
      >>-Keeps IsFine
        (wrapped-Keeps IsFine _ (
          revoke_account_permissions-IsCareful (name_of drd) hash scope mine start Own world
            old_account drd.cache.permissions))
        (>>-Keeps IsFine (wrapped-Keeps IsFine _ (delete_spaces_user-IsCareful fits old_account))
          (drop_account-IsCareful _ old_account))

  pub leave_old_account-IsCareful :
      Fits drd scope (others (name_of drd) start)
      → (old_account : Option MachineAccount)
      → Keeps IsFine (leave_old_account world hash drd old_account)
  unfolding leave_old_account
  leave_old_account-IsCareful fits none = pure-Keeps IsFine tt
  leave_old_account-IsCareful fits (some old_account) =
      elim (Bool-cases (old_account.name == account_name_of drd)) [
        | inl kept ↦ rw (kept) (pure-Keeps IsFine tt)
        | inr left ↦ rw (left) (leave_account-IsCareful fits old_account)
      ]

  pub clean_account-IsCareful :
      (old_account : Option MachineAccount)
      → Keeps IsFine (clean_account world hash drd old_account)
  unfolding clean_account
  clean_account-IsCareful none = pure-Keeps IsFine tt
  clean_account-IsCareful (some old_account) =
      >>-Keeps IsFine
        (wrapped-Keeps IsFine _ (
          revoke_account_permissions-IsCareful (name_of drd) hash scope mine start Own world
            old_account drd.cache.permissions))
        (drop_account-IsCareful _ old_account)

  pub get_account-IsCareful :
      (product_name name : String) → Keeps IsFine (get_account world product_name name)
  unfolding get_account
  get_account-IsCareful product_name name = record {
    keeps = λ run good. record { own = good.own; same = good.same; safe = (tt, good.safe) };
  }

  pub delete_product_if-IsCareful :
      (is_last : Bool)
      → (is_last ≡ true → (others (name_of drd) start).runtimes ≡ [])
      → Keeps IsFine (delete_product_if world hash drd is_last)
  unfolding delete_product_if
  delete_product_if-IsCareful false alone = pure-Keeps IsFine tt
  delete_product_if-IsCareful true alone = wrapped-Keeps IsFine _ (
      delete_product-IsCareful (name_of drd) hash scope mine start Own world drd.product_id
        drd.product_name (alone refl))
