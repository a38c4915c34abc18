-- ===== src/Task/Pipeline/Careful/Accounts.antt =====
-- The steps on accounts, and those on events, of
-- app/runtime-operator/internal/syncer/v2/task/pipelineRuntime.go leave the other runtimes of the
-- product what they use.
use Prim.Native.Nat.{ℕ}
use Prim.Native.String.{String}
use mathlib.Core.Path.{◌≡◌, refl, sym, subst, ◌∙◌}
use mathlib.Core.Logic.{inl, inr}
use mathlib.Core.Bool.{Bool, true, false}
use mathlib.Core.Option.{Option, none, some}
use mathlib.Core.List.{List, [], ◌∷◌}
use text.Mathlib.Text.{◌==◌}
use nautes.Common.Tests.{Bool-cases}
use nautes.Common.Lists.{All-of, set_of}
use nautes.Common.Result.{ok, deref}
use nautes.Usage.Secret.{SecretInfo}
use nautes.Usage.Spaces.{SpaceUsage}
use nautes.Usage.Accounts.{account_is_removable}
use nautes.Usage.Products.{ProductUsage}
use nautes.Task.Component.{MachineAccount, Space}
use nautes.Task.Listener.{RequestResource, AuthInfo}
use nautes.Task.Action.{World, Run, handler_create_resource, tenant_add_space_user}
use nautes.Task.Deployer.{space_request}
use nautes.Task.Others.{Others, others, others_of-update_spaces, others_of-delete_runtime}
use nautes.Task.Invariants.{
  Keeps, >>-Keeps, >>=-Keeps, gets-Keeps, pure-Keeps, lift-Keeps, lift-then-Keeps, wrapped-Keeps,
}
use nautes.Task.Safe.{Scope, removable_lem}
use nautes.Task.Careful.{
  modify_account-IsCareful, modify_new_cache-IsCareful, call-IsCareful, ask-IsCareful,
  each-IsCareful, delete_product-IsCareful, delete_product_account-IsCareful,
  revoke_account_permissions-IsCareful,
}
use nautes.Task.Pipeline.Deployer.{
  PipelineRuntimeDeployer, Progress, name_of, namespace_of, account_name_of,
}
use nautes.Task.Products.{delete_product_account}
use nautes.Task.Pipeline.Consumers.{convert_runtime_to_consumers}
use nautes.Task.Pipeline.HookSpace.{create_hook_resource}
use nautes.Task.Pipeline.Steps.{
  sync_hook_resources, sync_listen_events, delete_listen_events, sync_namespace_permission,
  withdraw_from_account, forget_account, revoke_old_permissions,
}
use nautes.Task.Pipeline.Deploy.{
  leave_account, leave_old_account, drop_account_if, clean_account, delete_product_if,
}
use nautes.Task.Pipeline.Careful.{
  IsOwnSpace, IsFine, convert_triggers-IsCareful, remove_unused_hook_resource-IsCareful,
}

-- The space that is dereferenced is the runtime's own.
own_space_lem :
    (scope : Scope) (o : Others) (cached : Option Space) (space : Space)
    → deref cached ≡ ok space
    → IsOwnSpace scope o cached
    → IsOwnSpace scope o (some space)
own_space_lem scope o none space found own = cc
own_space_lem scope o (some cached) space found own =
    let same : cached ≡ space = cc in subst (λ s. IsOwnSpace scope o (some s)) same own

module _ (world : World) (hash : SecretInfo → ℕ) (resource_hash : RequestResource → ℕ)
    (prd : PipelineRuntimeDeployer) (scope : Scope) (mine : List String) (start : ProductUsage)
    (Own : List String → SpaceUsage → Type 0) where
  sync_hook_resources-IsCareful :
      (auth_info : AuthInfo) (space : Space) (resources : List RequestResource)
      → Keeps
          (IsFine world hash resource_hash prd scope mine start Own)
          (sync_hook_resources world hash resource_hash prd auth_info space resources)
  unfolding sync_hook_resources create_hook_resource
  sync_hook_resources-IsCareful auth_info space resources =
      let J = IsFine world hash resource_hash prd scope mine start Own in
      >>-Keeps J
        (wrapped-Keeps J _ (
          each-IsCareful (name_of prd) hash scope mine start Own world _
            (handler_create_resource space auth_info) _ (All-of (λ req. tt) _)))
        (>>=-Keeps J (lift-Keeps J _) (λ old_space.
          >>-Keeps J
            (wrapped-Keeps J _ (
              remove_unused_hook_resource-IsCareful world hash resource_hash prd scope mine start
                Own old_space _))
            (modify_new_cache-IsCareful (name_of prd) hash scope mine start Own _)))

  pub sync_listen_events-IsCareful :
      (account : MachineAccount) (auth_info : AuthInfo)
      → Keeps
          (IsFine world hash resource_hash prd scope mine start Own)
          (sync_listen_events world hash resource_hash prd account auth_info)
  unfolding sync_listen_events convert_runtime_to_consumers
  sync_listen_events-IsCareful account auth_info =
      let J = IsFine world hash resource_hash prd scope mine start Own in
      let calls = call-IsCareful (name_of prd) hash scope mine start Own world in
      >>=-Keeps J (wrapped-Keeps J _ (lift-Keeps J _)) (λ set.
        >>-Keeps J (modify_new_cache-IsCareful (name_of prd) hash scope mine start Own _) (
          >>-Keeps J (wrapped-Keeps J _ (calls _ tt)) (
            >>=-Keeps J
              (wrapped-Keeps J _ (
                >>=-Keeps J
                  (convert_triggers-IsCareful world hash resource_hash prd scope mine start Own
                    set.unique_id account set.event_sources prd.runtime.spec.pipeline_triggers)
                  (λ consumers. pure-Keeps J _)))
              (λ consumers.
                >>=-Keeps J
                  (wrapped-Keeps J _
                    (ask-IsCareful (name_of prd) hash scope mine start Own world _ _ tt))
                  (λ space. gets-Keeps J _ _ (λ run good.
                    >>-Keeps J (sync_hook_resources-IsCareful auth_info space _)
                      (wrapped-Keeps J _ (calls _ tt))))))))

  abbrev pub IsKept : Run Progress → Type 0
  IsKept = IsFine world hash resource_hash prd scope mine start Own

  pub delete_listen_events-IsCareful :
      Keeps IsKept (delete_listen_events world hash resource_hash prd)
  unfolding delete_listen_events
  delete_listen_events-IsCareful =
      >>-Keeps IsKept
        (wrapped-Keeps IsKept _ (call-IsCareful (name_of prd) hash scope mine start Own world _ tt))
        (>>-Keeps IsKept
          (wrapped-Keeps IsKept _
            (call-IsCareful (name_of prd) hash scope mine start Own world _ refl))
          (>>-Keeps IsKept
            (wrapped-Keeps IsKept _ (
              remove_unused_hook_resource-IsCareful world hash resource_hash prd scope mine start
                Own _ none))
            (modify_new_cache-IsCareful (name_of prd) hash scope mine start Own _)))

  pub sync_namespace_permission-IsCareful :
      Keeps IsKept (sync_namespace_permission world hash resource_hash prd)
  unfolding sync_namespace_permission
  sync_namespace_permission-IsCareful =
      >>-Keeps IsKept
        (each-IsCareful (name_of prd) hash scope mine start Own world _
          (λ space.
            tenant_add_space_user (space_request prd.product_id space (account_name_of prd)))
          (namespace_of prd ∷ []) (All-of (λ space. tt) (namespace_of prd ∷ [])))
        (modify_account-IsCareful (name_of prd) hash scope mine start Own _ (λ u.
          others_of-update_spaces (name_of prd) u.account (account_name_of prd)
            (set_of (namespace_of prd ∷ []))))

  forget_account-IsCareful :
      (old_account : MachineAccount)
      → Keeps IsKept (forget_account world hash resource_hash prd old_account)
  unfolding forget_account
  forget_account-IsCareful old_account =
      modify_account-IsCareful (name_of prd) hash scope mine start Own _
        (λ u. others_of-delete_runtime (name_of prd) u.account old_account.name)

  -- An account that can be removed is one that no other runtime uses.
  delete_removable-IsCareful :
      (old_account : MachineAccount) (run : Run Progress)
      → IsKept run
      → account_is_removable run.usage.account old_account.name (name_of prd) ≡ true
      → Keeps IsKept (delete_product_account world old_account)
  delete_removable-IsCareful old_account run good removable =
      delete_product_account-IsCareful (name_of prd) hash scope mine start Own world old_account (
        sym (λ i. (good.same i).account old_account.name)
        ∙ removable_lem (name_of prd) run.usage.account old_account.name removable)

  withdraw_from_account-IsCareful :
      IsOwnSpace scope (others (name_of prd) start) prd.cache.space
      → (old_account : MachineAccount)
      → Keeps IsKept (withdraw_from_account world hash resource_hash prd old_account)
  unfolding withdraw_from_account revoke_old_permissions
  withdraw_from_account-IsCareful own old_account =
      >>-Keeps IsKept
        (wrapped-Keeps IsKept _ (
          revoke_account_permissions-IsCareful (name_of prd) hash scope mine start Own world
            old_account prd.cache.permissions))
        (lift-then-Keeps IsKept _ _ (λ old_space found. wrapped-Keeps IsKept _ (
          call-IsCareful (name_of prd) hash scope mine start Own world _ (
            (own_space_lem scope (others (name_of prd) start) prd.cache.space old_space found own).1
              old_account.name))))

  leave_account-IsCareful :
      IsOwnSpace scope (others (name_of prd) start) prd.cache.space
      → (old_account : MachineAccount)
      → Keeps IsKept (leave_account world hash resource_hash prd old_account)
  unfolding leave_account
  leave_account-IsCareful own old_account = gets-Keeps IsKept _ _ (λ run good.
      >>-Keeps IsKept
        (elim (Bool-cases (account_is_removable run.usage.account old_account.name (name_of prd))) [
          | inl removable ↦
              rw (removable)
                (wrapped-Keeps IsKept _ (delete_removable-IsCareful old_account run good removable))
          | inr used ↦ rw (used) (withdraw_from_account-IsCareful own old_account)
        ])
        (forget_account-IsCareful old_account))

  pub leave_old_account-IsCareful :
      IsOwnSpace scope (others (name_of prd) start) prd.cache.space
      → (old_account : Option MachineAccount)
      → Keeps IsKept (leave_old_account world hash resource_hash prd old_account)
  unfolding leave_old_account
  leave_old_account-IsCareful own none = pure-Keeps IsKept tt
  leave_old_account-IsCareful own (some old_account) =
      elim (Bool-cases (account_name_of prd == old_account.name)) [
        | inl kept ↦ rw (kept) (pure-Keeps IsKept tt)
        | inr left ↦ rw (left) (leave_account-IsCareful own old_account)
      ]

  drop_account_if-IsCareful :
      (is_removable : Bool) (old_account : MachineAccount) (run : Run Progress)
      → IsKept run
      → account_is_removable run.usage.account old_account.name (name_of prd) ≡ is_removable
      → Keeps IsKept (drop_account_if world hash resource_hash prd is_removable old_account)
  unfolding drop_account_if
  drop_account_if-IsCareful false old_account run good test = pure-Keeps IsKept tt
  drop_account_if-IsCareful true old_account run good test =
      wrapped-Keeps IsKept _ (delete_removable-IsCareful old_account run good test)

  pub clean_account-IsCareful :
      (old_account : Option MachineAccount)
      → Keeps IsKept (clean_account world hash resource_hash prd old_account)
  unfolding clean_account
  clean_account-IsCareful none = pure-Keeps IsKept tt
  clean_account-IsCareful (some old_account) =
      >>-Keeps IsKept
        (wrapped-Keeps IsKept _ (
          revoke_account_permissions-IsCareful (name_of prd) hash scope mine start Own world
            old_account prd.cache.permissions))
        (gets-Keeps IsKept _ _ (λ run good.
          >>-Keeps IsKept (drop_account_if-IsCareful _ old_account run good refl) (
            >>-Keeps IsKept (forget_account-IsCareful old_account)
              (modify_new_cache-IsCareful (name_of prd) hash scope mine start Own _))))

  pub delete_product_if-IsCareful :
      (is_last : Bool)
      → (is_last ≡ true → (others (name_of prd) start).runtimes ≡ [])
      → Keeps IsKept (delete_product_if world hash resource_hash prd is_last)
  unfolding delete_product_if
  delete_product_if-IsCareful false alone = pure-Keeps IsKept tt
  delete_product_if-IsCareful true alone = wrapped-Keeps IsKept _ (
      delete_product-IsCareful (name_of prd) hash scope mine start Own world prd.product_id
        prd.product_name (alone refl))
