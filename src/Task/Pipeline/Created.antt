-- ===== src/Task/Pipeline/Created.antt =====
-- The additional application of a pipeline runtime in `Deploy` and `Delete`
-- (app/runtime-operator/internal/syncer/v2/task/pipelineRuntime.go).
use Prim.Native.Nat.{ℕ}
use Prim.Native.String.{String}
use mathlib.Core.Path.{◌≡◌, refl}
use mathlib.Core.Logic.{inl, inr}
use mathlib.Core.Bool.{Bool, true, false}
use mathlib.Core.Option.{Option, none, some}
use mathlib.Core.List.{List}
use text.Mathlib.Text.{◌==◌}
use nautes.Common.Tests.{Bool-cases}
use nautes.Common.Result.{ok}
use nautes.Common.Lists.{Any, All-of}
use nautes.Usage.Secret.{SecretInfo}
use nautes.Usage.Products.{ProductUsage}
use nautes.Task.Component.{MachineAccount, Space, Application}
use nautes.Task.Listener.{RequestResource}
use nautes.Task.Action.{
  Call, World, Run, Step, call, modify, modify_usage, modify_new_cache, lift, wrapped, ◌>>◌, ◌>>=◌,
  deployment_create_app,
}
use nautes.Task.Products.{delete_product, forgiving, delete_product_account}
use nautes.Task.Permissions.{revoke_beyond, revoke_account_permissions}
use nautes.Task.Yields.{Yields, >>-Yields, Yields-then-Keeps}
use nautes.Task.Invariants.{
  Keeps, >>-Keeps, gets-Keeps, pure-Keeps, raise-Keeps, wrapped-Keeps, each-Keeps,
}
use nautes.Task.Pipeline.Deployer.{PipelineRuntimeDeployer, Progress, build_app}
use nautes.Task.Pipeline.Steps.{
  deploy_or_delete_app, deploy_or_delete_additional_resource, forget_account,
}
use nautes.Task.Pipeline.Deploy.{
  delete, clean_account, clean_space, drop_account_if, delete_product_if,
}

-- The call has been made.
abbrev pub Called : {Cache : Type 0} → Call → Run Cache → Type 0
Called c run = Any (λ (made : Call). made ≡ c) run.calls

module _ {Cache : Type 0} (c : Call) (world : World) where
  abbrev Stays : Run Cache → Type 0
  Stays = Called c

  call-Called : (other : Call) → Keeps Stays (call world other)
  unfolding call
  call-Called other = record { keeps = λ run made. inr made }

  modify_usage-Called : (f : ProductUsage → ProductUsage) → Keeps Stays (modify_usage f)
  unfolding modify_usage modify
  modify_usage-Called f = record { keeps = λ run made. made }

  modify_new_cache-Called : (f : Cache → Cache) → Keeps Stays (modify_new_cache f)
  unfolding modify_new_cache modify
  modify_new_cache-Called f = record { keeps = λ run made. made }

  wrapped-call-Called :
      (format : String) (other : Call) → Keeps Stays (wrapped format (call world other))
  wrapped-call-Called format other = wrapped-Keeps Stays format (call-Called other)

  forgiving-Called : {step : Step Cache} → Keeps Stays step → Keeps Stays (forgiving world step)
  unfolding forgiving
  forgiving-Called inner = record { keeps = λ run made. inner.keeps run made }

  delete_product_account-Called :
      (account : MachineAccount) → Keeps Stays (delete_product_account world account)
  unfolding delete_product_account
  delete_product_account-Called account = elim (Bool-cases (account.product == "")) [
    | inl foreign ↦ rw (foreign) (raise-Keeps Stays _)
    | inr belongs ↦ rw (belongs) (
        >>-Keeps Stays (wrapped-Keeps Stays _ (forgiving-Called (call-Called _)))
          (wrapped-Keeps Stays _ (forgiving-Called (call-Called _))))
  ]

  revoke_account_permissions-Called :
      (hash : SecretInfo → ℕ) (self : String) (account : MachineAccount)
      (permissions : List SecretInfo)
      → Keeps Stays (revoke_account_permissions world hash self account permissions)
  unfolding revoke_account_permissions revoke_beyond
  revoke_account_permissions-Called hash self account permissions =
      gets-Keeps Stays _ _
        (λ run made. each-Keeps Stays _ _ (All-of (λ p. wrapped-call-Called _ _) _))

  delete_product-Called :
      (product_id product_name : String)
      → Keeps Stays (delete_product world product_id product_name)
  unfolding delete_product
  delete_product-Called product_id product_name =
      >>-Keeps Stays (wrapped-call-Called _ _)
        (>>-Keeps Stays (wrapped-call-Called _ _) (wrapped-call-Called _ _))

module _ (world : World) (hash : SecretInfo → ℕ) (resource_hash : RequestResource → ℕ)
    (prd : PipelineRuntimeDeployer) where
  module _ (c : Call) where
    drop_account_if-Called :
        (is_removable : Bool) (old_account : MachineAccount)
        → Keeps (Called c) (drop_account_if world hash resource_hash prd is_removable old_account)
    unfolding drop_account_if
    drop_account_if-Called false old_account = pure-Keeps (Called c) tt
    drop_account_if-Called true old_account =
        wrapped-Keeps (Called c) _ (delete_product_account-Called c world old_account)

    clean_account-Called :
        (old_account : Option MachineAccount)
        → Keeps (Called c) (clean_account world hash resource_hash prd old_account)
    unfolding clean_account forget_account
    clean_account-Called none = pure-Keeps (Called c) tt
    clean_account-Called (some old_account) =
        let I : Run Progress → Type 0 = Called c in
        >>-Keeps I
          (wrapped-Keeps I _ (
            revoke_account_permissions-Called c world hash prd.runtime.meta.name old_account
              prd.cache.permissions))
          (gets-Keeps I _ _ (λ run made.
            >>-Keeps I (drop_account_if-Called _ old_account)
              (>>-Keeps I (modify_usage-Called c world _) (modify_new_cache-Called c world _))))

    clean_space-Called :
        (old_space : Option Space)
        → Keeps (Called c) (clean_space world hash resource_hash prd old_space)
    unfolding clean_space
    clean_space-Called none = pure-Keeps (Called c) tt
    clean_space-Called (some old_space) =
        >>-Keeps (Called c) (wrapped-call-Called c world _ _) (modify_new_cache-Called c world _)

    delete_product_if-Called :
        (is_last : Bool) → Keeps (Called c) (delete_product_if world hash resource_hash prd is_last)
    unfolding delete_product_if
    delete_product_if-Called false = pure-Keeps (Called c) tt
    delete_product_if-Called true = wrapped-Keeps (Called c) _ (delete_product-Called c world _ _)

  module _ (app : Application) where
    additional-Called :
        build_app prd ≡ ok (some app)
        → Yields
            (Called (deployment_create_app app))
            (deploy_or_delete_additional_resource world hash resource_hash prd)
    unfolding deploy_or_delete_additional_resource deploy_or_delete_app wrapped lift ◌>>◌ ◌>>=◌
        modify_new_cache modify call
    additional-Called built = record { yields = λ run done h. rw (built) (inl refl) }

    -- A `delete` without error of a runtime that asks for an additional application has made the call
    -- that creates it.
    pub delete-Called :
        (run : Run Progress)
        → build_app prd ≡ ok (some app)
        → (delete world hash resource_hash prd run).0 ≡ ok tt
        → Called (deployment_create_app app) (delete world hash resource_hash prd run).1
    unfolding delete
    delete-Called run built h =
        let C : Run Progress → Type 0 = Called (deployment_create_app app) in
        (>>-Yields C _ (
            >>-Yields C _ (
              Yields-then-Keeps C (additional-Called built) (
                >>-Keeps C (clean_account-Called _ prd.cache.account) (
                  >>-Keeps C (clean_space-Called _ prd.cache.space)
                    (gets-Keeps C _ _ (λ r made. delete_product_if-Called _ _))))))).yields
          run tt h
