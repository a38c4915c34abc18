-- ===== src/Task/Pipeline/Careful/Deploying.antt =====
-- `Deploy` and `Delete` of app/runtime-operator/internal/syncer/v2/task/pipelineRuntime.go leave the
-- other runtimes of the product what they use.
use Prim.Native.Nat.{ℕ}
use Prim.Native.String.{String}
use mathlib.Core.Path.{◌≡◌, refl, sym, subst, ◌∙◌}
use mathlib.Core.Bool.{true, false}
use mathlib.Core.Option.{Option, none, some}
use mathlib.Core.List.{List, [], ◌∷◌}
use native.Mathlib.Omega.{arith}
use text.Mathlib.TextEquality.{eq_iff}
use nautes.Common.Tests.{is_empty}
use nautes.Common.Lists.{has, insert, remove, has-insert, has-remove}
use nautes.Common.Result.{ok, wrap, wrap-eq-ok, >>=-eq-ok}
use nautes.Usage.Secret.{SecretInfo}
use nautes.Usage.Spaces.{SpaceUsage}
use nautes.Usage.Products.{ProductUsage}
use nautes.Resource.Pipeline.{AdditionalResourcesGit}
use nautes.Task.Component.{Space, Application}
use nautes.Task.Listener.{RequestResource}
use nautes.Task.Action.{World, Run, ask, lift, wrapped, tenant_get_account}
use nautes.Task.Deployer.{get_account}
use nautes.Task.Others.{others, same_runtimes, remove-insert, remove-remove}
use nautes.Task.Invariants.{
  Keeps, Takes, Keeps-Takes, modify_usage-Takes, >>-Keeps, >>=-Keeps, gets-Keeps, pure-Keeps,
  lift-then-Keeps, wrapped-Keeps,
}
use nautes.Task.Careful.{
  modify_new_cache-IsCareful, call-IsCareful, ask-IsCareful, create_product-IsCareful,
  sync_account_permissions-IsCareful,
}
use nautes.Task.Pipeline.Deployer.{
  PipelineRuntimeDeployer, Progress, name_of, namespace_of, build_additional_app_name,
  additional_git, additional_source, build_app_of, build_app, get_permissions_from_runtime,
}
use nautes.Task.Pipeline.Steps.{deploy_or_delete_app, deploy_or_delete_additional_resource}
use nautes.Task.Pipeline.Deploy.{deploy, clean_space}
use nautes.Task.Pipeline.Deploy
use nautes.Task.Safe.{Scope}
use nautes.Task.Pipeline.Careful.{IsOwnSpace, IsOwnApp, Fits, IsFine}
use nautes.Task.Pipeline.Careful.Accounts.{
  sync_listen_events-IsCareful, delete_listen_events-IsCareful, sync_namespace_permission-IsCareful,
  leave_old_account-IsCareful, clean_account-IsCareful, delete_product_if-IsCareful,
}

build_app_of-name :
    (prd : PipelineRuntimeDeployer) (git : Option AdditionalResourcesGit) (app : Application)
    → build_app_of prd git ≡ ok (some app)
    → app.meta.name ≡ build_additional_app_name (name_of prd)
unfolding build_app_of
build_app_of-name prd none app h = cc
build_app_of-name prd (some git) app h =
    let (source, found, made) = >>=-eq-ok (additional_source prd.snapshot git) _ h in cc

module _ (world : World) (hash : SecretInfo → ℕ) (resource_hash : RequestResource → ℕ)
    (prd : PipelineRuntimeDeployer) (scope : Scope) (start : ProductUsage) where
  abbrev IsListed : List String → SpaceUsage → Type 0
  IsListed runtimes space = has runtimes (name_of prd) ≡ true

  abbrev IsGone : List String → SpaceUsage → Type 0
  IsGone runtimes space = has runtimes (name_of prd) ≡ false

  -- A careful run of `deploy`, which may not delete the runtime's namespace, and of `delete`.
  abbrev Deploys : (Own : List String → SpaceUsage → Type 0) → Run Progress → Type 0
  Deploys Own = IsFine world hash resource_hash prd scope (namespace_of prd ∷ []) start Own

  abbrev Deletes : (Own : List String → SpaceUsage → Type 0) → Run Progress → Type 0
  Deletes Own = IsFine world hash resource_hash prd scope [] start Own

  list_runtime :
      (run : Run Progress)
      → Deploys (λ runtimes space. Unit) run
      → Deploys IsListed (record run {
        usage = record run.usage { runtimes = insert (name_of prd) run.usage.runtimes };
      })
  list_runtime run good = record {
    own = ground (
      arith,
      has-insert (name_of prd) (name_of prd) run.usage.runtimes,
      eq_iff (name_of prd) (name_of prd),
    );
    same =
        same_runtimes (name_of prd) run.usage _ (remove-insert (name_of prd) run.usage.runtimes)
        ∙ good.same;
    safe = good.safe;
  }

  forget_runtime :
      (run : Run Progress)
      → Deletes (λ runtimes space. Unit) run
      → Deletes IsGone (record run {
        usage = record run.usage { runtimes = remove (name_of prd) run.usage.runtimes };
      })
  forget_runtime run good = record {
    own = ground (
      arith,
      has-remove (name_of prd) (name_of prd) run.usage.runtimes,
      eq_iff (name_of prd) (name_of prd),
    );
    same =
        same_runtimes (name_of prd) run.usage _ (remove-remove (name_of prd) run.usage.runtimes)
        ∙ good.same;
    safe = good.safe;
  }

  owns_new :
      Fits prd scope (others (name_of prd) start)
      → (app : Option Application) → build_app prd ≡ ok app
      → IsOwnApp scope (others (name_of prd) start) app
  unfolding build_app
  owns_new fits none built = tt
  owns_new fits (some app) built =
      subst (scope.Owns (others (name_of prd) start))
        (sym
          (build_app_of-name prd (additional_git prd.runtime.spec.additional_resources) app built))
        fits.app

  module _ (mine : List String) (Own : List String → SpaceUsage → Type 0) where
    abbrev IsKept : Run Progress → Type 0
    IsKept = IsFine world hash resource_hash prd scope mine start Own

    deploy_or_delete_app-IsCareful :
        (app old_app : Option Application)
        → IsOwnApp scope (others (name_of prd) start) app
        → IsOwnApp scope (others (name_of prd) start) old_app
        → Keeps IsKept (deploy_or_delete_app world hash resource_hash prd app old_app)
    unfolding deploy_or_delete_app
    deploy_or_delete_app-IsCareful (some app) old_app new old =
        >>-Keeps IsKept (modify_new_cache-IsCareful (name_of prd) hash scope mine start Own _)
          (call-IsCareful (name_of prd) hash scope mine start Own world _ new)
    deploy_or_delete_app-IsCareful none (some old_app) new old =
        call-IsCareful (name_of prd) hash scope mine start Own world _ old
    deploy_or_delete_app-IsCareful none none new old = pure-Keeps IsKept tt

    additional-IsCareful :
        Fits prd scope (others (name_of prd) start)
        → Keeps IsKept (deploy_or_delete_additional_resource world hash resource_hash prd)
    unfolding deploy_or_delete_additional_resource wrapped lift
    additional-IsCareful fits =
        lift-then-Keeps IsKept (wrap "get additional app failed: %w" (build_app prd)) _
          (λ app built.
            deploy_or_delete_app-IsCareful app prd.cache.app
              (owns_new fits app (wrap-eq-ok _ _ built)) fits.old_app)

  get_account-IsListed :
      (product_name name : String) → Keeps (Deploys IsListed) (get_account world product_name name)
  unfolding get_account ask
  get_account-IsListed product_name name =
      ask-IsCareful (name_of prd) hash scope (namespace_of prd ∷ []) start IsListed world
        (λ calls. world.account calls product_name name) (tenant_get_account product_name name) tt

  pub deploy-IsCareful :
      Fits prd scope (others (name_of prd) start)
      → Takes
          (Deploys (λ runtimes space. Unit))
          (Deploys IsListed)
          (Deploy.deploy world hash resource_hash prd)
  unfolding Deploy.deploy
  deploy-IsCareful fits =
      let self = name_of prd in
      let mine = namespace_of prd ∷ [] in
      let L = Deploys IsListed in
      let history = modify_new_cache-IsCareful self hash scope mine start IsListed in
      let calls = call-IsCareful self hash scope mine start IsListed world in
      modify_usage-Takes _ L L _ list_runtime (
        Keeps-Takes L L (λ run good. good)
          (>>-Keeps L
            (wrapped-Keeps L _ (
              create_product-IsCareful self hash scope mine start IsListed world prd.product_id
                prd.product_name))
            (>>-Keeps L
              (leave_old_account-IsCareful world hash resource_hash prd scope mine start IsListed
                fits.space prd.cache.account)
              (>>-Keeps L (calls _ tt) (
                >>=-Keeps L (ask-IsCareful self hash scope mine start IsListed world _ _ tt)
                  (λ space. >>-Keeps L (history _) (
                    >>-Keeps L (wrapped-Keeps L _ (calls _ tt)) (
                      >>-Keeps L
                        (wrapped-Keeps L _ (
                          sync_namespace_permission-IsCareful world hash resource_hash prd scope
                            mine start IsListed))
                        (>>=-Keeps L (wrapped-Keeps L _ (get_account-IsListed _ _)) (λ account.
                          >>=-Keeps L
                            (wrapped-Keeps L _
                              (ask-IsCareful self hash scope mine start IsListed world _ _ tt))
                            (λ auth_info.
                              >>-Keeps L
                                (wrapped-Keeps L _ (
                                  sync_account_permissions-IsCareful self hash scope mine start
                                    IsListed world account (get_permissions_from_runtime prd)
                                    prd.cache.permissions))
                                (>>-Keeps L (history _) (
                                  >>-Keeps L
                                    (wrapped-Keeps L _ (
                                      sync_listen_events-IsCareful world hash resource_hash prd
                                        scope mine start IsListed account auth_info))
                                    (wrapped-Keeps L _
                                      (additional-IsCareful mine IsListed fits)))))))))))))))

  remove_of_empty : (s : List String) → is_empty s ≡ true → remove (name_of prd) s ≡ []
  unfolding remove
  remove_of_empty [] h = refl
  remove_of_empty (x ∷ s) h = cc

  clean_space-IsCareful :
      (old_space : Option Space)
      → IsOwnSpace scope (others (name_of prd) start) old_space
      → Keeps (Deletes IsGone) (clean_space world hash resource_hash prd old_space)
  unfolding clean_space has
  clean_space-IsCareful none own = pure-Keeps (Deletes IsGone) tt
  clean_space-IsCareful (some old_space) own =
      >>-Keeps (Deletes IsGone)
        (wrapped-Keeps (Deletes IsGone) _
          (call-IsCareful (name_of prd) hash scope [] start IsGone world _ (refl, own.0)))
        (modify_new_cache-IsCareful (name_of prd) hash scope [] start IsGone _)

  pub delete-IsCareful :
      Fits prd scope (others (name_of prd) start)
      → Takes
          (Deletes (λ runtimes space. Unit))
          (Deletes IsGone)
          (Deploy.delete world hash resource_hash prd)
  unfolding Deploy.delete
  delete-IsCareful fits =
      let G = Deletes IsGone in
      modify_usage-Takes _ G G _ forget_runtime (
        Keeps-Takes G G (λ run good. good)
          (>>-Keeps G
            (delete_listen_events-IsCareful world hash resource_hash prd scope [] start IsGone)
            (>>-Keeps G (additional-IsCareful [] IsGone fits) (
              >>-Keeps G
                (clean_account-IsCareful world hash resource_hash prd scope [] start IsGone
                  prd.cache.account)
                (>>-Keeps G (clean_space-IsCareful prd.cache.space fits.space) (
                  gets-Keeps G _ _ (λ run good.
                    delete_product_if-IsCareful world hash resource_hash prd scope [] start IsGone _
                      (λ last.
                        sym (λ i. (good.same i).runtimes)
                        ∙ remove_of_empty run.usage.runtimes last))))))))
