-- ===== src/Task/Careful/Deploying.antt =====
-- `Deploy` and `Delete` of app/runtime-operator/internal/syncer/v2/task/deploymentRuntime.go leave the
-- other runtimes of the product what they use.
use Prim.Native.Nat.{ℕ}
use Prim.Native.String.{String}
use mathlib.Core.Path.{◌≡◌, refl, sym, subst, ◌∙◌}
use mathlib.Core.Bool.{true, false}
use mathlib.Core.Option.{none, some}
use mathlib.Core.List.{List, [], ◌∷◌}
use nautes.Common.Tests.{is_empty}
use nautes.Common.Lists.{
  Any, All-imp, All-of, has, set_of, remove, insert, has-set_of, has-insert, has-remove,
}
use nautes.Common.Maps.{lookup, lookup-assign, lookup-delete}
use nautes.Usage.Secret.{SecretInfo}
use native.Mathlib.Omega.{arith}
use text.Mathlib.TextEquality.{eq_iff}
use nautes.Usage.Spaces.{SpaceUsage, update_space_usage}
use nautes.Usage.Spaces
use nautes.Usage.Products.{ProductUsage}
use nautes.Task.Action.{SyncHistory, Call, World, Run, tenant_create_space, tenant_delete_space}
use nautes.Task.Deployer.{
  DeploymentRuntimeDeployer, name_of, spaces_of, get_permissions_from_runtime, delete_outdate_space,
  delete_outdate_spaces,
}
use nautes.Task.Deploy.{deploy, clean_account, delete_product_if}
use nautes.Task.Deploy
use nautes.Task.Others.{
  Others, others, same_runtimes, same_space, remove-insert, remove-remove, delete-assign,
  delete-delete,
}
use nautes.Task.Invariants.{
  Keeps, Takes, Keeps-Takes, >>-Takes, modify_usage-Takes, >>-Keeps, >>=-Keeps, gets-Keeps,
  wrapped-Keeps, each-Keeps,
}
use nautes.Task.Hashes.{All-difference-has}
use nautes.Task.Safe.{
  Scope, HasSpace, unlisted_space, unlisted_space_of_self, unlisted_space_of_others,
}
use nautes.Task.Careful.Accounts.{
  Fits, IsFine, add_spaces_user-IsCareful, leave_old_account-IsCareful, clean_account-IsCareful,
  get_account-IsCareful, delete_product_if-IsCareful,
}
use nautes.Task.Careful.{
  modify_new_cache-IsCareful, call-IsCareful, each-IsCareful, create_product-IsCareful,
  sync_account_permissions-IsCareful,
}

module _ (world : World) (hash : SecretInfo → ℕ) (drd : DeploymentRuntimeDeployer) (scope : Scope)
    (start : ProductUsage) where
  -- What the usage says of the runtime: it is listed, with its spaces, or it is not.
  abbrev IsListed : List String → SpaceUsage → Type 0
  IsListed runtimes space = has runtimes (name_of drd) ≡ true

  abbrev IsPlaced : List String → SpaceUsage → Type 0
  IsPlaced runtimes space =
      (has runtimes (name_of drd) ≡ true)
      × (lookup (name_of drd) space ≡ some (set_of (spaces_of drd)))

  abbrev IsGone : List String → SpaceUsage → Type 0
  IsGone runtimes space = (has runtimes (name_of drd) ≡ false) × (lookup (name_of drd) space ≡ none)

  -- A careful run of `deploy`, which may not delete the runtime's own spaces, and of `delete`.
  abbrev Deploys : (Own : List String → SpaceUsage → Type 0) → Run SyncHistory → Type 0
  Deploys Own = IsFine world hash drd scope (spaces_of drd) start Own

  abbrev Deletes : (Own : List String → SpaceUsage → Type 0) → Run SyncHistory → Type 0
  Deletes Own = IsFine world hash drd scope [] start Own

  list_runtime :
      (run : Run SyncHistory)
      → Deploys (λ runtimes space. Unit) run
      → Deploys IsListed (record run {
        usage = record run.usage { runtimes = insert (name_of drd) run.usage.runtimes };
      })
  list_runtime run good = record {
    own = ground (
      arith,
      has-insert (name_of drd) (name_of drd) run.usage.runtimes,
      eq_iff (name_of drd) (name_of drd),
    );
    same =
        same_runtimes (name_of drd) run.usage _ (remove-insert (name_of drd) run.usage.runtimes)
        ∙ good.same;
    safe = good.safe;
  }

  place_runtime :
      (run : Run SyncHistory)
      → Deploys IsListed run
      → Deploys IsPlaced (record run {
        usage = record run.usage {
          space = update_space_usage run.usage.space (name_of drd) (set_of (spaces_of drd));
        };
      })
  unfolding update_space_usage
  place_runtime run good = record {
    own = (
      good.own,
      ground (
        arith,
        lookup-assign (name_of drd) (name_of drd) (set_of (spaces_of drd)) run.usage.space,
        eq_iff (name_of drd) (name_of drd),
      ),
    );
    same =
        same_space (name_of drd) run.usage _
          (delete-assign (name_of drd) (set_of (spaces_of drd)) run.usage.space)
        ∙ good.same;
    safe = good.safe;
  }

  forget_runtime :
      (run : Run SyncHistory)
      → Deletes (λ runtimes space. Unit) run
      → Deletes IsGone (record run {
        usage = record run.usage {
          runtimes = remove (name_of drd) run.usage.runtimes;
          space = Spaces.delete_runtime run.usage.space (name_of drd);
        };
      })
  unfolding Spaces.delete_runtime
  forget_runtime run good = record {
    own = (
      ground (
        arith,
        has-remove (name_of drd) (name_of drd) run.usage.runtimes,
        eq_iff (name_of drd) (name_of drd),
      ),
      ground (
        arith,
        lookup-delete (name_of drd) (name_of drd) run.usage.space,
        eq_iff (name_of drd) (name_of drd),
      ),
    );
    same =
        same_runtimes (name_of drd) _ _ (remove-remove (name_of drd) run.usage.runtimes)
        ∙ same_space (name_of drd) run.usage _ (delete-delete (name_of drd) run.usage.space)
        ∙ good.same;
    safe = good.safe;
  }

  delete_outdate_spaces-IsCareful :
      Fits drd scope (others (name_of drd) start)
      → Keeps (Deploys IsPlaced) (delete_outdate_spaces world hash drd)
  unfolding delete_outdate_spaces delete_outdate_space
  delete_outdate_spaces-IsCareful fits =
      let self = name_of drd in
      let make : String → Call = tenant_delete_space drd.product_id in
      let I = Deploys IsPlaced in
      gets-Keeps I _ _ (λ run good. each-Keeps I _ _ (
        All-imp
          (λ space safe.
            >>-Keeps I
              (wrapped-Keeps I _
                (call-IsCareful self hash scope (spaces_of drd) start IsPlaced world _ safe))
              (modify_new_cache-IsCareful self hash scope (spaces_of drd) start IsPlaced _))
          _
          (All-imp
            (λ space absent. (
              sym (has-set_of (spaces_of drd) space)
                  ∙ unlisted_space_of_self self run.usage.space _ space good.own.1 absent.1,
              fits.frees space absent.0 (
                  subst (λ (o : Others). ¬ Any (HasSpace space) o.space) good.same
                    (unlisted_space self run.usage.space space absent.1)),
            ))
            _ (All-difference-has drd.cache.spaces drd.cache.spaces _ (λ x there. there)))))

  pub deploy-IsCareful :
      Fits drd scope (others (name_of drd) start)
      → Takes (Deploys (λ runtimes space. Unit)) (Deploys IsListed) (deploy world hash drd)
  unfolding deploy
  deploy-IsCareful fits =
      let self = name_of drd in
      let ours = spaces_of drd in
      let L = Deploys IsListed in
      let P = Deploys IsPlaced in
      let calls = call-IsCareful self hash scope ours start IsPlaced world in
      modify_usage-Takes _ L L _ list_runtime (
        >>-Takes L L (λ run good. good)
          (wrapped-Keeps L _ (
            create_product-IsCareful self hash scope ours start IsListed world drd.product_id
              drd.product_name))
          (>>-Takes L L (λ run good. good)
            (each-IsCareful self hash scope ours start IsListed world _
              (tenant_create_space drd.product_id) _ (All-of (λ space. tt) (spaces_of drd)))
            (modify_usage-Takes L L P _ place_runtime (
              Keeps-Takes P L
                (λ run good. record { own = good.own.0; same = good.same; safe = good.safe })
                (>>-Keeps P (modify_new_cache-IsCareful self hash scope ours start IsPlaced _) (
                  >>-Keeps P
                    (leave_old_account-IsCareful world hash drd scope ours start IsPlaced fits
                      drd.cache.account)
                    (>>-Keeps P (wrapped-Keeps P _ (calls _ tt)) (
                      >>-Keeps P
                        (add_spaces_user-IsCareful world hash drd scope ours start IsPlaced)
                        (>>=-Keeps P
                          (wrapped-Keeps P _
                            (get_account-IsCareful world hash drd scope ours start IsPlaced _ _))
                          (λ account. >>-Keeps P (wrapped-Keeps P _ (calls _ tt)) (
                            >>-Keeps P
                              (wrapped-Keeps P _ (
                                sync_account_permissions-IsCareful self hash scope ours start
                                  IsPlaced world account (get_permissions_from_runtime drd)
                                  drd.cache.permissions))
                              (>>-Keeps P
                                (modify_new_cache-IsCareful self hash scope ours start IsPlaced _)
                                (>>-Keeps P (delete_outdate_spaces-IsCareful fits)
                                  (calls _ fits.owns))))))))))))))

  remove_of_empty : (s : List String) → is_empty s ≡ true → remove (name_of drd) s ≡ []
  unfolding remove
  remove_of_empty [] h = refl
  remove_of_empty (x ∷ s) h = cc

  pub delete-IsCareful :
      Fits drd scope (others (name_of drd) start)
      → Takes (Deletes (λ runtimes space. Unit)) (Deletes IsGone) (Deploy.delete world hash drd)
  unfolding Deploy.delete has
  delete-IsCareful fits =
      let self = name_of drd in
      let make : String → Call = tenant_delete_space drd.product_id in
      let I = Deletes IsGone in
      modify_usage-Takes _ I I _ forget_runtime (
        Keeps-Takes I I (λ run good. good)
          (>>-Keeps I (call-IsCareful self hash scope [] start IsGone world _ fits.owns) (
            >>-Keeps I
              (clean_account-IsCareful world hash drd scope [] start IsGone drd.cache.account)
              (gets-Keeps I _ _ (λ run good.
                >>-Keeps I
                  (each-IsCareful self hash scope [] start IsGone world _ make _ (
                    All-imp
                      (λ space absent. (
                        refl,
                        fits.frees space absent.0 (
                            subst (λ (o : Others). ¬ Any (HasSpace space) o.space) good.same
                              (unlisted_space_of_others self run.usage.space space absent.1)),
                      ))
                      _
                      (All-difference-has drd.cache.spaces drd.cache.spaces _ (λ x there. there))))
                  (gets-Keeps I _ _ (λ later good'.
                    delete_product_if-IsCareful world hash drd scope [] start IsGone _ (λ last.
                      sym (λ i. (good'.same i).runtimes)
                      ∙ remove_of_empty later.usage.runtimes last))))))))
