-- ===== src/Task/Outcome.antt =====
-- How `Deploy` and `Delete` of app/runtime-operator/internal/syncer/v2/task/deploymentRuntime.go end.
use Prim.Native.Nat.{ℕ}
use Prim.Native.String.{String}
use mathlib.Core.Path.{◌≡◌, refl, ◌∙◌}
use mathlib.Core.Bool.{true, false}
use mathlib.Core.Option
use mathlib.Core.Option.{Option, none, some}
use mathlib.Core.List.{List, [], ◌∷◌}
use nautes.Common.Tests.{is_empty}
use nautes.Common.Result.{Result, ok, err, wrap}
use nautes.Common.Lists.{All, Any, has}
use nautes.Common.Maps.{lookup, lookup_or}
use text.Mathlib.Text.{◌==◌}
use text.Mathlib.TextEquality.{eq_iff}
use nautes.Usage.Secret.{SecretInfo}
use nautes.Usage.Products.{
  ProductUsage, ClusterUsage, Yaml, new_empty_product_usage, new_clusters_usage,
}
use nautes.Usage.Controller.{
  Stored, ConfigMapClient, get_product_usage, put_product, update_product_usage,
}
use nautes.Usage.Controller.RoundTrip.{IsStore, ReadsBack, get_product_usage-update_product_usage}
use nautes.Task.Action.{SyncHistory, World, Run}
use nautes.Task.Deployer.{DeploymentRuntimeDeployer, name_of, spaces_of}
use nautes.Task.Ending.{store_usage, with_usage, ended}
use nautes.Task.Deploy.{deploy, deploy_with, run_deploy, delete_with, run_delete}
use nautes.Task.Deploy
use nautes.Task.Others.{Others, others, IsSameForOthers}
use nautes.Task.Safe.{
  HasSpace, UsesSpace, IsUnused, Scope, any_scope, IsForeign, IsForeign-remove, IsSafe, IsCareful,
}
use nautes.Task.Careful.Accounts.{Fits}
use nautes.Task.Careful.Deploying.{deploy-IsCareful, delete-IsCareful}

-- The usage that a task starts from, empty where none is read.
abbrev pub usage_at_start : Result (Option ProductUsage) → ProductUsage
usage_at_start (err e) = new_empty_product_usage
usage_at_start (ok usage) = Option.get_or usage new_empty_product_usage

abbrev pub first_run : DeploymentRuntimeDeployer → ProductUsage → Run SyncHistory
first_run drd usage = record { usage = usage; new_cache = drd.cache; calls = [] }

-- What a deployment runtime may do: delete a space that no other runtime has or uses, take a space from
-- an account through which no other runtime uses it, and deal with the application of its own name.
abbrev pub deployment_scope : Scope
deployment_scope = record {
  Frees = IsUnused;
  Leaves = λ o space account_name. ¬ Any (UsesSpace space) (o.account account_name);
  Owns = λ o app_name. IsForeign (λ runtime. runtime) app_name o.runtimes;
}

-- Of the spaces, what another runtime uses through an account is also among the spaces of another one.
abbrev pub IsAccounted : Others → (spaces : List String) → Type 0
IsAccounted o spaces =
    (space account_name : String)
    → has spaces space ≡ true
    → Any (UsesSpace space) (o.account account_name)
    → Any (HasSpace space) o.space

any_scope-Fits : (drd : DeploymentRuntimeDeployer) (o : Others) → Fits drd any_scope o
any_scope-Fits drd o = record {
  frees = λ space there unheld. tt;
  leaves = λ space account_name unused. tt;
  owns = tt;
}

deployment_scope-Fits :
    (drd : DeploymentRuntimeDeployer) (usage : ProductUsage)
    → IsAccounted (others (name_of drd) usage) drd.cache.spaces
    → Fits drd deployment_scope (others (name_of drd) usage)
deployment_scope-Fits drd usage accounted = record {
  frees = λ space there unheld.
      (unheld, λ account_name used. unheld (accounted space account_name there used));
  leaves = λ space account_name unused. unused;
  owns = IsForeign-remove (name_of drd) usage.runtimes;
}

module _ (world : World) (hash : SecretInfo → ℕ) (drd : DeploymentRuntimeDeployer) where
  -- The start is careful, since nothing is called yet.
  first_run-IsCareful :
      (scope : Scope) (mine : List String) (usage : ProductUsage)
      → IsCareful (name_of drd) hash scope mine usage (λ runtimes space. Unit) (first_run drd usage)
  first_run-IsCareful scope mine usage = record { own = tt; same = refl; safe = tt }

  -- Whatever `deploy` returns: the usage then lists the runtime, and says of the other runtimes what
  -- it said before.
  pub deploy-IsSameForOthers :
      (usage : ProductUsage)
      → let after = (deploy world hash drd (first_run drd usage)).1.usage in
        (has after.runtimes (name_of drd) ≡ true) × IsSameForOthers (name_of drd) after usage
  deploy-IsSameForOthers usage =
      let careful =
        (deploy-IsCareful world hash drd any_scope usage (any_scope-Fits drd _)).takes _
          (first_run-IsCareful any_scope (spaces_of drd) usage) in
      (careful.own, careful.same)

  -- Whatever `delete` returns: the usage then lists neither the runtime nor spaces of it, and says of
  -- the other runtimes what it said before.
  pub delete-IsSameForOthers :
      (usage : ProductUsage)
      → let after = (Deploy.delete world hash drd (first_run drd usage)).1.usage in
        (has after.runtimes (name_of drd) ≡ false)
        × (lookup (name_of drd) after.space ≡ none)
        × IsSameForOthers (name_of drd) after usage
  delete-IsSameForOthers usage =
      let careful =
        (delete-IsCareful world hash drd any_scope usage (any_scope-Fits drd _)).takes _
          (first_run-IsCareful any_scope [] usage) in
      (careful.own.0, careful.own.1, careful.same)

  module _ (client : ConfigMapClient) (yaml : Yaml) (cluster_name : String) where
    deploy_with-IsSafe :
        (read : Result (Option ProductUsage)) (stored : Stored)
        → IsAccounted (others (name_of drd) (usage_at_start read)) drd.cache.spaces
        → All
            (IsSafe
              (name_of drd)
              hash
              deployment_scope
              (spaces_of drd)
              (others (name_of drd) (usage_at_start read)))
            (deploy_with world hash drd client yaml cluster_name read stored).calls
    unfolding deploy_with with_usage ended
    deploy_with-IsSafe (err e) stored accounted = tt
    deploy_with-IsSafe (ok usage) stored accounted =
        ((deploy-IsCareful world hash drd deployment_scope _
            (deployment_scope-Fits drd _ accounted)).takes
          _ (first_run-IsCareful deployment_scope (spaces_of drd) _)).safe

    -- If, by the usage that `Deploy` reads, each space of the last deployment that another runtime uses
    -- through an account is also listed among the spaces of another runtime, then, whatever the components answer, no
    -- call of `Deploy` deletes a space that another runtime has or uses through an account, or one of the
    -- runtime's own spaces; none takes a space from an account, revokes a permission or deletes an
    -- account that another runtime uses, or deletes the product while there is another; and it creates
    -- or deletes no application under the name of another runtime.
    pub run_deploy-IsSafe :
        (stored : Stored)
        → IsAccounted
            (others (name_of drd) (
              usage_at_start (
                wrap "get usage failed: %w"
                  (get_product_usage client yaml cluster_name stored drd.product_id))))
            drd.cache.spaces
        → All
            (IsSafe (name_of drd) hash deployment_scope (spaces_of drd) (
              others (name_of drd) (
                usage_at_start (
                  wrap "get usage failed: %w"
                    (get_product_usage client yaml cluster_name stored drd.product_id)))))
            (run_deploy world hash drd client yaml cluster_name stored).calls
    unfolding run_deploy
    run_deploy-IsSafe stored accounted = deploy_with-IsSafe _ stored accounted

    delete_with-IsSafe :
        (read : Result (Option ProductUsage)) (stored : Stored)
        → IsAccounted (others (name_of drd) (usage_at_start read)) drd.cache.spaces
        → All
            (IsSafe
              (name_of drd)
              hash
              deployment_scope
              []
              (others (name_of drd) (usage_at_start read)))
            (delete_with world hash drd client yaml cluster_name read stored).calls
    unfolding delete_with with_usage ended
    delete_with-IsSafe (err e) stored accounted = tt
    delete_with-IsSafe (ok none) stored accounted = tt
    delete_with-IsSafe (ok (some usage)) stored accounted =
        ((delete-IsCareful world hash drd deployment_scope usage
            (deployment_scope-Fits drd usage accounted)).takes
          _ (first_run-IsCareful deployment_scope [] usage)).safe

    -- If, by the usage that `Delete` reads, each space of the last deployment that another runtime uses
    -- through an account is also listed among the spaces of another runtime, then, whatever the components answer, no
    -- call of `Delete` deletes a space that another runtime has or uses through an account, takes a
    -- space from an account, revokes a permission or deletes an account that another runtime uses, or
    -- deletes the product while there is another, or an application under the name of another runtime.
    pub run_delete-IsSafe :
        (stored : Stored)
        → IsAccounted
            (others (name_of drd) (
              usage_at_start (
                wrap "get usage failed: %w"
                  (get_product_usage client yaml cluster_name stored drd.product_id))))
            drd.cache.spaces
        → All
            (IsSafe (name_of drd) hash deployment_scope [] (
              others (name_of drd) (
                usage_at_start (
                  wrap "get usage failed: %w"
                    (get_product_usage client yaml cluster_name stored drd.product_id)))))
            (run_delete world hash drd client yaml cluster_name stored).calls
    unfolding run_delete
    run_delete-IsSafe stored accounted = delete_with-IsSafe _ stored accounted

    store_usage_lem :
        (usage : ProductUsage) (stored after : Stored)
        → update_product_usage client yaml cluster_name drd.product_id usage stored ≡ ok after
        → store_usage client yaml cluster_name drd.product_id stored usage ≡ after
    unfolding store_usage
    store_usage_lem usage stored after written = rw (written, store_usage)

    stored_by_deploy :
        (usage : Option ProductUsage) (stored after : Stored)
        → get_product_usage client yaml cluster_name stored drd.product_id ≡ ok usage
        → update_product_usage client yaml cluster_name drd.product_id
            (deploy world hash drd
              (first_run drd (Option.get_or usage new_empty_product_usage))).1.usage
            stored
          ≡ ok after
        → (run_deploy world hash drd client yaml cluster_name stored).stored ≡ after
    unfolding run_deploy deploy_with with_usage
    stored_by_deploy usage stored after read written =
        (λ i.
          (deploy_with world hash drd client yaml cluster_name
            (wrap "get usage failed: %w" (read i)) stored).stored)
        ∙ store_usage_lem _ stored after written

    not_empty : (name : String) (s : List String) → has s name ≡ true → is_empty s ≡ false
    unfolding has
    not_empty name [] h = cc
    not_empty name (x ∷ s) h = refl

    -- Where the config map behaves as documented, the usage is read, the text of the new usage reads
    -- back, and the deferred update succeeds: the usage read after `Deploy` lists the runtime and says
    -- of the other runtimes what was read before, also if `Deploy` fails.
    pub get_product_usage-run_deploy :
        (usage : Option ProductUsage) (old : ClusterUsage) (stored after : Stored)
        → IsStore client
        → new_clusters_usage yaml (lookup_or "" cluster_name (Option.get_or stored [])) ≡ ok old
        → get_product_usage client yaml cluster_name stored drd.product_id ≡ ok usage
        → ReadsBack yaml (
            put_product drd.product_id
              (deploy world hash drd
                (first_run drd (Option.get_or usage new_empty_product_usage))).1.usage
              old)
        → update_product_usage client yaml cluster_name drd.product_id
            (deploy world hash drd
              (first_run drd (Option.get_or usage new_empty_product_usage))).1.usage
            stored
          ≡ ok after
        → (later : ProductUsage) × (get_product_usage client yaml cluster_name
              (run_deploy world hash drd client yaml cluster_name stored).stored
              drd.product_id
            ≡ ok (some later))
          × (has later.runtimes (name_of drd) ≡ true)
          × IsSameForOthers (name_of drd) later (Option.get_or usage new_empty_product_usage)
    get_product_usage-run_deploy usage old stored after store readable read back written =
        let start = Option.get_or usage new_empty_product_usage in
        let final = (deploy world hash drd (first_run drd start)).1.usage in
        let (listed, same) = deploy-IsSameForOthers start in
        let later_read =
          get_product_usage-update_product_usage client yaml cluster_name drd.product_id final old
            stored after drd.product_id store readable back written in
        let here : (drd.product_id == drd.product_id) ≡ true = (eq_iff _ drd.product_id).1 refl in
        let full = not_empty (name_of drd) final.runtimes listed in
        let ends = stored_by_deploy usage stored after read written in
        (final, rw (ends, later_read, here, full), listed, same)
