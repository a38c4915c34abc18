-- ===== src/Task/Pipeline/Outcome.antt =====
-- How `Deploy` and `Delete` of app/runtime-operator/internal/syncer/v2/task/pipelineRuntime.go end.
use Prim.Native.Nat.{ℕ}
use Prim.Native.String.{String}
use mathlib.Core.Path.{◌≡◌, refl}
use mathlib.Core.Bool.{true, false}
use mathlib.Core.Option.{Option, none, some}
use mathlib.Core.List.{List, [], ◌∷◌}
use nautes.Common.Result.{Result, ok, err}
use nautes.Common.Lists.{All, has}
use nautes.Usage.Secret.{SecretInfo}
use nautes.Usage.Products.{ProductUsage, Yaml}
use nautes.Usage.Controller.{Stored, ConfigMapClient, get_product_usage}
use nautes.Task.Listener.{RequestResource}
use nautes.Task.Action.{World, Run}
use nautes.Task.Ending.{with_usage, ended}
use nautes.Task.Others.{others, IsSameForOthers}
use nautes.Task.Safe.{Scope, any_scope, IsSafe, IsCareful}
use nautes.Task.Outcome.{usage_at_start}
use nautes.Task.Pipeline.Deployer.{PipelineRuntimeDeployer, Progress, name_of, namespace_of}
use nautes.Task.Pipeline.Deploy.{
  first_progress, deploy, deploy_with, run_deploy, delete_with, run_delete,
}
use nautes.Task.Pipeline.Deploy
use nautes.Task.Pipeline.Scopes.{pipeline_scope, IsAdditional, any_scope-Fits, pipeline_scope-Fits}
use nautes.Task.Pipeline.Careful.Deploying.{deploy-IsCareful, delete-IsCareful}

module _ (world : World) (hash : SecretInfo → ℕ) (resource_hash : RequestResource → ℕ)
    (prd : PipelineRuntimeDeployer) where
  abbrev pub first_run : ProductUsage → Run Progress
  first_run usage = record {
    usage = usage;
    new_cache = first_progress world hash resource_hash prd;
    calls = [];
  }

  -- The start is careful, since nothing is called yet.
  first_run-IsCareful :
      (scope : Scope) (mine : List String) (usage : ProductUsage)
      → IsCareful (name_of prd) hash scope mine usage (λ runtimes space. Unit) (first_run usage)
  first_run-IsCareful scope mine usage = record { own = tt; same = refl; safe = tt }

  -- Whatever `deploy` returns: the usage lists the runtime afterwards, and says of the other runtimes
  -- what it said before.
  pub deploy_pipeline-IsSameForOthers :
      (usage : ProductUsage)
      → let after = (deploy world hash resource_hash prd (first_run usage)).1.usage in
        (has after.runtimes (name_of prd) ≡ true) × IsSameForOthers (name_of prd) after usage
  deploy_pipeline-IsSameForOthers usage =
      let careful =
        (deploy-IsCareful world hash resource_hash prd any_scope usage (any_scope-Fits prd _)).takes
          _ (first_run-IsCareful any_scope (namespace_of prd ∷ []) usage) in
      (careful.own, careful.same)

  -- Whatever `delete` returns: the usage does not list the runtime afterwards, and says of the other
  -- runtimes what it said before.
  pub delete_pipeline-IsSameForOthers :
      (usage : ProductUsage)
      → let after = (Deploy.delete world hash resource_hash prd (first_run usage)).1.usage in
        (has after.runtimes (name_of prd) ≡ false) × IsSameForOthers (name_of prd) after usage
  delete_pipeline-IsSameForOthers usage =
      let careful =
        (delete-IsCareful world hash resource_hash prd any_scope usage (any_scope-Fits prd _)).takes
          _ (first_run-IsCareful any_scope [] usage) in
      (careful.own, careful.same)

  module _ (client : ConfigMapClient) (yaml : Yaml) (cluster_name : String) where
    deploy_with-IsSafe :
        (read : Result (Option ProductUsage)) (stored : Stored)
        → IsAdditional (name_of prd) prd.cache.app
        → All
            (IsSafe
              (name_of prd)
              hash
              (pipeline_scope prd)
              (namespace_of prd ∷ [])
              (others (name_of prd) (usage_at_start read)))
            (deploy_with world hash resource_hash prd client yaml cluster_name read stored).calls
    unfolding deploy_with with_usage ended
    deploy_with-IsSafe (err e) stored named = tt
    deploy_with-IsSafe (ok usage) stored named =
        ((deploy-IsCareful world hash resource_hash prd (pipeline_scope prd) _
            (pipeline_scope-Fits prd _ named)).takes
          _ (first_run-IsCareful (pipeline_scope prd) (namespace_of prd ∷ []) _)).safe

    -- If the application of the last deployment, if any, is named for the runtime, then, whatever the
    -- components answer, by the usage that `Deploy` reads: no call deletes the namespace of the runtime;
    -- no space is deleted, or taken from an account, but that of the last deployment; no permission is
    -- revoked that another runtime needs of the account, no account deleted that another uses, and the
    -- product not deleted while there is another; no application is created or deleted under the name
    -- of the additional application of another runtime; and consumers are deleted only by the runtime's
    -- own name.
    pub run_deploy_pipeline-IsSafe :
        (stored : Stored)
        → IsAdditional (name_of prd) prd.cache.app
        → All
            (IsSafe (name_of prd) hash (pipeline_scope prd) (namespace_of prd ∷ []) (
              others (name_of prd) (
                usage_at_start (get_product_usage client yaml cluster_name stored prd.product_id))))
            (run_deploy world hash resource_hash prd client yaml cluster_name stored).calls
    unfolding run_deploy
    run_deploy_pipeline-IsSafe stored named = deploy_with-IsSafe _ stored named

    delete_with-IsSafe :
        (read : Result (Option ProductUsage)) (stored : Stored)
        → IsAdditional (name_of prd) prd.cache.app
        → All
            (IsSafe
              (name_of prd)
              hash
              (pipeline_scope prd)
              []
              (others (name_of prd) (usage_at_start read)))
            (delete_with world hash resource_hash prd client yaml cluster_name read stored).calls
    unfolding delete_with with_usage ended
    delete_with-IsSafe (err e) stored named = tt
    delete_with-IsSafe (ok none) stored named = tt
    delete_with-IsSafe (ok (some usage)) stored named =
        ((delete-IsCareful world hash resource_hash prd (pipeline_scope prd) usage
            (pipeline_scope-Fits prd usage named)).takes
          _ (first_run-IsCareful (pipeline_scope prd) [] usage)).safe

    -- If the application of the last deployment, if any, is named for the runtime, then, whatever the
    -- components answer, by the usage that `Delete` reads: no space is deleted, or taken from an account,
    -- but that of the last deployment; no permission is revoked that another runtime needs of the
    -- account, no account deleted that another uses, and the product not deleted while there is another;
    -- no application is created or deleted under the name of the additional application of another
    -- runtime; and consumers are deleted only by the runtime's own name.
    pub run_delete_pipeline-IsSafe :
        (stored : Stored)
        → IsAdditional (name_of prd) prd.cache.app
        → All
            (IsSafe (name_of prd) hash (pipeline_scope prd) [] (
              others (name_of prd) (
                usage_at_start (get_product_usage client yaml cluster_name stored prd.product_id))))
            (run_delete world hash resource_hash prd client yaml cluster_name stored).calls
    unfolding run_delete
    run_delete_pipeline-IsSafe stored named = delete_with-IsSafe _ stored named
