-- ===== src/Task/Load.antt =====
-- `newDeploymentRuntimeDeployer` of
-- app/runtime-operator/internal/syncer/v2/task/deploymentRuntime.go: the deployer of a runtime, from the
-- snapshot and the history of the last deployment.
use Prim.Native.String.{String}
use mathlib.Core.Path.{◌≡◌}
use mathlib.Core.Option.{Option, none, some}
use mathlib.Core.List.{[]}
use nautes.Common.Result.{Result, ok, wrap, >>=-eq-ok, wrap-eq-ok, ◌>>=◌}
use nautes.Resource.Deployment.{DeploymentRuntime}
use nautes.Snapshot.State.{RuntimeDataBase}
use nautes.Snapshot.Query.{get_product, get_code_repo, get_code_repo_provider}
use nautes.Task.Action.{SyncHistory}
use nautes.Task.Deployer.{DeploymentRuntimeDeployer}

abbrev empty_history : SyncHistory
empty_history = record { cluster = ""; spaces = []; account = none; permissions = [] }

-- The JSON text of the history is read by `unmarshal`, with no spaces where it names none.
unfoldable pub read_history :
    {History : Type 0}
    → (empty : History) → (unmarshal : String → Result History) → Option String
    → Result History
read_history empty unmarshal none = ok empty
read_history empty unmarshal (some raw) = wrap "unmarshal history failed: %w" (unmarshal raw)

unfoldable pub new_deployment_runtime_deployer :
    (unmarshal : String → Result SyncHistory)
    → RuntimeDataBase
    → DeploymentRuntime
    → (cache : Option String) → Result DeploymentRuntimeDeployer
unfolding get_product get_code_repo get_code_repo_provider read_history
new_deployment_runtime_deployer unmarshal db runtime cache = do
  product ← wrap "get product %s failed: %w" (get_product db runtime.spec.product)
  code_repo ←
      wrap "get code repo %s failed: %w" (get_code_repo db runtime.spec.manifest_source.code_repo)
  provider ←
      wrap "get code repo provider failed: %w"
        (get_code_repo_provider db code_repo.spec.code_repo_provider)
  history ← read_history empty_history unmarshal cache
  ok (record {
    runtime = runtime;
    code_repo = code_repo;
    repo_provider = provider;
    product_id = runtime.spec.product;
    product_name = product.spec.name;
    cache = history;
  })

-- The deployer is for the runtime and its product, and the snapshot has its repository and the
-- repository's provider.
pub new_deployer_lem :
    (unmarshal : String → Result SyncHistory) (db : RuntimeDataBase) (runtime : DeploymentRuntime)
    (cache : Option String) (drd : DeploymentRuntimeDeployer)
    → new_deployment_runtime_deployer unmarshal db runtime cache ≡ ok drd
    → (drd.runtime ≡ runtime)
      × (drd.product_id ≡ runtime.spec.product)
      × (get_code_repo db runtime.spec.manifest_source.code_repo ≡ ok drd.code_repo)
      × (get_code_repo_provider db drd.code_repo.spec.code_repo_provider ≡ ok drd.repo_provider)
      × (read_history empty_history unmarshal cache ≡ ok drd.cache)
unfolding new_deployment_runtime_deployer
new_deployer_lem unmarshal db runtime cache drd made =
    let (product, found_product, rest) =
      >>=-eq-ok (wrap "get product %s failed: %w" (get_product db runtime.spec.product)) _ made in
    let (code_repo, found_repo, rest') =
      >>=-eq-ok
        (wrap "get code repo %s failed: %w"
          (get_code_repo db runtime.spec.manifest_source.code_repo))
        _ rest in
    let (provider, found_provider, rest'') =
      >>=-eq-ok
        (wrap "get code repo provider failed: %w"
          (get_code_repo_provider db code_repo.spec.code_repo_provider))
        _ rest' in
    let (history, read, done) = >>=-eq-ok (read_history empty_history unmarshal cache) _ rest'' in
    let repo = wrap-eq-ok _ _ found_repo in
    let provided = wrap-eq-ok _ _ found_provider in (cc, cc, cc, cc, cc)
