-- ===== src/Task/Pipeline/Load.antt =====
-- `newPipelineRuntimeDeployer` of
-- app/runtime-operator/internal/syncer/v2/task/pipelineRuntime.go: the deployer of a pipeline runtime,
-- from the snapshot and the history of the last deployment.
use Prim.Native.String.{String}
use mathlib.Core.Path.{◌≡◌}
use mathlib.Core.Option.{Option, none}
use mathlib.Core.List.{[]}
use nautes.Common.Result.{Result, ok, Check, wrap, >>=-eq-ok, wrap-eq-ok, ◌>>=◌, ◌>>◌}
use nautes.Resource.Pipeline.{ProjectPipelineRuntime}
use nautes.Snapshot.State.{RuntimeDataBase}
use nautes.Snapshot.Query.{get_product, get_code_repo, get_code_repo_provider}
use nautes.Task.Load.{read_history}
use nautes.Task.Pipeline.Deployer.{PipelineSyncHistory, PipelineRuntimeDeployer}

abbrev empty_pipeline_history : PipelineSyncHistory
empty_pipeline_history = record {
  cluster = "";
  space = none;
  code_repo = "";
  unique_id = "";
  account = none;
  app = none;
  permissions = [];
  hook_resources = none;
}

-- `handler`: whether `NewFunctionHandler` makes a handler.
unfoldable new_pipeline_runtime_deployer :
    (unmarshal : String → Result PipelineSyncHistory)
    → (handler : Check) → RuntimeDataBase
    → ProjectPipelineRuntime
    → (cache : Option String) → Result PipelineRuntimeDeployer
unfolding get_product get_code_repo get_code_repo_provider read_history
new_pipeline_runtime_deployer unmarshal handler db runtime cache = do
  product ← wrap "get product %s failed: %w" (get_product db runtime.meta.namespace)
  code_repo ← wrap "get code repo %s failed: %w" (get_code_repo db runtime.spec.pipeline_source)
  provider ←
      wrap "get code repo provider failed: %w"
        (get_code_repo_provider db code_repo.spec.code_repo_provider)
  history ← read_history empty_pipeline_history unmarshal cache
  wrap "create deployer failed: %w" handler
  ok (record {
    runtime = runtime;
    snapshot = db;
    code_repo = code_repo;
    repo_provider = provider;
    product_id = runtime.meta.namespace;
    product_name = product.spec.name;
    cache = history;
  })

-- The deployer is for the runtime and its product, and the snapshot has the repository of its pipeline
-- and the repository's provider.
new_pipeline_deployer_lem :
    (unmarshal : String → Result PipelineSyncHistory) (handler : Check) (db : RuntimeDataBase)
    (runtime : ProjectPipelineRuntime) (cache : Option String) (prd : PipelineRuntimeDeployer)
    → new_pipeline_runtime_deployer unmarshal handler db runtime cache ≡ ok prd
    → (prd.runtime ≡ runtime)
      × (prd.product_id ≡ runtime.meta.namespace)
      × (get_code_repo db runtime.spec.pipeline_source ≡ ok prd.code_repo)
      × (get_code_repo_provider db prd.code_repo.spec.code_repo_provider ≡ ok prd.repo_provider)
      × (read_history empty_pipeline_history unmarshal cache ≡ ok prd.cache)
unfolding new_pipeline_runtime_deployer
new_pipeline_deployer_lem unmarshal handler db runtime cache prd made =
    let (product, found_product, rest) =
      >>=-eq-ok (wrap "get product %s failed: %w" (get_product db runtime.meta.namespace)) _ made in
    let (code_repo, found_repo, rest') =
      >>=-eq-ok (wrap "get code repo %s failed: %w" (get_code_repo db runtime.spec.pipeline_source))
        _ rest in
    let (provider, found_provider, rest'') =
      >>=-eq-ok
        (wrap "get code repo provider failed: %w"
          (get_code_repo_provider db code_repo.spec.code_repo_provider))
        _ rest' in
    let (history, read, last) =
      >>=-eq-ok (read_history empty_pipeline_history unmarshal cache) _ rest'' in
    let (handled, is_handled, done) =
      >>=-eq-ok (wrap "create deployer failed: %w" handler) _ last in
    let repo = wrap-eq-ok _ _ found_repo in
    let provided = wrap-eq-ok _ _ found_provider in (cc, cc, cc, cc, cc)
