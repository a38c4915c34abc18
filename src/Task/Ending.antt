-- ===== src/Task/Ending.antt =====
-- How a task ends (app/runtime-operator/internal/syncer/v2/task): `UpdateProductUsage` is deferred, so it
-- runs after each outcome, a panic too; an error of it is only logged.
use Prim.Native.String.{String}
use mathlib.Core.List.{List, []}
use nautes.Common.Result.{ok, err, Check}
use nautes.Usage.Products.{ProductUsage, Yaml}
use nautes.Usage.Controller.{Stored, ConfigMapClient, update_product_usage}
use nautes.Task.Action.{Call, Step}

-- The error, the history that is returned, the config map and the calls made.
pub record Outcome (Cache : Type 0) : Type 0 where
  pub result : Check
  pub new_cache : Cache
  pub stored : Stored
  pub calls : List Call

module _ (client : ConfigMapClient) (yaml : Yaml) (cluster_name product_id : String) where
  unfoldable pub store_usage : Stored → ProductUsage → Stored
  unfolding update_product_usage
  store_usage stored usage =
      elim (update_product_usage client yaml cluster_name product_id usage stored) [
        | ok after ↦ after
        | err e ↦ stored
      ]

  -- The steps on the usage read, then the deferred update.
  unfoldable pub with_usage :
      {Cache : Type 0} → (cache : Cache) → Step Cache → ProductUsage → Stored → Outcome Cache
  unfolding store_usage
  with_usage cache step usage stored =
      let (result, run) = step (record { usage = usage; new_cache = cache; calls = [] }) in
      record {
        result = result;
        new_cache = run.new_cache;
        stored = store_usage stored run.usage;
        calls = run.calls;
      }

-- Without steps.
unfoldable pub ended : {Cache : Type 0} → (cache : Cache) → Check → Stored → Outcome Cache
ended cache result stored = record {
  result = result;
  new_cache = cache;
  stored = stored;
  calls = [];
}
