-- ===== src/Usage/Controller.antt =====
-- `UsageController` of app/runtime-operator/internal/syncer/v2/task/usageController.go: the usages of
-- all clusters in one config map, a YAML text for each.
pub mod RoundTrip
pub mod Examples
use Prim.Native.String.{String}
use mathlib.Core.Bool.{Bool, true, false}
use mathlib.Core.Option
use mathlib.Core.Option.{Option, none, some}
use mathlib.Core.List.{List, [], ◌∷◌}
use nautes.Common.Tests.{if◌then◌else◌, is_empty}
use nautes.Common.Result.{not_found, Result, ok, err, wrap, ◌>>=◌}
use nautes.Common.Maps.{Map, lookup, lookup_or, assign, delete}
use nautes.Usage.Products.{
  ProductUsage, ClusterUsage, new_empty_product_usage, Yaml, new_clusters_usage,
}

-- The data of the config map, `none` where there is no config map.
abbrev pub Stored : Type 0
Stored = Option (Map String)

-- The calls of the API server on the config map: the read, and `controllerutil.CreateOrPatch`, which
-- gives what is stored afterwards.
pub record ConfigMapClient : Type 0 where
  pub get : Stored → Result (Map String)
  pub create_or_patch : (mutate : Map String → Result (Map String)) → Stored → Result Stored

-- A product without runtimes is forgotten.
unfoldable pub put_product : (product_id : String) → ProductUsage → ClusterUsage → ClusterUsage
unfolding assign delete
put_product product_id usage cluster_usage =
    if is_empty usage.runtimes
    then record { products = delete product_id cluster_usage.products }
    else record { products = assign product_id usage cluster_usage.products }

module _ (client : ConfigMapClient) (yaml : Yaml) (cluster_name : String) where
  unfoldable pub usage_of_read : Result (Map String) → Result (Option ClusterUsage)
  unfolding lookup_or new_clusters_usage
  usage_of_read (err not_found) = ok none
  usage_of_read (err e) = err e
  usage_of_read (ok contents) = do
    usage ← new_clusters_usage yaml (lookup_or "" cluster_name contents)
    ok (some usage)

  -- A config map that is not found is no error.
  unfoldable pub get_usage : Stored → Result (Option ClusterUsage)
  unfolding usage_of_read
  get_usage stored = usage_of_read (client.get stored)

  unfoldable pub get_product_usage : Stored → (product_id : String) → Result (Option ProductUsage)
  unfolding get_usage lookup
  get_product_usage stored product_id = do
    cluster_usage ← wrap "get cluster usage failed: %w" (get_usage stored)
    ok (elim cluster_usage [
      | none ↦ none
      | some usage ↦ some (Option.get_or (lookup product_id usage.products) new_empty_product_usage)
    ])

  unfoldable pub mutate_data :
      (product_id : String) → ProductUsage → Map String → Result (Map String)
  unfolding lookup_or new_clusters_usage put_product assign
  mutate_data product_id usage contents = do
    cluster_usage ← new_clusters_usage yaml (lookup_or "" cluster_name contents)
    usage_str ← yaml.marshal (put_product product_id usage cluster_usage)
    ok (assign cluster_name usage_str contents)

  unfoldable pub update_product_usage :
      (product_id : String) → ProductUsage → Stored → Result Stored
  unfolding mutate_data
  update_product_usage product_id usage stored =
      client.create_or_patch (mutate_data product_id usage) stored
