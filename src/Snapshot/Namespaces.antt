-- ===== src/Snapshot/Namespaces.antt =====
-- `ListUsedNamespaces` of app/runtime-operator/pkg/database/database.go.
pub mod Exact
use Prim.Native.String.{String}
use mathlib.Core.Bool.{Bool, true, false}
use mathlib.Core.List.{List, [], ◌∷◌, ◌++◌}
use nautes.Common.Tests.{if◌then◌else◌}
use nautes.Common.Result.{Result, ok, err, deref, ◌>>=◌}
use nautes.Common.Maps.{Map, lookup, lookup_or, assign}
use nautes.Resource.Cluster.{Cluster}
use nautes.Resource.Runtime.{Runtime, get_namespaces}
use nautes.Snapshot.State.{RuntimeDataBase}
use nautes.Snapshot.Query.{get_cluster_by_runtime, list_runtimes}
use nautes.Snapshot.Options.{ListOptions, match_request}

-- map[cluster]namespaces
abbrev pub NamespaceUsage : Type 0
NamespaceUsage = Map (List String)

unfoldable pub get_namespaces_in_cluster : String → NamespaceUsage → List String
unfolding lookup_or
get_namespaces_in_cluster name usage = lookup_or [] name usage

unfoldable pub add_runtime : ListOptions → Cluster → Runtime → NamespaceUsage → NamespaceUsage
unfolding match_request lookup_or assign get_namespaces
add_runtime options cluster runtime usage =
    if match_request options runtime cluster.meta.name
    then assign cluster.meta.name (lookup_or [] cluster.meta.name usage ++ get_namespaces runtime)
        usage
    else usage

unfoldable pub collect_namespaces :
    RuntimeDataBase → ListOptions → List Runtime → NamespaceUsage → Result NamespaceUsage
unfolding get_cluster_by_runtime add_runtime
collect_namespaces db options [] usage = ok usage
collect_namespaces db options (runtime ∷ runtimes) usage =
    elim (get_cluster_by_runtime db runtime) [
      | err e ↦ err e
      | ok cluster ↦
          collect_namespaces db options runtimes (add_runtime options cluster runtime usage)
    ]

-- The product's own namespace joins those of every cluster in the map.
unfoldable pub add_product : (product_name : String) → NamespaceUsage → NamespaceUsage
add_product product_name [] = []
add_product product_name ((cluster, namespaces) ∷ usage) =
    (cluster, namespaces ++ product_name ∷ []) ∷ add_product product_name usage

unfoldable pub add_product_info :
    RuntimeDataBase → ListOptions → NamespaceUsage → Result NamespaceUsage
unfolding add_product
add_product_info db options [] = ok []
add_product_info db options (entry ∷ usage) =
    if options.without_product_info
    then ok (entry ∷ usage)
    else (do product ← deref db.product; ok (add_product product.meta.name (entry ∷ usage)))

unfoldable pub list_used_namespaces : RuntimeDataBase → ListOptions → Result NamespaceUsage
unfolding collect_namespaces add_product_info list_runtimes
list_used_namespaces db options = do
  usage ← collect_namespaces db options (list_runtimes db) []
  add_product_info db options usage
