-- ===== src/Webhook/Deployment/Used.antt =====
-- `getUsedNamespacesInCluster` and `checkNamespacesIsUsed` of
-- api/kubernetes/v1alpha1/deploymentruntime_webhook.go.
use Prim.Native.String.{String, ◌++◌}
use mathlib.Core.Bool.{not}
use mathlib.Core.Option.{none, some}
use mathlib.Core.List
use mathlib.Core.List.{List, [], ◌∷◌}
use text.Mathlib.Text.{◌==◌}
use nautes.Common.Tests.{if◌then◌else◌, is_empty}
use nautes.Common.Result.{Result, Check, ok, err, errorf, ◌>>=◌, fail_if}
use nautes.Common.Lists.{has, set_of, union, keep}
use nautes.Common.Maps.{Map, lookup, lookup_or, assign}
use nautes.Resource.Deployment.{DeploymentRuntime}
use nautes.Webhook.Client.{ValidateClient}

-- `fmt.Sprintf("%s|%s", productID, envName)`
unfoldable pub env_key : (product env : String) → String
env_key product env = product ++ ("|" ++ env)

-- The cluster of an environment, from the mapping or from the API server, and the mapping after.
unfoldable pub resolve_cluster :
    ValidateClient → DeploymentRuntime → Map String → Result (String × Map String)
unfolding env_key lookup assign
resolve_cluster client runtime mapping =
    let product = runtime.spec.product in
    let env_name = runtime.spec.destination.environment in
    let key = env_key product env_name in
    elim (lookup key mapping) [
      | some cluster ↦ ok (cluster, mapping)
      | none ↦ elim (client.get_environment product env_name) [
        | err e ↦ err e
        | ok env ↦ ok (env.spec.cluster, assign key env.spec.cluster mapping)
      ]
    ]

-- The namespaces of the runtime join the set of its product.
unfoldable pub add_used :
    (cluster env_cluster : String) → DeploymentRuntime → Map (List String) → Map (List String)
unfolding union set_of lookup_or assign
add_used cluster env_cluster runtime used =
    let product = runtime.spec.product in
    if env_cluster == cluster
    then assign product
        (union (set_of runtime.spec.destination.namespaces) (lookup_or [] product used)) used
    else used

-- map[product]namespaces, over the runtimes of all products.
unfoldable pub collect_used :
    ValidateClient
    → (cluster : String) → List DeploymentRuntime
    → (mapping : Map String) → (used : Map (List String)) → Result (Map (List String))
unfolding resolve_cluster add_used
collect_used client cluster [] mapping used = ok used
collect_used client cluster (runtime ∷ runtimes) mapping used =
    elim (resolve_cluster client runtime mapping) [
      | err e ↦ err e
      | ok (env_cluster, mapping') ↦
          collect_used client cluster runtimes mapping' (add_used cluster env_cluster runtime used)
    ]

unfoldable pub get_used_namespaces_in_cluster :
    ValidateClient → (cluster : String) → Result (Map (List String))
unfolding collect_used
get_used_namespaces_in_cluster client cluster = do
  runtimes ← client.list_deployment_runtimes ""
  collect_used client cluster runtimes [] []

-- The namespaces of the runtime that other products use.
unfoldable pub shared_namespaces :
    (product_name : String) (runtime_namespaces : List String) → Map (List String) → List String
unfolding keep has
shared_namespaces product_name runtime_namespaces [] = []
shared_namespaces product_name runtime_namespaces ((product, namespaces) ∷ usage) =
    let rest = shared_namespaces product_name runtime_namespaces usage in
    if product == product_name
    then rest
    else List.◌++◌ (keep (has runtime_namespaces) namespaces) rest

-- The usage that the loop sees: after an error it is nil, and the error is not looked at.
abbrev pub usage_or_nil : Result (Map (List String)) → Map (List String)
usage_or_nil (ok usage) = usage
usage_or_nil (err e) = []

unfoldable pub check_namespaces_is_used : ValidateClient → DeploymentRuntime → Check
unfolding get_used_namespaces_in_cluster shared_namespaces
check_namespaces_is_used client runtime =
    let product_name = runtime.spec.product in
    elim (client.get_environment product_name runtime.spec.destination.environment) [
      | err e ↦ ok tt
      | ok env ↦
          let usage = usage_or_nil (get_used_namespaces_in_cluster client env.spec.cluster) in
          let used = shared_namespaces product_name runtime.spec.destination.namespaces usage in
          fail_if (not (is_empty used)) (errorf "namespaces [%s] is used by other product" used)
    ]
