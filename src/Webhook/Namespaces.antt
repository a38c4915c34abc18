-- ===== src/Webhook/Namespaces.antt =====
-- `GetRuntimes` and `GetUsedNamespaces` of api/kubernetes/v1alpha1/global_webhook.go: the
-- namespaces that runtimes use, by cluster.
pub mod Located
pub mod Exact
use Prim.Native.String.{String}
use mathlib.Core.Bool.{Bool, true, false, ◌&&◌, not}
use mathlib.Core.Option.{Option, none, some}
use mathlib.Core.List.{List, [], ◌∷◌, ◌++◌, map}
use text.Mathlib.Text.{◌==◌}
use nautes.Common.Tests.{if◌then◌else◌}
use nautes.Common.Result.{Result, ok, err, errorf, wrap, ◌>>=◌}
use nautes.Common.Maps.{Map, lookup, lookup_or, assign}
use nautes.Resource.Meta.{Environment}
use nautes.Resource.Runtime.{
  Runtime, deployment, pipeline, get_product, get_destination, get_namespaces, is_exclude_runtime,
}
use nautes.Webhook.Client.{ValidateClient}

-- All deployment runtimes, then all pipeline runtimes, of every product.
unfoldable pub get_runtimes : ValidateClient → Result (List Runtime)
get_runtimes client = do
  deploy_runtimes ← client.list_deployment_runtimes ""
  pipeline_runtimes ← client.list_project_pipeline_runtimes ""
  ok (map deployment deploy_runtimes ++ map pipeline pipeline_runtimes)

-- The zero value of both options asks for everything.
pub record GetUsedNamespacesOptions : Type 0 where
  pub exclude_runtimes : List Runtime
  pub in_cluster : String

-- map[product][env]cluster
abbrev pub EnvCache : Type 0
EnvCache = Map (Map String)

unfoldable pub cache_env : EnvCache → Environment → EnvCache
unfolding assign lookup_or
cache_env cache env =
    let envs = lookup_or [] env.spec.product cache in
    assign env.spec.product (assign env.meta.name env.spec.cluster envs) cache

unfoldable pub cache_envs : EnvCache → List Environment → EnvCache
unfolding cache_env
cache_envs cache [] = cache
cache_envs cache (env ∷ envs) = cache_envs (cache_env cache env) envs

-- One round of the loop over the runtimes up to the write: `none` is `continue`.
unfoldable pub place : GetUsedNamespacesOptions → EnvCache → Runtime → Result (Option String)
unfolding is_exclude_runtime get_product get_destination lookup
place options cache runtime =
    let product = get_product runtime in
    let env = get_destination runtime in
    if is_exclude_runtime runtime options.exclude_runtimes
    then ok none
    else elim (lookup product cache) [
      | none ↦ err (errorf "product %s not found" (product ∷ []))
      | some envs ↦ elim (lookup env envs) [
        | none ↦ err (errorf "environment %s not found" (env ∷ []))
        | some cluster ↦
            if not (options.in_cluster == "") && not (options.in_cluster == cluster)
            then ok none
            else ok (some cluster)
      ]
    ]

-- `namespaceUsage[cluster] = append(namespaceUsage[cluster], runtime.GetNamespaces()...)`
unfoldable pub add_usage : String → Runtime → Map (List String) → Map (List String)
unfolding assign lookup_or get_namespaces
add_usage cluster runtime usage =
    assign cluster (lookup_or [] cluster usage ++ get_namespaces runtime) usage

unfoldable pub collect :
    GetUsedNamespacesOptions
    → EnvCache
    → List Runtime
    → Map (List String)
    → Result (Map (List String))
unfolding place add_usage
collect options cache [] usage = ok usage
collect options cache (runtime ∷ runtimes) usage = elim (place options cache runtime) [
  | err e ↦ err e
  | ok none ↦ collect options cache runtimes usage
  | ok (some cluster) ↦ collect options cache runtimes (add_usage cluster runtime usage)
]

unfoldable pub get_used_namespaces :
    ValidateClient → GetUsedNamespacesOptions → Result (Map (List String))
unfolding get_runtimes cache_envs collect
get_used_namespaces client options = do
  runtimes ← wrap "list runtimes failed: %w" (get_runtimes client)
  envs ← wrap "list environments failed: %w" client.list_environments
  collect options (cache_envs [] envs) runtimes []
