-- ===== src/Webhook/Namespaces/Located.antt =====
-- Where a runtime runs: lemmas on the environment cache of `GetUsedNamespaces`
-- (api/kubernetes/v1alpha1/global_webhook.go).
use Prim.Native.String.{String}
use mathlib.Core.Path.{◌≡◌, refl}
use mathlib.Core.Logic.{◌⊎◌, ◌↔◌}
use mathlib.Core.Bool.{false, ◌&&◌}
use mathlib.Core.Option.{Option, none, some}
use mathlib.Core.List.{List, [], ◌∷◌}
use native.Mathlib.Omega.{arith}
use text.Mathlib.Text.{◌==◌}
use text.Mathlib.TextEquality.{eq_iff}
use nautes.Common.Tests.{if◌then◌else◌}
use nautes.Common.Result.{ok, is_ok}
use nautes.Common.Maps.{lookup, assign, lookup_or, lookup-assign}
use nautes.Resource.Meta.{Environment}
use nautes.Resource.Runtime.{Runtime, get_product, get_destination, is_exclude_runtime}
use nautes.Webhook.Namespaces.{GetUsedNamespacesOptions, EnvCache, cache_env, cache_envs, place}

-- The cluster of the last environment of that product and name.
unfoldable pub find_cluster : List Environment → (product name : String) → Option String
find_cluster [] product name = none
find_cluster (env ∷ envs) product name =
    let later = find_cluster envs product name in
    elim later [
      | some cluster ↦ some cluster
      | none ↦
          if env.spec.product == product && env.meta.name == name
          then some env.spec.cluster
          else none
    ]

unfoldable pub find_cached : EnvCache → (product name : String) → Option String
unfolding lookup
find_cached cache product name = elim (lookup product cache) [
  | none ↦ none
  | some envs ↦ lookup name envs
]

find_cached-cache_env :
    (cache : EnvCache) (env : Environment) (product name : String)
    → find_cached (cache_env cache env) product name ≡ (
        if env.spec.product == product && env.meta.name == name
        then some env.spec.cluster
        else find_cached cache product name)
unfolding find_cached cache_env lookup_or
find_cached-cache_env cache env p n =
    let envs = lookup_or [] env.spec.product cache in
    ground (
      arith,
      lookup-assign env.spec.product p (assign env.meta.name env.spec.cluster envs) cache,
      lookup-assign env.meta.name n env.spec.cluster envs,
      eq_iff env.spec.product p,
      eq_iff env.meta.name n,
    )

pub find_cached-cache_envs :
    (envs : List Environment) (cache : EnvCache) (product name : String)
    → find_cached (cache_envs cache envs) product name ≡ elim (find_cluster envs product name) [
      | some cluster ↦ some cluster
      | none ↦ find_cached cache product name
    ]
unfolding cache_envs find_cluster
find_cached-cache_envs [] cache p n = refl
find_cached-cache_envs (env ∷ envs) cache p n = ground (
  arith,
  find_cached-cache_envs envs (cache_env cache env) p n,
  find_cached-cache_env cache env p n,
)

-- What the code looks up in the finished cache is what the list of environments says.
pub find_cached_lem :
    (envs : List Environment) (product name : String)
    → find_cached (cache_envs [] envs) product name ≡ find_cluster envs product name
unfolding find_cached lookup
find_cached_lem envs p n = ground (arith, find_cached-cache_envs envs [] p n)

-- The runtime is counted for the cluster: it is not excluded, its environment is on the cluster,
-- and the request is not for another cluster.
pub record Counts (options : GetUsedNamespacesOptions) (envs : List Environment) (cluster : String)
    (runtime : Runtime) : Type 0 where
  pub included : is_exclude_runtime runtime options.exclude_runtimes ≡ false
  pub located : find_cluster envs (get_product runtime) (get_destination runtime) ≡ some cluster
  pub requested : (options.in_cluster ≡ "") ⊎ (options.in_cluster ≡ cluster)

module _ (options : GetUsedNamespacesOptions) (envs : List Environment) (runtime : Runtime) where
  pub place-some :
      (cluster : String)
      → place options (cache_envs [] envs) runtime ≡ ok (some cluster)
      → Counts options envs cluster runtime
  unfolding place find_cached
  place-some cluster h = ground (
    arith,
    find_cached_lem envs (get_product runtime) (get_destination runtime),
    eq_iff options.in_cluster "",
    eq_iff options.in_cluster cluster,
  )

  pub place_of_Counts :
      (cluster : String)
      → Counts options envs cluster runtime
      → place options (cache_envs [] envs) runtime ≡ ok (some cluster)
  unfolding place find_cached
  place_of_Counts cluster h = ground (
    arith,
    find_cached_lem envs (get_product runtime) (get_destination runtime),
    eq_iff options.in_cluster "",
    eq_iff options.in_cluster cluster,
  )

  -- The round fails exactly if the runtime is not excluded and its environment is unknown.
  pub place_fails_iff : (is_ok (place options (cache_envs [] envs) runtime) ≡ false) ↔ (
      (is_exclude_runtime runtime options.exclude_runtimes ≡ false)
      × (find_cluster envs (get_product runtime) (get_destination runtime) ≡ none))
  unfolding place find_cached
  place_fails_iff =
      let found = find_cached_lem envs (get_product runtime) (get_destination runtime) in
      ((λ h. ground (arith, found)), λ h. ground (arith, found))
