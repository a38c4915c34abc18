-- ===== src/Webhook/Namespaces/Exact.antt =====
-- Lemmas on `GetUsedNamespaces` of api/kubernetes/v1alpha1/global_webhook.go.
use Prim.Native.String.{String}
use mathlib.Core.Path.{◌≡◌, refl}
use mathlib.Core.Logic.{◌⊎◌, ◌↔◌, inl, inr}
use mathlib.Core.Bool.{true, false, ◌||◌}
use mathlib.Core.Option.{none, some}
use mathlib.Core.List.{List, [], ◌∷◌, ◌++◌}
use native.Mathlib.Omega.{arith}
use text.Mathlib.Text.{◌==◌}
use text.Mathlib.TextEquality.{eq_iff}
use nautes.Common.Tests.{if◌then◌else◌, is_some}
use nautes.Common.Result.{ok, is_ok, Result-cases}
use nautes.Common.Lists.{All, Any, has, has-append}
use nautes.Common.Maps.{Map, lookup, lookup_or, lookup-assign}
use nautes.Resource.Meta.{Environment}
use nautes.Resource.Runtime.{
  Runtime, get_product, get_destination, get_namespaces, is_exclude_runtime,
}
use nautes.Webhook.Client.{ValidateClient}
use nautes.Webhook.Namespaces.{
  GetUsedNamespacesOptions, cache_envs, place, add_usage, collect, get_runtimes,
  get_used_namespaces,
}
use nautes.Webhook.Namespaces.Located.{
  find_cluster, Counts, place-some, place_of_Counts, place_fails_iff,
}

-- The usage map says that the namespace is in use on the cluster.
abbrev pub Listed : Map (List String) → (cluster namespace : String) → Type 0
Listed usage cluster namespace = has (lookup_or [] cluster usage) namespace ≡ true

add_usage_lem :
    (cluster c namespace : String) (runtime : Runtime) (usage : Map (List String))
    → has (lookup_or [] c (add_usage cluster runtime usage)) namespace ≡ (
        has (lookup_or [] c usage) namespace
        || (if cluster == c then has (get_namespaces runtime) namespace else false))
unfolding add_usage lookup_or
add_usage_lem cluster c ns r usage =
    let old = lookup_or [] cluster usage in
    ground (
      arith,
      lookup-assign cluster c (old ++ get_namespaces r) usage,
      has-append old (get_namespaces r) ns,
      eq_iff cluster c,
    )

module _ (options : GetUsedNamespacesOptions) (envs : List Environment)
    (cluster namespace : String) where
  -- The runtime counts for the cluster and uses the namespace.
  abbrev pub Uses : Runtime → Type 0
  Uses runtime =
      Counts options envs cluster runtime × (has (get_namespaces runtime) namespace ≡ true)

  collect_iff :
      (runtimes : List Runtime) (usage out : Map (List String))
      → collect options (cache_envs [] envs) runtimes usage ≡ ok out
      → Listed out cluster namespace ↔ (Listed usage cluster namespace ⊎ Any Uses runtimes)
  unfolding collect
  collect_iff [] usage out h = ((λ l. ground arith), λ l. ground arith)
  collect_iff (r ∷ rs) usage out h = elim (Result-cases (place options (cache_envs [] envs) r)) [
    | inr (e, p) ↦ cc (rw (p, collect) at h)
    | inl (none, p) ↦
        let ih = collect_iff rs usage out (rw (p, collect) at h) in
        let counted = place_of_Counts options envs r cluster in
        ((λ l. ground (arith, ih)), λ l. ground (arith, ih, counted, p))
    | inl (some c, p) ↦
        let ih = collect_iff rs (add_usage c r usage) out (rw (p, collect) at h) in
        let counted = place_of_Counts options envs r cluster in
        let placed = place-some options envs r c p in
        let added = add_usage_lem c cluster namespace r usage in
        (
          (λ l. ground (arith, ih, added, placed, eq_iff c cluster)),
          λ l. ground (arith, ih, added, counted, p, eq_iff c cluster),
        )
  ]

  -- When the runtimes and the environments can be read and the call succeeds, a namespace is listed
  -- for a cluster exactly if some runtime that is not excluded uses it, its environment is on that
  -- cluster, and the request is for all clusters or for that one.
  pub get_used_namespaces_iff :
      (client : ValidateClient) (runtimes : List Runtime) (usage : Map (List String))
      → get_runtimes client ≡ ok runtimes
      → client.list_environments ≡ ok envs
      → get_used_namespaces client options ≡ ok usage
      → Listed usage cluster namespace ↔ Any Uses runtimes
  unfolding get_used_namespaces lookup_or has lookup
  get_used_namespaces_iff client runtimes usage read_runtimes read_envs h =
      let collected : collect options (cache_envs [] envs) runtimes [] ≡ ok usage = ground arith in
      let exact = collect_iff runtimes [] usage collected in
      ((λ l. ground (arith, exact)), λ l. ground (arith, exact))

module _ (options : GetUsedNamespacesOptions) (envs : List Environment) where
  -- The runtime is excluded, or its environment is known.
  abbrev pub Resolves : Runtime → Type 0
  Resolves runtime =
      (is_exclude_runtime runtime options.exclude_runtimes ≡ true)
      ⊎ (is_some (find_cluster envs (get_product runtime) (get_destination runtime)) ≡ true)

  place-Resolves_iff :
      (runtime : Runtime)
      → (is_ok (place options (cache_envs [] envs) runtime) ≡ true) ↔ Resolves runtime
  place-Resolves_iff r =
      let fails = place_fails_iff options envs r in
      ((λ h. ground (arith, fails)), λ h. ground (arith, fails))

  collect-is_ok_iff :
      (runtimes : List Runtime) (usage : Map (List String))
      → (is_ok (collect options (cache_envs [] envs) runtimes usage) ≡ true) ↔ All Resolves runtimes
  unfolding collect
  collect-is_ok_iff [] usage = ((λ h. tt), λ h. refl)
  collect-is_ok_iff (r ∷ rs) usage =
      let resolves = place-Resolves_iff r in
      elim (Result-cases (place options (cache_envs [] envs) r)) [
        | inr (e, p) ↦ ((λ h. ground (arith, p)), λ h. ground (arith, resolves, p))
        | inl (none, p) ↦
            let ih = collect-is_ok_iff rs usage in
            ((λ h. ground (arith, ih, resolves, p)), λ h. ground (arith, ih, p))
        | inl (some c, p) ↦
            let ih = collect-is_ok_iff rs (add_usage c r usage) in
            ((λ h. ground (arith, ih, resolves, p)), λ h. ground (arith, ih, p))
      ]

  -- When the runtimes and the environments can be read, the call succeeds exactly if every runtime
  -- is excluded or is bound for a known environment.
  get_used_namespaces-is_ok_iff :
      (client : ValidateClient) (runtimes : List Runtime)
      → get_runtimes client ≡ ok runtimes
      → client.list_environments ≡ ok envs
      → (is_ok (get_used_namespaces client options) ≡ true) ↔ All Resolves runtimes
  unfolding get_used_namespaces
  get_used_namespaces-is_ok_iff client runtimes read_runtimes read_envs =
      let exact = collect-is_ok_iff runtimes [] in
      ((λ h. ground (arith, exact)), λ h. ground (arith, exact))
