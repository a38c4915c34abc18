-- ===== src/Webhook/Deployment/Conflicts.antt =====
-- Lemmas on `checkNamespacesIsUsed` of api/kubernetes/v1alpha1/deploymentruntime_webhook.go and
-- the use of namespaces by the runtimes of other products.
pub mod Exact
use Prim.Native.String.{String}
use mathlib.Core.Path.{◌≡◌, refl, sym, subst, ◌∙◌}
use mathlib.Core.Logic.{◌↔◌, ◌≢◌, ◌⊎◌, inl, inr}
use mathlib.Core.Bool.{true, false, ◌||◌}
use mathlib.Core.Option.{some}
use mathlib.Core.List
use mathlib.Core.List.{List, [], ◌∷◌}
use native.Mathlib.Omega.{arith}
use text.Mathlib.Text.{◌==◌}
use text.Mathlib.TextEquality.{eq_iff}
use nautes.Common.Tests.{if◌then◌else◌, is_empty, Option-cases, Bool-cases}
use nautes.Common.Result.{ok, is_ok, Result-cases}
use nautes.Common.Lists.{Any, has, union, set_of, keep, has-union, has-set_of}
use nautes.Common.Maps.{Map, lookup, lookup_or, assign, lookup-assign}
use nautes.Resource.Meta.{Environment}
use nautes.Resource.Deployment.{DeploymentRuntime}
use nautes.Webhook.Client.{ValidateClient}
use nautes.Webhook.Deployment.Used.{
  env_key, resolve_cluster, add_used, collect_used, get_used_namespaces_in_cluster,
  shared_namespaces, check_namespaces_is_used,
}

-- Pairs of product and environment that share a key of the mapping name one environment; names
-- without a bar never share a key.
abbrev pub HasKeys : ValidateClient → Type 0
HasKeys client =
    (p e q f : String)
    → env_key p e ≡ env_key q f
    → client.get_environment p e ≡ client.get_environment q f

-- The runtime's environment is on the cluster.
abbrev pub RunsOn : ValidateClient → (cluster : String) → DeploymentRuntime → Type 0
RunsOn client cluster runtime =
    (env : Environment) × (client.get_environment runtime.spec.product
        runtime.spec.destination.environment
      ≡ ok env)
    × (env.spec.cluster ≡ cluster)

module _ (client : ValidateClient) (keys : HasKeys client) where
  -- Every entry of the mapping is what the API server says.
  abbrev pub IsCurrent : Map String → Type 0
  IsCurrent mapping =
      (p e cluster : String)
      → lookup (env_key p e) mapping ≡ some cluster
      → (env : Environment) × (client.get_environment p e ≡ ok env) × (env.spec.cluster ≡ cluster)

  pub IsCurrent-nil : IsCurrent []
  unfolding lookup
  IsCurrent-nil p e cluster h = cc

  IsCurrent-assign :
      (p e : String) (env : Environment) (mapping : Map String)
      → client.get_environment p e ≡ ok env
      → IsCurrent mapping
      → IsCurrent (assign (env_key p e) env.spec.cluster mapping)
  IsCurrent-assign p e env mapping found current q f cluster h =
      let written = lookup-assign (env_key p e) (env_key q f) env.spec.cluster mapping in
      elim (Bool-cases (env_key p e == env_key q f)) [
        | inl same ↦
            let shared = keys p e q f ((eq_iff _ _).0 same) in
            (env, sym shared ∙ found, ground (arith, h, written, same))
        | inr other ↦ current q f cluster (ground (arith, h, written, other))
      ]

  pub resolve_cluster-ok :
      (runtime : DeploymentRuntime) (mapping mapping' : Map String) (cluster : String)
      → resolve_cluster client runtime mapping ≡ ok (cluster, mapping')
      → IsCurrent mapping
      → RunsOn client cluster runtime × IsCurrent mapping'
  unfolding resolve_cluster
  resolve_cluster-ok runtime mapping mapping' cluster h current =
      let p = runtime.spec.product in
      let e = runtime.spec.destination.environment in
      elim (Option-cases (lookup (env_key p e) mapping)) [
        | inr (c, cached) ↦
            let same : c ≡ cluster = ground (arith, h, cached) in
            let kept : mapping ≡ mapping' = ground (arith, h, cached) in
            (current p e cluster (rw same at cached), rw kept at current)
        | inl fresh ↦ elim (Result-cases (client.get_environment p e)) [
          | inr (failure, failed) ↦ absurd (ground (arith, h, fresh, failed))
          | inl (env, found) ↦
              let same : env.spec.cluster ≡ cluster = ground (arith, h, fresh, found) in
              let written : assign (env_key p e) env.spec.cluster mapping ≡ mapping' =
                ground (arith, h, fresh, found) in
              (
                (env, found, same),
                subst IsCurrent written (IsCurrent-assign p e env mapping found current),
              )
        ]
      ]

  -- A runtime of the product on the cluster that names the namespace.
  abbrev pub UsesNamespace : (cluster product namespace : String) → DeploymentRuntime → Type 0
  UsesNamespace cluster product namespace runtime =
      (runtime.spec.product ≡ product)
      × RunsOn client cluster runtime
      × (has runtime.spec.destination.namespaces namespace ≡ true)

  abbrev pub InUse : Map (List String) → (product namespace : String) → Type 0
  InUse used product namespace = has (lookup_or [] product used) namespace ≡ true

  add_used_lem :
      (cluster env_cluster product namespace : String) (runtime : DeploymentRuntime)
      (used : Map (List String))
      → has (lookup_or [] product (add_used cluster env_cluster runtime used)) namespace ≡ (
          has (lookup_or [] product used) namespace
          || (if env_cluster == cluster
              then if runtime.spec.product == product
                then has runtime.spec.destination.namespaces namespace
                else false
              else false))
  unfolding add_used lookup_or
  add_used_lem cluster env_cluster product namespace runtime used =
      let old = lookup_or [] runtime.spec.product used in
      let new = set_of runtime.spec.destination.namespaces in
      ground (
        arith,
        lookup-assign runtime.spec.product product (union new old) used,
        has-union new old namespace,
        has-set_of runtime.spec.destination.namespaces namespace,
        eq_iff runtime.spec.product product,
      )

  pub collect_used_iff :
      (cluster product namespace : String) (runtimes : List DeploymentRuntime)
      (mapping : Map String) (used out : Map (List String))
      → IsCurrent mapping
      → collect_used client cluster runtimes mapping used ≡ ok out
      → InUse out product namespace
        ↔ (InUse used product namespace ⊎ Any (UsesNamespace cluster product namespace) runtimes)
  unfolding collect_used
  collect_used_iff cluster p ns [] mapping used out current h =
      ((λ l. ground (arith, h)), λ l. ground (arith, h))
  collect_used_iff cluster p ns (r ∷ rs) mapping used out current h =
      elim (Result-cases (resolve_cluster client r mapping)) [
        | inr (e, failed) ↦ cc (rw (failed, collect_used) at h)
        | inl ((c, mapping'), resolved) ↦
            let here = resolve_cluster-ok r mapping mapping' c resolved current in
            let ih =
              collect_used_iff cluster p ns rs mapping' (add_used cluster c r used) out here.1
                (rw (resolved, collect_used) at h) in
            let added = add_used_lem cluster c p ns r used in
            let on_cluster = eq_iff c cluster in
            let of_product = eq_iff r.spec.product p in
            (
              (λ l. ground (arith, ih, added, here.0, on_cluster, of_product)),
              λ l. ground (arith, ih, added, here.0, on_cluster, of_product),
            )
      ]

  -- A runtime of another product on the cluster that names a namespace of the runtime.
  abbrev pub Conflicts : DeploymentRuntime → (cluster : String) → DeploymentRuntime → Type 0
  Conflicts runtime cluster other =
      (namespace : String) × (other.spec.product ≢ runtime.spec.product)
      × RunsOn client cluster other
      × (has other.spec.destination.namespaces namespace ≡ true)
      × (has runtime.spec.destination.namespaces namespace ≡ true)

  pub Any-Conflicts :
      (runtime : DeploymentRuntime) (cluster : String) (others : List DeploymentRuntime)
      → Any (Conflicts runtime cluster) others
      → (product namespace : String) × (product ≢ runtime.spec.product)
        × (has runtime.spec.destination.namespaces namespace ≡ true)
        × Any (UsesNamespace cluster product namespace) others
  Any-Conflicts runtime cluster [] c = absurd c
  Any-Conflicts runtime cluster (other ∷ others) (inl (ns, differs, runs, theirs, ours)) =
      (other.spec.product, ns, differs, ours, inl (refl, runs, theirs))
  Any-Conflicts runtime cluster (other ∷ others) (inr rest) =
      let (product, ns, differs, ours, uses) = Any-Conflicts runtime cluster others rest in
      (product, ns, differs, ours, inr uses)
