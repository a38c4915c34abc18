-- ===== src/Webhook/Deployment/Conflicts/Exact.antt =====
-- Lemmas on the result of `checkNamespacesIsUsed`
-- (api/kubernetes/v1alpha1/deploymentruntime_webhook.go).
use Prim.Native.String.{String}
use mathlib.Core.Path.{◌≡◌, refl, sym, subst, ◌∙◌}
use mathlib.Core.Logic.{◌↔◌, ◌≢◌, inl, inr}
use mathlib.Core.Bool.{true, false}
use mathlib.Core.List
use mathlib.Core.List.{List, [], ◌∷◌}
use native.Mathlib.Omega.{arith}
use text.Mathlib.Text.{◌==◌}
use text.Mathlib.TextEquality.{eq_iff}
use nautes.Common.Tests.{is_empty, Bool-cases}
use nautes.Common.Result.{ok, is_ok, Result-cases}
use nautes.Common.Lists.{Any, has, union, set_of, keep}
use nautes.Common.Maps.{Map, lookup, lookup_or, keys, IsMap, IsMap-assign, lookup_of_absent}
use nautes.Resource.Meta.{Environment}
use nautes.Resource.Deployment.{DeploymentRuntime}
use nautes.Webhook.Client.{ValidateClient}
use nautes.Webhook.Deployment.Used.{
  resolve_cluster, add_used, collect_used, get_used_namespaces_in_cluster, shared_namespaces,
  check_namespaces_is_used,
}
use nautes.Webhook.Deployment.Conflicts.{
  HasKeys, IsCurrent-nil, UsesNamespace, collect_used_iff, Conflicts, Any-Conflicts,
}

append-is_empty :
    (xs ys : List String)
    → is_empty (List.◌++◌ xs ys) ≡ true
    → (is_empty xs ≡ true) × (is_empty ys ≡ true)
append-is_empty [] ys h = (refl, h)
append-is_empty (x ∷ xs) ys h = cc

keep-has-nil :
    (namespace : String) (ours namespaces : List String)
    → is_empty (keep (has ours) namespaces) ≡ true
    → has namespaces namespace ≡ true
    → has ours namespace ≡ false
unfolding keep has
keep-has-nil ns ours [] h listed = cc
keep-has-nil ns ours (x ∷ namespaces) h listed =
    ground (arith, keep-has-nil ns ours namespaces, eq_iff x ns)

-- An empty result of the loop leaves no namespace of the runtime to another product.
shared_namespaces-nil :
    (product_name product namespace : String) (runtime_namespaces : List String)
    (usage : Map (List String))
    → is_empty (shared_namespaces product_name runtime_namespaces usage) ≡ true
    → product ≢ product_name
    → has (lookup_or [] product usage) namespace ≡ true
    → has runtime_namespaces namespace ≡ false
unfolding shared_namespaces lookup_or lookup has
shared_namespaces-nil product_name p ns ours [] h differs listed = cc
shared_namespaces-nil product_name p ns ours ((q, namespaces) ∷ usage) h differs listed = ground (
  arith,
  shared_namespaces-nil product_name p ns ours usage,
  keep-has-nil ns ours namespaces,
  append-is_empty (keep (has ours) namespaces) (shared_namespaces product_name ours usage),
  eq_iff q p,
  eq_iff q product_name,
)

append-is_empty-left :
    (xs ys : List String) → is_empty xs ≡ true → is_empty (List.◌++◌ xs ys) ≡ is_empty ys
append-is_empty-left [] ys h = refl
append-is_empty-left (x ∷ xs) ys h = cc

keep-has-some :
    (ours namespaces : List String)
    → is_empty (keep (has ours) namespaces) ≡ false
    → (namespace : String) × (has namespaces namespace ≡ true) × (has ours namespace ≡ true)
unfolding keep has
keep-has-some ours [] h = cc
keep-has-some ours (x ∷ namespaces) h = elim (Bool-cases (has ours x)) [
  | inl shared ↦ (x, ground (arith, eq_iff x x), shared)
  | inr other ↦
      let (ns, theirs, mine) = keep-has-some ours namespaces (ground (arith, h, other)) in
      (ns, ground (arith, theirs), mine)
]

-- A namespace of the runtime that the usage has for another product.
abbrev IsShared : (product_name : String) (ours : List String) (usage : Map (List String)) → Type 0
IsShared product_name ours usage =
    (product namespace : String) × (product ≢ product_name)
    × (has (lookup_or [] product usage) namespace ≡ true)
    × (has ours namespace ≡ true)

IsShared-cons :
    (product_name q : String) (ours namespaces : List String) (usage : Map (List String))
    → has (keys usage) q ≡ false
    → IsShared product_name ours usage
    → IsShared product_name ours ((q, namespaces) ∷ usage)
unfolding lookup_or lookup has
IsShared-cons product_name q ours namespaces usage fresh (p, ns, differs, listed, mine) =
    (p, ns, differs, ground (arith, listed, eq_iff q p, lookup_of_absent q usage fresh), mine)

shared_namespaces-some :
    (product_name : String) (ours : List String) (usage : Map (List String))
    → IsMap usage
    → is_empty (shared_namespaces product_name ours usage) ≡ false
    → IsShared product_name ours usage
unfolding shared_namespaces lookup_or lookup
shared_namespaces-some product_name ours [] unique h = cc
shared_namespaces-some product_name ours ((q, namespaces) ∷ usage) unique h =
    let rest = λ (later : is_empty (shared_namespaces product_name ours usage) ≡ false).
      IsShared-cons product_name q ours namespaces usage unique.0
        (shared_namespaces-some product_name ours usage unique.1 later) in
    let same = eq_iff q product_name in
    let rest_of = λ (l : List String) (e : is_empty (keep (has ours) l) ≡ true).
      append-is_empty-left (keep (has ours) l) (shared_namespaces product_name ours usage) e in
    elim (Bool-cases (q == product_name)) [
      | inl own ↦ rest (ground (arith, h, own))
      | inr other ↦ elim (Bool-cases (is_empty (keep (has ours) namespaces))) [
        | inl none_here ↦ rest (ground (arith, h, other, rest_of namespaces none_here))
        | inr some_here ↦
            let (ns, theirs, mine) = keep-has-some ours namespaces some_here in
            (q, ns, (λ e. ground (arith, other, e, same)), ground (arith, theirs, eq_iff q q), mine)
      ]
    ]

module _ (client : ValidateClient) (keys : HasKeys client) where
  not-Conflicts :
      (runtime : DeploymentRuntime) (env : Environment) (runtimes : List DeploymentRuntime)
      → client.get_environment runtime.spec.product runtime.spec.destination.environment ≡ ok env
      → client.list_deployment_runtimes "" ≡ ok runtimes
      → is_ok (get_used_namespaces_in_cluster client env.spec.cluster) ≡ true
      → check_namespaces_is_used client runtime ≡ ok tt
      → ¬ Any (Conflicts client keys runtime env.spec.cluster) runtimes
  unfolding check_namespaces_is_used get_used_namespaces_in_cluster
  not-Conflicts runtime env runtimes found listed readable h conflict =
      let cluster = env.spec.cluster in
      let (p, ns, differs, ours, uses) =
        Any-Conflicts client keys runtime cluster runtimes conflict in
      elim (Result-cases (collect_used client cluster runtimes [] [])) [
        | inr (e, failed) ↦ ground (arith, readable, listed, failed)
        | inl (usage, collected) ↦
            let used =
              (collect_used_iff client keys cluster p ns runtimes [] [] usage
                  (IsCurrent-nil client keys) collected).1
                (inr uses) in
            let free =
              shared_namespaces-nil runtime.spec.product p ns runtime.spec.destination.namespaces
                usage in
            ground (arith, h, found, listed, collected, used, free, differs, ours)
      ]

  add_used-IsMap :
      (cluster env_cluster : String) (runtime : DeploymentRuntime) (used : Map (List String))
      → IsMap used
      → IsMap (add_used cluster env_cluster runtime used)
  unfolding add_used
  add_used-IsMap cluster env_cluster runtime used unique =
      let product = runtime.spec.product in
      let new = union (set_of runtime.spec.destination.namespaces) (lookup_or [] product used) in
      elim (Bool-cases (env_cluster == cluster)) [
        | inl here ↦ subst IsMap (ground (arith, here)) (IsMap-assign product new used unique)
        | inr elsewhere ↦ subst IsMap (ground (arith, elsewhere)) unique
      ]

  collect_used-IsMap :
      (cluster : String) (runtimes : List DeploymentRuntime) (mapping : Map String)
      (used out : Map (List String))
      → collect_used client cluster runtimes mapping used ≡ ok out
      → IsMap used
      → IsMap out
  unfolding collect_used
  collect_used-IsMap cluster [] mapping used out h unique = subst IsMap (ground (arith, h)) unique
  collect_used-IsMap cluster (r ∷ rs) mapping used out h unique =
      elim (Result-cases (resolve_cluster client r mapping)) [
        | inr (e, failed) ↦ cc (rw (failed, collect_used) at h)
        | inl ((c, mapping'), resolved) ↦
            collect_used-IsMap cluster rs mapping' (add_used cluster c r used) out
              (rw (resolved, collect_used) at h) (add_used-IsMap cluster c r used unique)
      ]

  Conflicts-Any :
      (runtime : DeploymentRuntime) (cluster product namespace : String)
      (others : List DeploymentRuntime)
      → product ≢ runtime.spec.product
      → has runtime.spec.destination.namespaces namespace ≡ true
      → Any (UsesNamespace client keys cluster product namespace) others
      → Any (Conflicts client keys runtime cluster) others
  Conflicts-Any runtime cluster p ns [] differs ours uses = absurd uses
  Conflicts-Any runtime cluster p ns (other ∷ others) differs ours
        (inl (of_product, runs, theirs)) =
      inl (ns, (λ e. differs (sym of_product ∙ e)), runs, theirs, ours)
  Conflicts-Any runtime cluster p ns (other ∷ others) differs ours (inr rest) =
      inr (Conflicts-Any runtime cluster p ns others differs ours rest)

  conflict_of_shared :
      (runtime : DeploymentRuntime) (cluster : String) (runtimes : List DeploymentRuntime)
      (usage : Map (List String))
      → collect_used client cluster runtimes [] [] ≡ ok usage
      → is_empty (shared_namespaces runtime.spec.product runtime.spec.destination.namespaces usage)
        ≡ false
      → Any (Conflicts client keys runtime cluster) runtimes
  unfolding lookup_or lookup has
  conflict_of_shared runtime cluster runtimes usage collected h =
      let unique = collect_used-IsMap cluster runtimes [] [] usage collected tt in
      let (p, ns, differs, listed, mine) =
        shared_namespaces-some runtime.spec.product runtime.spec.destination.namespaces usage unique
          h in
      let exact =
        collect_used_iff client keys cluster p ns runtimes [] [] usage (IsCurrent-nil client keys)
          collected in
      elim (exact.0 listed) [
        | inl earlier ↦ absurd (ground (arith, earlier))
        | inr uses ↦ Conflicts-Any runtime cluster p ns runtimes differs mine uses
      ]

  -- If the runtime's environment, the runtimes and all their environments can be read, a runtime is
  -- accepted exactly if it shares no namespace that it names with a runtime of another product on
  -- its cluster.
  pub check_namespaces_is_used_iff :
      (runtime : DeploymentRuntime) (env : Environment) (runtimes : List DeploymentRuntime)
      → client.get_environment runtime.spec.product runtime.spec.destination.environment ≡ ok env
      → client.list_deployment_runtimes "" ≡ ok runtimes
      → is_ok (get_used_namespaces_in_cluster client env.spec.cluster) ≡ true
      → (check_namespaces_is_used client runtime ≡ ok tt)
        ↔ ¬ Any (Conflicts client keys runtime env.spec.cluster) runtimes
  unfolding check_namespaces_is_used get_used_namespaces_in_cluster
  check_namespaces_is_used_iff runtime env runtimes found listed readable = (
    not-Conflicts runtime env runtimes found listed readable,
    λ free. elim (Result-cases (collect_used client env.spec.cluster runtimes [] [])) [
      | inr (e, failed) ↦ absurd (ground (arith, readable, listed, failed))
      | inl (usage, collected) ↦
          let shared =
            shared_namespaces runtime.spec.product runtime.spec.destination.namespaces usage in
          elim (Bool-cases (is_empty shared)) [
            | inl empty ↦ ground (arith, found, listed, collected, empty)
            | inr some_shared ↦ absurd (
                free (
                  conflict_of_shared runtime env.spec.cluster runtimes usage collected some_shared))
          ]
    ],
  )
