-- ===== src/Snapshot/Namespaces/Exact.antt =====
-- Lemmas on `ListUsedNamespaces` of app/runtime-operator/pkg/database/database.go.
use Prim.Native.String.{String}
use mathlib.Core.Path.{◌≡◌, refl}
use mathlib.Core.Logic.{◌⊎◌, ◌↔◌, inl, inr}
use mathlib.Core.Bool.{true, false, ◌||◌, ◌&&◌}
use mathlib.Core.Option.{some}
use mathlib.Core.List.{List, [], ◌∷◌, ◌++◌}
use native.Mathlib.Omega.{arith}
use text.Mathlib.Text.{◌==◌}
use text.Mathlib.TextEquality.{eq_iff}
use nautes.Common.Tests.{if◌then◌else◌, is_some}
use nautes.Common.Result.{ok, Result-cases}
use nautes.Common.Lists.{Any, has, has-append}
use nautes.Common.Maps.{lookup, lookup_or, lookup-assign}
use nautes.Resource.Meta.{Product}
use nautes.Resource.Cluster.{Cluster}
use nautes.Resource.Runtime.{Runtime, get_namespaces}
use nautes.Snapshot.State.{RuntimeDataBase}
use nautes.Snapshot.Query.{get_cluster_by_runtime, list_runtimes}
use nautes.Snapshot.Options.{ListOptions, match_request, Matches, match_request_iff}
use nautes.Snapshot.Namespaces.{
  NamespaceUsage, get_namespaces_in_cluster, add_runtime, collect_namespaces, add_product,
  add_product_info, list_used_namespaces,
}

-- The usage names the namespace for the cluster.
abbrev pub Listed : NamespaceUsage → (cluster namespace : String) → Type 0
Listed usage cluster namespace = has (get_namespaces_in_cluster cluster usage) namespace ≡ true

module _ (db : RuntimeDataBase) (options : ListOptions) (cluster namespace : String) where
  -- The request covers the runtime, and its environment is on the cluster.
  pub record Covered (runtime : Runtime) : Type 0 where
    pub found : Cluster
    pub located : get_cluster_by_runtime db runtime ≡ ok found
    pub named : found.meta.name ≡ cluster
    pub matches : Matches options runtime cluster

  abbrev pub Uses : Runtime → Type 0
  Uses runtime = Covered runtime × (has (get_namespaces runtime) namespace ≡ true)

  add_runtime_lem :
      (c : Cluster) (runtime : Runtime) (usage : NamespaceUsage)
      → has (get_namespaces_in_cluster cluster (add_runtime options c runtime usage)) namespace ≡ (
          has (get_namespaces_in_cluster cluster usage) namespace
          || (c.meta.name == cluster
              && match_request options runtime c.meta.name
              && has (get_namespaces runtime) namespace))
  unfolding add_runtime get_namespaces_in_cluster lookup_or
  add_runtime_lem c runtime usage =
      let old = lookup_or [] c.meta.name usage in
      ground (
        arith,
        lookup-assign c.meta.name cluster (old ++ get_namespaces runtime) usage,
        has-append old (get_namespaces runtime) namespace,
        eq_iff c.meta.name cluster,
      )

  Uses_of_match :
      (c : Cluster) (runtime : Runtime)
      → get_cluster_by_runtime db runtime ≡ ok c
      → (c.meta.name == cluster) ≡ true
      → match_request options runtime c.meta.name ≡ true
      → Covered runtime
  Uses_of_match c runtime located named h =
      let same = (eq_iff c.meta.name cluster).0 named in
      record {
        found = c;
        located = located;
        named = same;
        matches = (match_request_iff options runtime cluster).0 (rw same at h);
      }

  collect_namespaces_iff :
      (runtimes : List Runtime) (usage out : NamespaceUsage)
      → collect_namespaces db options runtimes usage ≡ ok out
      → Listed out cluster namespace ↔ (Listed usage cluster namespace ⊎ Any Uses runtimes)
  unfolding collect_namespaces
  collect_namespaces_iff [] usage out h = ((λ l. ground arith), λ l. ground arith)
  collect_namespaces_iff (r ∷ rs) usage out h = elim (Result-cases (get_cluster_by_runtime db r)) [
    | inr (e, p) ↦ cc (rw (p, collect_namespaces) at h)
    | inl (c, p) ↦
        let ih =
          collect_namespaces_iff rs (add_runtime options c r usage) out
            (rw (p, collect_namespaces) at h) in
        let added = add_runtime_lem c r usage in
        let covered = Uses_of_match c r p in
        let matched = match_request_iff options r cluster in
        let named = eq_iff c.meta.name cluster in
        (
          (λ l. ground (arith, ih, added, covered)),
          λ l. ground (arith, ih, added, matched, named, p),
        )
  ]

  add_runtime_entry :
      (c : Cluster) (runtime : Runtime) (usage : NamespaceUsage)
      → is_some (lookup cluster (add_runtime options c runtime usage)) ≡ (
          is_some (lookup cluster usage)
          || (c.meta.name == cluster && match_request options runtime c.meta.name))
  unfolding add_runtime
  add_runtime_entry c runtime usage =
      let old = lookup_or [] c.meta.name usage in
      ground (
        arith,
        lookup-assign c.meta.name cluster (old ++ get_namespaces runtime) usage,
        eq_iff c.meta.name cluster,
      )

  has_entry_iff :
      (runtimes : List Runtime) (usage out : NamespaceUsage)
      → collect_namespaces db options runtimes usage ≡ ok out
      → (is_some (lookup cluster out) ≡ true)
        ↔ ((is_some (lookup cluster usage) ≡ true) ⊎ Any Covered runtimes)
  unfolding collect_namespaces
  has_entry_iff [] usage out h = ((λ l. ground arith), λ l. ground arith)
  has_entry_iff (r ∷ rs) usage out h = elim (Result-cases (get_cluster_by_runtime db r)) [
    | inr (e, p) ↦ cc (rw (p, collect_namespaces) at h)
    | inl (c, p) ↦
        let ih =
          has_entry_iff rs (add_runtime options c r usage) out (rw (p, collect_namespaces) at h) in
        let added = add_runtime_entry c r usage in
        let covered = Uses_of_match c r p in
        let matched = match_request_iff options r cluster in
        let named = eq_iff c.meta.name cluster in
        (
          (λ l. ground (arith, ih, added, covered)),
          λ l. ground (arith, ih, added, matched, named, p),
        )
  ]

  add_product_lem :
      (product_name : String) (usage : NamespaceUsage)
      → has (get_namespaces_in_cluster cluster (add_product product_name usage)) namespace ≡ (
          has (get_namespaces_in_cluster cluster usage) namespace
          || (is_some (lookup cluster usage) && product_name == namespace))
  unfolding add_product get_namespaces_in_cluster lookup_or lookup has
  add_product_lem product_name [] = refl
  add_product_lem product_name ((c, namespaces) ∷ usage) = ground (
    arith,
    add_product_lem product_name usage,
    has-append namespaces (product_name ∷ []) namespace,
    eq_iff c cluster,
  )

  add_product_info_lem :
      (product : Product) (usage out : NamespaceUsage)
      → db.product ≡ some product
      → add_product_info db options usage ≡ ok out
      → out ≡ (if options.without_product_info then usage else add_product product.meta.name usage)
  unfolding add_product_info add_product
  add_product_info_lem product [] out held h = ground (arith, h)
  add_product_info_lem product (entry ∷ usage) out held h = ground (arith, h, held)

  -- When the snapshot holds its product and the call succeeds, a namespace is listed for a cluster
  -- exactly if a runtime that the request covers on that cluster uses it, or, unless the request
  -- leaves out the product, it is the product's own and the request covers a runtime there.
  pub list_used_namespaces_iff :
      (product : Product) (usage : NamespaceUsage)
      → db.product ≡ some product
      → list_used_namespaces db options ≡ ok usage
      → Listed usage cluster namespace ↔ (
          Any Uses (list_runtimes db)
          ⊎ ((options.without_product_info ≡ false)
              × (product.meta.name ≡ namespace)
              × Any Covered (list_runtimes db)))
  unfolding list_used_namespaces get_namespaces_in_cluster lookup_or lookup has
  list_used_namespaces_iff product usage held h =
      elim (Result-cases (collect_namespaces db options (list_runtimes db) [])) [
        | inr (e, failed) ↦ absurd (ground (arith, h, failed))
        | inl (collected, ran) ↦
            let exact = collect_namespaces_iff (list_runtimes db) [] collected ran in
            let entry = has_entry_iff (list_runtimes db) [] collected ran in
            let added = add_product_lem product.meta.name collected in
            let last = add_product_info_lem product collected usage held (ground (arith, h, ran)) in
            let own = eq_iff product.meta.name namespace in
            (
              (λ l. ground (arith, exact, entry, added, last, own)),
              λ l. ground (arith, exact, entry, added, last, own),
            )
      ]
