-- ===== src/Webhook/Cluster/Accepted.antt =====
-- Which clusters `ValidateCluster` of api/kubernetes/v1alpha1/cluster_webhook.go accepts.
use Prim.Native.String.{String}
use mathlib.Core.Path.{◌≡◌, refl, ◌∙◌}
use mathlib.Core.Logic.{◌⊎◌, ◌↔◌, inl, inr}
use mathlib.Core.Bool.{Bool, true, false}
use mathlib.Core.Option.{Option, some}
use mathlib.Core.List.{List, [], ◌∷◌}
use native.Mathlib.Omega.{arith}
use text.Mathlib.Text.{◌==◌}
use text.Mathlib.TextEquality.{eq_iff}
use nautes.Common.Tests.{is_empty, Bool-cases}
use nautes.Common.Result.{Result, ok, >>=-eq-ok, fail_if-eq-ok}
use nautes.Common.Lists.{All, has}
use nautes.Common.Maps.{Map}
use nautes.Resource.Cluster.{
  Cluster, cluster_usage_host, cluster_type_physical, cluster_type_virtual, get_namespaces_map,
}
use nautes.Webhook.Client.{K8sClient}
use nautes.Webhook.Config.{ClusterComponentConfig}
use nautes.Webhook.Dependents.{cluster_dependencies}
use nautes.Webhook.Dependents.Exact.{IsUnreferenced, cluster_dependencies_iff, reject_iff}
use nautes.Webhook.Cluster.{
  check_reserved, static_check, check_cluster_components, is_same_shape, check_dependencies,
  check_deletable, check_old, validate_cluster,
}

-- A host is physical and has no work type; a physical cluster has no host and a virtual one has; each
-- reserved namespace is one of a component.
abbrev pub IsWellShaped : Cluster → Type 0
IsWellShaped r =
    (((r.spec.usage == cluster_usage_host) ≡ false)
      ⊎ (((r.spec.cluster_type == cluster_type_physical) ≡ true)
          × ((r.spec.worker_type == "") ≡ true)))
    × (((r.spec.cluster_type == cluster_type_physical) ≡ false)
        ⊎ ((r.spec.host_cluster == "") ≡ true))
    × (((r.spec.cluster_type == cluster_type_virtual) ≡ false)
        ⊎ ((r.spec.host_cluster == "") ≡ false))
    × All
        (λ (entry : String × List String).
          has (get_namespaces_map r.spec.components_list) entry.0 ≡ true)
        r.spec.reserved_namespaces_allowed_products

check_reserved_iff :
    (namespaces : List String) (reserved : Map (List String))
    → (check_reserved namespaces reserved ≡ ok tt)
      ↔ All (λ (entry : String × List String). has namespaces entry.0 ≡ true) reserved
unfolding check_reserved
check_reserved_iff namespaces [] = ((λ h. tt), λ h. refl)
check_reserved_iff namespaces ((namespace, products) ∷ reserved) =
    let ih = check_reserved_iff namespaces reserved in
    elim (Bool-cases (has namespaces namespace)) [
      | inl there ↦ rw (there) ((λ h. (refl, ih.0 h)), λ h. ih.1 h.1)
      | inr missing ↦ rw (missing) ((λ h. cc), λ h. cc)
    ]

static_check_of_cluster_iff : (r : Cluster) → (static_check r ≡ ok tt) ↔ IsWellShaped r
unfolding static_check
static_check_of_cluster_iff r =
    let names = get_namespaces_map r.spec.components_list in
    let listed = check_reserved_iff names r.spec.reserved_namespaces_allowed_products in
    ((λ h. ground (arith, h, listed)), λ h. ground (arith, h, listed))

-- What may not change while something refers to the cluster.
abbrev pub IsSameShape : (r old : Cluster) → Type 0
IsSameShape r old =
    (r.spec.cluster_kind ≡ old.spec.cluster_kind)
    × (r.spec.cluster_type ≡ old.spec.cluster_type)
    × (r.spec.usage ≡ old.spec.usage)
    × (r.spec.host_cluster ≡ old.spec.host_cluster)
    × (r.spec.worker_type ≡ old.spec.worker_type)

no_items : (found : List String) → is_empty found ≡ true → found ≡ []
no_items [] h = refl
no_items (x ∷ found) h = cc

same_shape_lem : (r old : Cluster) → is_same_shape r old ≡ true → IsSameShape r old
unfolding is_same_shape
same_shape_lem r old same = (
  (eq_iff r.spec.cluster_kind old.spec.cluster_kind).0 (ground (arith, same)),
  (eq_iff r.spec.cluster_type old.spec.cluster_type).0 (ground (arith, same)),
  (eq_iff r.spec.usage old.spec.usage).0 (ground (arith, same)),
  (eq_iff r.spec.host_cluster old.spec.host_cluster).0 (ground (arith, same)),
  (eq_iff r.spec.worker_type old.spec.worker_type).0 (ground (arith, same)),
)

check_dependencies_lem :
    (client : K8sClient) (r old : Cluster)
    → check_dependencies client r old ≡ ok tt
    → IsUnreferenced client r.meta.name ⊎ IsSameShape r old
unfolding check_dependencies
check_dependencies_lem client r old accepted =
    let (found, listed, passed) = >>=-eq-ok (cluster_dependencies client r.meta.name) _ accepted in
    let guard = fail_if-eq-ok _ _ passed in
    elim (Bool-cases (is_same_shape r old)) [
      | inl same ↦ inr (same_shape_lem r old same)
      | inr differs ↦
          let bare : found ≡ [] = no_items found (ground (arith, guard, differs)) in
          inl ((cluster_dependencies_iff client r.meta.name).0 (listed ∙ (λ i. ok (bare i))))
    ]

module _ (is_valid_regex : (value pattern : String) → Bool) where
  -- A deletion is accepted exactly if the clusters and runtimes can be listed, no cluster is hosted on
  -- this one and no runtime is deployed on it.
  pub validate_cluster_of_deletion_iff :
      (loaded : Result ClusterComponentConfig) (client : K8sClient) (r : Cluster)
      (old : Option Cluster)
      → (validate_cluster is_valid_regex loaded client r old true ≡ ok tt)
        ↔ IsUnreferenced client r.meta.name
  unfolding validate_cluster check_deletable
  validate_cluster_of_deletion_iff loaded client r old =
      let rejects =
        reject_iff (cluster_dependencies client r.meta.name)
          "cluster referenced by [%s], not allowed to be deleted" in
      let exact = cluster_dependencies_iff client r.meta.name in
      ((λ h. exact.0 (rejects.0 h)), λ h. rejects.1 (exact.1 h))

  -- An accepted update gives a well shaped cluster whose components pass their checks; if a cluster
  -- or a runtime refers to it, its kind, type, usage, host and work type are the old ones.
  pub validate_cluster_of_update-IsWellShaped :
      (loaded : Result ClusterComponentConfig) (client : K8sClient) (r old : Cluster)
      → validate_cluster is_valid_regex loaded client r (some old) false ≡ ok tt
      → IsWellShaped r
        × (check_cluster_components is_valid_regex loaded r ≡ ok tt)
        × (IsUnreferenced client r.meta.name ⊎ IsSameShape r old)
  unfolding validate_cluster check_old
  validate_cluster_of_update-IsWellShaped loaded client r old accepted =
      let (_, static, rest) = >>=-eq-ok (static_check r) _ accepted in
      let (_, components, last) =
        >>=-eq-ok (check_cluster_components is_valid_regex loaded r) _ rest in
      (
        (static_check_of_cluster_iff r).0 static,
        components,
        check_dependencies_lem client r old last,
      )
