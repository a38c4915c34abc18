-- ===== src/Usage/Controller/RoundTrip.antt =====
-- What a read gives after a write: lemmas on `GetProductUsage` and `UpdateProductUsage` of
-- app/runtime-operator/internal/syncer/v2/task/usageController.go.
use Prim.Native.String.{String}
use mathlib.Core.Path.{◌≡◌}
use mathlib.Core.Option
use mathlib.Core.Option.{Option, none, some}
use mathlib.Core.List.{[]}
use native.Mathlib.Omega.{arith}
use text.Mathlib.Text.{◌==◌}
use text.Mathlib.TextEquality.{eq_iff}
use nautes.Common.Tests.{if◌then◌else◌, is_empty}
use nautes.Common.Result.{Result, ok, >>=-eq-ok, ◌>>=◌}
use nautes.Common.Maps.{Map, lookup, lookup_or, assign, lookup-assign, lookup-delete}
use nautes.Usage.Products.{
  ProductUsage, ClusterUsage, new_empty_product_usage, Yaml, new_clusters_usage,
}
use nautes.Usage.Controller.{
  Stored, ConfigMapClient, get_usage, get_product_usage, put_product, mutate_data, usage_of_read,
  update_product_usage,
}

-- The library's documentation: a config map that is there is read as it is, and a call of
-- `CreateOrPatch` that succeeds has stored what the function made of the data, of none where there
-- was no config map.
pub record IsStore (client : ConfigMapClient) : Type 0 where
  pub reads : (contents : Map String) → client.get (some contents) ≡ ok contents
  pub writes :
      (mutate : Map String → Result (Map String)) (before after : Option (Map String))
      → client.create_or_patch mutate before ≡ ok after
      → (contents : Map String) × (mutate (Option.get_or before []) ≡ ok contents)
        × (after ≡ some contents)

-- The YAML text of the usage reads back as the usage.
abbrev pub ReadsBack : Yaml → ClusterUsage → Type 0
ReadsBack yaml usage =
    (text : String) → yaml.marshal usage ≡ ok text → yaml.unmarshal text ≡ ok usage

-- The usage of a product, empty where there is none.
abbrev pub usage_of : ClusterUsage → (product_id : String) → ProductUsage
usage_of cluster_usage product_id =
    Option.get_or (lookup product_id cluster_usage.products) new_empty_product_usage

module _ (client : ConfigMapClient) (yaml : Yaml) (cluster_name : String) where
  -- What a write that succeeds has stored.
  read_of_written :
      (product_id : String) (usage : ProductUsage) (old : ClusterUsage) (before after : Stored)
      → IsStore client
      → new_clusters_usage yaml (lookup_or "" cluster_name (Option.get_or before [])) ≡ ok old
      → ReadsBack yaml (put_product product_id usage old)
      → update_product_usage client yaml cluster_name product_id usage before ≡ ok after
      → get_usage client yaml cluster_name after ≡ ok (some (put_product product_id usage old))
  unfolding update_product_usage get_usage mutate_data new_clusters_usage lookup_or
  read_of_written product_id usage old before after store readable back written =
      let new = put_product product_id usage old in
      let (contents, mutated, stored) = store.writes _ before after written in
      let kept = Option.get_or before [] in
      let (read, was_read, more) =
        >>=-eq-ok (new_clusters_usage yaml (lookup_or "" cluster_name kept))
          (λ cluster_usage. do
            usage_str ← yaml.marshal (put_product product_id usage cluster_usage)
            ok (assign cluster_name usage_str kept))
          mutated in
      let same : read ≡ old = cc in
      let (text, marshalled, assigned) =
        >>=-eq-ok (yaml.marshal (put_product product_id usage read))
          (λ usage_str. ok (assign cluster_name usage_str kept)) more in
      let there : after ≡ some (assign cluster_name text kept) = cc in
      let found : lookup_or "" cluster_name (assign cluster_name text kept) ≡ text = ground (
        arith,
        lookup-assign cluster_name cluster_name text kept,
        eq_iff cluster_name cluster_name,
      ) in
      let known : yaml.unmarshal text ≡ ok new = back text cc in
      rw (there, store.reads (assign cluster_name text kept), usage_of_read, found, known)

  usage_of-put_product :
      (product_id : String) (usage : ProductUsage) (old : ClusterUsage) (other : String)
      → usage_of (put_product product_id usage old) other ≡ (
          if product_id == other
          then (if is_empty usage.runtimes then new_empty_product_usage else usage)
          else usage_of old other)
  unfolding put_product
  usage_of-put_product product_id usage old other = ground (
    arith,
    lookup-assign product_id other usage old.products,
    lookup-delete product_id other old.products,
  )

  -- After a write that succeeds, over a text that was readable, each read gives: for the product the
  -- usage written, or the empty one if it has no runtimes; for other products what was there before.
  pub get_product_usage-update_product_usage :
      (product_id : String) (usage : ProductUsage) (old : ClusterUsage) (before after : Stored)
      (other : String)
      → IsStore client
      → new_clusters_usage yaml (lookup_or "" cluster_name (Option.get_or before [])) ≡ ok old
      → ReadsBack yaml (put_product product_id usage old)
      → update_product_usage client yaml cluster_name product_id usage before ≡ ok after
      → get_product_usage client yaml cluster_name after other
        ≡ ok (
            some (
              if product_id == other
              then (if is_empty usage.runtimes then new_empty_product_usage else usage)
              else usage_of old other))
  unfolding get_product_usage
  get_product_usage-update_product_usage product_id usage old before after other store readable back
        written =
      let read = read_of_written product_id usage old before after store readable back written in
      rw (read, usage_of-put_product product_id usage old other)
