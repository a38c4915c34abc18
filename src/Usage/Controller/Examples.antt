-- ===== src/Usage/Controller/Examples.antt =====
-- A config map client and YAML functions, and a run of the usage controller on them.
use Prim.Native.String.{String}
use mathlib.Core.Path.{◌≡◌, refl, subst}
use mathlib.Core.Option
use mathlib.Core.Option.{Option, none, some}
use mathlib.Core.List.{[], ◌∷◌}
use text.Mathlib.Text.{◌==◌}
use nautes.Common.Tests.{if◌then◌else◌}
use nautes.Common.Result.{Result, ok, err, not_found}
use nautes.Common.Maps.{Map, lookup_or, assign}
use nautes.Usage.Products.{ClusterUsage, Yaml, new_clusters_usage}
use nautes.Usage.Products.Examples.{shop_usage, one_product}
use nautes.Usage.Controller.{
  Stored, ConfigMapClient, get_product_usage, put_product, mutate_data, update_product_usage,
}
use nautes.Usage.Controller.RoundTrip.{IsStore, ReadsBack, get_product_usage-update_product_usage}

abbrev pub read_stored : Stored → Result (Map String)
read_stored none = err not_found
read_stored (some contents) = ok contents

abbrev pub store_written : Result (Map String) → Result Stored
store_written (ok contents) = ok (some contents)
store_written (err e) = err e

-- A client whose calls all go through.
abbrev pub reliable : ConfigMapClient
reliable = record {
  get = read_stored;
  create_or_patch = λ mutate stored. store_written (mutate (Option.get_or stored []));
}

store_written_lem :
    (result : Result (Map String)) (after : Stored)
    → store_written result ≡ ok after
    → (contents : Map String) × (result ≡ ok contents) × (after ≡ some contents)
store_written_lem (ok contents) after h = (contents, refl, cc)
store_written_lem (err e) after h = cc

pub reliable-IsStore : IsStore reliable
reliable-IsStore = record {
  reads = λ contents. refl;
  writes = λ mutate before after h. store_written_lem (mutate (Option.get_or before [])) after h;
}

-- The empty text stands for no products, each other one for the given usage.
abbrev pub texts_of : ClusterUsage → Yaml
texts_of usage = record {
  marshal = λ written. ok "products";
  unmarshal = λ text. if text == "" then ok (record { products = [] }) else ok usage;
}

pub texts_of-ReadsBack : (usage : ClusterUsage) → ReadsBack (texts_of usage) usage
texts_of-ReadsBack usage text written =
    let same : "products" ≡ text = cc in
    subst (λ t. (texts_of usage).unmarshal t ≡ ok usage) same refl

get_product_usage-update_product_usage_example :
    get_product_usage reliable
      (texts_of one_product)
      "host"
      (some (("host", "products") ∷ []))
      "shop"
    ≡ ok (some shop_usage)
unfolding put_product assign new_clusters_usage lookup_or update_product_usage mutate_data
get_product_usage-update_product_usage_example =
    get_product_usage-update_product_usage reliable (texts_of one_product) "host" "shop" shop_usage
      (record { products = [] }) none (some (("host", "products") ∷ [])) "shop" reliable-IsStore
      refl (texts_of-ReadsBack one_product) refl
