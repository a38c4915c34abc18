-- ===== src/Usage/Products.antt =====
-- `ClusterUsage` of app/runtime-operator/internal/syncer/v2/cache/cluster.go: the usage of a cluster
-- by product.
pub mod Owner
pub mod Examples
use Prim.Native.String.{String}
use mathlib.Core.Bool.{Bool, true, false}
use mathlib.Core.Option
use mathlib.Core.Option.{Option, none, some}
use mathlib.Core.List.{List, [], ◌∷◌}
use text.Mathlib.Text.{◌==◌}
use nautes.Common.Tests.{if◌then◌else◌}
use nautes.Common.Result.{Result}
use nautes.Common.Lists.{has, insert, remove}
use nautes.Common.Maps.{Map, lookup, assign, keys}
use nautes.Resource.Runtime.{Runtime, get_name, get_product}
use nautes.Usage.Spaces.{SpaceUsage}
use nautes.Usage.Accounts.{AccountUsage}

pub record ProductUsage : Type 0 where
  pub runtimes : List String
  pub space : SpaceUsage
  pub account : AccountUsage

pub record ClusterUsage : Type 0 where
  pub products : Map ProductUsage

unfoldable pub new_empty_product_usage : ProductUsage
new_empty_product_usage = record { runtimes = []; space = []; account = record { accounts = [] } }

-- The loop over the products, with the owner found so far.
unfoldable pub find_account_owner : (name owner : String) → Map ProductUsage → String
unfolding has keys
find_account_owner name owner [] = owner
find_account_owner name owner ((product_id, product) ∷ products) =
    let owner' = if has (keys product.account.accounts) name then product_id else owner in
    let rest = find_account_owner name owner' products in if owner' == "" then rest else owner'

unfoldable pub get_account_owner : ClusterUsage → (name : String) → String
unfolding find_account_owner
get_account_owner cu name = find_account_owner name "" cu.products

unfoldable pub add_runtime_usage : ClusterUsage → Runtime → ClusterUsage
unfolding get_product get_name lookup assign insert
add_runtime_usage cu runtime =
    let product_id = get_product runtime in
    let product = Option.get_or (lookup product_id cu.products) new_empty_product_usage in
    record {
      products =
          assign product_id
            (record product { runtimes = insert (get_name runtime) product.runtimes }) cu.products;
    }

unfoldable pub delete_runtime_usage : ClusterUsage → Runtime → ClusterUsage
unfolding get_product get_name lookup assign remove
delete_runtime_usage cu runtime = elim (lookup (get_product runtime) cu.products) [
  | none ↦ cu
  | some product ↦ record {
    products =
        assign (get_product runtime)
          (record product { runtimes = remove (get_name runtime) product.runtimes }) cu.products;
  }
]

-- The functions of the YAML library on a usage. A text is read into a usage without products.
pub record Yaml : Type 0 where
  pub marshal : ClusterUsage → Result String
  pub unmarshal : String → Result ClusterUsage

unfoldable pub new_clusters_usage : Yaml → (usage : String) → Result ClusterUsage
new_clusters_usage yaml usage = yaml.unmarshal usage
