-- ===== src/Usage/Products/Owner.antt =====
-- Lemmas on `GetAccountOwner` and on the runtimes of a product
-- (app/runtime-operator/internal/syncer/v2/cache/cluster.go).
use Prim.Native.String.{String}
use mathlib.Core.Path.{◌≡◌, refl, sym, ◌∙◌}
use mathlib.Core.Logic.{◌⊎◌, ◌↔◌, ◌≢◌, inl, inr}
use mathlib.Core.Bool.{true, false, ◌||◌, ◌&&◌, not}
use mathlib.Core.Option
use mathlib.Core.Option.{Option, none, some}
use mathlib.Core.List.{List, [], ◌∷◌}
use native.Mathlib.Omega.{arith}
use text.Mathlib.Text.{◌==◌}
use text.Mathlib.TextEquality.{eq_iff}
use nautes.Common.Tests.{Option-cases, Bool-cases}
use nautes.Common.Lists.{Any, All, has, insert, remove, has-insert, has-remove}
use nautes.Common.Maps.{Map, lookup, keys, lookup-assign}
use nautes.Resource.Runtime.{Runtime, get_name, get_product}
use nautes.Usage.Products.{
  ProductUsage, ClusterUsage, new_empty_product_usage, find_account_owner, get_account_owner,
  add_runtime_usage, delete_runtime_usage,
}

-- The product has the account.
abbrev pub HasAccount : (name : String) → String × ProductUsage → Type 0
HasAccount name (product_id, product) = has (keys product.account.accounts) name ≡ true

-- It has the account, and that is its identifier.
abbrev pub Owns : (name owner : String) → String × ProductUsage → Type 0
Owns name owner entry = HasAccount name entry × (entry.0 ≡ owner)

-- No product has the empty identifier.
abbrev pub IsNamed : Map ProductUsage → Type 0
IsNamed products = All (λ (entry : String × ProductUsage). entry.0 ≢ "") products

not-eq : (a b : String) → a ≢ b → (a == b) ≡ false
not-eq a b differs = elim (Bool-cases (a == b)) [
  | inl same ↦ absurd (differs ((eq_iff a b).0 same))
  | inr other ↦ other
]

find_account_owner_iff :
    (name : String) (products : Map ProductUsage)
    → IsNamed products
    → (find_account_owner name "" products ≡ "") ↔ ¬ Any (HasAccount name) products
unfolding find_account_owner
find_account_owner_iff name [] ids = ((λ h x. absurd x), λ h. refl)
find_account_owner_iff name ((product_id, product) ∷ products) ids =
    let ih = find_account_owner_iff name products ids.1 in
    let not_named : (product_id == "") ≡ false = not-eq product_id "" ids.0 in
    elim (Bool-cases (has (keys product.account.accounts) name)) [
      | inl found ↦
          let taken : find_account_owner name "" ((product_id, product) ∷ products) ≡ product_id =
            ground (arith, found, not_named) in
          ((λ h. absurd (ids.0 (sym taken ∙ h))), λ h. absurd (h (inl found)))
      | inr absent ↦
          let step : find_account_owner name "" ((product_id, product) ∷ products)
              ≡ find_account_owner name "" products =
            rw (absent) in
          (
            (λ h x. elim x [ inl found ↦ cc | inr later ↦ ih.0 (sym step ∙ h) later ]),
            λ h. step ∙ ih.1 (λ x. h (inr x)),
          )
    ]

find_account_owner-Owns :
    (name owner : String) (products : Map ProductUsage)
    → IsNamed products
    → owner ≢ ""
    → find_account_owner name "" products ≡ owner
    → Any (Owns name owner) products
unfolding find_account_owner
find_account_owner-Owns name owner [] ids known h = absurd (known (sym h))
find_account_owner-Owns name owner ((product_id, product) ∷ products) ids known h =
    let not_named : (product_id == "") ≡ false = not-eq product_id "" ids.0 in
    elim (Bool-cases (has (keys product.account.accounts) name)) [
      | inl found ↦ inl (found, ground (arith, h, found, not_named))
      | inr absent ↦
          inr (find_account_owner-Owns name owner products ids.1 known (ground (arith, h, absent)))
    ]

-- Where no product has the empty identifier: the result is empty exactly if no product has the
-- account, and a result that is not empty is the identifier of a product that has it.
get_account_owner_iff :
    (cu : ClusterUsage) (name : String)
    → IsNamed cu.products
    → ((get_account_owner cu name ≡ "") ↔ ¬ Any (HasAccount name) cu.products)
      × ((get_account_owner cu name ≡ "") ⊎ Any (Owns name (get_account_owner cu name)) cu.products)
unfolding get_account_owner
get_account_owner_iff cu name ids =
    let blank = eq_iff (find_account_owner name "" cu.products) "" in
    (
      find_account_owner_iff name cu.products ids,
      elim (Bool-cases (find_account_owner name "" cu.products == "")) [
        | inl empty ↦ inl (blank.0 empty)
        | inr known ↦ inr (
            find_account_owner-Owns name _ cu.products ids (λ e. ground (arith, known, blank, e))
              refl)
      ],
    )

-- The runtimes that the usage lists for a product.
unfoldable pub runtimes_of : ClusterUsage → (product_id : String) → List String
unfolding lookup
runtimes_of cu product_id =
    (Option.get_or (lookup product_id cu.products) new_empty_product_usage).runtimes

-- After a runtime is added the usage lists it for its product, and otherwise what it listed before.
pub runtimes_of-add_runtime_usage :
    (cu : ClusterUsage) (runtime : Runtime) (product_id name : String)
    → has (runtimes_of (add_runtime_usage cu runtime) product_id) name ≡ (
        (get_product runtime == product_id && get_name runtime == name)
        || has (runtimes_of cu product_id) name)
unfolding runtimes_of add_runtime_usage new_empty_product_usage
runtimes_of-add_runtime_usage cu runtime product_id name =
    let p = get_product runtime in
    let old = Option.get_or (lookup p cu.products) new_empty_product_usage in
    let added : ProductUsage = record old { runtimes = insert (get_name runtime) old.runtimes } in
    ground (
      arith,
      lookup-assign p product_id added cu.products,
      has-insert (get_name runtime) name old.runtimes,
      eq_iff p product_id,
    )

-- After a runtime is deleted the usage does not list it for its product; nothing else changes.
pub runtimes_of-delete_runtime_usage :
    (cu : ClusterUsage) (runtime : Runtime) (product_id name : String)
    → has (runtimes_of (delete_runtime_usage cu runtime) product_id) name ≡ (
        not (get_product runtime == product_id && get_name runtime == name)
        && has (runtimes_of cu product_id) name)
unfolding runtimes_of delete_runtime_usage new_empty_product_usage has
runtimes_of-delete_runtime_usage cu runtime product_id name =
    let p = get_product runtime in
    let same = eq_iff p product_id in
    elim (Option-cases (lookup p cu.products)) [
      | inl missing ↦ ground (arith, missing, same)
      | inr (old, held) ↦
          let less : ProductUsage = record old {
            runtimes = remove (get_name runtime) old.runtimes;
          } in
          ground (
            arith,
            held,
            same,
            lookup-assign p product_id less cu.products,
            has-remove (get_name runtime) name old.runtimes,
          )
    ]
