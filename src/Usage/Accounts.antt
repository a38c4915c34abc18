-- ===== src/Usage/Accounts.antt =====
-- `AccountUsage` of app/runtime-operator/internal/syncer/v2/cache/account.go: for each machine
-- account the runtimes that use it, each with its spaces and permissions.
pub mod Lookup
pub mod Tidy
pub mod Listed
pub mod Examples
use Prim.Native.Nat.{ℕ}
use Prim.Native.String.{String}
use mathlib.Core.Bool.{Bool, true, false}
use mathlib.Core.Option
use mathlib.Core.Option.{Option, none, some}
use mathlib.Core.List.{List, [], ◌∷◌, ◌++◌}
use text.Mathlib.Text.{◌==◌}
use nautes.Common.Tests.{if◌then◌else◌, is_empty}
use nautes.Common.Lists.{has, union, set_of}
use nautes.Common.Maps.{Map, lookup, assign, delete}
use nautes.Usage.Secret.{SecretInfo, has_hash}

pub record RuntimeResource : Type 0 where
  pub spaces : List String
  pub permissions : List SecretInfo

pub record AccountResource : Type 0 where
  pub runtimes : Map RuntimeResource

-- A nil map of accounts is an empty one: `AddRuntime` makes a map of it before it writes.
pub record AccountUsage : Type 0 where
  pub accounts : Map AccountResource

abbrev pub empty_resource : RuntimeResource
empty_resource = record { spaces = []; permissions = [] }

-- `au.Accounts[accountName]`, the zero value if there is none
unfoldable pub account_of : AccountUsage → (account_name : String) → AccountResource
unfolding lookup
account_of au account_name =
    Option.get_or (lookup account_name au.accounts) (record { runtimes = [] })

-- `au.Accounts[accountName].Runtimes[runtimeName] = resource`
unfoldable pub put_resource :
    AccountUsage → (account_name runtime_name : String) → RuntimeResource → AccountUsage
unfolding account_of assign
put_resource au account_name runtime_name resource =
    let runtimes = assign runtime_name resource (account_of au account_name).runtimes in
    record { accounts = assign account_name (record { runtimes = runtimes }) au.accounts }

-- `au.Accounts[accountName].Runtimes[runtimeName]`, the zero value if there is none
unfoldable pub resource_of : AccountUsage → (account_name runtime_name : String) → RuntimeResource
unfolding account_of lookup
resource_of au account_name runtime_name =
    Option.get_or (lookup runtime_name (account_of au account_name).runtimes) empty_resource

unfoldable pub add_runtime : AccountUsage → (account_name runtime_name : String) → AccountUsage
unfolding account_of lookup put_resource
add_runtime au account_name runtime_name =
    elim (lookup runtime_name (account_of au account_name).runtimes) [
      | none ↦ put_resource au account_name runtime_name empty_resource
      | some resource ↦ au
    ]

unfoldable pub delete_runtime : AccountUsage → (account_name runtime_name : String) → AccountUsage
unfolding lookup delete assign
delete_runtime au account_name runtime_name = elim (lookup account_name au.accounts) [
  | none ↦ au
  | some account ↦
      let runtimes = delete runtime_name account.runtimes in
      if is_empty runtimes
      then record { accounts = delete account_name au.accounts }
      else record { accounts = assign account_name (record { runtimes = runtimes }) au.accounts }
]

unfoldable pub update_spaces :
    AccountUsage → (account_name runtime_name : String) (spaces : List String) → AccountUsage
unfolding add_runtime resource_of put_resource
update_spaces au account_name runtime_name spaces =
    let added = add_runtime au account_name runtime_name in
    put_resource added account_name runtime_name
      (record (resource_of added account_name runtime_name) { spaces = spaces })

unfoldable pub update_permissions :
    AccountUsage → (account_name runtime_name : String) → List SecretInfo → AccountUsage
unfolding add_runtime resource_of put_resource
update_permissions au account_name runtime_name permissions =
    let added = add_runtime au account_name runtime_name in
    put_resource added account_name runtime_name
      (record (resource_of added account_name runtime_name) { permissions = permissions })

unfoldable pub collect_account_spaces :
    (excluded_runtime_names : List String) → Map RuntimeResource → List String → List String
unfolding has union
collect_account_spaces excluded_runtime_names [] space_set = space_set
collect_account_spaces excluded_runtime_names ((name, resource) ∷ runtimes) space_set =
    collect_account_spaces excluded_runtime_names runtimes
      (if has excluded_runtime_names name then space_set else union space_set resource.spaces)

unfoldable pub list_account_spaces :
    AccountResource → (excluded_runtimes : List String) → List String
unfolding collect_account_spaces set_of
list_account_spaces ar excluded_runtimes =
    collect_account_spaces (set_of excluded_runtimes) ar.runtimes []

module _ (hash : SecretInfo → ℕ) where
  -- One round of the inner loop, over the hashes seen and the permissions kept.
  unfoldable pub add_permission : SecretInfo → List ℕ × List SecretInfo → List ℕ × List SecretInfo
  unfolding has_hash
  add_permission permission (hash_set, kept) =
      if has_hash hash_set (hash permission)
      then (hash_set, kept)
      else (hash permission ∷ hash_set, kept ++ permission ∷ [])

  unfoldable pub add_permissions :
      List SecretInfo → List ℕ × List SecretInfo → List ℕ × List SecretInfo
  unfolding add_permission
  add_permissions [] state = state
  add_permissions (permission ∷ permissions) state =
      add_permissions permissions (add_permission permission state)

  unfoldable pub collect_permissions :
      (excluded_runtime_names : List String)
      → Map RuntimeResource
      → List ℕ × List SecretInfo
      → List ℕ × List SecretInfo
  unfolding add_permissions has
  collect_permissions excluded_runtime_names [] kept = kept
  collect_permissions excluded_runtime_names ((name, resource) ∷ runtimes) kept =
      collect_permissions excluded_runtime_names runtimes (
        if has excluded_runtime_names name then kept else add_permissions resource.permissions kept)

  -- Of the permissions with one hash the first is listed.
  unfoldable pub list_permissions :
      AccountResource → (excluded_runtimes : List String) → List SecretInfo
  unfolding collect_permissions set_of
  list_permissions ar excluded_runtimes =
      (collect_permissions (set_of excluded_runtimes) ar.runtimes ([], [])).1

-- No runtime is left, or only that one.
unfoldable pub has_at_most : (runtime_name : String) → Map RuntimeResource → Bool
has_at_most runtime_name [] = true
has_at_most runtime_name ((name, resource) ∷ []) = name == runtime_name
has_at_most runtime_name (first ∷ second ∷ rest) = false

-- `AccountIsRemovable` of app/runtime-operator/internal/syncer/v2/task/syncer.go
unfoldable pub account_is_removable : AccountUsage → (account_name runtime_name : String) → Bool
unfolding lookup has_at_most
account_is_removable usage account_name runtime_name = elim (lookup account_name usage.accounts) [
  | none ↦ true
  | some account ↦ has_at_most runtime_name account.runtimes
]
