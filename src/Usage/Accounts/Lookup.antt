-- ===== src/Usage/Accounts/Lookup.antt =====
-- The usage of accounts as a partial function of account and runtime, and the operations of
-- app/runtime-operator/internal/syncer/v2/cache/account.go on it.
use Prim.Native.String.{String}
use mathlib.Core.Path.{◌≡◌, refl}
use mathlib.Core.Logic.{inl, inr}
use mathlib.Core.Bool.{true, ◌&&◌}
use mathlib.Core.Option
use mathlib.Core.Option.{Option, none, some}
use mathlib.Core.List.{List, [], ◌∷◌}
use native.Mathlib.Omega.{arith}
use text.Mathlib.Text.{◌==◌}
use text.Mathlib.TextEquality.{eq_iff}
use nautes.Common.Tests.{if◌then◌else◌, is_empty, Option-cases, Bool-cases}
use nautes.Common.Maps.{Map, lookup, assign, delete, lookup-assign, lookup-delete}
use nautes.Usage.Secret.{SecretInfo}
use nautes.Usage.Accounts.{
  RuntimeResource, AccountUsage, empty_resource, account_of, put_resource, resource_of, add_runtime,
  delete_runtime, update_spaces, update_permissions,
}

-- The abstract usage: what a runtime has under an account.
unfoldable pub find : AccountUsage → (account_name runtime_name : String) → Option RuntimeResource
unfolding account_of lookup
find au account_name runtime_name = lookup runtime_name (account_of au account_name).runtimes

-- One place of the abstract usage is written.
abbrev pub write :
    (account_name runtime_name : String)
    → Option RuntimeResource
    → (String → String → Option RuntimeResource)
    → String
    → String
    → Option RuntimeResource
write account_name runtime_name resource usage a r =
    if account_name == a && runtime_name == r then resource else usage a r

pub find-put_resource :
    (au : AccountUsage) (account_name runtime_name : String) (resource : RuntimeResource)
    (a r : String)
    → find (put_resource au account_name runtime_name resource) a r
      ≡ write account_name runtime_name (some resource) (find au) a r
unfolding find put_resource account_of
find-put_resource au account_name runtime_name resource a r =
    let runtimes = assign runtime_name resource (account_of au account_name).runtimes in
    ground (
      arith,
      lookup-assign account_name a (record { runtimes = runtimes }) au.accounts,
      lookup-assign runtime_name r resource (account_of au account_name).runtimes,
      eq_iff account_name a,
    )

pub find-add_runtime :
    (au : AccountUsage) (account_name runtime_name a r : String)
    → find (add_runtime au account_name runtime_name) a r
      ≡ write account_name runtime_name
          (some (resource_of au account_name runtime_name))
          (find au)
          a
          r
unfolding add_runtime resource_of find
find-add_runtime au account_name runtime_name a r =
    let placed = find-put_resource au account_name runtime_name empty_resource a r in
    elim (Option-cases (lookup runtime_name (account_of au account_name).runtimes)) [
      | inl missing ↦ ground (arith, placed, missing)
      | inr (old, held) ↦
          let here = eq_iff account_name a in
          let there = eq_iff runtime_name r in ground (arith, held, here, there)
    ]

resource_of-find :
    (au : AccountUsage) (account_name runtime_name : String)
    → resource_of au account_name runtime_name
      ≡ Option.get_or (find au account_name runtime_name) empty_resource
unfolding resource_of find
resource_of-find au account_name runtime_name = refl

-- After an update of spaces the runtime has under the account these spaces and the permissions that
-- it had, if any; nothing else changes.
find-update_spaces :
    (au : AccountUsage) (account_name runtime_name : String) (spaces : List String) (a r : String)
    → find (update_spaces au account_name runtime_name spaces) a r
      ≡ write account_name runtime_name
          (some (record (resource_of au account_name runtime_name) { spaces = spaces }))
          (find au)
          a
          r
unfolding update_spaces
find-update_spaces au account_name runtime_name spaces a r =
    let added = add_runtime au account_name runtime_name in
    let resource = record (resource_of added account_name runtime_name) { spaces = spaces } in
    ground (
      arith,
      find-put_resource added account_name runtime_name resource a r,
      find-add_runtime au account_name runtime_name a r,
      find-add_runtime au account_name runtime_name account_name runtime_name,
      resource_of-find added account_name runtime_name,
      eq_iff account_name account_name,
      eq_iff runtime_name runtime_name,
    )

-- After an update of permissions the runtime has under the account these permissions and the spaces
-- that it had, if any; nothing else changes.
pub find-update_permissions :
    (au : AccountUsage) (account_name runtime_name : String) (permissions : List SecretInfo)
    (a r : String)
    → find (update_permissions au account_name runtime_name permissions) a r
      ≡ write account_name runtime_name
          (some (record (resource_of au account_name runtime_name) { permissions = permissions }))
          (find au)
          a
          r
unfolding update_permissions
find-update_permissions au account_name runtime_name permissions a r =
    let added = add_runtime au account_name runtime_name in
    let resource = record (resource_of added account_name runtime_name) {
      permissions = permissions;
    } in
    ground (
      arith,
      find-put_resource added account_name runtime_name resource a r,
      find-add_runtime au account_name runtime_name a r,
      find-add_runtime au account_name runtime_name account_name runtime_name,
      resource_of-find added account_name runtime_name,
      eq_iff account_name account_name,
      eq_iff runtime_name runtime_name,
    )

lookup_of_is_empty {ℓ} :
    {V : Type ℓ} (k : String) (m : Map V) → is_empty m ≡ true → lookup k m ≡ none
unfolding lookup
lookup_of_is_empty k [] h = refl
lookup_of_is_empty k (x ∷ m) h = cc

-- After a deletion the runtime has nothing under the account; nothing else changes.
pub find-delete_runtime :
    (au : AccountUsage) (account_name runtime_name a r : String)
    → find (delete_runtime au account_name runtime_name) a r
      ≡ write account_name runtime_name none (find au) a r
unfolding delete_runtime find account_of lookup
find-delete_runtime au account_name runtime_name a r =
    let same = eq_iff account_name a in
    elim (Option-cases (lookup account_name au.accounts)) [
      | inl missing ↦ ground (arith, missing, same)
      | inr (account, held) ↦
          let rest = delete runtime_name account.runtimes in
          let deleted = lookup-delete runtime_name r account.runtimes in
          let dropped = lookup-delete account_name a au.accounts in
          let kept = lookup-assign account_name a (record { runtimes = rest }) au.accounts in
          elim (Bool-cases (is_empty rest)) [
            | inl empty ↦
                ground (arith, held, same, deleted, dropped, empty, lookup_of_is_empty r rest empty)
            | inr filled ↦ ground (arith, held, same, deleted, kept, filled)
          ]
    ]
