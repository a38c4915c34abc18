-- ===== src/Usage/Accounts/Tidy.antt =====
-- Well formed usages of accounts
-- (app/runtime-operator/internal/syncer/v2/cache/account.go).
use Prim.Native.String.{String}
use mathlib.Core.Path.{◌≡◌, subst}
use mathlib.Core.Logic.{inl, inr}
use mathlib.Core.Bool.{false}
use mathlib.Core.List.{List}
use native.Mathlib.Omega.{arith}
use nautes.Common.Tests.{is_empty, Option-cases, Bool-cases}
use nautes.Common.Lists.{All}
use nautes.Common.Maps.{
  lookup, assign, delete, IsMap, IsMap-assign, IsMap-delete, All-assign, All-delete, All-lookup,
  is_empty-assign,
}
use nautes.Usage.Secret.{SecretInfo}
use nautes.Usage.Accounts.{
  RuntimeResource, AccountResource, AccountUsage, empty_resource, account_of, put_resource,
  add_runtime, delete_runtime, update_spaces, update_permissions,
}

-- An account that some runtime uses, each runtime under one name.
abbrev pub IsUsed : AccountResource → Type 0
IsUsed account = (is_empty account.runtimes ≡ false) × IsMap account.runtimes

-- Each account stands under one name and is used.
abbrev pub IsTidy : AccountUsage → Type 0
IsTidy au =
    IsMap au.accounts × All (λ (entry : String × AccountResource). IsUsed entry.1) au.accounts

account_of-IsMap :
    (au : AccountUsage) (account_name : String)
    → IsTidy au
    → IsMap (account_of au account_name).runtimes
unfolding account_of
account_of-IsMap au account_name tidy = elim (Option-cases (lookup account_name au.accounts)) [
  | inl missing ↦ ground (arith, missing)
  | inr (account, held) ↦
      let used = All-lookup IsUsed account_name account au.accounts tidy.1 held in
      ground (arith, held, used)
]

put_resource-IsTidy :
    (au : AccountUsage) (account_name runtime_name : String) (resource : RuntimeResource)
    → IsTidy au
    → IsTidy (put_resource au account_name runtime_name resource)
unfolding put_resource
put_resource-IsTidy au account_name runtime_name resource tidy =
    let old = (account_of au account_name).runtimes in
    let account : AccountResource = record { runtimes = assign runtime_name resource old } in
    (
      IsMap-assign account_name account au.accounts tidy.0,
      All-assign (λ (entry : String × AccountResource). IsUsed entry.1) account_name account
          au.accounts
          (
            is_empty-assign runtime_name resource old,
            IsMap-assign runtime_name resource old (account_of-IsMap au account_name tidy),
          )
          tidy.1,
    )

add_runtime-IsTidy :
    (au : AccountUsage) (account_name runtime_name : String)
    → IsTidy au
    → IsTidy (add_runtime au account_name runtime_name)
unfolding add_runtime
add_runtime-IsTidy au account_name runtime_name tidy =
    let placed = put_resource-IsTidy au account_name runtime_name empty_resource tidy in
    elim (Option-cases (lookup runtime_name (account_of au account_name).runtimes)) [
      | inl missing ↦ ground (arith, missing, placed)
      | inr (old, held) ↦ ground (arith, held, tidy)
    ]

update_spaces-IsTidy :
    (au : AccountUsage) (account_name runtime_name : String) (spaces : List String)
    → IsTidy au
    → IsTidy (update_spaces au account_name runtime_name spaces)
unfolding update_spaces
update_spaces-IsTidy au account_name runtime_name spaces tidy =
    put_resource-IsTidy (add_runtime au account_name runtime_name) account_name runtime_name _
      (add_runtime-IsTidy au account_name runtime_name tidy)

update_permissions-IsTidy :
    (au : AccountUsage) (account_name runtime_name : String) (permissions : List SecretInfo)
    → IsTidy au
    → IsTidy (update_permissions au account_name runtime_name permissions)
unfolding update_permissions
update_permissions-IsTidy au account_name runtime_name permissions tidy =
    put_resource-IsTidy (add_runtime au account_name runtime_name) account_name runtime_name _
      (add_runtime-IsTidy au account_name runtime_name tidy)

delete_runtime-IsTidy :
    (au : AccountUsage) (account_name runtime_name : String)
    → IsTidy au
    → IsTidy (delete_runtime au account_name runtime_name)
unfolding delete_runtime
delete_runtime-IsTidy au account_name runtime_name tidy =
    let P = λ (entry : String × AccountResource). IsUsed entry.1 in
    elim (Option-cases (lookup account_name au.accounts)) [
      | inl missing ↦ ground (arith, missing, tidy)
      | inr (account, held) ↦
          let used = All-lookup IsUsed account_name account au.accounts tidy.1 held in
          let rest = delete runtime_name account.runtimes in
          let unique = IsMap-delete runtime_name account.runtimes used.1 in
          let kept : AccountResource = record { runtimes = rest } in
          elim (Bool-cases (is_empty rest)) [
            | inl empty ↦
                let dropped : AccountUsage = record {
                  accounts = delete account_name au.accounts;
                } in
                let same : dropped ≡ delete_runtime au account_name runtime_name =
                  ground (arith, held, empty) in
                subst IsTidy same (
                  IsMap-delete account_name au.accounts tidy.0,
                  All-delete P account_name au.accounts tidy.1,
                )
            | inr filled ↦
                let written : AccountUsage = record {
                  accounts = assign account_name kept au.accounts;
                } in
                let same : written ≡ delete_runtime au account_name runtime_name =
                  ground (arith, held, filled) in
                subst IsTidy same (
                  IsMap-assign account_name kept au.accounts tidy.0,
                  All-assign P account_name kept au.accounts (filled, unique) tidy.1,
                )
          ]
    ]

-- What the operator does to a usage of accounts.
pub data Operation : Type 0 where
  add : (account_name runtime_name : String) → Operation
  set_spaces : (account_name runtime_name : String) (spaces : List String) → Operation
  set_permissions : (account_name runtime_name : String) → List SecretInfo → Operation
  remove : (account_name runtime_name : String) → Operation

unfoldable pub apply : AccountUsage → Operation → AccountUsage
unfolding add_runtime update_spaces update_permissions delete_runtime
apply au (add a r) = add_runtime au a r
apply au (set_spaces a r spaces) = update_spaces au a r spaces
apply au (set_permissions a r permissions) = update_permissions au a r permissions
apply au (remove a r) = delete_runtime au a r

-- Every operation keeps a usage well formed: no account is left without a runtime, and no name
-- stands twice.
pub apply-IsTidy : (au : AccountUsage) (op : Operation) → IsTidy au → IsTidy (apply au op)
unfolding apply
apply-IsTidy au (add a r) tidy = add_runtime-IsTidy au a r tidy
apply-IsTidy au (set_spaces a r spaces) tidy = update_spaces-IsTidy au a r spaces tidy
apply-IsTidy au (set_permissions a r ps) tidy = update_permissions-IsTidy au a r ps tidy
apply-IsTidy au (remove a r) tidy = delete_runtime-IsTidy au a r tidy
