-- ===== src/Task/Others.antt =====
-- What a usage says of the runtimes of a product other than the one of the task: lemmas on the updates
-- of app/runtime-operator/internal/syncer/v2/cache that the tasks make.
use Prim.Native.String.{String}
use mathlib.Core.Path.{◌≡◌, refl, sym, ◌∙◌}
use mathlib.Core.Logic.{inl, inr}
use mathlib.Core.Bool.{true}
use mathlib.Core.List.{List, [], ◌∷◌}
use native.Mathlib.Omega.{arith}
use text.Mathlib.TextEquality.{eq_iff}
use nautes.Common.Tests.{is_empty, Option-cases}
use nautes.Common.Lists.{insert, remove}
use nautes.Common.Maps.{Map, lookup, assign, delete, lookup-assign, lookup-delete}
use nautes.Usage.Secret.{SecretInfo}
use nautes.Usage.Spaces.{SpaceUsage}
use nautes.Usage.Accounts.{
  RuntimeResource, AccountUsage, account_of, put_resource, add_runtime, delete_runtime,
  update_spaces, update_permissions, empty_resource,
}
use nautes.Usage.Products.{ProductUsage}

-- What a usage says of the other runtimes of the product: which there are, their spaces, and for each
-- account what they use of it.
pub record Others : Type 0 where
  pub runtimes : List String
  pub space : SpaceUsage
  pub account : (account_name : String) → Map RuntimeResource

module _ (self : String) where
  -- The uses of an account by the other runtimes.
  abbrev pub others_of : AccountUsage → (account_name : String) → Map RuntimeResource
  others_of au account_name = delete self (account_of au account_name).runtimes

  abbrev pub IsSameAccounts : AccountUsage → AccountUsage → Type 0
  IsSameAccounts au bu =
      (account_name : String) → others_of au account_name ≡ others_of bu account_name

  pub remove-insert : (s : List String) → remove self (insert self s) ≡ remove self s
  unfolding remove insert
  remove-insert s = ground (arith, eq_iff self self)

  pub remove-remove : (s : List String) → remove self (remove self s) ≡ remove self s
  unfolding remove
  remove-remove [] = refl
  remove-remove (x ∷ s) = ground (arith, remove-remove s, eq_iff x self)

  module _ {V : Type 0} where
    pub delete-assign : (v : V) (m : Map V) → delete self (assign self v m) ≡ delete self m
    unfolding delete assign
    delete-assign v [] = ground (arith, eq_iff self self)
    delete-assign v ((j, w) ∷ m) =
        ground (arith, delete-assign v m, eq_iff j self, eq_iff self self)

    pub delete-delete : (m : Map V) → delete self (delete self m) ≡ delete self m
    unfolding delete
    delete-delete [] = refl
    delete-delete ((j, w) ∷ m) = ground (arith, delete-delete m, eq_iff j self)

    is_empty_iff : (m : Map V) → is_empty m ≡ true → m ≡ []
    is_empty_iff [] h = refl
    is_empty_iff (x ∷ m) h = cc

  others_of-put_resource :
      (au : AccountUsage) (account_name : String) (resource : RuntimeResource)
      → IsSameAccounts au (put_resource au account_name self resource)
  unfolding account_of put_resource
  others_of-put_resource au account_name resource other =
      let runtimes = assign self resource (account_of au account_name).runtimes in
      ground (
        arith,
        eq_iff account_name other,
        delete-assign resource (account_of au account_name).runtimes,
        lookup-assign account_name other (record { runtimes = runtimes }) au.accounts,
      )

  others_of-add_runtime :
      (au : AccountUsage) (account_name : String)
      → IsSameAccounts au (add_runtime au account_name self)
  unfolding add_runtime
  others_of-add_runtime au account_name other =
      elim (Option-cases (lookup self (account_of au account_name).runtimes)) [
        | inl missing ↦
            rw (missing, add_runtime) (others_of-put_resource au account_name empty_resource other)
        | inr (resource, held) ↦ rw (held, add_runtime)
      ]

  pub others_of-update_spaces :
      (au : AccountUsage) (account_name : String) (spaces : List String)
      → IsSameAccounts au (update_spaces au account_name self spaces)
  unfolding update_spaces
  others_of-update_spaces au account_name spaces other =
      others_of-add_runtime au account_name other
      ∙ others_of-put_resource (add_runtime au account_name self) account_name _ other

  pub others_of-update_permissions :
      (au : AccountUsage) (account_name : String) (permissions : List SecretInfo)
      → IsSameAccounts au (update_permissions au account_name self permissions)
  unfolding update_permissions
  others_of-update_permissions au account_name permissions other =
      others_of-add_runtime au account_name other
      ∙ others_of-put_resource (add_runtime au account_name self) account_name _ other

  pub others_of-delete_runtime :
      (au : AccountUsage) (account_name : String)
      → IsSameAccounts au (delete_runtime au account_name self)
  unfolding delete_runtime account_of delete
  others_of-delete_runtime au account_name other =
      elim (Option-cases (lookup account_name au.accounts)) [
        | inl missing ↦ ground (arith, missing)
        | inr (account, held) ↦
            let less = delete self account.runtimes in
            ground (
              arith,
              held,
              eq_iff account_name other,
              is_empty_iff less,
              delete-delete account.runtimes,
              lookup-delete account_name other au.accounts,
              lookup-assign account_name other (record { runtimes = less }) au.accounts,
            )
      ]

  abbrev pub others : ProductUsage → Others
  others usage = record {
    runtimes = remove self usage.runtimes;
    space = delete self usage.space;
    account = λ account_name. others_of usage.account account_name;
  }

  -- Both list the same other runtimes, and for each of these the same spaces and permissions.
  abbrev pub IsSameForOthers : ProductUsage → ProductUsage → Type 0
  IsSameForOthers u v = others u ≡ others v

  pub same_runtimes :
      (u : ProductUsage) (runtimes : List String)
      → remove self runtimes ≡ remove self u.runtimes
      → IsSameForOthers (record u { runtimes = runtimes }) u
  same_runtimes u runtimes same i = record (others u) { runtimes = same i }

  pub same_space :
      (u : ProductUsage) (space : SpaceUsage)
      → delete self space ≡ delete self u.space
      → IsSameForOthers (record u { space = space }) u
  same_space u space same i = record (others u) { space = same i }

  pub same_account :
      (u : ProductUsage) (account : AccountUsage)
      → IsSameAccounts u.account account
      → IsSameForOthers (record u { account = account }) u
  same_account u account same i = record (others u) { account = λ a. sym (same a) i }
