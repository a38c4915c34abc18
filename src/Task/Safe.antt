-- ===== src/Task/Safe.antt =====
-- Which calls leave the other runtimes of the product what they use.
use Prim.Native.Nat.{ℕ}
use Prim.Native.String.{String}
use mathlib.Core.Path.{◌≡◌, refl, sym, subst}
use mathlib.Core.Logic.{inl, inr}
use mathlib.Core.Bool.{true, false}
use mathlib.Core.Option.{some}
use mathlib.Core.List.{List, [], ◌∷◌}
use native.Mathlib.Omega.{arith}
use text.Mathlib.Text.{◌==◌}
use text.Mathlib.TextEquality.{eq_iff}
use nautes.Common.Tests.{Option-cases, Bool-cases}
use nautes.Common.Lists.{All, Any, has, remove}
use nautes.Common.Maps.{Map, lookup, delete}
use nautes.Usage.Secret.{SecretInfo}
use nautes.Usage.Spaces.{SpaceUsage, list_spaces, list_spaces_iff}
use nautes.Usage.Accounts.{
  RuntimeResource, AccountResource, AccountUsage, account_of, list_account_spaces, list_permissions,
  has_at_most, account_is_removable,
}
use nautes.Usage.Accounts.Listed.{has_permission, list_permissions_iff, list_account_spaces_iff}
use nautes.Usage.Products.{ProductUsage}
use nautes.Task.Action.{
  Call, tenant_delete_product, tenant_delete_space, tenant_delete_space_user, tenant_delete_account,
  deployment_delete_product, deployment_delete_product_user, deployment_create_app,
  deployment_delete_app, secret_delete_account, secret_revoke_permission, listener_delete_consumer,
  Run,
}
use nautes.Task.Others.{Others, others, others_of, IsSameForOthers}

-- The space is one that a runtime has, or that a runtime has for an account.
abbrev pub HasSpace : (space : String) → String × List String → Type 0
HasSpace space (name, spaces) = has spaces space ≡ true

abbrev pub UsesSpace : (space : String) → String × RuntimeResource → Type 0
UsesSpace space (name, resource) = has resource.spaces space ≡ true

-- The runtime needs a permission of that hash.
abbrev pub Needs : (hash : SecretInfo → ℕ) → (h : ℕ) → String × RuntimeResource → Type 0
Needs hash h (name, resource) = has_permission hash resource.permissions h ≡ true

-- No other runtime has the space, or uses it through an account.
abbrev pub IsUnused : Others → (space : String) → Type 0
IsUnused o space =
    (¬ Any (HasSpace space) o.space)
    × ((account_name : String) → ¬ Any (UsesSpace space) (o.account account_name))

-- What a task may do with spaces and applications, by what the usage says of the other runtimes: which
-- space it may delete, which space it may take from which account, and which application is its own.
pub record Scope : Type 1 where
  pub Frees : Others → (space : String) → Type 0
  pub Leaves : Others → (space account_name : String) → Type 0
  pub Owns : Others → (app_name : String) → Type 0

abbrev pub any_scope : Scope
any_scope = record {
  Frees = λ o space. Unit;
  Leaves = λ o space account_name. Unit;
  Owns = λ o app_name. Unit;
}

-- No runtime has an application of that name, where `app_of` names the application of a runtime.
abbrev pub IsForeign : (app_of : String → String) → (app_name : String) → List String → Type 0
IsForeign app_of app_name runtimes =
    All (λ (runtime : String). (app_of runtime == app_name) ≡ false) runtimes

-- The runtimes but one have other names.
pub IsForeign-remove :
    (self : String) (runtimes : List String)
    → IsForeign (λ runtime. runtime) self (remove self runtimes)
unfolding remove
IsForeign-remove self [] = tt
IsForeign-remove self (x ∷ runtimes) = elim (Bool-cases (x == self)) [
  | inl here ↦ rw (here) (IsForeign-remove self runtimes)
  | inr other ↦ rw (other) (other, IsForeign-remove self runtimes)
]

module _ (self : String) (hash : SecretInfo → ℕ) (scope : Scope) (mine : List String) where
  -- A space that is deleted is none of `mine`; spaces and applications are as the scope says; no other
  -- runtime needs the permission that is revoked; an account is deleted only if no other runtime uses
  -- it, the product only if there is none; consumers are deleted by the name of the runtime.
  abbrev pub IsSafe : Others → Call → Type 0
  IsSafe o (tenant_delete_space product_name name) = (has mine name ≡ false) × scope.Frees o name
  IsSafe o (tenant_delete_space_user request) = scope.Leaves o request.resource.name request.user
  IsSafe o (secret_revoke_permission secret_info account) =
      ¬ Any (Needs hash (hash secret_info)) (o.account account.name)
  IsSafe o (secret_delete_account account) = o.account account.name ≡ []
  IsSafe o (tenant_delete_account product_name name) = o.account name ≡ []
  IsSafe o (tenant_delete_product name) = o.runtimes ≡ []
  IsSafe o (deployment_delete_product name) = o.runtimes ≡ []
  IsSafe o (deployment_delete_product_user request) = o.runtimes ≡ []
  IsSafe o (deployment_create_app app) = scope.Owns o app.meta.name
  IsSafe o (deployment_delete_app app) = scope.Owns o app.meta.name
  IsSafe o (listener_delete_consumer product_name name) = name ≡ self
  IsSafe o _ = Unit

  -- Since the usage was `start` nothing has changed for the other runtimes, no call took something
  -- from them, and `Own` says what the runtimes and their spaces are now.
  pub record IsCareful (start : ProductUsage) {Cache : Type 0}
      (Own : List String → SpaceUsage → Type 0) (run : Run Cache) : Type 0 where
    pub own : Own run.usage.runtimes run.usage.space
    pub same : IsSameForOthers self run.usage start
    pub safe : All (IsSafe (others self start)) run.calls

module _ (self : String) {V : Type 0} where
  -- An entry of another key that one predicate holds of is an entry that the other holds of.
  Any-delete :
      (P Q : String × V → Type 0)
      → ((key : String) (v : V) → (key == self) ≡ false → P (key, v) → Q (key, v))
      → (m : Map V) → Any P (delete self m)
      → Any Q m
  unfolding delete
  Any-delete P Q imp [] x = absurd x
  Any-delete P Q imp ((key, v) ∷ m) x = elim (Bool-cases (key == self)) [
    | inl here ↦
        let gone : delete self ((key, v) ∷ m) ≡ delete self m = rw (here) in
        inr (Any-delete P Q imp m (subst (Any P) gone x))
    | inr other ↦
        let kept : delete self ((key, v) ∷ m) ≡ (key, v) ∷ delete self m = rw (other) in
        elim (subst (Any P) kept x) [
          | inl p ↦ inl (imp key v other p)
          | inr later ↦ inr (Any-delete P Q imp m later)
        ]
  ]

Any-lookup :
    {V : Type 0} (P : String × V → Type 0) (key : String) (v : V) (m : Map V)
    → ((k : String) → P (k, v))
    → lookup key m ≡ some v
    → Any P m
unfolding lookup
Any-lookup P key v [] holds found = cc
Any-lookup P key v ((k, w) ∷ m) holds found = elim (Bool-cases (k == key)) [
  | inl here ↦
      let same : w ≡ v = ground (arith, found, here) in
      inl (subst (λ x. P (k, x)) (sym same) (holds k))
  | inr later ↦ inr (Any-lookup P key v m holds (ground (arith, found, later)))
]

module _ (self : String) where
  not_excluded : (key : String) → (key == self) ≡ false → has (self ∷ []) key ≡ false
  unfolding has
  not_excluded key differs = ground (arith, differs, eq_iff key self, eq_iff self key)

  -- A space that is not listed is none of the runtime.
  pub unlisted_space_of_self :
      (su : SpaceUsage) (spaces : List String) (space : String)
      → lookup self su ≡ some spaces
      → has (list_spaces su []) space ≡ false
      → has spaces space ≡ false
  unfolding has
  unlisted_space_of_self su spaces space held absent = elim (Bool-cases (has spaces space)) [
    | inl there ↦
        let listed =
          (list_spaces_iff [] space su).1 (Any-lookup _ self spaces su (λ k. (refl, there)) held) in
        cc
    | inr gone ↦ gone
  ]

  -- A space that is not listed, for all runtimes or for the others, is one that no other has.
  pub unlisted_space :
      (su : SpaceUsage) (space : String)
      → has (list_spaces su []) space ≡ false
      → ¬ Any (HasSpace space) (delete self su)
  unfolding has
  unlisted_space su space absent x =
      let listed =
        (list_spaces_iff [] space su).1
          (Any-delete self (HasSpace space) _ (λ k v d p. (refl, p)) su x) in
      cc

  pub unlisted_space_of_others :
      (su : SpaceUsage) (space : String)
      → has (list_spaces su (self ∷ [])) space ≡ false
      → ¬ Any (HasSpace space) (delete self su)
  unlisted_space_of_others su space absent x =
      let listed =
        (list_spaces_iff (self ∷ []) space su).1
          (Any-delete self (HasSpace space) _ (λ k v d p. (not_excluded k d, p)) su x) in
      cc

  pub unlisted_account_space :
      (ar : AccountResource) (space : String)
      → has (list_account_spaces ar (self ∷ [])) space ≡ false
      → ¬ Any (UsesSpace space) (delete self ar.runtimes)
  unlisted_account_space ar space absent x =
      let listed =
        (list_account_spaces_iff (self ∷ []) space ar).1
          (Any-delete self (UsesSpace space) _ (λ k v d p. (not_excluded k d, p)) ar.runtimes x) in
      cc

  module _ (hash : SecretInfo → ℕ) where
    -- The same for the permissions.
    pub unlisted_permission :
        (ar : AccountResource) (h : ℕ)
        → has_permission hash (list_permissions hash ar []) h ≡ false
        → ¬ Any (Needs hash h) (delete self ar.runtimes)
    unfolding has
    unlisted_permission ar h absent x =
        let listed =
          (list_permissions_iff hash [] h ar).1
            (Any-delete self (Needs hash h) _ (λ k v d p. (refl, p)) ar.runtimes x) in
        cc

    pub unlisted_permission_of_others :
        (ar : AccountResource) (h : ℕ)
        → has_permission hash (list_permissions hash ar (self ∷ [])) h ≡ false
        → ¬ Any (Needs hash h) (delete self ar.runtimes)
    unlisted_permission_of_others ar h absent x =
        let listed =
          (list_permissions_iff hash (self ∷ []) h ar).1
            (Any-delete self (Needs hash h) _ (λ k v d p. (not_excluded k d, p)) ar.runtimes x) in
        cc

  has_at_most-delete :
      (runtimes : Map RuntimeResource)
      → has_at_most self runtimes ≡ true
      → delete self runtimes ≡ []
  unfolding has_at_most delete
  has_at_most-delete [] alone = refl
  has_at_most-delete ((name, resource) ∷ []) alone = rw (alone)
  has_at_most-delete (first ∷ second ∷ rest) alone = cc

  -- No other runtime uses an account that can be removed.
  pub removable_lem :
      (usage : AccountUsage) (account_name : String)
      → account_is_removable usage account_name self ≡ true
      → others_of self usage account_name ≡ []
  unfolding account_is_removable account_of delete
  removable_lem usage account_name removable =
      elim (Option-cases (lookup account_name usage.accounts)) [
        | inl missing ↦ ground (arith, missing)
        | inr (account, held) ↦ ground (arith, held, removable, has_at_most-delete account.runtimes)
      ]
