-- ===== src/Task/Errors.antt =====
-- Which errors the tasks recognise: `IsAccountNotFound` and `IsProductNotFound` of
-- app/runtime-operator/pkg/component/error.go, and `DeleteProductAccount` of
-- app/runtime-operator/internal/syncer/v2/task/syncer.go.
use Prim.Native.String.{String}
use mathlib.Core.Path.{◌≡◌, refl}
use mathlib.Core.Logic.{◌↔◌, inl, inr}
use mathlib.Core.Bool.{true, false}
use mathlib.Core.List.{List, [], ◌∷◌}
use text.Mathlib.Text.{◌==◌}
use nautes.Common.Tests.{Bool-cases}
use nautes.Common.Result.{Error, wrapf, ok, err, Check, wrap, wrap-eq-ok}
use nautes.Task.Component.{
  MachineAccount, account_not_found, product_not_found, reason_is, is_account_not_found,
  is_product_not_found,
}
use nautes.Task.Action.{
  World, Run, Step, call, wrapped, raise, and_then, ◌>>◌, ◌>>=◌, secret_delete_account,
  tenant_delete_account,
}
use nautes.Task.Products.{ignore_account_not_found, forgiving, delete_product_account}

-- An error wrapped any number of times.
abbrev pub wrapped_error : (formats : List String) → Error → Error
wrapped_error [] e = e
wrapped_error (format ∷ formats) e = wrapf format (wrapped_error formats e)

reason_is-wrapped_error :
    (reason : String) (formats : List String) (e : Error)
    → reason_is reason (wrapped_error formats e) ≡ reason_is reason e
unfolding reason_is
reason_is-wrapped_error reason [] e = refl
reason_is-wrapped_error reason (format ∷ formats) e = reason_is-wrapped_error reason formats e

-- However often it is wrapped, the error made by `AccountNotFound` is recognised as one, and the error
-- made by `ProductNotFound` is taken for that of an account and not for that of a product.
pub reasons_of_wrapped_errors :
    (formats : List String) (e : Error)
    → (is_account_not_found (wrapped_error formats (account_not_found e)) ≡ true)
      × (is_account_not_found (wrapped_error formats (product_not_found e)) ≡ true)
      × (is_product_not_found (wrapped_error formats (product_not_found e)) ≡ false)
unfolding is_account_not_found is_product_not_found account_not_found product_not_found reason_is
reasons_of_wrapped_errors formats e = (
  reason_is-wrapped_error _ formats (account_not_found e),
  reason_is-wrapped_error _ formats (product_not_found e),
  reason_is-wrapped_error _ formats (product_not_found e),
)

-- A call went through: no error, or one that says that the account is not there.
abbrev pub IsGone : Check → Type 0
IsGone (ok done) = Unit
IsGone (err e) = is_account_not_found e ≡ true

module _ (world : World) where
  ignore_iff :
      (format : String) (check : Check)
      → (wrap format (ignore_account_not_found check) ≡ ok tt) ↔ IsGone check
  unfolding ignore_account_not_found
  ignore_iff format (ok done) = ((λ h. tt), λ h. refl)
  ignore_iff format (err e) = elim (Bool-cases (is_account_not_found e)) [
    | inl gone ↦ ((λ h. gone), λ h. rw (gone))
    | inr other ↦
        ((λ h. let failed = wrap-eq-ok format (err e) (rw (other) at h) in cc failed), λ h. cc)
  ]

  and_then_iff :
      {Cache : Type 0} (out : Check × Run Cache) (next : Step Cache)
      → ((and_then out (λ _. next)).0 ≡ ok tt) ↔ ((out.0 ≡ ok tt) × ((next out.1).0 ≡ ok tt))
  and_then_iff (ok done, run) next = ((λ h. (refl, h)), λ h. h.1)
  and_then_iff (err e, run) next = ((λ h. cc), λ h. cc)

  -- The account is deleted without error exactly if it belongs to a product and both deletions go
  -- through; an account that is not there is no error. The multi tenant component is called after the
  -- secret management.
  pub delete_product_account_iff :
      {Cache : Type 0} (account : MachineAccount) (run : Run Cache)
      → ((delete_product_account world account run).0 ≡ ok tt) ↔ (
          ((account.product == "") ≡ false)
          × IsGone (world.perform run.calls (secret_delete_account account))
          × IsGone (
              world.perform
                (secret_delete_account account ∷ run.calls)
                (tenant_delete_account account.product account.name)))
  unfolding delete_product_account forgiving call wrapped raise ◌>>◌ ◌>>=◌
  delete_product_account_iff {Cache} account run =
      let first =
        ignore_iff "delete account %s in secret management failed: %w"
          (world.perform run.calls (secret_delete_account account)) in
      let second = ignore_iff "delete account %s in multi tenant failed: %w" (
        world.perform (secret_delete_account account ∷ run.calls)
          (tenant_delete_account account.product account.name)) in
      let later : Run Cache = record run { calls = secret_delete_account account ∷ run.calls } in
      let both =
        and_then_iff
          (
            wrap "delete account %s in secret management failed: %w" (
                ignore_account_not_found (world.perform run.calls (secret_delete_account account))),
            later,
          )
          (wrapped "delete account %s in multi tenant failed: %w"
            (forgiving world (call world (tenant_delete_account account.product account.name)))) in
      elim (Bool-cases (account.product == "")) [
        | inl foreign ↦ rw (foreign) ((λ h. cc), λ h. cc)
        | inr belongs ↦ rw (belongs) (
          (λ h. let (a, b) = both.0 h in (refl, first.0 a, second.0 b)),
          λ h. both.1 (first.1 h.1, second.1 h.2),
        )
      ]
