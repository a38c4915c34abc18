-- ===== src/Task/Careful.antt =====
-- The steps of a task leave the other runtimes what they use: one lemma for each function of
-- app/runtime-operator/internal/syncer/v2/task/syncer.go and deploymentRuntime.go that calls the
-- components.
pub mod Accounts
pub mod Deploying
use Prim.Native.Nat.{ℕ}
use Prim.Native.String.{String}
use mathlib.Core.Path.{◌≡◌, refl, sym, ◌∙◌, subst}
use mathlib.Core.Logic.{inl, inr}
use mathlib.Core.Bool.{Bool, true, false}
use mathlib.Core.List.{List, [], ◌∷◌}
use text.Mathlib.Text.{◌==◌}
use nautes.Common.Tests.{if◌then◌else◌, Bool-cases}
use nautes.Common.Result.{Result}
use nautes.Common.Lists.{All, Any, All-imp, All-of, has}
use nautes.Usage.Secret.{SecretInfo}
use nautes.Usage.Spaces.{SpaceUsage}
use nautes.Usage.Accounts.{AccountUsage, account_of, list_permissions}
use nautes.Usage.Accounts.Listed.{has_permission}
use nautes.Usage.Products.{ProductUsage}
use nautes.Task.Component.{MachineAccount}
use nautes.Task.Action.{
  Call, World, Run, Step, call, ask, each, wrapped, modify, modify_usage, secret_grant_permission,
  modify_new_cache, SyncHistory, tenant_create_product, deployment_create_product,
  secret_revoke_permission,
}
use nautes.Task.Products.{create_product, delete_product, forgiving, delete_product_account}
use nautes.Task.Permissions.{revoke_beyond, sync_account_permissions, revoke_account_permissions}
use nautes.Task.Others.{
  others, others_of, IsSameAccounts, same_account, others_of-update_permissions,
}
use nautes.Task.Invariants.{Keeps, >>-Keeps, gets-Keeps, raise-Keeps, wrapped-Keeps, each-Keeps}
use nautes.Task.Hashes.{beyond_lem}
use nautes.Task.Safe.{
  Scope, IsSafe, Needs, IsCareful, unlisted_permission, unlisted_permission_of_others,
}

module _ {Cache : Type 0} (self : String) (hash : SecretInfo → ℕ) (scope : Scope)
    (mine : List String) (start : ProductUsage) (Own : List String → SpaceUsage → Type 0) where
  abbrev pub IsGood : Run Cache → Type 0
  IsGood = IsCareful self hash scope mine start Own

  -- What is safe by the usage of a careful run is safe by the usage at the start.
  pub IsSafe-at_start :
      {A : Type 0} (make : A → Call) (xs : List A) (run : Run Cache)
      → IsGood run
      → All (λ x. IsSafe self hash scope mine (others self run.usage) (make x)) xs
      → All (λ x. IsSafe self hash scope mine (others self start) (make x)) xs
  IsSafe-at_start make xs run good safe =
      subst (λ o. All (λ x. IsSafe self hash scope mine o (make x)) xs) good.same safe

  pub modify_account-IsCareful :
      (f : ProductUsage → AccountUsage)
      → ((u : ProductUsage) → IsSameAccounts self u.account (f u))
      → Keeps IsGood (modify_usage (λ usage. record usage { account = f usage }))
  unfolding modify_usage modify
  modify_account-IsCareful f same = record {
    keeps = λ run good. record {
      own = good.own;
      same = same_account self run.usage (f run.usage) (same run.usage) ∙ good.same;
      safe = good.safe;
    };
  }

  pub modify_new_cache-IsCareful : (f : Cache → Cache) → Keeps IsGood (modify_new_cache f)
  unfolding modify_new_cache modify
  modify_new_cache-IsCareful f = record {
    keeps = λ run good. record { own = good.own; same = good.same; safe = good.safe };
  }

  module _ (world : World) where
    pub call-IsCareful :
        (c : Call) → IsSafe self hash scope mine (others self start) c → Keeps IsGood (call world c)
    unfolding call
    call-IsCareful c safe = record {
      keeps = λ run good. record { own = good.own; same = good.same; safe = (safe, good.safe) };
    }

    pub ask-IsCareful :
        {A : Type 0} (answer : List Call → Result A) (c : Call)
        → IsSafe self hash scope mine (others self start) c
        → Keeps IsGood (ask answer c)
    unfolding ask
    ask-IsCareful answer c safe = record {
      keeps = λ run good. record { own = good.own; same = good.same; safe = (safe, good.safe) };
    }

    pub each-IsCareful :
        {A : Type 0} (format : String) (make : A → Call) (xs : List A)
        → All (λ x. IsSafe self hash scope mine (others self start) (make x)) xs
        → Keeps IsGood (each xs (λ x. wrapped format (call world (make x))))
    each-IsCareful format make xs safe =
        each-Keeps IsGood xs _
          (All-imp (λ x safe_x. wrapped-Keeps IsGood _ (call-IsCareful (make x) safe_x)) xs safe)

    forgiving-IsCareful :
        {step : Step Cache} → Keeps IsGood step → Keeps IsGood (forgiving world step)
    unfolding forgiving
    forgiving-IsCareful inner = record { keeps = λ run good. inner.keeps run good }

    pub create_product-IsCareful :
        (product_id product_name : String)
        → Keeps IsGood (create_product world product_id product_name)
    unfolding create_product
    create_product-IsCareful product_id product_name =
        >>-Keeps IsGood (wrapped-Keeps IsGood _ (call-IsCareful _ tt)) (
          >>-Keeps IsGood (wrapped-Keeps IsGood _ (call-IsCareful _ tt))
            (wrapped-Keeps IsGood _ (call-IsCareful _ tt)))

    pub delete_product-IsCareful :
        (product_id product_name : String)
        → (others self start).runtimes ≡ []
        → Keeps IsGood (delete_product world product_id product_name)
    unfolding delete_product
    delete_product-IsCareful product_id product_name alone =
        >>-Keeps IsGood (wrapped-Keeps IsGood _ (call-IsCareful _ alone)) (
          >>-Keeps IsGood (wrapped-Keeps IsGood _ (call-IsCareful _ alone))
            (wrapped-Keeps IsGood _ (call-IsCareful _ alone)))

    pub delete_product_account-IsCareful :
        (account : MachineAccount)
        → (others self start).account account.name ≡ []
        → Keeps IsGood (delete_product_account world account)
    unfolding delete_product_account
    delete_product_account-IsCareful account unused = elim (Bool-cases (account.product == "")) [
      | inl foreign ↦ rw (foreign) (raise-Keeps IsGood _)
      | inr belongs ↦ rw (belongs) (
          >>-Keeps IsGood (wrapped-Keeps IsGood _ (forgiving-IsCareful (call-IsCareful _ unused)))
            (wrapped-Keeps IsGood _ (forgiving-IsCareful (call-IsCareful _ unused))))
    ]

    revoke_beyond-IsCareful :
        (account : MachineAccount) (old_permissions account_permissions : List SecretInfo)
        (run : Run Cache)
        → IsGood run
        → ((h : ℕ)
            → has_permission hash account_permissions h ≡ false
            → ¬ Any (Needs hash h) (others_of self run.usage.account account.name))
        → Keeps IsGood (revoke_beyond world hash self account old_permissions account_permissions)
    unfolding revoke_beyond
    revoke_beyond-IsCareful account old_permissions account_permissions run good unneeded =
        let make : SecretInfo → Call =
          λ secret_info. secret_revoke_permission secret_info account in
        each-IsCareful "revoke permission to account %s failed: %w" make _ (
          IsSafe-at_start make _ run good (
            All-imp (λ obj absent. unneeded (hash obj) absent) _
              (beyond_lem hash account_permissions old_permissions)))

    pub revoke_account_permissions-IsCareful :
        (account : MachineAccount) (permissions : List SecretInfo)
        → Keeps IsGood (revoke_account_permissions world hash self account permissions)
    unfolding revoke_account_permissions
    revoke_account_permissions-IsCareful account permissions = gets-Keeps IsGood _ _ (λ run good.
        revoke_beyond-IsCareful account permissions _ run good
          (unlisted_permission_of_others self hash (account_of run.usage.account account.name)))

    pub sync_account_permissions-IsCareful :
        (account : MachineAccount) (new_permissions old_permissions : List SecretInfo)
        → Keeps IsGood
            (sync_account_permissions world hash self account new_permissions old_permissions)
    unfolding sync_account_permissions
    sync_account_permissions-IsCareful account new_permissions old_permissions =
        >>-Keeps IsGood
          (each-IsCareful _ (λ p. secret_grant_permission p account) new_permissions
            (All-of (λ p. tt) new_permissions))
          (>>-Keeps IsGood
            (modify_account-IsCareful _
              (λ u. others_of-update_permissions self u.account account.name new_permissions))
            (gets-Keeps IsGood _ _ (λ run good.
              revoke_beyond-IsCareful account old_permissions _ run good
                (unlisted_permission self hash (account_of run.usage.account account.name)))))
