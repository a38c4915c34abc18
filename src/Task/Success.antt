-- ===== src/Task/Success.antt =====
-- What holds when `Deploy` of app/runtime-operator/internal/syncer/v2/task/deploymentRuntime.go
-- succeeds.
use Prim.Native.Nat.{ℕ}
use Prim.Native.String.{String}
use mathlib.Core.Path.{◌≡◌, refl}
use mathlib.Core.Option.{some}
use mathlib.Core.List.{List, ◌∷◌}
use nautes.Common.Result.{ok, err, Check, wrap-eq-ok}
use nautes.Common.Lists.{All-of}
use nautes.Usage.Secret.{SecretInfo}
use nautes.Task.Component.{MachineAccount}
use nautes.Task.Action.{
  SyncHistory, Call, World, Run, call, modify, modify_new_cache, wrapped, and_then, ◌>>=◌, ◌>>◌,
  deployment_create_app,
}
use nautes.Task.Deployer.{
  DeploymentRuntimeDeployer, account_name_of, get_account, build_app, get_permissions_from_runtime,
  delete_outdate_space, delete_outdate_spaces,
}
use nautes.Task.Deploy.{deploy}
use nautes.Task.Yields.{Yields, >>=-Yields-of, >>-Yields}
use nautes.Task.Invariants.{Keeps, >>-Keeps, each-Keeps, gets-Keeps, wrapped-Keeps}

module _ (world : World) (hash : SecretInfo → ℕ) (drd : DeploymentRuntimeDeployer) where
  -- `GetAccount` has returned the account for the name that the runtime gives.
  abbrev pub IsAnswered : MachineAccount → Type 0
  IsAnswered account =
      (before : List Call) × (world.account before drd.product_id (account_name_of drd)
        ≡ ok account)

  -- The history has that account, and what was granted to it.
  abbrev IsGranted : MachineAccount → Run SyncHistory → Type 0
  IsGranted account run =
      IsAnswered account
      × (run.new_cache.account ≡ some account)
      × (run.new_cache.permissions ≡ get_permissions_from_runtime drd)

  -- The last call creates the application, without error, and the history has the account that
  -- `GetAccount` has returned and the permissions of the runtime.
  abbrev pub IsDeployed : Run SyncHistory → Type 0
  IsDeployed run =
      (account : MachineAccount) × (earlier : List Call) × IsGranted account run
      × (run.calls ≡ deployment_create_app (build_app drd) ∷ earlier)
      × (world.perform earlier (deployment_create_app (build_app drd)) ≡ ok tt)

  call-Keeps : (account : MachineAccount) (c : Call) → Keeps (IsGranted account) (call world c)
  unfolding call
  call-Keeps account c = record { keeps = λ run granted. granted }

  delete_outdate_spaces-Keeps :
      (account : MachineAccount) → Keeps (IsGranted account) (delete_outdate_spaces world hash drd)
  unfolding delete_outdate_spaces delete_outdate_space modify_new_cache modify
  delete_outdate_spaces-Keeps account =
      let I = IsGranted account in
      gets-Keeps I _ _ (λ run good. each-Keeps I _ _ (
        All-of
          (λ space.
            >>-Keeps I (wrapped-Keeps I _ (call-Keeps account _))
              (record { keeps = λ r granted. granted }))
          _))

  last_steps :
      (account : MachineAccount) (out : Check × Run SyncHistory)
      → IsGranted account out.1
      → (and_then out (λ _. call world (deployment_create_app (build_app drd)))).0 ≡ ok tt
      → IsDeployed (and_then out (λ _. call world (deployment_create_app (build_app drd)))).1
  unfolding call
  last_steps account (err e, run) granted h = cc
  last_steps account (ok done, run) granted h = (account, run.calls, granted, refl, h)

  get_account-IsAnswered :
      (format : String) (run : Run SyncHistory) (account : MachineAccount)
      → (wrapped format (get_account world drd.product_id (account_name_of drd)) run).0 ≡ ok account
      → IsAnswered account
  unfolding wrapped get_account
  get_account-IsAnswered format run account h = (
    run.calls,
    wrap-eq-ok format (world.account run.calls drd.product_id (account_name_of drd)) h,
  )

  last_steps-IsDeployed :
      (account : MachineAccount)
      → IsAnswered account
      → Yields IsDeployed (
          modify_new_cache (λ cache. record cache {
            permissions = get_permissions_from_runtime drd;
            account = some account;
          })
          >> (delete_outdate_spaces world hash drd
              >> call world (deployment_create_app (build_app drd))))
  unfolding ◌>>◌ ◌>>=◌ modify_new_cache modify
  last_steps-IsDeployed account answered = record {
    yields = λ run done h.
        last_steps account _ ((delete_outdate_spaces-Keeps account).keeps _ (answered, refl, refl))
          h;
  }

  -- If `deploy` succeeds, its last call has created the application of the runtime, and the history has
  -- the account that the multi tenant component returned for the account name of the runtime, and the
  -- permissions of the runtime.
  pub deploy-IsDeployed :
      (run : Run SyncHistory)
      → (deploy world hash drd run).0 ≡ ok tt
      → IsDeployed (deploy world hash drd run).1
  unfolding deploy
  deploy-IsDeployed run h =
      let D = IsDeployed in
      (>>-Yields D _ (
          >>-Yields D _ (
            >>-Yields D _ (
              >>-Yields D _ (
                >>-Yields D _ (
                  >>-Yields D _ (
                    >>-Yields D _ (
                      >>-Yields D _ (
                        >>=-Yields-of D IsAnswered _ (get_account-IsAnswered _) (λ account answered.
                          >>-Yields D _ (
                            >>-Yields D _ (last_steps-IsDeployed account answered)))))))))))).yields
        run tt h
