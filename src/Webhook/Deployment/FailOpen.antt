-- ===== src/Webhook/Deployment/FailOpen.antt =====
-- `checkNamespacesIsUsed` of api/kubernetes/v1alpha1/deploymentruntime_webhook.go where its listing
-- fails.
use Prim.Native.String.{String}
use mathlib.Core.Path.{◌≡◌}
use mathlib.Core.Logic.{inl, inr}
use mathlib.Core.Bool.{false}
use mathlib.Core.List.{List, [], ◌∷◌}
use native.Mathlib.Omega.{arith}
use nautes.Common.Result.{ok, is_ok, Result-cases}
use nautes.Common.Lists.{Any}
use nautes.Common.Maps.{Map}
use nautes.Resource.Deployment.{DeploymentRuntime}
use nautes.Webhook.Client.{ValidateClient}
use nautes.Webhook.Deployment.Used.{
  resolve_cluster, add_used, collect_used, get_used_namespaces_in_cluster, shared_namespaces,
  check_namespaces_is_used,
}
use nautes.Webhook.Deployment.Conflicts.{HasKeys, IsCurrent, IsCurrent-nil, resolve_cluster-ok}

-- The runtime's environment cannot be read.
abbrev pub IsDangling : ValidateClient → DeploymentRuntime → Type 0
IsDangling client runtime =
    is_ok (client.get_environment runtime.spec.product runtime.spec.destination.environment) ≡ false

module _ (client : ValidateClient) (keys : HasKeys client) where
  collect_used-fails :
      (cluster : String) (runtimes : List DeploymentRuntime) (mapping : Map String)
      (used : Map (List String))
      → IsCurrent client keys mapping
      → Any (IsDangling client) runtimes
      → is_ok (collect_used client cluster runtimes mapping used) ≡ false
  unfolding collect_used
  collect_used-fails cluster [] mapping used current dangling = absurd dangling
  collect_used-fails cluster (r ∷ rs) mapping used current dangling =
      elim (Result-cases (resolve_cluster client r mapping)) [
        | inr (e, failed) ↦ rw (failed, collect_used)
        | inl ((c, mapping'), resolved) ↦
            let here = resolve_cluster-ok client keys r mapping mapping' c resolved current in
            let ih = collect_used-fails cluster rs mapping' (add_used cluster c r used) here.1 in
            ground (arith, resolved, dangling, here.0, ih)
      ]

  -- One runtime, of any product, whose environment cannot be read turns the check off: then every
  -- runtime is accepted, whatever namespaces the other products use.
  pub check_namespaces_is_used_of_dangling :
      (runtime : DeploymentRuntime) (runtimes : List DeploymentRuntime)
      → client.list_deployment_runtimes "" ≡ ok runtimes
      → Any (IsDangling client) runtimes
      → check_namespaces_is_used client runtime ≡ ok tt
  unfolding check_namespaces_is_used get_used_namespaces_in_cluster shared_namespaces
  check_namespaces_is_used_of_dangling runtime runtimes listed dangling =
      elim (Result-cases
        (client.get_environment runtime.spec.product runtime.spec.destination.environment)) [
          | inr (e, failed) ↦ ground (arith, failed)
          | inl (env, found) ↦
              let fails =
                collect_used-fails env.spec.cluster runtimes [] [] (IsCurrent-nil client keys)
                  dangling in
              ground (arith, found, listed, fails)
        ]
