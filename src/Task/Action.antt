-- ===== src/Task/Action.antt =====
-- What a task does: calls of the components and changes of the usage and of the history. What the
-- components answer is a parameter.
use Prim.Native.String.{String}
use mathlib.Core.Option.{Option}
use mathlib.Core.List.{List, [], ◌∷◌}
use nautes.Common.Result.{Error, Result, ok, err, Check, wrap}
use nautes.Usage.Secret.{SecretInfo}
use nautes.Usage.Products.{ProductUsage}
use nautes.Task.Component.{PermissionRequest, MachineAccount, Space, Application}
use nautes.Task.Listener.{
  EventSourceSet, ConsumerSet, HooksInitInfo, PipelineHooks, RequestResource, AuthInfo,
}

-- The methods of `MultiTenant`, `Deployment`, `SecretManagement`, `EventListener`, `Pipeline` and
-- `ResourceRequestHandler` that the tasks call.
pub data Call : Type 0 where
  tenant_create_product tenant_delete_product : (name : String) → Call
  tenant_create_space tenant_delete_space : (product_name name : String) → Call
  tenant_add_space_user tenant_delete_space_user : PermissionRequest → Call
  tenant_create_account tenant_delete_account tenant_get_account :
      (product_name name : String) → Call
  deployment_create_product deployment_delete_product : (name : String) → Call
  deployment_add_product_user deployment_delete_product_user : PermissionRequest → Call
  deployment_create_app deployment_delete_app : Application → Call
  secret_create_account secret_delete_account : MachineAccount → Call
  secret_grant_permission secret_revoke_permission : SecretInfo → MachineAccount → Call
  tenant_get_space : (product_name name : String) → Call
  listener_create_event_source : EventSourceSet → Call
  listener_delete_event_source : (unique_id : String) → Call
  listener_create_consumer : ConsumerSet → Call
  listener_delete_consumer : (product_name name : String) → Call
  pipeline_get_hooks : HooksInitInfo → Call
  handler_create_resource : Space → AuthInfo → RequestResource → Call
  handler_delete_resource : Space → RequestResource → Call

-- What a call returns, by the calls made before it, the latest first. A component that the cluster
-- does not have is nil: each call of it is a nil dereference.
pub record World : Type 0 where
  pub perform : List Call → Call → Check
  pub account : List Call → (product_name name : String) → Result MachineAccount
  pub space : List Call → (product_name name : String) → Result Space
  pub auth_info : List Call → MachineAccount → Result AuthInfo
  pub hooks : List Call → HooksInitInfo → Result (PipelineHooks × List RequestResource)
  pub pipeline_dash_board_url : String

-- `DeploymentRuntimeSyncHistory`
pub record SyncHistory : Type 0 where
  pub cluster : String
  pub spaces : List String
  pub account : Option MachineAccount
  pub permissions : List SecretInfo

-- The usage of the product, the history that the deployer will return, and the calls made so far,
-- the latest first.
pub record Run (Cache : Type 0) : Type 0 where
  pub usage : ProductUsage
  pub new_cache : Cache
  pub calls : List Call

-- What was done before an error stays done.
abbrev pub Action : (Cache A : Type 0) → Type 0
Action Cache A = Run Cache → Result A × Run Cache

module _ {Cache A : Type 0} where
  unfoldable pub pure : A → Action Cache A
  pure a run = (ok a, run)

  unfoldable pub raise : Error → Action Cache A
  raise e run = (err e, run)

  -- `if err != nil { return fmt.Errorf(format, err) }`
  unfoldable pub wrapped : (format : String) → Action Cache A → Action Cache A
  wrapped format action run = let (result, after) = action run in (wrap format result, after)

  unfoldable pub gets : (Run Cache → A) → Action Cache A
  gets f run = (ok (f run), run)

abbrev pub and_then :
    {Cache A B : Type 0} → Result A × Run Cache → (A → Action Cache B) → Result B × Run Cache
and_then (ok a, run) next = next a run
and_then (err e, run) next = (err e, run)

infixl 5 ◌>>=◌ ◌>>◌
unfoldable pub ◌>>=◌ : {Cache A B : Type 0} → Action Cache A → (A → Action Cache B) → Action Cache B
◌>>=◌ action next run = and_then (action run) next

unfoldable pub ◌>>◌ : {Cache A B : Type 0} → Action Cache A → Action Cache B → Action Cache B
action >> next = action >>= λ _. next

abbrev pub Step : (Cache : Type 0) → Type 0
Step Cache = Action Cache (Unit {0})

unfoldable pub modify : {Cache : Type 0} → (Run Cache → Run Cache) → Step Cache
modify f run = (ok tt, f run)

unfoldable pub modify_usage : {Cache : Type 0} → (ProductUsage → ProductUsage) → Step Cache
modify_usage f = modify (λ run. record run { usage = f run.usage })

unfoldable pub modify_new_cache : {Cache : Type 0} → (Cache → Cache) → Step Cache
modify_new_cache f = modify (λ run. record run { new_cache = f run.new_cache })

-- A call of a component.
unfoldable pub call : {Cache : Type 0} → World → Call → Step Cache
call world c run = (world.perform run.calls c, record run { calls = c ∷ run.calls })

-- A call that returns a value.
unfoldable pub ask : {Cache A : Type 0} → (List Call → Result A) → Call → Action Cache A
ask answer c run = (answer run.calls, record run { calls = c ∷ run.calls })

-- A computation that may fail, without a call.
unfoldable pub lift : {Cache A : Type 0} → Result A → Action Cache A
lift result run = (result, run)

-- The loop `for _, x := range xs`, left at the first error.
unfoldable pub each : {Cache A : Type 0} → List A → (A → Step Cache) → Step Cache
each [] step = pure tt
each (x ∷ xs) step = step x >> each xs step
