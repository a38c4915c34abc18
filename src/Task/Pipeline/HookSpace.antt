-- ===== src/Task/Pipeline/HookSpace.antt =====
-- The resources that the hooks of a pipeline runtime ask for
-- (app/runtime-operator/internal/syncer/v2/task/pipelineRuntimeHookSpace.go). Requests are compared by
-- hash.
use Prim.Native.Nat.{ℕ}
use Prim.Native.String.{String}
use mathlib.Core.Bool.{Bool, true, false, ◌&&◌}
use mathlib.Core.Option.{Option, none, some}
use mathlib.Core.List.{List, [], ◌∷◌}
use text.Mathlib.Text.{◌==◌}
use nautes.Common.Tests.{if◌then◌else◌}
use nautes.Usage.Secret.{has_hash}
use nautes.Task.Component.{Space}
use nautes.Task.Listener.{RequestResource, HookSpace, AuthInfo}
use nautes.Task.Action.{
  World, Step, pure, wrapped, call, each, handler_create_resource, handler_delete_resource,
}

unfoldable pub same_text : Option String → Option String → Bool
same_text none none = true
same_text (some a) (some b) = a == b
same_text _ _ = false

-- `reflect.DeepEqual` on two spaces
unfoldable pub same_space : Space → Space → Bool
unfolding same_text
same_space a b =
    a.meta.product == b.meta.product
    && a.meta.name == b.meta.name
    && a.space_type == b.space_type
    && same_text a.kubernetes b.kubernetes
    && same_text a.server b.server

module _ (hash : RequestResource → ℕ) where
  -- The loop of `removeDuplicateRequests`, with the hashes seen so far.
  unfoldable pub without_seen : List RequestResource → (seen : List ℕ) → List RequestResource
  unfolding has_hash
  without_seen [] seen = []
  without_seen (req ∷ reqs) seen =
      let rest = without_seen reqs (if has_hash seen (hash req) then seen else hash req ∷ seen) in
      if has_hash seen (hash req) then rest else req ∷ rest

  unfoldable pub remove_duplicate_requests : List RequestResource → List RequestResource
  unfolding without_seen
  remove_duplicate_requests reqs = without_seen reqs []

  unfoldable pub resource_hashes : List RequestResource → List ℕ
  resource_hashes [] = []
  resource_hashes (res ∷ rest) = hash res ∷ resource_hashes rest

  unfoldable pub beyond : List ℕ → List RequestResource → List RequestResource
  unfolding has_hash
  beyond new_hash [] = []
  beyond new_hash (res ∷ old_res) =
      let rest = beyond new_hash old_res in
      if has_hash new_hash (hash res) then rest else res ∷ rest

  unfoldable pub get_unused_resources :
      (new_res old_res : List RequestResource) → List RequestResource
  unfolding beyond resource_hashes
  get_unused_resources new_res old_res = beyond (resource_hashes new_res) old_res

module _ {Cache : Type 0} (world : World) where
  unfoldable pub create_hook_resource : AuthInfo → Space → List RequestResource → Step Cache
  unfolding each
  create_hook_resource auth_info space res = each res (λ req.
      wrapped "create resource failed: %w"
        (call world (handler_create_resource space auth_info req)))

  unfoldable pub delete_hook_resources : Space → List RequestResource → Step Cache
  unfolding each
  delete_hook_resources space res =
      each res (λ req.
        wrapped "delete resource failed: %w" (call world (handler_delete_resource space req)))

  module _ (hash : RequestResource → ℕ) where
    unfoldable pub remove_unused_hook_resource :
        (old_space new_space : Option HookSpace) → Step Cache
    unfolding delete_hook_resources same_space get_unused_resources
    remove_unused_hook_resource none new_space = pure tt
    remove_unused_hook_resource (some old_space) none =
        delete_hook_resources old_space.base_space old_space.deploy_resources
    remove_unused_hook_resource (some old_space) (some new_space) =
        if same_space old_space.base_space new_space.base_space
        then wrapped "remove resources failed: %w" (
            delete_hook_resources new_space.base_space
              (get_unused_resources hash new_space.deploy_resources old_space.deploy_resources))
        else delete_hook_resources old_space.base_space old_space.deploy_resources
