-- ===== src/Task/Pipeline/Hooked.antt =====
-- The calls by which `syncListenEvents` creates and removes the resources of hooks
-- (app/runtime-operator/internal/syncer/v2/task/pipelineRuntime.go, pipelineRuntimeHookSpace.go).
use Prim.Native.Nat.{ℕ}
use Prim.Native.String.{String}
use mathlib.Core.Path.{◌≡◌}
use mathlib.Core.Logic.{◌⊎◌}
use mathlib.Core.Bool.{Bool, true, false, not, ◌&&◌}
use mathlib.Core.Option.{Option, none, some}
use mathlib.Core.List.{List, [], ◌∷◌}
use nautes.Usage.Secret.{SecretInfo, has_hash}
use nautes.Task.Component.{Space}
use nautes.Task.Listener.{RequestResource, HookSpace}
use nautes.Task.Action.{Action, Call, World}
use nautes.Task.Pipeline.Deployer.{PipelineRuntimeDeployer}
use nautes.Task.Pipeline.HookSpace.{same_space, resource_hashes}

-- The calls after one call for each, the latest first.
abbrev pub after_each : {A : Type 0} → (A → Call) → List A → List Call → List Call
after_each make [] calls = calls
after_each make (x ∷ xs) calls = after_each make xs (make x ∷ calls)

module _ (world : World) (hash : SecretInfo → ℕ) (resource_hash : RequestResource → ℕ)
    (prd : PipelineRuntimeDeployer) where
  -- Which resources are removed, and from where: in the same space those of the last deployment whose
  -- hashes are not asked for any more, in another space all of them from there.
  abbrev pub IsRemoved :
      (reqs : List RequestResource)
      → (space : Space) → (old : Option HookSpace) → (from : Space) → (gone : List RequestResource)
      → Type 0
  IsRemoved reqs space none from gone = gone ≡ []
  IsRemoved reqs space (some old) from gone =
      ((same_space old.base_space space ≡ true)
        × (from ≡ space)
        × ((h : ℕ)
            → has_hash (resource_hashes resource_hash gone) h ≡ (
                has_hash (resource_hashes resource_hash old.deploy_resources) h
                && not (has_hash (resource_hashes resource_hash reqs) h))))
      ⊎ ((same_space old.base_space space ≡ false)
          × (from ≡ old.base_space)
          × (gone ≡ old.deploy_resources))
