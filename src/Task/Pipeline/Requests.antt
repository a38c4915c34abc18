-- ===== src/Task/Pipeline/Requests.antt =====
-- Which requested resources are created and which are removed
-- (app/runtime-operator/internal/syncer/v2/task/pipelineRuntimeHookSpace.go).
use Prim.Native.Nat.{ℕ}
use mathlib.Core.Path.{◌≡◌, refl}
use mathlib.Core.Logic.{inl, inr}
use mathlib.Core.Bool.{false, not, ◌&&◌}
use mathlib.Core.List.{List, [], ◌∷◌}
use native.Mathlib.Omega.{arith}
use nautes.Common.Tests.{Bool-cases}
use nautes.Usage.Secret.{has_hash}
use nautes.Task.Listener.{RequestResource}
use nautes.Task.Pipeline.HookSpace.{
  without_seen, remove_duplicate_requests, resource_hashes, beyond, get_unused_resources,
}

module _ (hash : RequestResource → ℕ) where
  -- No two of the resources have the same hash.
  abbrev pub IsUnique : List RequestResource → Type 0
  IsUnique [] = Unit
  IsUnique (res ∷ rest) = (has_hash (resource_hashes hash rest) (hash res) ≡ false) × IsUnique rest

  has_hash-without_seen :
      (reqs : List RequestResource) (seen : List ℕ) (h : ℕ)
      → has_hash (resource_hashes hash (without_seen hash reqs seen)) h
        ≡ (has_hash (resource_hashes hash reqs) h && not (has_hash seen h))
  unfolding without_seen resource_hashes has_hash
  has_hash-without_seen [] seen h = refl
  has_hash-without_seen (req ∷ reqs) seen h = elim (Bool-cases (has_hash seen (hash req))) [
    | inl old ↦ rw (old) (ground (arith, has_hash-without_seen reqs seen h, old))
    | inr new ↦ rw (new) (ground (arith, has_hash-without_seen reqs (hash req ∷ seen) h, new))
  ]

  has_hash-beyond :
      (new_hash : List ℕ) (old : List RequestResource) (h : ℕ)
      → has_hash (resource_hashes hash (beyond hash new_hash old)) h
        ≡ (has_hash (resource_hashes hash old) h && not (has_hash new_hash h))
  unfolding beyond resource_hashes has_hash
  has_hash-beyond new_hash [] h = refl
  has_hash-beyond new_hash (res ∷ old) h = elim (Bool-cases (has_hash new_hash (hash res))) [
    | inl kept ↦ rw (kept) (ground (arith, has_hash-beyond new_hash old h, kept))
    | inr gone ↦ rw (gone) (ground (arith, has_hash-beyond new_hash old h, gone))
  ]

  without_seen-IsUnique :
      (reqs : List RequestResource) (seen : List ℕ) → IsUnique (without_seen hash reqs seen)
  unfolding without_seen has_hash
  without_seen-IsUnique [] seen = tt
  without_seen-IsUnique (req ∷ reqs) seen = elim (Bool-cases (has_hash seen (hash req))) [
    | inl old ↦ rw (old) (without_seen-IsUnique reqs seen)
    | inr new ↦ rw (new) (
      ground (arith, has_hash-without_seen reqs (hash req ∷ seen) (hash req)),
      without_seen-IsUnique reqs (hash req ∷ seen),
    )
  ]

  -- Of the requests one is created for each hash that is asked for, and of the old resources those are
  -- removed whose hashes are not asked for any more.
  pub hook_resources_lem :
      (reqs old : List RequestResource)
      → let wanted = remove_duplicate_requests hash reqs in
        IsUnique wanted
        × ((h : ℕ)
            → (has_hash (resource_hashes hash wanted) h ≡ has_hash (resource_hashes hash reqs) h)
              × (has_hash (resource_hashes hash (get_unused_resources hash wanted old)) h ≡ (
                  has_hash (resource_hashes hash old) h
                  && not (has_hash (resource_hashes hash reqs) h))))
  unfolding remove_duplicate_requests get_unused_resources has_hash
  hook_resources_lem reqs old = (
    without_seen-IsUnique reqs [],
    λ h.
        let same = has_hash-without_seen reqs [] h in
        let wanted = without_seen hash reqs [] in
        (
          ground (arith, same),
          ground (arith, same, has_hash-beyond (resource_hashes hash wanted) old h),
        ),
  )
