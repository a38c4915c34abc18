-- ===== src/Usage/Spaces.antt =====
-- `SpaceUsage` of app/runtime-operator/internal/syncer/v2/cache/space.go: the spaces (namespaces) of
-- each runtime.
use Prim.Native.String.{String}
use mathlib.Core.Path.{◌≡◌, refl}
use mathlib.Core.Logic.{◌↔◌}
use mathlib.Core.Bool.{Bool, true, false, ◌||◌, ◌&&◌, not}
use mathlib.Core.List.{List, [], ◌∷◌}
use native.Mathlib.Omega.{arith}
use text.Mathlib.TextEquality.{eq_iff}
use nautes.Common.Tests.{if◌then◌else◌}
use nautes.Common.Lists.{Any, has, union, set_of, has-union, has-set_of}
use nautes.Common.Maps.{Map, assign, delete, keys, IsMap}

-- map[runtime]spaces
abbrev pub SpaceUsage : Type 0
SpaceUsage = Map (List String)

unfoldable pub delete_runtime : SpaceUsage → (runtime_name : String) → SpaceUsage
unfolding delete
delete_runtime su runtime_name = delete runtime_name su

unfoldable pub update_space_usage :
    SpaceUsage → (runtime_name : String) (spaces : List String) → SpaceUsage
unfolding assign
update_space_usage su runtime_name spaces = assign runtime_name spaces su

unfoldable pub collect_spaces :
    (excluded_runtime_names : List String) → SpaceUsage → (space_set : List String) → List String
unfolding has union
collect_spaces excluded_runtime_names [] space_set = space_set
collect_spaces excluded_runtime_names ((runtime_name, spaces) ∷ su) space_set =
    collect_spaces excluded_runtime_names su
      (if has excluded_runtime_names runtime_name then space_set else union space_set spaces)

-- The option `ExcludedRuntimes` makes a set of the names; without it the set is empty.
unfoldable pub list_spaces : SpaceUsage → (excluded_runtimes : List String) → List String
unfolding collect_spaces set_of
list_spaces su excluded_runtimes = collect_spaces (set_of excluded_runtimes) su []

module _ (excluded : List String) (space : String) where
  -- A runtime that is not excluded has the space.
  abbrev pub Occupies : String × List String → Type 0
  Occupies (runtime_name, spaces) = (has excluded runtime_name ≡ false) × (has spaces space ≡ true)

  -- The same as a test over the whole usage.
  unfoldable is_occupied : SpaceUsage → Bool
  is_occupied [] = false
  is_occupied ((runtime_name, spaces) ∷ su) =
      (not (has excluded runtime_name) && has spaces space) || is_occupied su

  collect_spaces_lem :
      (su : SpaceUsage) (space_set : List String)
      → has (collect_spaces (set_of excluded) su space_set) space
        ≡ (has space_set space || is_occupied su)
  unfolding collect_spaces is_occupied
  collect_spaces_lem [] space_set = ground arith
  collect_spaces_lem ((runtime_name, spaces) ∷ su) space_set = ground (
    arith,
    collect_spaces_lem su space_set,
    collect_spaces_lem su (union space_set spaces),
    has-union space_set spaces space,
    has-set_of excluded runtime_name,
  )

  is_occupied_iff : (su : SpaceUsage) → (is_occupied su ≡ true) ↔ Any Occupies su
  unfolding is_occupied
  is_occupied_iff [] = ((λ h. cc), λ h. absurd h)
  is_occupied_iff ((runtime_name, spaces) ∷ su) =
      let ih = is_occupied_iff su in ((λ h. ground (arith, ih)), λ h. ground (arith, ih))

  -- A space is listed exactly if a runtime that is not excluded has it.
  pub list_spaces_iff :
      (su : SpaceUsage) → (has (list_spaces su excluded) space ≡ true) ↔ Any Occupies su
  unfolding list_spaces has
  list_spaces_iff su =
      let listed = collect_spaces_lem su [] in
      let occupied = is_occupied_iff su in
      ((λ h. ground (arith, listed, occupied)), λ h. ground (arith, listed, occupied))

  delete_of_absent :
      (runtime_name : String) (su : SpaceUsage)
      → has (keys su) runtime_name ≡ false
      → is_occupied (delete runtime_name su) ≡ is_occupied su
  unfolding delete keys has is_occupied
  delete_of_absent runtime_name [] h = refl
  delete_of_absent runtime_name ((j, spaces) ∷ su) h =
      ground (arith, h, delete_of_absent runtime_name su, eq_iff j runtime_name)

  is_occupied-assign :
      (runtime_name : String) (spaces : List String) (su : SpaceUsage)
      → IsMap su
      → is_occupied (assign runtime_name spaces su) ≡ (
          (not (has excluded runtime_name) && has spaces space)
          || is_occupied (delete runtime_name su))
  unfolding assign delete is_occupied
  is_occupied-assign runtime_name spaces [] unique = ground arith
  is_occupied-assign runtime_name spaces ((j, others) ∷ su) unique = ground (
    arith,
    is_occupied-assign runtime_name spaces su unique.1,
    delete_of_absent j su unique.0,
    eq_iff j runtime_name,
  )

  -- After an update of a runtime's spaces a space is listed exactly if it is one of them and the
  -- runtime is not excluded, or it is listed once the runtime is deleted: the update replaces what
  -- the runtime had and leaves the other runtimes alone.
  list_spaces-update_space_usage :
      (su : SpaceUsage) (runtime_name : String) (spaces : List String)
      → IsMap su
      → has (list_spaces (update_space_usage su runtime_name spaces) excluded) space ≡ (
          (not (has excluded runtime_name) && has spaces space)
          || has (list_spaces (delete_runtime su runtime_name) excluded) space)
  unfolding list_spaces update_space_usage delete_runtime has
  list_spaces-update_space_usage su runtime_name spaces unique = ground (
    arith,
    collect_spaces_lem (assign runtime_name spaces su) [],
    collect_spaces_lem (delete runtime_name su) [],
    is_occupied-assign runtime_name spaces su unique,
  )
