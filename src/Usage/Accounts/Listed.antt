-- ===== src/Usage/Accounts/Listed.antt =====
-- Lemmas on the listings of app/runtime-operator/internal/syncer/v2/cache/account.go and on
-- `AccountIsRemovable` of app/runtime-operator/internal/syncer/v2/task/syncer.go.
use Prim.Native.Nat.{ℕ}
use Prim.Native.String.{String}
use mathlib.Core.Path.{◌≡◌, refl}
use mathlib.Core.Logic.{◌⊎◌, ◌↔◌, inl, inr}
use mathlib.Core.Bool.{Bool, true, false, ◌||◌}
use mathlib.Core.List.{List, [], ◌∷◌, ◌++◌}
use native.Mathlib.Omega.{arith}
use text.Mathlib.TextEquality.{eq_iff}
use nautes.Common.Tests.{Option-cases, Bool-cases}
use nautes.Common.Lists.{All, Any, has, union, set_of, has-union, has-set_of}
use nautes.Common.Maps.{Map, lookup, keys, IsMap, All-lookup}
use nautes.Usage.Secret.{SecretInfo, same_hash, has_hash}
use nautes.Usage.Accounts.Tidy.{IsTidy, IsUsed}
use nautes.Usage.Accounts.{
  RuntimeResource, AccountResource, AccountUsage, account_of, add_permission,
  collect_account_spaces, list_account_spaces, add_permissions, collect_permissions,
  list_permissions, has_at_most, account_is_removable,
}

module _ (excluded : List String) (space : String) where
  -- A runtime that is not excluded has the space.
  abbrev pub Occupies : String × RuntimeResource → Type 0
  Occupies (name, resource) = (has excluded name ≡ false) × (has resource.spaces space ≡ true)

  collect_account_spaces_iff :
      (runtimes : Map RuntimeResource) (space_set : List String)
      → (has (collect_account_spaces (set_of excluded) runtimes space_set) space ≡ true)
        ↔ ((has space_set space ≡ true) ⊎ Any Occupies runtimes)
  unfolding collect_account_spaces
  collect_account_spaces_iff [] space_set = ((λ h. ground arith), λ h. ground arith)
  collect_account_spaces_iff ((name, resource) ∷ runtimes) space_set =
      let kept = collect_account_spaces_iff runtimes space_set in
      let joined = collect_account_spaces_iff runtimes (union space_set resource.spaces) in
      let both = has-union space_set resource.spaces space in
      let names = has-set_of excluded name in
      (
        (λ h. ground (arith, kept, joined, both, names)),
        λ h. ground (arith, kept, joined, both, names),
      )

  -- A space is listed for an account exactly if a runtime of it that is not excluded has the space.
  pub list_account_spaces_iff :
      (ar : AccountResource)
      → (has (list_account_spaces ar excluded) space ≡ true) ↔ Any Occupies ar.runtimes
  unfolding list_account_spaces has
  list_account_spaces_iff ar =
      let listed = collect_account_spaces_iff ar.runtimes [] in
      ((λ h. ground (arith, listed)), λ h. ground (arith, listed))

module _ (hash : SecretInfo → ℕ) where
  -- One of the permissions has the hash.
  unfoldable pub has_permission : List SecretInfo → ℕ → Bool
  has_permission [] h = false
  has_permission (p ∷ ps) h = same_hash (hash p) h || has_permission ps h

  has_permission-append :
      (ps qs : List SecretInfo) (h : ℕ)
      → has_permission (ps ++ qs) h ≡ (has_permission ps h || has_permission qs h)
  unfolding has_permission
  has_permission-append [] qs h = refl
  has_permission-append (p ∷ ps) qs h = ground (arith, has_permission-append ps qs h)

  -- The hash set holds the hashes of the permissions kept.
  abbrev IsIndexed : List ℕ × List SecretInfo → Type 0
  IsIndexed (hash_set, kept) = (h : ℕ) → has_hash hash_set h ≡ has_permission kept h

  -- What a round, or several, adds to the permissions kept.
  abbrev Adds : (state after : List ℕ × List SecretInfo) → List SecretInfo → Type 0
  Adds state after ps =
      IsIndexed after
      × ((h : ℕ) → has_permission after.1 h ≡ (has_permission state.1 h || has_permission ps h))

  add_permission_lem :
      (p : SecretInfo) (state : List ℕ × List SecretInfo)
      → IsIndexed state
      → Adds state (add_permission hash p state) (p ∷ [])
  unfolding add_permission has_permission has_hash
  add_permission_lem p (hash_set, kept) indexed = elim (Bool-cases (has_hash hash_set (hash p))) [
    | inl seen ↦ (
      (λ h. ground (arith, seen, indexed h)),
      λ h. ground (arith, seen, indexed h, indexed (hash p)),
    )
    | inr fresh ↦ (
      (λ h. ground (arith, fresh, indexed h, has_permission-append kept (p ∷ []) h)),
      λ h. ground (arith, fresh, has_permission-append kept (p ∷ []) h),
    )
  ]

  add_permissions_lem :
      (ps : List SecretInfo) (state : List ℕ × List SecretInfo)
      → IsIndexed state
      → Adds state (add_permissions hash ps state) ps
  unfolding add_permissions has_permission
  add_permissions_lem [] state indexed = (indexed, λ h. ground arith)
  add_permissions_lem (p ∷ ps) state indexed =
      let first = add_permission_lem p state indexed in
      let rest = add_permissions_lem ps (add_permission hash p state) first.0 in
      (rest.0, λ h. ground (arith, first.1 h, rest.1 h))

  module _ (excluded : List String) (h : ℕ) where
    -- A runtime that is not excluded has a permission of that hash.
    abbrev pub Holds : String × RuntimeResource → Type 0
    Holds (name, resource) =
        (has excluded name ≡ false) × (has_permission resource.permissions h ≡ true)

    collect_permissions_iff :
        (runtimes : Map RuntimeResource) (state : List ℕ × List SecretInfo)
        → IsIndexed state
        → (has_permission (collect_permissions hash (set_of excluded) runtimes state).1 h ≡ true)
          ↔ ((has_permission state.1 h ≡ true) ⊎ Any Holds runtimes)
    unfolding collect_permissions
    collect_permissions_iff [] state indexed = ((λ l. ground arith), λ l. ground arith)
    collect_permissions_iff ((name, resource) ∷ runtimes) state indexed =
        let names = has-set_of excluded name in
        elim (Bool-cases (has excluded name)) [
          | inl out ↦
              let kept = collect_permissions_iff runtimes state indexed in
              ((λ l. ground (arith, kept, names, out)), λ l. ground (arith, kept, names, out))
          | inr counts ↦
              let added = add_permissions_lem resource.permissions state indexed in
              let more =
                collect_permissions_iff runtimes (add_permissions hash resource.permissions state)
                  added.0 in
              let both = added.1 h in
              (
                (λ l. ground (arith, more, names, counts, both)),
                λ l. ground (arith, more, names, counts, both),
              )
        ]

    -- A permission of a hash is listed for an account exactly if a runtime of it that is not
    -- excluded has a permission of that hash.
    pub list_permissions_iff :
        (ar : AccountResource)
        → (has_permission (list_permissions hash ar excluded) h ≡ true) ↔ Any Holds ar.runtimes
    unfolding list_permissions has_permission
    list_permissions_iff ar =
        let listed = collect_permissions_iff ar.runtimes ([], []) (λ k. refl) in
        ((λ l. ground (arith, listed)), λ l. ground (arith, listed))

has_at_most_iff :
    (runtime_name : String) (runtimes : Map RuntimeResource)
    → IsMap runtimes
    → (has_at_most runtime_name runtimes ≡ true)
      ↔ All (λ (entry : String × RuntimeResource). entry.0 ≡ runtime_name) runtimes
unfolding has_at_most has keys
has_at_most_iff runtime_name [] unique = ((λ h. tt), λ h. refl)
has_at_most_iff runtime_name ((name, resource) ∷ []) unique =
    let same = eq_iff name runtime_name in ((λ h. ground (arith, same)), λ h. ground (arith, same))
has_at_most_iff runtime_name ((a, resource) ∷ (b, other) ∷ rest) unique =
    let same = eq_iff b a in ((λ h. cc), λ h. absurd (ground (arith, h, unique, same)))

-- In a well formed usage an account can be removed exactly if no runtime but the given one uses it.
account_is_removable_iff :
    (usage : AccountUsage) (account_name runtime_name : String)
    → IsTidy usage
    → (account_is_removable usage account_name runtime_name ≡ true)
      ↔ All
          (λ (entry : String × RuntimeResource). entry.0 ≡ runtime_name)
          (account_of usage account_name).runtimes
unfolding account_is_removable account_of has
account_is_removable_iff usage account_name runtime_name tidy =
    elim (Option-cases (lookup account_name usage.accounts)) [
      | inl missing ↦ ((λ h. ground (arith, missing)), λ h. ground (arith, missing))
      | inr (account, held) ↦
          let used = All-lookup IsUsed account_name account usage.accounts tidy.1 held in
          let exact = has_at_most_iff runtime_name account.runtimes used.1 in
          ((λ h. ground (arith, exact, held)), λ h. ground (arith, exact, held))
    ]
