-- ===== src/Task/Hashes.antt =====
-- Lemmas on `GetHashMap` (app/runtime-operator/pkg/utils/compare.go) and on the difference of sets.
use Prim.Native.Nat.{ℕ}
use Prim.Native.String.{String}
use mathlib.Core.Path.{◌≡◌, refl, sym, ◌∙◌}
use mathlib.Core.Logic.{inl, inr}
use mathlib.Core.Bool.{true, false, ◌||◌}
use mathlib.Core.List.{List, [], ◌∷◌, ◌++◌}
use native.Mathlib.Omega.{arith}
use text.Mathlib.TextEquality.{eq_iff}
use nautes.Common.Tests.{Bool-cases}
use nautes.Common.Lists.{All, All-imp, has, difference}
use nautes.Usage.Secret.{SecretInfo, same_hash, has_hash}
use nautes.Usage.Accounts.Listed.{has_permission}
use nautes.Task.Permissions.{HashMap, hashes, collect_hashes, get_hash_map, objects_beyond}

pub All-difference : (s t : List String) → All (λ (x : String). has t x ≡ false) (difference s t)
unfolding difference
All-difference [] t = tt
All-difference (x ∷ s) t = elim (Bool-cases (has t x)) [
  | inl there ↦ rw (there) (All-difference s t)
  | inr absent ↦ rw (absent) (absent, All-difference s t)
]

-- What is left is of the list.
pub All-difference-has :
    (whole s t : List String)
    → ((x : String) → has s x ≡ true → has whole x ≡ true)
    → All (λ (x : String). (has whole x ≡ true) × (has t x ≡ false)) (difference s t)
unfolding difference has
All-difference-has whole [] t within = tt
All-difference-has whole (x ∷ s) t within =
    let rest = All-difference-has whole s t (λ y there. within y (ground (arith, there))) in
    elim (Bool-cases (has t x)) [
      | inl there ↦ rw (there) rest
      | inr absent ↦ rw (absent) ((within x (ground (arith, eq_iff x x)), absent), rest)
    ]

module _ (hash : SecretInfo → ℕ) where
  -- Each object stands under its hash.
  abbrev IsKeyed : HashMap → Type 0
  IsKeyed m = All (λ (entry : ℕ × SecretInfo). entry.0 ≡ hash entry.1) m

  hashes-append :
      (m : HashMap) (obj : SecretInfo) (h : ℕ)
      → has_hash (hashes (m ++ (hash obj, obj) ∷ [])) h
        ≡ (has_hash (hashes m) h || same_hash (hash obj) h)
  unfolding has_hash hashes
  hashes-append [] obj h = ground arith
  hashes-append ((k, other) ∷ m) obj h = ground (arith, hashes-append m obj h)

  IsKeyed-append :
      (m : HashMap) (obj : SecretInfo) → IsKeyed m → IsKeyed (m ++ (hash obj, obj) ∷ [])
  IsKeyed-append [] obj keyed = (refl, tt)
  IsKeyed-append (entry ∷ m) obj keyed = (keyed.0, IsKeyed-append m obj keyed.1)

  collect_hashes-IsKeyed :
      (objs : List SecretInfo) (m : HashMap) → IsKeyed m → IsKeyed (collect_hashes hash objs m)
  unfolding collect_hashes
  collect_hashes-IsKeyed [] m keyed = keyed
  collect_hashes-IsKeyed (obj ∷ objs) m keyed = elim (Bool-cases (has_hash (hashes m) (hash obj))) [
    | inl seen ↦ rw (seen) (collect_hashes-IsKeyed objs m keyed)
    | inr fresh ↦ rw (fresh) (collect_hashes-IsKeyed objs _ (IsKeyed-append m obj keyed))
  ]

  has_hash-collect_hashes :
      (objs : List SecretInfo) (m : HashMap) (h : ℕ)
      → has_hash (hashes (collect_hashes hash objs m)) h
        ≡ (has_hash (hashes m) h || has_permission hash objs h)
  unfolding collect_hashes has_permission
  has_hash-collect_hashes [] m h = ground arith
  has_hash-collect_hashes (obj ∷ objs) m h = elim (Bool-cases (has_hash (hashes m) (hash obj))) [
    | inl seen ↦ rw (seen) (ground (arith, seen, has_hash-collect_hashes objs m h))
    | inr fresh ↦
        let more = m ++ (hash obj, obj) ∷ [] in
        rw (fresh) (ground (arith, has_hash-collect_hashes objs more h, hashes-append m obj h))
  ]

  -- The set of hashes holds the hashes of the objects.
  pub has_hash-get_hash_map :
      (objs : List SecretInfo) (h : ℕ)
      → has_hash (hashes (get_hash_map hash objs)) h ≡ has_permission hash objs h
  unfolding get_hash_map has_hash hashes
  has_hash-get_hash_map objs h = ground (arith, has_hash-collect_hashes objs [] h)

  objects_beyond_lem :
      (index : List ℕ) (m : HashMap)
      → IsKeyed m
      → All (λ (obj : SecretInfo). has_hash index (hash obj) ≡ false) (objects_beyond index m)
  unfolding objects_beyond
  objects_beyond_lem index [] keyed = tt
  objects_beyond_lem index ((h, obj) ∷ m) keyed = elim (Bool-cases (has_hash index h)) [
    | inl there ↦ rw (there) (objects_beyond_lem index m keyed.1)
    | inr absent ↦ rw (absent) (rw (sym keyed.0) absent, objects_beyond_lem index m keyed.1)
  ]

  -- Of the objects those are left whose hashes no given permission has.
  pub beyond_lem :
      (permissions objs : List SecretInfo)
      → All
          (λ (obj : SecretInfo). has_permission hash permissions (hash obj) ≡ false)
          (objects_beyond (hashes (get_hash_map hash permissions)) (get_hash_map hash objs))
  unfolding get_hash_map
  beyond_lem permissions objs =
      let index = hashes (get_hash_map hash permissions) in
      All-imp (λ obj absent. sym (has_hash-get_hash_map permissions (hash obj)) ∙ absent)
        (objects_beyond index (get_hash_map hash objs))
        (objects_beyond_lem index (get_hash_map hash objs) (collect_hashes-IsKeyed objs [] tt))
