-- ===== src/Common/Maps.antt =====
-- Go's `map[string]V` as an association list: the list is one order in which `range` may visit the
-- map, and the theorems hold for every such order.
use Prim.Native.String.{String}
use mathlib.Core.Path.{◌≡◌, refl, subst}
use mathlib.Core.Option
use mathlib.Core.Option.{Option, none, some}
use mathlib.Core.Logic.{inl, inr}
use mathlib.Core.Bool.{true, false}
use mathlib.Core.List.{List, [], ◌∷◌}
use native.Mathlib.Omega.{arith}
use text.Mathlib.Text.{◌==◌}
use text.Mathlib.TextEquality.{eq_iff}
use nautes.Common.Tests.{if◌then◌else◌, is_empty, Bool-cases}
use nautes.Common.Lists.{All, has}

abbrev pub Map {ℓ} : Type ℓ → Type ℓ
Map V = List (String × V)

module _ {ℓ} {V : Type ℓ} where
  -- `v, ok := m[k]`
  unfoldable pub lookup : String → Map V → Option V
  lookup k [] = none
  lookup k ((j, v) ∷ m) = if j == k then some v else lookup k m

  -- `m[k] = v`
  unfoldable pub assign : String → V → Map V → Map V
  assign k v [] = (k, v) ∷ []
  assign k v ((j, w) ∷ m) = if j == k then (k, v) ∷ m else (j, w) ∷ assign k v m

  -- `delete(m, k)`
  unfoldable pub delete : String → Map V → Map V
  delete k [] = []
  delete k ((j, v) ∷ m) = let rest = delete k m in if j == k then rest else (j, v) ∷ rest

  unfoldable pub keys : Map V → List String
  keys [] = []
  keys ((k, v) ∷ m) = k ∷ keys m

  unfoldable pub values : Map V → List V
  values [] = []
  values ((k, v) ∷ m) = v ∷ values m

  -- `m[k]` for a value type whose zero value is `zero_value`
  unfoldable pub lookup_or : V → String → Map V → V
  unfolding lookup
  lookup_or zero_value k m = Option.get_or (lookup k m) zero_value

  -- No key stands twice.
  abbrev pub IsMap : Map V → Type 0
  IsMap [] = Unit
  IsMap ((k, v) ∷ m) = (has (keys m) k ≡ false) × IsMap m

  pub lookup-assign :
      (k j : String) (v : V) (m : Map V)
      → lookup j (assign k v m) ≡ (if k == j then some v else lookup j m)
  unfolding lookup assign
  lookup-assign k j v [] = refl
  lookup-assign k j v ((i, w) ∷ m) =
      ground (arith, eq_iff k j, eq_iff i k, eq_iff i j, lookup-assign k j v m)

  pub lookup-delete :
      (k j : String) (m : Map V) → lookup j (delete k m) ≡ (if k == j then none else lookup j m)
  unfolding lookup delete
  lookup-delete k j [] = ground arith
  lookup-delete k j ((i, w) ∷ m) =
      ground (arith, eq_iff k j, eq_iff i k, eq_iff i j, lookup-delete k j m)

  pub lookup_of_absent : (k : String) (m : Map V) → has (keys m) k ≡ false → lookup k m ≡ none
  unfolding lookup keys has
  lookup_of_absent k [] h = refl
  lookup_of_absent k ((i, w) ∷ m) h = ground (arith, lookup_of_absent k m)

  pub has-keys-assign :
      (k j : String) (v : V) (m : Map V)
      → has (keys (assign k v m)) j ≡ (if k == j then true else has (keys m) j)
  unfolding keys assign has
  has-keys-assign k j v [] = ground arith
  has-keys-assign k j v ((i, w) ∷ m) =
      ground (arith, eq_iff k j, eq_iff i k, eq_iff i j, has-keys-assign k j v m)

  pub IsMap-assign : (k : String) (v : V) (m : Map V) → IsMap m → IsMap (assign k v m)
  unfolding assign keys has
  IsMap-assign k v [] h = (refl, tt)
  IsMap-assign k v ((i, w) ∷ m) h =
      ground (arith, eq_iff i k, eq_iff k i, has-keys-assign k i v m, IsMap-assign k v m)

  pub has-keys-delete :
      (k j : String) (m : Map V)
      → has (keys (delete k m)) j ≡ (if k == j then false else has (keys m) j)
  unfolding keys delete has
  has-keys-delete k j [] = ground arith
  has-keys-delete k j ((i, w) ∷ m) =
      ground (arith, eq_iff k j, eq_iff i k, eq_iff i j, has-keys-delete k j m)

  pub IsMap-delete : (k : String) (m : Map V) → IsMap m → IsMap (delete k m)
  unfolding delete keys has
  IsMap-delete k [] h = tt
  IsMap-delete k ((i, w) ∷ m) h =
      ground (arith, eq_iff i k, eq_iff k i, has-keys-delete k i m, IsMap-delete k m)

  -- Entries after a write and after a deletion.
  pub All-assign {κ} :
      (P : String × V → Type κ) (k : String) (v : V) (m : Map V)
      → P (k, v)
      → All P m
      → All P (assign k v m)
  unfolding assign
  All-assign P k v [] p h = (p, tt)
  All-assign P k v ((i, w) ∷ m) p h = elim (Bool-cases (i == k)) [
    | inl here ↦
        let same : (k, v) ∷ m ≡ assign k v ((i, w) ∷ m) = ground (arith, here) in
        subst (All P) same (p, h.1)
    | inr later ↦
        let same : (i, w) ∷ assign k v m ≡ assign k v ((i, w) ∷ m) = ground (arith, later) in
        subst (All P) same (h.0, All-assign P k v m p h.1)
  ]

  pub All-delete {κ} :
      (P : String × V → Type κ) (k : String) (m : Map V) → All P m → All P (delete k m)
  unfolding delete
  All-delete P k [] h = tt
  All-delete P k ((i, w) ∷ m) h = elim (Bool-cases (i == k)) [
    | inl here ↦
        let same : delete k m ≡ delete k ((i, w) ∷ m) = ground (arith, here) in
        subst (All P) same (All-delete P k m h.1)
    | inr later ↦
        let same : (i, w) ∷ delete k m ≡ delete k ((i, w) ∷ m) = ground (arith, later) in
        subst (All P) same (h.0, All-delete P k m h.1)
  ]

  pub All-lookup {κ} :
      (P : V → Type κ) (k : String) (v : V) (m : Map V)
      → All (λ (entry : String × V). P entry.1) m
      → lookup k m ≡ some v
      → P v
  unfolding lookup
  All-lookup P k v [] h found = cc
  All-lookup P k v ((i, w) ∷ m) h found = elim (Bool-cases (i == k)) [
    | inl here ↦ let same : w ≡ v = ground (arith, found, here) in subst P same h.0
    | inr later ↦ All-lookup P k v m h.1 (ground (arith, found, later))
  ]

  pub is_empty-assign : (k : String) (v : V) (m : Map V) → is_empty (assign k v m) ≡ false
  unfolding assign
  is_empty-assign k v [] = refl
  is_empty-assign k v ((i, w) ∷ m) = ground arith
