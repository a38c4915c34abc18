-- ===== src/Common/Lists.antt =====
-- Loops over slices, and sets of strings (`sets.Set[string]`, `map[string]bool`) as lists.
use Prim.Native.String.{String}
use mathlib.Core.Path.{◌≡◌, refl}
use mathlib.Core.Logic.{◌⊎◌}
use mathlib.Core.Bool.{Bool, true, false, ◌||◌}
use mathlib.Core.List.{List, [], ◌∷◌, ◌++◌}
use native.Mathlib.Omega.{arith}
use text.Mathlib.Text.{◌==◌}
use text.Mathlib.TextEquality.{eq_iff}
use nautes.Common.Tests.{if◌then◌else◌}

module _ {ℓ} {A : Type ℓ} where
  -- A predicate that holds of every item, and one that holds of some item.
  abbrev pub All {κ} : (A → Type κ) → List A → Type κ
  All P [] = Unit
  All P (x ∷ xs) = P x × All P xs

  abbrev pub Any : (A → Type 0) → List A → Type 0
  Any P [] = ⊥
  Any P (x ∷ xs) = P x ⊎ Any P xs

  pub All-imp {κ} : {P Q : A → Type κ} → ((x : A) → P x → Q x) → (xs : List A) → All P xs → All Q xs
  All-imp imp [] h = tt
  All-imp imp (x ∷ xs) h = (imp x h.0, All-imp imp xs h.1)

  pub All-of {κ} : {P : A → Type κ} → ((x : A) → P x) → (xs : List A) → All P xs
  All-of all [] = tt
  All-of all (x ∷ xs) = (all x, All-of all xs)

  unfoldable pub any : (A → Bool) → List A → Bool
  any p [] = false
  any p (x ∷ xs) = p x || any p xs

  unfoldable pub keep : (A → Bool) → List A → List A
  keep p [] = []
  keep p (x ∷ xs) = let rest = keep p xs in if p x then x ∷ rest else rest

-- `set.Has(a)`
unfoldable pub has : List String → String → Bool
has [] a = false
has (x ∷ xs) a = x == a || has xs a

-- `set.Insert(a)`: an item that is there already changes nothing.
unfoldable pub insert : String → List String → List String
unfolding has
insert a s = if has s a then s else a ∷ s

-- `sets.New(xs...)`
unfoldable pub set_of : List String → List String
unfolding insert
set_of [] = []
set_of (x ∷ xs) = insert x (set_of xs)

-- `set.Delete(a)`, `s.Union(t)`, `s.Difference(t)`
unfoldable pub remove : String → List String → List String
remove a [] = []
remove a (x ∷ xs) = let rest = remove a xs in if x == a then rest else x ∷ rest

unfoldable pub union : List String → List String → List String
unfolding insert
union [] t = t
union (x ∷ s) t = insert x (union s t)

unfoldable pub difference : List String → List String → List String
unfolding has
difference [] t = []
difference (x ∷ s) t = let rest = difference s t in if has t x then rest else x ∷ rest

pub has-insert : (a b : String) (s : List String) → has (insert a s) b ≡ (a == b || has s b)
unfolding has insert
has-insert a b s = ground (arith, eq_iff a b)

pub has_head : (a : String) (s : List String) → has (a ∷ s) a ≡ true
unfolding has
has_head a s = ground (arith, eq_iff a a)

pub has-set_of : (xs : List String) (b : String) → has (set_of xs) b ≡ has xs b
unfolding set_of has
has-set_of [] b = refl
has-set_of (x ∷ xs) b = rw (has-insert, has-set_of xs b)

pub has-union : (s t : List String) (b : String) → has (union s t) b ≡ (has s b || has t b)
unfolding union has
has-union [] t b = refl
has-union (x ∷ s) t b = ground (arith, has-insert x b (union s t), has-union s t b)

pub has-remove :
    (a b : String) (s : List String) → has (remove a s) b ≡ (if a == b then false else has s b)
unfolding has remove
has-remove a b [] = ground arith
has-remove a b (x ∷ s) = ground (arith, eq_iff x a, eq_iff x b, eq_iff a b, has-remove a b s)

pub has-append : (xs ys : List String) (b : String) → has (xs ++ ys) b ≡ (has xs b || has ys b)
unfolding has
has-append [] ys b = refl
has-append (x ∷ xs) ys b = ground (arith, has-append xs ys b)
