-- ===== src/Common/Distinct.antt =====
-- Names that occur once, and names that a set does not hold yet.
use Prim.Native.String.{String}
use mathlib.Core.Path.{◌≡◌, refl}
use mathlib.Core.Logic.{◌↔◌}
use mathlib.Core.Bool.{false}
use mathlib.Core.List.{List, [], ◌∷◌, ◌++◌}
use native.Mathlib.Omega.{arith}
use text.Mathlib.TextEquality.{eq_iff}
use nautes.Common.Lists.{All, has, insert, has-insert, has-append}

-- No name of the list occurs again behind it.
abbrev pub Distinct : List String → Type 0
Distinct [] = Unit
Distinct (name ∷ names) = (has names name ≡ false) × Distinct names

-- None of the names is in the set.
abbrev pub Fresh : List String → List String → Type 0
Fresh seen = All (λ name. has seen name ≡ false)

pub Fresh-cons_iff :
    (name : String) (seen names : List String)
    → Fresh (name ∷ seen) names ↔ ((has names name ≡ false) × Fresh seen names)
unfolding has
Fresh-cons_iff name seen [] = ((λ h. (refl, tt)), λ h. tt)
Fresh-cons_iff name seen (x ∷ names) =
    let ih = Fresh-cons_iff name seen names in
    (
      (λ h. ground (arith, ih, eq_iff x name, eq_iff name x)),
      λ h. ground (arith, ih, eq_iff x name, eq_iff name x),
    )

pub Fresh-nil : (names : List String) → Fresh [] names
unfolding has
Fresh-nil [] = tt
Fresh-nil (x ∷ names) = (refl, Fresh-nil names)

pub Fresh-insert_iff :
    (name : String) (seen names : List String)
    → Fresh (insert name seen) names ↔ ((has names name ≡ false) × Fresh seen names)
unfolding has
Fresh-insert_iff name seen [] = ((λ h. (refl, tt)), λ h. tt)
Fresh-insert_iff name seen (x ∷ names) =
    let ih = Fresh-insert_iff name seen names in
    let inserted = has-insert name x seen in
    (
      (λ h. ground (arith, ih, inserted, eq_iff x name, eq_iff name x)),
      λ h. ground (arith, ih, inserted, eq_iff x name, eq_iff name x),
    )

-- Two lists are distinct together: each on its own, and neither holds a name of the other.
pub Distinct-append_iff :
    (xs ys : List String) → Distinct (xs ++ ys) ↔ (Distinct xs × Distinct ys × Fresh xs ys)
unfolding has
Distinct-append_iff [] ys = ((λ h. (tt, h, Fresh-nil ys)), λ h. h.1)
Distinct-append_iff (x ∷ xs) ys =
    let ih = Distinct-append_iff xs ys in
    let split = has-append xs ys x in
    let fresh = Fresh-cons_iff x xs ys in
    ((λ h. ground (arith, ih, split, fresh)), λ h. ground (arith, ih, split, fresh))

-- Freshness depends only on what the set holds.
pub Fresh-congr :
    (s t names : List String) → ((a : String) → has s a ≡ has t a) → Fresh s names → Fresh t names
Fresh-congr s t [] same h = tt
Fresh-congr s t (x ∷ names) same h = ground (arith, same x, Fresh-congr s t names same h.1)
