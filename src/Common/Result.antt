-- ===== src/Common/Result.antt =====
-- Go's `(value, error)` and `error` returns.
use Prim.Native.String.{String}
use mathlib.Core.Path.{◌≡◌, refl}
use mathlib.Core.Logic.{◌⊎◌, inl, inr}
use mathlib.Core.Bool.{Bool, true, false}
use mathlib.Core.Option.{Option, none, some}
use mathlib.Core.List.{List}

-- `fmt.Errorf(format, args...)`, `%w` of an inner error, an error of a component with its reason
-- (`ComponentError`), the API server's "not found", and the panic of a nil dereference, which no
-- caller recovers from.
pub data Error : Type 0 where
  errorf : String → List String → Error
  wrapf : String → Error → Error
  component_error : (reason : String) → Error → Error
  not_found : Error
  nil_dereference : Error

pub data Result {α} (Value : Type α) : Type α where
  ok : Value → Result Value
  err : Error → Result Value

-- A function that returns only an `error`: `ok tt` is `nil`.
abbrev pub Check : Type 0
Check = Result (Unit {0})

-- The next step runs on the value; an error is returned at once.
infixl 5 ◌>>=◌ ◌>>◌
abbrev pub ◌>>=◌ {α β} :
    {X : Type α} {Y : Type β} (step : Result X) (next : X → Result Y) → Result Y
err e >>= next = err e
ok x >>= next = next x

-- The same after a step that returns only an `error`.
abbrev pub ◌>>◌ {β} : {Y : Type β} (check : Check) (next : Result Y) → Result Y
check >> next = check >>= λ _. next

-- `if test { return err }`
abbrev pub fail_if : Bool → Error → Check
fail_if true e = err e
fail_if false e = ok tt

-- `if err != nil { return fmt.Errorf(format, err) }`
abbrev pub wrap {ℓ} : {A : Type ℓ} → String → Result A → Result A
wrap format (ok a) = ok a
wrap format (err nil_dereference) = err nil_dereference
wrap format (err e) = err (wrapf format e)

-- `p.x` on a pointer
abbrev pub deref {ℓ} : {A : Type ℓ} → Option A → Result A
deref none = err nil_dereference
deref (some a) = ok a

abbrev pub is_ok {ℓ} : {A : Type ℓ} → Result A → Bool
is_ok (ok a) = true
is_ok (err e) = false

pub Result-cases {ℓ} :
    {A : Type ℓ} (r : Result A) → ((a : A) × (r ≡ ok a)) ⊎ ((e : Error) × (r ≡ err e))
Result-cases (ok a) = inl (a, refl)
Result-cases (err e) = inr (e, refl)

pub >>=-eq-ok {α β} :
    {X : Type α} {Y : Type β} (step : Result X) (next : X → Result Y) {y : Y}
    → (step >>= next) ≡ ok y
    → (x : X) × (step ≡ ok x) × (next x ≡ ok y)
>>=-eq-ok (err e) next failed = cc
>>=-eq-ok (ok x) next returned = (x, refl, returned)

pub fail_if-eq-ok : (b : Bool) (e : Error) → fail_if b e ≡ ok tt → b ≡ false
fail_if-eq-ok true e h = cc
fail_if-eq-ok false e h = refl

pub wrap-eq-ok {ℓ} :
    {A : Type ℓ} (format : String) (r : Result A) {a : A} → wrap format r ≡ ok a → r ≡ ok a
wrap-eq-ok format (ok a) h = h
wrap-eq-ok format (err (errorf f l)) h = cc
wrap-eq-ok format (err (wrapf f l)) h = cc
wrap-eq-ok format (err (component_error r e)) h = cc
wrap-eq-ok format (err not_found) h = cc
wrap-eq-ok format (err nil_dereference) h = cc

pub is_ok-wrap {ℓ} : {A : Type ℓ} (format : String) (r : Result A) → is_ok (wrap format r) ≡ is_ok r
is_ok-wrap format (ok a) = refl
is_ok-wrap format (err nil_dereference) = refl
is_ok-wrap format (err (errorf f l)) = refl
is_ok-wrap format (err (wrapf f l)) = refl
is_ok-wrap format (err (component_error r e)) = refl
is_ok-wrap format (err not_found) = refl
