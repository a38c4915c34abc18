-- ===== src/Task/Yields.antt =====
-- What holds when an action (app/runtime-operator/internal/syncer/v2/task) succeeds.
use nautes.Common.Result.{Result, ok, err}
use nautes.Task.Action.{Run, Action, and_then, ◌>>=◌, ◌>>◌}
use nautes.Task.Invariants.{Keeps}
use mathlib.Core.Path.{◌≡◌, refl}

-- If the action succeeds, the property holds then.
pub record Yields {Cache : Type 0} (Done : Run Cache → Type 0) {A : Type 0}
    (action : Action Cache A) : Type 0 where
  pub yields : (run : Run Cache) (a : A) → (action run).0 ≡ ok a → Done (action run).1

module _ {Cache : Type 0} (Done : Run Cache → Type 0) where
  and_then-Yields :
      {A B : Type 0} (out : Result A × Run Cache) (next : A → Action Cache B) (b : B)
      → ((a : A) → Yields Done (next a))
      → (and_then out next).0 ≡ ok b
      → Done (and_then out next).1
  and_then-Yields (ok a, run) next b last h = (last a).yields run b h
  and_then-Yields (err e, run) next b last h = cc

  pub >>=-Yields :
      {A B : Type 0} (action : Action Cache A) {next : A → Action Cache B}
      → ((a : A) → Yields Done (next a))
      → Yields Done (action >>= next)
  unfolding ◌>>=◌
  >>=-Yields action {next} last = record {
    yields = λ run b h. and_then-Yields (action run) next b last h;
  }

  pub >>-Yields :
      {A B : Type 0} (action : Action Cache A) {next : Action Cache B}
      → Yields Done next
      → Yields Done (action >> next)
  unfolding ◌>>◌
  >>-Yields action last = >>=-Yields action (λ _. last)

  and_then_kept :
      {A B : Type 0} (out : Result A × Run Cache) (next : Action Cache B) (b : B)
      → ((a : A) → out.0 ≡ ok a → Done out.1)
      → Keeps Done next
      → (and_then out (λ _. next)).0 ≡ ok b
      → Done (and_then out (λ _. next)).1
  and_then_kept (ok a, run) next b done kept h = kept.keeps run (done a refl)
  and_then_kept (err e, run) next b done kept h = cc

  -- What the first action yields, the second keeps.
  pub Yields-then-Keeps :
      {A B : Type 0} {action : Action Cache A} {next : Action Cache B}
      → Yields Done action
      → Keeps Done next
      → Yields Done (action >> next)
  unfolding ◌>>◌ ◌>>=◌
  Yields-then-Keeps {action = action} {next = next} first kept = record {
    yields =
        λ run b h. and_then_kept (action run) next b (λ a made. first.yields run a made) kept h;
  }

  and_then-Yields-of :
      {A B : Type 0} (Got : A → Type 0) (out : Result A × Run Cache) (next : A → Action Cache B)
      (b : B)
      → ((a : A) → out.0 ≡ ok a → Got a)
      → ((a : A) → Got a → Yields Done (next a))
      → (and_then out next).0 ≡ ok b
      → Done (and_then out next).1
  and_then-Yields-of Got (ok a, run) next b got last h = (last a (got a refl)).yields run b h
  and_then-Yields-of Got (err e, run) next b got last h = cc

  -- The second action knows what the first has got.
  pub >>=-Yields-of :
      {A B : Type 0} (Got : A → Type 0) (action : Action Cache A) {next : A → Action Cache B}
      → ((run : Run Cache) (a : A) → (action run).0 ≡ ok a → Got a)
      → ((a : A) → Got a → Yields Done (next a))
      → Yields Done (action >>= next)
  unfolding ◌>>=◌
  >>=-Yields-of Got action {next} got last = record {
    yields =
        λ run b h. and_then-Yields-of Got (action run) next b (λ a made. got run a made) last h;
  }

and_then-ok :
    {Cache A B : Type 0} (out : Result A × Run Cache) (next : A → Action Cache B) (b : B)
    → (and_then out next).0 ≡ ok b
    → (a : A) × (out.0 ≡ ok a)
      × ((next a out.1).0 ≡ ok b)
      × ((and_then out next).1 ≡ (next a out.1).1)
and_then-ok (ok a, run) next b h = (a, refl, h, refl)
and_then-ok (err e, run) next b h = cc

-- Where two actions succeed, the first has succeeded, and then the second from where it ended.
pub >>=-ok :
    {Cache A B : Type 0} (action : Action Cache A) (next : A → Action Cache B) (run : Run Cache)
    (b : B)
    → ((action >>= next) run).0 ≡ ok b
    → (a : A) × ((action run).0 ≡ ok a)
      × ((next a (action run).1).0 ≡ ok b)
      × (((action >>= next) run).1 ≡ (next a (action run).1).1)
unfolding ◌>>=◌
>>=-ok action next run b h = and_then-ok (action run) next b h
