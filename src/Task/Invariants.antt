-- ===== src/Task/Invariants.antt =====
-- Properties of a run that actions keep: one lemma for each way in which
-- `nautes.Task.Action` composes actions.
use Prim.Native.String.{String}
use mathlib.Core.Path.{◌≡◌, refl}
use mathlib.Core.List.{List, [], ◌∷◌}
use nautes.Common.Result.{Error, Result, ok, err}
use nautes.Common.Lists.{All}
use nautes.Usage.Products.{ProductUsage}
use nautes.Task.Action.{
  Run, Action, Step, pure, raise, lift, wrapped, gets, and_then, each, modify, modify_usage, ◌>>=◌,
  ◌>>◌,
}

module _ {Cache : Type 0} (IsGood : Run Cache → Type 0) where
  -- What holds before the action holds after it, also if it fails.
  pub record Keeps {A : Type 0} (action : Action Cache A) : Type 0 where
    pub keeps : (run : Run Cache) → IsGood run → IsGood (action run).1

  and_then_lem :
      {A B : Type 0} (out : Result A × Run Cache) (next : A → Action Cache B)
      → IsGood out.1
      → ((a : A) → Keeps (next a))
      → IsGood (and_then out next).1
  and_then_lem (ok a, run) next good then_next = (then_next a).keeps run good
  and_then_lem (err e, run) next good then_next = good

  pub >>=-Keeps :
      {A B : Type 0} {action : Action Cache A} {next : A → Action Cache B}
      → Keeps action
      → ((a : A) → Keeps (next a))
      → Keeps (action >>= next)
  unfolding ◌>>=◌
  >>=-Keeps {action = action} {next = next} first then_next = record {
    keeps = λ run good. and_then_lem (action run) next (first.keeps run good) then_next;
  }

  pub >>-Keeps :
      {A B : Type 0} {action : Action Cache A} {next : Action Cache B}
      → Keeps action
      → Keeps next
      → Keeps (action >> next)
  unfolding ◌>>◌
  >>-Keeps first second = >>=-Keeps first (λ _. second)

  -- The step after a read knows what was read.
  pub gets-Keeps :
      {A B : Type 0} (f : Run Cache → A) (next : A → Action Cache B)
      → ((run : Run Cache) → IsGood run → Keeps (next (f run)))
      → Keeps (gets f >>= next)
  unfolding ◌>>=◌ gets
  gets-Keeps f next then_next = record { keeps = λ run good. (then_next run good).keeps run good }

  pub pure-Keeps : {A : Type 0} (a : A) → Keeps (pure a)
  unfolding pure
  pure-Keeps a = record { keeps = λ run good. good }

  pub raise-Keeps : {A : Type 0} (e : Error) → Keeps {A = A} (raise e)
  unfolding raise
  raise-Keeps e = record { keeps = λ run good. good }

  pub lift-Keeps : {A : Type 0} (result : Result A) → Keeps (lift result)
  unfolding lift
  lift-Keeps result = record { keeps = λ run good. good }

  -- The step after a computation knows its result.
  pub lift-then-Keeps :
      {A B : Type 0} (result : Result A) (next : A → Action Cache B)
      → ((a : A) → result ≡ ok a → Keeps (next a))
      → Keeps (lift result >>= next)
  unfolding ◌>>=◌ lift
  lift-then-Keeps (ok a) next then_next = record {
    keeps = λ run good. (then_next a refl).keeps run good;
  }
  lift-then-Keeps (err e) next then_next = record { keeps = λ run good. good }

  pub wrapped-Keeps :
      {A : Type 0} (format : String) {action : Action Cache A}
      → Keeps action
      → Keeps (wrapped format action)
  unfolding wrapped
  wrapped-Keeps format inner = record { keeps = λ run good. inner.keeps run good }

  pub each-Keeps :
      {A : Type 0} (xs : List A) (step : A → Step Cache)
      → All (λ x. Keeps (step x)) xs
      → Keeps (each xs step)
  unfolding each
  each-Keeps [] step keeps = pure-Keeps tt
  each-Keeps (x ∷ xs) step keeps = >>-Keeps keeps.0 (each-Keeps xs step keeps.1)

-- From one property to another, whatever the outcome.
pub record Takes {Cache : Type 0} (Before After : Run Cache → Type 0) {A : Type 0}
    (action : Action Cache A) : Type 0 where
  pub takes : (run : Run Cache) → Before run → After (action run).1

module _ {Cache : Type 0} (Before After : Run Cache → Type 0) where
  pub Keeps-Takes :
      {A : Type 0} {action : Action Cache A}
      → ((run : Run Cache) → Before run → After run)
      → Keeps Before action
      → Takes Before After action
  Keeps-Takes weaken kept = record { takes = λ run good. weaken _ (kept.keeps run good) }

  and_then-Takes :
      {A B : Type 0} (out : Result A × Run Cache) (next : A → Action Cache B)
      → ((run : Run Cache) → Before run → After run)
      → Before out.1
      → ((a : A) → Takes Before After (next a))
      → After (and_then out next).1
  and_then-Takes (ok a, run) next weaken good then_next = (then_next a).takes run good
  and_then-Takes (err e, run) next weaken good then_next = weaken run good

  pub >>-Takes :
      {A B : Type 0} {action : Action Cache A} {next : Action Cache B}
      → ((run : Run Cache) → Before run → After run)
      → Keeps Before action
      → Takes Before After next
      → Takes Before After (action >> next)
  unfolding ◌>>◌ ◌>>=◌
  >>-Takes {action = action} {next = next} weaken first second = record {
    takes = λ run good.
        and_then-Takes (action run) (λ _. next) weaken (first.keeps run good) (λ _. second);
  }

  pub modify_usage-Takes :
      (Between : Run Cache → Type 0) {B : Type 0} (f : ProductUsage → ProductUsage)
      {next : Action Cache B}
      → ((run : Run Cache) → Before run → Between (record run { usage = f run.usage }))
      → Takes Between After next
      → Takes Before After (modify_usage f >> next)
  unfolding ◌>>◌ ◌>>=◌ modify_usage modify
  modify_usage-Takes Between f first second = record {
    takes = λ run good. second.takes _ (first run good);
  }
