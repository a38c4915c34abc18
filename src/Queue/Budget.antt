-- ===== src/Queue/Budget.antt =====
-- How often a handler is called for a key (`handleErr` of pkg/queue/nautesqueue/nautesqueue.go).
use Prim.Native.Nat.{ℕ, zero, suc, ◌+◌, ◌-◌, ◌*◌, ◌≤◌, ◌<◌}
use Prim.Native.String.{String}
use mathlib.Core.Path.{◌≡◌, refl, sym}
use mathlib.Core.Logic.{inl, inr}
use mathlib.Core.Bool.{Bool, true, false}
use mathlib.Core.List.{List, [], ◌∷◌}
use native.Mathlib.Decide.{dec_lt}
use native.Mathlib.Omega.{arith}
use text.Mathlib.Text.{◌==◌}
use text.Mathlib.TextEquality.{eq_iff}
use nautes.Common.Tests.{Bool-cases, if◌then◌else◌}
use nautes.Common.Lists.{All}
use nautes.Common.Result.{ok, err, Check}
use nautes.Queue.RateLimiting.{RateLimitingInterface, IsWorkQueue}
use nautes.Queue.Worker.{ClientGoWorkQueue, send, release, finish_item}
use nautes.Queue.Effects.{
  finish_of_success, finish_of_last_error, finish_of_error, finish_item-requeue_times,
  waiting-finish_other, num_requeues-finish_other, is_processing-finish,
}
use nautes.Queue.System.{
  Event, took, System, Step, Trace, after_send, after_take, after_fail, after_finish, send_entry,
  take_key, fail_key, finish_key, here, next,
}
use nautes.Queue.Kept.{IsSound, Step-IsSound, Trace-IsSound, get_by_key_of_waiting}
use nautes.Queue.Delivery.{IsNotSent}

-- The number of calls of a handler for the key.
abbrev pub calls : (key : String) → List Event → ℕ
calls key [] = 0
calls key (took other entry ∷ events) = (if other == key then 1 else 0) + calls key events
calls key (e ∷ events) = calls key events

-- The calls that are left for a key that may be handed out `waits` times for what was added, after so
-- many requeues: each time the retries that are left, the next time all of them.
abbrev pub budget : (requeue_times waits requeues : ℕ) → (is_processing : Bool) → ℕ
budget requeue_times waits requeues true = (requeue_times - requeues) + waits * suc requeue_times
budget requeue_times zero requeues false = 0
budget requeue_times (suc waits) requeues false =
    suc (requeue_times - requeues) + waits * suc requeue_times

mul_mono : (a b m : ℕ) → a ≤ b → a * m ≤ b * m
mul_mono a b m h = grind arith

budget-take :
    (times less waits n : ℕ)
    → less < waits
    → suc (budget times less n true) ≤ budget times waits n false
budget-take times less zero n h = elim h [ ]
budget-take times less (suc waits) n h =
    omega (arith, mul_mono less waits (suc times) (omega arith))

budget-forget : (times waits n : ℕ) → budget times waits 0 false ≤ budget times waits n true
budget-forget times zero n = omega arith
budget-forget times (suc waits) n = grind arith

budget-once : (times waits : ℕ) → 0 < times → waits ≤ 1 → budget times waits 1 false ≤ times
budget-once times zero h le = omega arith
budget-once times (suc zero) h le = omega arith
budget-once times (suc (suc waits)) h le = absurd (omega arith)

budget-again :
    (times more waits n : ℕ)
    → n < times
    → more ≤ suc waits
    → budget times more (suc n) false ≤ budget times waits n true
budget-again times zero waits n h le = omega arith
budget-again times (suc more) waits n h le =
    omega (arith, mul_mono more waits (suc times) (omega arith))

module _ (w : RateLimitingInterface) (works : IsWorkQueue w) (key : String) where
  abbrev pub budget_of : ClientGoWorkQueue w → ℕ
  budget_of c =
      budget c.requeue_times (w.waiting c.queue key) (w.num_requeues c.queue key)
        (w.is_processing c.queue key)

  here_eq : (key == key) ≡ true
  here_eq = (eq_iff key key).1 refl

  budget_of-forget :
      (c c' : ClientGoWorkQueue w)
      → c'.requeue_times ≡ c.requeue_times
      → c'.queue ≡ w.done key (w.forget key c.queue)
      → w.is_processing c.queue key ≡ true
      → budget_of c' ≤ budget_of c
  budget_of-forget c c' times queue busy =
      rw
        (
          times, queue, works.waiting-done, works.waiting-forget, works.num_requeues-done,
          works.num_requeues-forget, works.is_processing-done, here_eq, busy,
        )
        (budget-forget c.requeue_times (w.waiting c.queue key) (w.num_requeues c.queue key))

  budget_of-again :
      (c c' : ClientGoWorkQueue w)
      → c'.requeue_times ≡ c.requeue_times
      → c'.queue ≡ w.done key (w.add_rate_limited key c.queue)
      → w.num_requeues c.queue key < c.requeue_times
      → w.is_processing c.queue key ≡ true
      → budget_of c' ≤ budget_of c
  budget_of-again c c' times queue left busy =
      rw
        (
          times, queue, works.waiting-done, works.num_requeues-done, works.num_requeues-add,
          works.is_processing-done, here_eq, busy,
        )
        (budget-again c.requeue_times (w.waiting (w.add_rate_limited key c.queue) key)
          (w.waiting c.queue key) (w.num_requeues c.queue key) left
          (works.waiting-add_le key c.queue))

  -- The return of a handler for the key costs nothing.
  budget_of-finish :
      (result : Check) (c : ClientGoWorkQueue w)
      → w.is_processing c.queue key ≡ true
      → budget_of (finish_item w key result c) ≤ budget_of c
  budget_of-finish (ok u) c busy =
      budget_of-forget c (finish_item w key (ok u) c)
        (finish_item-requeue_times w works key (ok u) c) (finish_of_success w works key c) busy
  budget_of-finish (err e) c busy =
      let times = finish_item-requeue_times w works key (err e) c in
      elim (dec_lt (w.num_requeues c.queue key) c.requeue_times) [
        | yes left ↦
            budget_of-again c (finish_item w key (err e) c) times
              (finish_of_error w works key e c left) left busy
        | no last ↦
            budget_of-forget c (finish_item w key (err e) c) times
              (finish_of_last_error w works key e c (omega arith)) busy
      ]

  budget_of-finish_other :
      (other : String) (result : Check) (c : ClientGoWorkQueue w)
      → (other == key) ≡ false
      → budget_of (finish_item w other result c) ≡ budget_of c
  budget_of-finish_other other result c differs = rw (
    finish_item-requeue_times w works other result c,
    waiting-finish_other w works other key result c differs,
    num_requeues-finish_other w works other key result c differs,
    is_processing-finish w works other key result c,
    differs,
  )

  budget_of-take :
      (c : ClientGoWorkQueue w) (q : w.Queue)
      → w.Gets c.queue key q
      → suc (budget_of (record c { queue = q })) ≤ budget_of c
  budget_of-take c q got =
      rw
        (
          works.num_requeues-get key key c.queue q got,
          works.is_processing-get key key c.queue q got,
          works.is_processing_before key c.queue q got,
          here_eq,
        )
        (budget-take c.requeue_times (w.waiting q key) (w.waiting c.queue key)
          (w.num_requeues c.queue key) (works.waiting-get key c.queue q got))

  budget_of-take_other :
      (other : String) (c : ClientGoWorkQueue w) (q : w.Queue)
      → w.Gets c.queue other q
      → (other == key) ≡ false
      → budget_of (record c { queue = q }) ≡ budget_of c
  budget_of-take_other other c q got differs = rw (
    works.num_requeues-get other key c.queue q got,
    works.is_processing-get other key c.queue q got,
    works.waiting-get_other other key c.queue q got differs,
    differs,
  )

  budget_of-send_other :
      (topic entry : String) (c : ClientGoWorkQueue w)
      → (topic == key) ≡ false
      → budget_of (send w topic entry c) ≡ budget_of c
  unfolding send
  budget_of-send_other topic entry c differs = rw (
    works.waiting-add_other topic key c.queue differs,
    works.num_requeues-add topic key c.queue,
    works.is_processing-add topic key c.queue,
    differs,
  )

  Step-budget :
      {s : System w} {e : Event} {t : System w} (events : List Event)
      → Step w s e t
      → IsSound w works s
      → IsNotSent key e
      → calls key (e ∷ events) + budget_of t.core ≤ calls key events + budget_of s.core
  unfolding after_send after_take after_fail after_finish send release
  Step-budget events (send_entry s topic entry) sound differs =
      omega (arith, budget_of-send_other topic entry s.core differs)
  Step-budget events (take_key s other entry q free got found) sound _ =
      elim (Bool-cases (other == key)) [
        | inl same ↦
            let got' : w.Gets s.core.queue key q = rw (sym ((eq_iff other key).0 same)) got in
            rw (same) (omega (arith, budget_of-take s.core q got'))
        | inr differs ↦
            rw (differs) (omega (arith, budget_of-take_other other s.core q got differs))
      ]
  Step-budget events (fail_key s other q e free got found) sound _ =
      let (entry, there) = get_by_key_of_waiting w works other q s got sound in cc
  Step-budget events (finish_key s other entry result runs) sound _ =
      elim (Bool-cases (other == key)) [
        | inl same ↦
            let e = (eq_iff other key).0 same in
            let busy : w.is_processing s.core.queue key ≡ true =
              rw (sym e) (sound.processing other entry runs) in
            rw (e) (omega (arith, budget_of-finish result s.core busy))
        | inr differs ↦ omega (arith, budget_of-finish_other other result s.core differs)
      ]

  -- With every call of a handler for a key its budget falls, and only a `Send` of the key raises it: the
  -- calls since a sound state are at most the budget that the key had then, whatever is sent for other
  -- keys and whatever the handlers return.
  pub calls-le-budget :
      {s : System w} {events : List Event} {t : System w}
      → IsSound w works s
      → Trace w s events t
      → All (IsNotSent key) events
      → calls key events + budget_of t.core ≤ budget_of s.core
  calls-le-budget sound here unsent = omega arith
  calls-le-budget sound (next before step) unsent = omega (
    arith,
    Step-budget _ step (Trace-IsSound w works sound before) unsent.0,
    calls-le-budget sound before unsent.1,
  )

  -- An entry sent for an idle key is tried at most as often as the queue requeues, the first time
  -- included, since `Send` counts as a requeue already.
  pub calls_of_sent :
      (entry : String) {s : System w} {events : List Event} {t : System w}
      → IsSound w works s
      → 0 < s.core.requeue_times
      → w.waiting s.core.queue key ≡ 0
      → w.is_processing s.core.queue key ≡ false
      → w.num_requeues s.core.queue key ≡ 0
      → Trace w (after_send w key entry s) events t
      → All (IsNotSent key) events
      → calls key events ≤ s.core.requeue_times
  unfolding after_send send
  calls_of_sent entry {s = s} sound some_times idle free fresh trace unsent =
      let sound' = Step-IsSound w works (send_entry s key entry) sound in
      let once =
        budget-once s.core.requeue_times (w.waiting (w.add_rate_limited key s.core.queue) key)
          some_times (omega (arith, works.waiting-add_le key s.core.queue)) in
      let at_most : budget_of (send w key entry s.core) ≤ s.core.requeue_times =
        rw
          (
            works.num_requeues-add key key s.core.queue,
            works.is_processing-add key key s.core.queue,
            here_eq,
            fresh,
            free,
          )
          once in
      omega (arith, calls-le-budget sound' trace unsent)
