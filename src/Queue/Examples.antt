-- ===== src/Queue/Examples.antt =====
-- A work queue by counters, and runs of the queue of pkg/queue/nautesqueue on it.
use Prim.Native.Nat.{ℕ, suc, ◌+◌, ◌≤◌, ◌<◌}
use Prim.Native.String.{String}
use mathlib.Core.Path.{◌≡◌, refl, ap}
use mathlib.Core.Logic.{◌⊎◌}
use mathlib.Core.Bool.{Bool, true, false}
use mathlib.Core.List.{List, [], ◌∷◌, ◌++◌}
use native.Mathlib.Omega.{arith}
use text.Mathlib.Text.{◌==◌}
use text.Mathlib.TextEquality.{eq_iff}
use nautes.Common.Tests.{if◌then◌else◌}
use nautes.Common.Lists.{All, Any}
use nautes.Common.Result.{err, errorf}
use nautes.Queue.RateLimiting.{RateLimitingInterface, IsWorkQueue}
use nautes.Queue.Worker.{
  process_next_item, new_queue, do_new_queue, send, bytes_of, get_by_key, finish_item, handle_err,
  release,
}
use nautes.Common.Maps.{lookup, assign, delete}
use nautes.Queue.System.{
  Event, sent, took, finished, new_system, System, Trace, after_send, after_take, after_finish,
  send_entry, take_key, finish_key, here, next,
}
use nautes.Queue.Kept.{IsSound, IsNotFailed, new_queue-IsSound}
use nautes.Queue.Delivery.{IsTaken, sent-IsTaken}
use nautes.Queue.Budget.{calls, calls-le-budget, budget_of, calls_of_sent}

record Counters : Type 0 where
  requeues : String → ℕ
  waits : String → ℕ
  busy : String → Bool

abbrev at {ℓ} : {A : Type ℓ} → (String → A) → String → A → String → A
at f key v other = if key == other then v else f other

abbrev got : String → Counters → Counters
got key q = record q { waits = at q.waits key 0; busy = at q.busy key true }

abbrev counting : RateLimitingInterface
counting = record {
  Queue = Counters;
  add_rate_limited = λ key q. record q {
    requeues = at q.requeues key (suc (q.requeues key));
    waits = at q.waits key 1;
  };
  forget = λ key q. record q { requeues = at q.requeues key 0 };
  done = λ key q. record q { busy = at q.busy key false };
  num_requeues = λ q key. q.requeues key;
  Gets = λ q key q'. (q.waits key ≡ 1) × (q.busy key ≡ false) × (q' ≡ got key q);
  waiting = λ q key. q.waits key;
  is_processing = λ q key. q.busy key;
}

here_eq : (key : String) → (key == key) ≡ true
here_eq key = (eq_iff key key).1 refl

counting_works : IsWorkQueue counting
counting_works = record {
  num_requeues-add = λ key other q. ground (arith, eq_iff key other);
  num_requeues-forget = λ key other q. refl;
  num_requeues-done = λ key other q. refl;
  waiting-add_lt = λ key q. rw (here_eq key) (omega arith);
  waiting-add_le = λ key q. rw (here_eq key) (omega arith);
  waiting-add_other = λ key other q differs. rw (differs);
  waiting-forget = λ key other q. refl;
  waiting-done = λ key other q. refl;
  is_processing-add = λ key other q. refl;
  is_processing-forget = λ key other q. refl;
  is_processing-done = λ key other q. refl;
  num_requeues-get = λ key other q q' g. ap (λ (r : Counters). r.requeues other) g.2;
  waiting-get = λ key q q' g. rw (g.2, here_eq key, g.0) (omega arith);
  waiting-get_other = λ key other q q' g differs. rw (g.2, differs);
  is_processing_before = λ key q q' g. g.1;
  is_processing-get = λ key other q q' g. rw (g.2);
}

abbrev idle_queue : Counters
idle_queue = record { requeues = λ key. 0; waits = λ key. 0; busy = λ key. false }

abbrev start : System counting
start = new_system counting idle_queue 2

abbrev sent_state : System counting
sent_state = after_send counting "build" "v1" start

abbrev taken_state : System counting
taken_state = after_take counting "build" "v1" (got "build" sent_state.core.queue) sent_state

abbrev failed_state : System counting
failed_state = after_finish counting "build" (err (errorf "no" [])) taken_state

-- The handler is called with the entry and fails.
abbrev one_failure : List Event
one_failure = finished "build" (err (errorf "no" [])) ∷ took "build" "v1" ∷ []

failing-Trace : Trace counting sent_state one_failure failed_state
unfolding new_queue do_new_queue after_send send assign after_take after_finish finish_item
    handle_err release delete get_by_key lookup bytes_of
failing-Trace =
    next (next here (take_key sent_state "build" "v1" _ (omega arith) (refl, refl, refl) refl))
      (finish_key taken_state "build" "v1" (err (errorf "no" [])) refl)

whole-Trace :
    Trace counting
      (new_system counting idle_queue 2)
      (one_failure ++ sent "build" "v1" ∷ [])
      failed_state
unfolding new_queue do_new_queue after_send send assign after_take after_finish finish_item
    handle_err release delete get_by_key lookup bytes_of
whole-Trace =
    next
      (next (next here (send_entry start "build" "v1"))
        (take_key sent_state "build" "v1" _ (omega arith) (refl, refl, refl) refl))
      (finish_key taken_state "build" "v1" (err (errorf "no" [])) refl)

-- It waits for the next try, its second requeue.
failed_state_requeues :
    (failed_state.core.queue.requeues "build" ≡ 2) × (failed_state.core.queue.waits "build" ≡ 1)
unfolding new_queue do_new_queue after_send send assign after_take after_finish finish_item
    handle_err release delete
failed_state_requeues = (refl, refl)

process_fifth_failure :
    (process_next_item counting
        (λ key entry. err (errorf "no" []))
        "build"
        (record sent_state.core {
          queue = record sent_state.core.queue { requeues = λ key. 5 };
        })).1.queue.requeues
      "build"
    ≡ 0
unfolding new_queue do_new_queue after_send send assign process_next_item get_by_key lookup bytes_of
    finish_item handle_err release
process_fifth_failure = refl

new_queue-IsSound_example :
    IsSound counting counting_works failed_state
    × All (IsNotFailed counting counting_works) (one_failure ++ sent "build" "v1" ∷ [])
new_queue-IsSound_example =
    new_queue-IsSound counting counting_works idle_queue 2 (λ key. refl) whole-Trace

sent-IsTaken_example :
    (0 < failed_state.core.queue.waits "build") ⊎ Any (IsTaken "build" "v1") one_failure
sent-IsTaken_example =
    sent-IsTaken counting counting_works "build" "v1" start failing-Trace (tt, (tt, tt))

start-IsSound : IsSound counting counting_works start
start-IsSound = (new_queue-IsSound counting counting_works idle_queue 2 (λ key. refl) here).0

sent-IsSound : IsSound counting counting_works sent_state
sent-IsSound =
    (new_queue-IsSound counting counting_works idle_queue 2 (λ key. refl)
      (next here (send_entry start "build" "v1"))).0

calls-le-budget_example :
    calls "build" one_failure + budget_of counting counting_works "build" failed_state.core
    ≤ budget_of counting counting_works "build" sent_state.core
calls-le-budget_example =
    calls-le-budget counting counting_works "build" sent-IsSound failing-Trace (tt, (tt, tt))

calls_of_sent_example : calls "build" one_failure ≤ 5
unfolding new_queue do_new_queue
calls_of_sent_example =
    calls_of_sent counting counting_works "build" "v1" start-IsSound (omega arith) refl refl refl
      failing-Trace (tt, (tt, tt))
