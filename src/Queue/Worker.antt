-- ===== src/Queue/Worker.antt =====
-- `clientGoWorkQueue` of pkg/queue/nautesqueue/nautesqueue.go. The thread safe store and the rate
-- limited queue are client-go's; the store is used as a map. Workers, handlers and senders run side by
-- side, so `processNextItem` is here in its two parts, up to the call of the handler and after it.
use Prim.Native.Nat.{ℕ}
use Prim.Native.String.{String}
use mathlib.Core.Bool.{Bool, true, false}
use mathlib.Core.Option.{Option, none, some}
use mathlib.Core.List.{[], ◌∷◌}
use nautes.Common.Tests.{if◌then◌else◌}
use nautes.Common.Numbers.{ltb}
use nautes.Common.Result.{Result, ok, err, Check, errorf}
use nautes.Common.Maps.{Map, lookup, assign}
use nautes.Queue.RateLimiting.{RateLimitingInterface}

abbrev pub default_requeue_times : ℕ
default_requeue_times = 5

-- A value of the store, which is of type `interface{}`: bytes, or of another type.
pub data Object : Type 0 where
  bytes : (entry : String) → Object
  other_object : Object

-- `GetByKey` on what the store holds for the key.
unfoldable pub bytes_of : (key : String) → Option Object → Result String
bytes_of key none = err (errorf "the %s does not exist anymore" (key ∷ []))
bytes_of key (some other_object) = err (errorf "the %s's value does not []byte" (key ∷ []))
bytes_of key (some (bytes entry)) = ok entry

module _ (w : RateLimitingInterface) where
  -- The handler is not a field: what it returns is up to the environment.
  pub record ClientGoWorkQueue : Type 0 where
    pub store : Map Object
    pub queue : w.Queue
    pub workers : ℕ
    pub requeue_times : ℕ

  unfoldable pub do_new_queue :
      (store : Map Object) → (queue : w.Queue) → (workers requeue_times : ℕ) → ClientGoWorkQueue
  do_new_queue store queue workers requeue_times = record {
    store = store;
    queue = queue;
    workers = workers;
    requeue_times = requeue_times;
  }

  unfoldable pub new_queue : (empty_queue : w.Queue) → (workers : ℕ) → ClientGoWorkQueue
  unfolding do_new_queue
  new_queue empty_queue workers = do_new_queue [] empty_queue workers default_requeue_times

  unfoldable pub send : (topic entry : String) → ClientGoWorkQueue → ClientGoWorkQueue
  unfolding assign
  send topic entry c = record c {
    store = assign topic (bytes entry) c.store;
    queue = w.add_rate_limited topic c.queue;
  }

  unfoldable pub get_by_key : ClientGoWorkQueue → (key : String) → Result String
  unfolding lookup bytes_of
  get_by_key c key = bytes_of key (lookup key c.store)

  unfoldable pub handle_err : Check → (key : String) → ClientGoWorkQueue → ClientGoWorkQueue
  handle_err (ok _) key c = record c { queue = w.forget key c.queue }
  handle_err (err e) key c = record c {
    queue =
        if ltb (w.num_requeues c.queue key) c.requeue_times
        then w.add_rate_limited key c.queue
        else w.forget key c.queue;
  }

  -- The deferred `Done`.
  unfoldable pub release : (key : String) → ClientGoWorkQueue → ClientGoWorkQueue
  release key c = record c { queue = w.done key c.queue }

  -- What is left of `processNextItem` when the handler has returned.
  unfoldable pub finish_item : (key : String) → Check → ClientGoWorkQueue → ClientGoWorkQueue
  unfolding handle_err release
  finish_item key result c = release key (handle_err result key c)

  -- `processNextItem` on a key that `Get` has handed out, where nothing happens meanwhile.
  unfoldable pub process_next_item :
      (handler : (key entry : String) → Check)
      → (key : String) → ClientGoWorkQueue
      → Bool × ClientGoWorkQueue
  unfolding get_by_key finish_item release
  process_next_item handler key c = elim (get_by_key c key) [
    | ok entry ↦ (true, finish_item key (handler key entry) c)
    | err e ↦ (false, release key c)
  ]
