-- ===== src/Queue/System.antt =====
-- Senders, workers and handlers of one queue (pkg/queue/nautesqueue/nautesqueue.go) side by side: a
-- step is a `Send`, a worker that takes a key up to the call of the handler, or a handler that returns.
-- A worker whose `processNextItem` returns false is started again by `wait.Until`.
use Prim.Native.Nat.{ℕ, suc, ◌<◌}
use Prim.Native.String.{String}
use mathlib.Core.Path.{◌≡◌}
use mathlib.Core.Option.{some}
use mathlib.Core.List.{List, [], ◌∷◌}
use nautes.Common.Result.{Error, ok, err, Check}
use nautes.Common.Maps.{Map, lookup, delete}
use nautes.Queue.RateLimiting.{RateLimitingInterface}
use nautes.Queue.Worker.{ClientGoWorkQueue, new_queue, send, get_by_key, finish_item, release}

abbrev pub length {ℓ} : {A : Type ℓ} → List A → ℕ
length [] = 0
length (x ∷ xs) = suc (length xs)

-- `took`: the handler is called with the key and the entry. `failed`: `GetByKey` returns an error.
pub data Event : Type 0 where
  sent took : (key entry : String) → Event
  finished : (key : String) → Check → Event
  failed : (key : String) → Event

module _ (w : RateLimitingInterface) where
  -- The queue, and the keys whose handlers run, each with the entry that its handler was given.
  pub record System : Type 0 where
    pub core : ClientGoWorkQueue w
    pub running : Map String

  abbrev pub new_system : (empty_queue : w.Queue) → (workers : ℕ) → System
  new_system empty_queue workers = record { core = new_queue w empty_queue workers; running = [] }

  unfoldable pub after_send : (topic entry : String) → System → System
  unfolding send
  after_send topic entry s = record s { core = send w topic entry s.core }

  unfoldable pub after_take : (key entry : String) → w.Queue → System → System
  after_take key entry q s = record {
    core = record s.core { queue = q };
    running = (key, entry) ∷ s.running;
  }

  unfoldable pub after_fail : (key : String) → w.Queue → System → System
  unfolding release
  after_fail key q s = record s { core = release w key (record s.core { queue = q }) }

  unfoldable pub after_finish : (key : String) → Check → System → System
  unfolding finish_item delete
  after_finish key result s = record {
    core = finish_item w key result s.core;
    running = delete key s.running;
  }

  -- Each worker runs one handler at a time.
  pub data Step : System → Event → System → Type 0 where
    send_entry :
        (s : System) (topic entry : String) → Step s (sent topic entry) (after_send topic entry s)
    take_key :
        (s : System) (key entry : String) (q : w.Queue)
        → length s.running < s.core.workers
        → w.Gets s.core.queue key q
        → get_by_key w (record s.core { queue = q }) key ≡ ok entry
        → Step s (took key entry) (after_take key entry q s)
    fail_key :
        (s : System) (key : String) (q : w.Queue) (e : Error)
        → length s.running < s.core.workers
        → w.Gets s.core.queue key q
        → get_by_key w (record s.core { queue = q }) key ≡ err e
        → Step s (failed key) (after_fail key q s)
    finish_key :
        (s : System) (key entry : String) (result : Check)
        → lookup key s.running ≡ some entry
        → Step s (finished key result) (after_finish key result s)

  -- What has happened since `start`, the latest first.
  pub data Trace (start : System) : List Event → System → Type 0 where
    here : Trace start [] start
    next :
        {events : List Event} {e : Event} {s t : System}
        → Trace start events s
        → Step s e t
        → Trace start (e ∷ events) t
