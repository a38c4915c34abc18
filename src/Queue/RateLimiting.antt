-- ===== src/Queue/RateLimiting.antt =====
-- What pkg/queue/nautesqueue/nautesqueue.go uses of the rate limited work queue of client-go, which is
-- not part of the repository: the calls, and the documented behaviour that the code relies on.
use Prim.Native.Nat.{ℕ, suc, ◌≤◌, ◌<◌}
use Prim.Native.String.{String}
use mathlib.Core.Path.{◌≡◌}
use mathlib.Core.Bool.{Bool, true, false}
use text.Mathlib.Text.{◌==◌}
use nautes.Common.Tests.{if◌then◌else◌}

-- `Gets q key q'`: `Get` may hand out `key` when the queue is `q`, and leaves `q'`. The delays of the
-- rate limiter pass inside it.
pub record RateLimitingInterface : Type 1 where
  pub Queue : Type 0
  pub add_rate_limited : (key : String) → Queue → Queue
  pub forget : (key : String) → Queue → Queue
  pub done : (key : String) → Queue → Queue
  pub num_requeues : Queue → (key : String) → ℕ
  pub Gets : Queue → (key : String) → Queue → Type 0
  -- How often the key may still be handed out for what has been added.
  pub waiting : Queue → (key : String) → ℕ
  -- The key is handed out, and `Done` has not been called for it.
  pub is_processing : Queue → (key : String) → Bool

-- Adding a key counts as a requeue of it until it is forgotten, and makes it wait; two adds may be
-- merged. A key is handed out only if it waits and is not being processed.
pub record IsWorkQueue (w : RateLimitingInterface) : Type 0 where
  pub num_requeues-add :
      (key other : String) (q : w.Queue)
      → w.num_requeues (w.add_rate_limited key q) other
        ≡ (if key == other then suc (w.num_requeues q other) else w.num_requeues q other)
  pub num_requeues-forget :
      (key other : String) (q : w.Queue)
      → w.num_requeues (w.forget key q) other ≡ (if key == other then 0 else w.num_requeues q other)
  pub num_requeues-done :
      (key other : String) (q : w.Queue)
      → w.num_requeues (w.done key q) other ≡ w.num_requeues q other
  pub waiting-add_lt : (key : String) (q : w.Queue) → 0 < w.waiting (w.add_rate_limited key q) key
  pub waiting-add_le :
      (key : String) (q : w.Queue)
      → w.waiting (w.add_rate_limited key q) key ≤ suc (w.waiting q key)
  pub waiting-add_other :
      (key other : String) (q : w.Queue)
      → (key == other) ≡ false
      → w.waiting (w.add_rate_limited key q) other ≡ w.waiting q other
  pub waiting-forget :
      (key other : String) (q : w.Queue) → w.waiting (w.forget key q) other ≡ w.waiting q other
  pub waiting-done :
      (key other : String) (q : w.Queue) → w.waiting (w.done key q) other ≡ w.waiting q other
  pub is_processing-add :
      (key other : String) (q : w.Queue)
      → w.is_processing (w.add_rate_limited key q) other ≡ w.is_processing q other
  pub is_processing-forget :
      (key other : String) (q : w.Queue)
      → w.is_processing (w.forget key q) other ≡ w.is_processing q other
  pub is_processing-done :
      (key other : String) (q : w.Queue)
      → w.is_processing (w.done key q) other
        ≡ (if key == other then false else w.is_processing q other)
  pub num_requeues-get :
      (key other : String) (q q' : w.Queue)
      → w.Gets q key q'
      → w.num_requeues q' other ≡ w.num_requeues q other
  pub waiting-get :
      (key : String) (q q' : w.Queue) → w.Gets q key q' → w.waiting q' key < w.waiting q key
  pub waiting-get_other :
      (key other : String) (q q' : w.Queue)
      → w.Gets q key q'
      → (key == other) ≡ false
      → w.waiting q' other ≡ w.waiting q other
  pub is_processing_before :
      (key : String) (q q' : w.Queue) → w.Gets q key q' → w.is_processing q key ≡ false
  pub is_processing-get :
      (key other : String) (q q' : w.Queue)
      → w.Gets q key q'
      → w.is_processing q' other ≡ (if key == other then true else w.is_processing q other)
