-- ===== src/Queue/Effects.antt =====
-- What the return of a handler (`handleErr` and `Done` of pkg/queue/nautesqueue/nautesqueue.go) does to
-- the counts of the rate limited queue.
use Prim.Native.Nat.{◌≤◌, ◌<◌}
use Prim.Native.String.{String}
use mathlib.Core.Path.{◌≡◌, refl, sym, ◌∙◌}
use mathlib.Core.Logic.{inl, inr}
use mathlib.Core.Bool.{false}
use native.Mathlib.Omega.{arith}
use text.Mathlib.Text.{◌==◌}
use text.Mathlib.TextEquality.{eq_iff}
use nautes.Common.Tests.{Bool-cases, if◌then◌else◌}
use nautes.Common.Numbers.{ltb}
use nautes.Common.Result.{Error, ok, err, Check}
use nautes.Queue.RateLimiting.{RateLimitingInterface, IsWorkQueue}
use nautes.Queue.Worker.{ClientGoWorkQueue, handle_err, release, finish_item}

module _ (w : RateLimitingInterface) (works : IsWorkQueue w) where
  pub finish_item-store :
      (key : String) (result : Check) (c : ClientGoWorkQueue w)
      → (finish_item w key result c).store ≡ c.store
  unfolding finish_item handle_err release
  finish_item-store key (ok u) c = refl
  finish_item-store key (err e) c = refl

  pub finish_item-workers :
      (key : String) (result : Check) (c : ClientGoWorkQueue w)
      → (finish_item w key result c).workers ≡ c.workers
  unfolding finish_item handle_err release
  finish_item-workers key (ok u) c = refl
  finish_item-workers key (err e) c = refl

  pub finish_item-requeue_times :
      (key : String) (result : Check) (c : ClientGoWorkQueue w)
      → (finish_item w key result c).requeue_times ≡ c.requeue_times
  unfolding finish_item handle_err release
  finish_item-requeue_times key (ok u) c = refl
  finish_item-requeue_times key (err e) c = refl

  -- A success, and an error after the last retry, forget the key.
  pub finish_of_success :
      (key : String) (c : ClientGoWorkQueue w)
      → (finish_item w key (ok tt) c).queue ≡ w.done key (w.forget key c.queue)
  unfolding finish_item handle_err release
  finish_of_success key c = refl

  pub finish_of_last_error :
      (key : String) (e : Error) (c : ClientGoWorkQueue w)
      → c.requeue_times ≤ w.num_requeues c.queue key
      → (finish_item w key (err e) c).queue ≡ w.done key (w.forget key c.queue)
  unfolding finish_item handle_err release
  finish_of_last_error key e c h = ground arith

  pub finish_of_error :
      (key : String) (e : Error) (c : ClientGoWorkQueue w)
      → w.num_requeues c.queue key < c.requeue_times
      → (finish_item w key (err e) c).queue ≡ w.done key (w.add_rate_limited key c.queue)
  unfolding finish_item handle_err release
  finish_of_error key e c h = ground arith

  -- Other keys are left alone.
  pub waiting-finish_other :
      (key other : String) (result : Check) (c : ClientGoWorkQueue w)
      → (key == other) ≡ false
      → w.waiting (finish_item w key result c).queue other ≡ w.waiting c.queue other
  unfolding finish_item handle_err release
  waiting-finish_other key other (ok u) c differs =
      works.waiting-done key other _ ∙ works.waiting-forget key other c.queue
  waiting-finish_other key other (err e) c differs =
      elim (Bool-cases (ltb (w.num_requeues c.queue key) c.requeue_times)) [
        | inl again ↦
            rw (again)
              (works.waiting-done key other _ ∙ works.waiting-add_other key other c.queue differs)
        | inr last ↦
            rw (last) (works.waiting-done key other _ ∙ works.waiting-forget key other c.queue)
      ]

  pub num_requeues-finish_other :
      (key other : String) (result : Check) (c : ClientGoWorkQueue w)
      → (key == other) ≡ false
      → w.num_requeues (finish_item w key result c).queue other ≡ w.num_requeues c.queue other
  unfolding finish_item handle_err release
  num_requeues-finish_other key other (ok u) c differs =
      works.num_requeues-done key other _
      ∙ rw (works.num_requeues-forget key other c.queue, differs)
  num_requeues-finish_other key other (err e) c differs =
      elim (Bool-cases (ltb (w.num_requeues c.queue key) c.requeue_times)) [
        | inl again ↦ rw (again) (
            works.num_requeues-done key other _
            ∙ rw (works.num_requeues-add key other c.queue, differs))
        | inr last ↦ rw (last) (
            works.num_requeues-done key other _
            ∙ rw (works.num_requeues-forget key other c.queue, differs))
      ]

  pub is_processing-finish :
      (key other : String) (result : Check) (c : ClientGoWorkQueue w)
      → w.is_processing (finish_item w key result c).queue other
        ≡ (if key == other then false else w.is_processing c.queue other)
  unfolding finish_item handle_err release
  is_processing-finish key other (ok u) c =
      rw (works.is_processing-done, works.is_processing-forget)
  is_processing-finish key other (err e) c =
      elim (Bool-cases (ltb (w.num_requeues c.queue key) c.requeue_times)) [
        | inl again ↦ rw (again) (rw (works.is_processing-done, works.is_processing-add))
        | inr last ↦ rw (last) (rw (works.is_processing-done, works.is_processing-forget))
      ]

  -- A key that waits goes on waiting.
  pub waiting-finish_lt :
      (key other : String) (result : Check) (c : ClientGoWorkQueue w)
      → 0 < w.waiting c.queue other
      → 0 < w.waiting (finish_item w key result c).queue other
  unfolding finish_item handle_err release
  waiting-finish_lt key other (ok u) c waits = rw (works.waiting-done, works.waiting-forget) waits
  waiting-finish_lt key other (err e) c waits =
      elim (Bool-cases (ltb (w.num_requeues c.queue key) c.requeue_times)) [
        | inl again ↦
            rw (again, works.waiting-done)
              (elim (Bool-cases (key == other)) [
                | inl same ↦ rw (sym ((eq_iff key other).0 same)) (works.waiting-add_lt key c.queue)
                | inr differs ↦ rw (works.waiting-add_other key other c.queue differs) waits
              ])
        | inr last ↦ rw (last, works.waiting-done, works.waiting-forget) waits
      ]
