-- ===== src/Queue/Delivery.antt =====
-- What becomes of an entry that is sent (`Send` and `GetByKey` of pkg/queue/nautesqueue/nautesqueue.go).
use Prim.Native.Nat.{◌<◌}
use Prim.Native.String.{String}
use mathlib.Core.Path.{◌≡◌}
use mathlib.Core.Logic.{◌⊎◌, inl, inr}
use mathlib.Core.Bool.{true, false}
use mathlib.Core.Option.{some}
use mathlib.Core.List.{List, [], ◌∷◌}
use native.Mathlib.Omega.{arith}
use text.Mathlib.Text.{◌==◌}
use text.Mathlib.TextEquality.{eq_iff}
use nautes.Common.Tests.{Bool-cases}
use nautes.Common.Lists.{All, Any}
use nautes.Common.Result.{Error, ok, err}
use nautes.Common.Maps.{lookup, lookup-assign}
use nautes.Queue.RateLimiting.{RateLimitingInterface, IsWorkQueue}
use nautes.Queue.Worker.{bytes, bytes_of, get_by_key, send, release}
use nautes.Queue.Effects.{finish_item-store, waiting-finish_lt}
use nautes.Queue.System.{
  Event, sent, took, System, Step, Trace, after_send, after_take, after_fail, after_finish,
  send_entry, take_key, fail_key, finish_key, here, next,
}

-- The event is no `Send` of the key.
abbrev pub IsNotSent : (key : String) → Event → Type 0
IsNotSent key (sent topic entry) = (topic == key) ≡ false
IsNotSent key _ = Unit

-- A handler is called with the key and the entry.
abbrev pub IsTaken : (key entry : String) → Event → Type 0
IsTaken key entry (took key' entry') = (key' ≡ key) × (entry' ≡ entry)
IsTaken key entry _ = ⊥

module _ (w : RateLimitingInterface) (works : IsWorkQueue w) (key entry : String) where
  -- The store still has the entry, and the key waits or a handler has been called with the entry.
  record IsOnItsWay (events : List Event) (t : System w) : Type 0 where
    stored : lookup key t.core.store ≡ some (bytes entry)
    awaited : (0 < w.waiting t.core.queue key) ⊎ Any (IsTaken key entry) events

  -- What `GetByKey` gives for the key is the entry.
  stored_entry :
      (other read : String) (q : w.Queue) (s : System w)
      → get_by_key w (record s.core { queue = q }) other ≡ ok read
      → (other == key) ≡ true
      → lookup key s.core.store ≡ some (bytes entry)
      → read ≡ entry
  unfolding get_by_key bytes_of
  stored_entry other read q s found same stored =
      let there : lookup other s.core.store ≡ some (bytes entry) =
        rw ((eq_iff other key).0 same) stored in
      ground (arith, found, there)

  stored_no_error :
      (other : String) (q : w.Queue) (e : Error) (s : System w)
      → get_by_key w (record s.core { queue = q }) other ≡ err e
      → (other == key) ≡ true
      → lookup key s.core.store ≡ some (bytes entry)
      → ⊥
  unfolding get_by_key bytes_of
  stored_no_error other q e s found same stored =
      let there : lookup other s.core.store ≡ some (bytes entry) =
        rw ((eq_iff other key).0 same) stored in
      ground (arith, found, there)

  Step-IsOnItsWay :
      {s : System w} {e : Event} {t : System w} (events : List Event)
      → Step w s e t
      → IsNotSent key e
      → IsOnItsWay events s
      → IsOnItsWay (e ∷ events) t
  unfolding after_send after_take after_fail after_finish send release get_by_key bytes_of
  Step-IsOnItsWay events (send_entry s topic other) differs way = record {
    stored =
        ground (arith, lookup-assign topic key (bytes other) s.core.store, differs, way.stored);
    awaited = elim way.awaited [
      | inl waits ↦ inl (rw (works.waiting-add_other topic key s.core.queue differs) waits)
      | inr taken ↦ inr (inr taken)
    ];
  }
  Step-IsOnItsWay events (take_key s other read q free got found) _ way = record {
    stored = way.stored;
    awaited = elim (Bool-cases (other == key)) [
      | inl same ↦
          let e : read ≡ entry = stored_entry other read q s found same way.stored in
          inr (inl ((eq_iff other key).0 same, e))
      | inr differs ↦ elim way.awaited [
        | inl waits ↦ inl (rw (works.waiting-get_other other key s.core.queue q got differs) waits)
        | inr taken ↦ inr (inr taken)
      ]
    ];
  }
  Step-IsOnItsWay events (fail_key s other q e free got found) _ way = record {
    stored = way.stored;
    awaited = elim (Bool-cases (other == key)) [
      | inl same ↦ absurd (stored_no_error other q e s found same way.stored)
      | inr differs ↦ elim way.awaited [
        | inl waits ↦ inl (
            rw
              (
                works.waiting-done other key q,
                works.waiting-get_other other key s.core.queue q got differs,
              )
              waits)
        | inr taken ↦ inr (inr taken)
      ]
    ];
  }
  Step-IsOnItsWay events (finish_key s other read result runs) _ way = record {
    stored = rw (finish_item-store w works other result s.core) way.stored;
    awaited = elim way.awaited [
      | inl waits ↦ inl (waiting-finish_lt w works other key result s.core waits)
      | inr taken ↦ inr (inr taken)
    ];
  }

  Trace-IsOnItsWay :
      {s : System w} {events : List Event} {t : System w}
      → Trace w s events t
      → All (IsNotSent key) events
      → IsOnItsWay [] s
      → IsOnItsWay events t
  Trace-IsOnItsWay here unsent way = way
  Trace-IsOnItsWay (next before step) unsent way =
      Step-IsOnItsWay _ step unsent.0 (Trace-IsOnItsWay before unsent.1 way)

  after_send-IsOnItsWay : (s : System w) → IsOnItsWay [] (after_send w key entry s)
  unfolding after_send send
  after_send-IsOnItsWay s = record {
    stored = ground (arith, lookup-assign key key (bytes entry) s.core.store, eq_iff key key);
    awaited = inl (works.waiting-add_lt key s.core.queue);
  }

  -- An entry that is sent is not lost: whatever else happens, as long as no other entry is sent for the
  -- key, the key waits to be handed out, or a handler has been called with exactly that entry.
  pub sent-IsTaken :
      (s : System w) {events : List Event} {t : System w}
      → Trace w (after_send w key entry s) events t
      → All (IsNotSent key) events
      → (0 < w.waiting t.core.queue key) ⊎ Any (IsTaken key entry) events
  sent-IsTaken s trace unsent = (Trace-IsOnItsWay trace unsent (after_send-IsOnItsWay s)).awaited
