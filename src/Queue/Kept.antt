-- ===== src/Queue/Kept.antt =====
-- What holds of a queue (pkg/queue/nautesqueue/nautesqueue.go) whatever its workers, handlers and
-- senders do, and in which order.
use Prim.Native.Nat.{ℕ, ◌≤◌, ◌<◌}
use Prim.Native.String.{String}
use mathlib.Core.Path.{◌≡◌, refl, sym, ◌∙◌}
use mathlib.Core.Logic.{inl, inr}
use mathlib.Core.Bool.{true, false}
use mathlib.Core.Option.{none, some}
use mathlib.Core.List.{List, [], ◌∷◌}
use native.Mathlib.Omega.{arith}
use text.Mathlib.Text.{◌==◌}
use text.Mathlib.TextEquality.{eq_iff}
use nautes.Common.Tests.{Bool-cases, Option-cases}
use nautes.Common.Result.{ok, Check}
use nautes.Common.Lists.{All, has}
use nautes.Common.Maps.{
  Map, keys, lookup, delete, assign, lookup-assign, lookup-delete, IsMap, IsMap-delete,
}
use nautes.Queue.RateLimiting.{RateLimitingInterface, IsWorkQueue}
use nautes.Queue.Worker.{Object, bytes, do_new_queue, new_queue, send, bytes_of, get_by_key}
use nautes.Queue.Effects.{
  finish_item-store, finish_item-workers, is_processing-finish, waiting-finish_other,
}
use nautes.Queue.System.{
  length, Event, failed, System, new_system, Step, Trace, after_send, after_take, after_finish,
  send_entry, take_key, fail_key, finish_key, here, next,
}

-- The store has bytes for the key.
abbrev pub IsStored : Map Object → (key : String) → Type 0
IsStored store key = (entry : String) × (lookup key store ≡ some (bytes entry))

length-delete : (key : String) (m : Map String) → length (delete key m) ≤ length m
unfolding delete
length-delete key [] = omega arith
length-delete key ((j, v) ∷ m) = ground (arith, length-delete key m)

IsStored-assign :
    (topic entry key : String) (store : Map Object)
    → IsStored store key
    → IsStored (assign topic (bytes entry) store) key
IsStored-assign topic entry key store (old, held) = elim (Bool-cases (topic == key)) [
  | inl same ↦ (entry, ground (arith, lookup-assign topic key (bytes entry) store, same))
  | inr other ↦ (old, ground (arith, lookup-assign topic key (bytes entry) store, other))
]

absent_of_missing :
    {V : Type 0} (key : String) (m : Map V) → lookup key m ≡ none → has (keys m) key ≡ false
unfolding lookup keys has
absent_of_missing key [] h = refl
absent_of_missing key ((j, v) ∷ m) h =
    ground (arith, h, absent_of_missing key m, eq_iff j key, eq_iff key j)

-- What is left after a deletion is of another key.
lookup_of_left :
    {V : Type 0} (key other : String) (m : Map V) (v : V)
    → lookup other (delete key m) ≡ some v
    → ((key == other) ≡ false) × (lookup other m ≡ some v)
lookup_of_left key other m v h = elim (Bool-cases (key == other)) [
  | inl same ↦ ground (arith, lookup-delete key other m, same, h)
  | inr differs ↦ (differs, ground (arith, lookup-delete key other m, differs, h))
]

IsStored-assign_self :
    (topic entry key : String) (store : Map Object)
    → (topic == key) ≡ true
    → IsStored (assign topic (bytes entry) store) key
IsStored-assign_self topic entry key store same =
    (entry, ground (arith, lookup-assign topic key (bytes entry) store, same))

module _ (w : RateLimitingInterface) (works : IsWorkQueue w) where
  -- Every key that waits or whose handler runs is in the store, a key whose handler runs is being
  -- processed, no key has two handlers, and there are no more handlers than workers.
  pub record IsSound (s : System w) : Type 0 where
    pub stored : (key : String) → 0 < w.waiting s.core.queue key → IsStored s.core.store key
    pub kept : (key entry : String) → lookup key s.running ≡ some entry → IsStored s.core.store key
    pub processing :
        (key entry : String)
        → lookup key s.running ≡ some entry
        → w.is_processing s.core.queue key ≡ true
    pub distinct : IsMap s.running
    pub few : length s.running ≤ s.core.workers

  IsSound-send :
      (topic entry : String) (s : System w) → IsSound s → IsSound (after_send w topic entry s)
  unfolding after_send send
  IsSound-send topic entry s sound = record {
    stored = λ key waits. elim (Bool-cases (topic == key)) [
      | inl same ↦ IsStored-assign_self topic entry key s.core.store same
      | inr other ↦
          IsStored-assign topic entry key s.core.store
            (sound.stored key (rw (works.waiting-add_other topic key s.core.queue other) at waits))
    ];
    kept = λ key held runs. IsStored-assign topic entry key s.core.store (sound.kept key held runs);
    processing = λ key held runs.
        works.is_processing-add topic key s.core.queue ∙ sound.processing key held runs;
    distinct = sound.distinct;
    few = sound.few;
  }

  -- A key that `Get` hands out is in the store.
  IsStored-at :
      (key other : String) (q : w.Queue) (s : System w)
      → w.Gets s.core.queue key q
      → IsSound s
      → (key == other) ≡ true
      → IsStored s.core.store other
  IsStored-at key other q s got sound same =
      rw (sym ((eq_iff key other).0 same))
        (sound.stored key (omega (arith, works.waiting-get key s.core.queue q got)))

  IsSound-take :
      (key entry : String) (q : w.Queue) (s : System w)
      → length s.running < s.core.workers
      → w.Gets s.core.queue key q
      → IsSound s
      → IsSound (after_take w key entry q s)
  unfolding after_take lookup keys
  IsSound-take key entry q s free got sound = record {
    stored = λ other waits. elim (Bool-cases (key == other)) [
      | inl same ↦ IsStored-at key other q s got sound same
      | inr differs ↦
          sound.stored other (rw (works.waiting-get_other key other _ q got differs) at waits)
    ];
    kept = λ other held runs. elim (Bool-cases (key == other)) [
      | inl same ↦ IsStored-at key other q s got sound same
      | inr differs ↦ sound.kept other held (ground (arith, runs, differs))
    ];
    processing = λ other held runs. elim (Bool-cases (key == other)) [
      | inl same ↦ ground (arith, works.is_processing-get key other _ q got, same)
      | inr differs ↦ ground (
        arith,
        works.is_processing-get key other _ q got,
        differs,
        sound.processing other held (ground (arith, runs, differs)),
      )
    ];
    distinct = (
      elim (Option-cases (lookup key s.running)) [
        | inl missing ↦ absent_of_missing key s.running missing
        | inr (other, runs) ↦
            let busy = sound.processing key other runs in
            let idle = works.is_processing_before key s.core.queue q got in cc
      ],
      sound.distinct,
    );
    few = omega arith;
  }

  IsSound-finish :
      (key entry : String) (result : Check) (s : System w)
      → lookup key s.running ≡ some entry
      → IsSound s
      → IsSound (after_finish w key result s)
  unfolding after_finish
  IsSound-finish key entry result s runs sound =
      let same_store = finish_item-store w works key result s.core in
      record {
        stored = λ other waits. elim (Bool-cases (key == other)) [
          | inl same ↦ rw (same_store, sym ((eq_iff key other).0 same)) (sound.kept key entry runs)
          | inr differs ↦ rw (same_store) (
              sound.stored other
                (rw (waiting-finish_other w works key other result s.core differs) at waits))
        ];
        kept = λ other held later.
            rw (same_store)
              (sound.kept other held (lookup_of_left key other s.running held later).1);
        processing = λ other held later.
            let (differs, runs') = lookup_of_left key other s.running held later in
            ground (
              arith,
              is_processing-finish w works key other result s.core,
              differs,
              sound.processing other held runs',
            );
        distinct = IsMap-delete key s.running sound.distinct;
        few =
            omega
              (arith, length-delete key s.running, finish_item-workers w works key result s.core);
      }

  -- The key that `Get` hands out has its entry in the store.
  pub get_by_key_of_waiting :
      (key : String) (q : w.Queue) (s : System w)
      → w.Gets s.core.queue key q
      → IsSound s
      → (entry : String) × (get_by_key w (record s.core { queue = q }) key ≡ ok entry)
  unfolding get_by_key bytes_of
  get_by_key_of_waiting key q s got sound =
      let (entry, held) = IsStored-at key key q s got sound ((eq_iff key key).1 refl) in
      (entry, rw (held))

  pub Step-IsSound : {e : Event} {s t : System w} → Step w s e t → IsSound s → IsSound t
  Step-IsSound (send_entry s topic entry) sound = IsSound-send topic entry s sound
  Step-IsSound (take_key s key entry q free got found) sound =
      IsSound-take key entry q s free got sound
  Step-IsSound (fail_key s key q e free got found) sound =
      let (entry, there) = get_by_key_of_waiting key q s got sound in cc
  Step-IsSound (finish_key s key entry result runs) sound =
      IsSound-finish key entry result s runs sound

  pub Trace-IsSound :
      {s : System w} {events : List Event} {t : System w}
      → IsSound s
      → Trace w s events t
      → IsSound t
  Trace-IsSound sound here = sound
  Trace-IsSound sound (next before step) = Step-IsSound step (Trace-IsSound sound before)

  abbrev pub IsNotFailed : Event → Type 0
  IsNotFailed (failed key) = ⊥
  IsNotFailed _ = Unit

  Step-IsNotFailed : {e : Event} {s t : System w} → IsSound s → Step w s e t → IsNotFailed e
  Step-IsNotFailed sound (send_entry s topic entry) = tt
  Step-IsNotFailed sound (take_key s key entry q free got found) = tt
  Step-IsNotFailed sound (fail_key s key q e free got found) =
      let (entry, there) = get_by_key_of_waiting key q s got sound in cc
  Step-IsNotFailed sound (finish_key s key entry result runs) = tt

  Trace-IsNotFailed :
      {s : System w} {events : List Event} {t : System w}
      → IsSound s
      → Trace w s events t
      → All IsNotFailed events
  Trace-IsNotFailed sound here = tt
  Trace-IsNotFailed sound (next before step) =
      (Step-IsNotFailed (Trace-IsSound sound before) step, Trace-IsNotFailed sound before)

  -- In every state that a new queue reaches, whatever is sent, taken and returned in which order, each
  -- key that waits or is handled has its entry in the store, a key that is handled is being processed,
  -- so that no key has two handlers, and there are at most as many handlers as workers; and no
  -- `GetByKey` has failed.
  pub new_queue-IsSound :
      (empty_queue : w.Queue) (workers : ℕ) {events : List Event} {t : System w}
      → ((key : String) → w.waiting empty_queue key ≡ 0)
      → Trace w (new_system w empty_queue workers) events t
      → IsSound t × All IsNotFailed events
  unfolding new_queue do_new_queue lookup
  new_queue-IsSound empty_queue workers none_waits trace =
      let sound : IsSound (new_system w empty_queue workers) = record {
        stored = λ key waits. absurd (omega (arith, none_waits key));
        kept = λ key entry runs. cc;
        processing = λ key entry runs. cc;
        distinct = tt;
        few = omega arith;
      } in
      (Trace-IsSound sound trace, Trace-IsNotFailed sound trace)
