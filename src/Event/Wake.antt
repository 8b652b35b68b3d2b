-- ===== src/Event/Wake.antt =====
-- What set does to the tasks that wait.
use cothread.Prelude.{ℕ, ◌<◌, ◌≡◌, refl, subst, true, Option, some, List, [], ◌∷◌, length}
use cothread.Waiters.{Waiters, drain}
use cothread.Waiters.Order.{Waits, Wakes, drain-Wakes, park-Waits}
use cothread.Event.{Event, is_set, park, wake_all_waiters, set_event}

set_event_lem :
    (fuel : ℕ) (e : Event) (w : Waiters)
    → drain fuel e.waiters ≡ some w
    → set_event fuel e ≡ some (record e { state = true; waiters = w })
unfolding set_event wake_all_waiters
set_event_lem fuel e w d = rw (d, wake_all_waiters) refl

-- What set promises: the event is set, and the tasks that wait were woken.
pub record Sets (e : Event) (tasks : List ℕ) (r : Option Event) : Type 0 where
  pub after : Event
  pub returns : r ≡ some after
  pub set : is_set after ≡ true
  pub woken : Wakes e.waiters tasks (some after.waiters)

-- Set, with more rounds allowed than tasks wait, leaves the event set and wakes every task that waits,
-- in the order of their waits: each is ready and handed to the scheduler once. An event that resets
-- itself does the same: it wakes them all and stays set.
pub set_event-Wakes :
    (fuel : ℕ) (e : Event) (tasks : List ℕ)
    → length tasks < fuel
    → Waits e.waiters tasks
    → Sets e tasks (set_event fuel e)
set_event-Wakes fuel e tasks f v =
    let w = drain-Wakes fuel e.waiters tasks f v.queued in
    record {
      after = record e { state = true; waiters = w.after };
      returns = set_event_lem fuel e w.after w.returns;
      set = refl;
      woken = subst (Wakes e.waiters tasks) w.returns w;
    }

-- A set that runs between a wait's test of the state and its enqueueing wakes the tasks that waited
-- before, and the task then waits alone on an event that is set.
park-misses_set :
    (fuel : ℕ) (e : Event) (tasks : List ℕ) (task : ℕ)
    → length tasks < fuel
    → Waits e.waiters tasks
    → (after : Event) × (set_event fuel e ≡ some after)
      × (is_set (park task after) ≡ true)
      × Waits (park task after).waiters (task ∷ [])
unfolding park
park-misses_set fuel e tasks task f v =
    let w = drain-Wakes fuel e.waiters tasks f v.queued in
    (
      record e { state = true; waiters = w.after },
      set_event_lem fuel e w.after w.returns,
      refl,
      park-Waits w.after [] task (record { queued = w.drained; suspended = tt }) tt,
    )
