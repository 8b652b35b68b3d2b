-- ===== src/Event.antt =====
-- src/bthread/sync/event.cpp and include/bthread/sync/event.hpp, over the tasks that wait (Waiters). Each
-- operation runs by itself, but for wait, whose test and whose enqueueing are functions of their own.
pub mod Wake
pub mod TimedWait
use cothread.Prelude.{ℕ, Bool, true, false, Option, none, some, List, [], ◌∷◌, if◌then◌else◌, set}
use cothread.Waiters.{Waiters, drain}
use cothread.Waiters

pub record Event : Type 0 where
  pub state : Bool
  pub auto_reset : Bool
  pub waiters : Waiters

abbrev pub is_set : Event → Bool
is_set e = e.state

-- The fast path of both waits: a set event is reset if it resets itself.
unfoldable pub pass : Event → Event
pass e = if e.auto_reset then record e { state = false } else e

-- The task is suspended and enqueued.
unfoldable pub park : ℕ → Event → Event
park task e = record e { waiters = Waiters.park task e.waiters }

-- What a wait does: it passes; the task of the worker is parked; a worker without a task goes on; or a
-- thread that is no worker spins until the event is set.
pub data Waited : Type 0 where
  passes : Event → Waited
  parks : Event → Waited
  goes_on : Waited
  spins_on : Waited

-- Who waits: a worker, with its current task, or another thread.
pub data Waiter : Type 0 where
  worker : Option ℕ → Waiter
  pthread : Waiter

unfoldable pub wait_slow : Waiter → Event → Waited
wait_slow (worker (some task)) e = parks (park task e)
wait_slow (worker none) e = goes_on
wait_slow pthread e = spins_on

unfoldable pub wait : Waiter → Event → Waited
wait w e = if e.state then passes (pass e) else wait_slow w e

-- What the polling loop of wait_for returns, from what its rounds find: whether the event is set, and
-- whether the deadline has passed; `none` while it goes on.
unfoldable pub poll : List (Bool × Bool) → Event → Option (Bool × Event)
poll [] e = none
poll ((set, late) ∷ rounds) e =
    let rest = poll rounds e in
    if set then some (true, pass e) else if late then some (false, e) else rest

-- What wait_for does: it returns; its task is parked, and it returns true when resumed; or it polls on.
pub data TimedWaited : Type 0 where
  answers : Bool → Event → TimedWaited
  parks_until : Event → TimedWaited
  polls : TimedWaited

unfoldable pub wait_for_slow : List (Bool × Bool) → Waiter → Event → TimedWaited
wait_for_slow rounds (worker (some task)) e = parks_until (park task e)
wait_for_slow rounds (worker none) e = answers false e
wait_for_slow rounds pthread e = elim (poll rounds e) [
  | none ↦ polls
  | some (set, e') ↦ answers set e'
]

-- `wait_for`, with what its rounds find if it polls.
unfoldable pub wait_for : List (Bool × Bool) → Waiter → Event → TimedWaited
wait_for rounds w e = if e.state then answers true (pass e) else wait_for_slow rounds w e

-- `await_suspend`, by a coroutine; whether it suspends.
unfoldable pub await_suspend : ℕ → Event → Bool × Event
await_suspend meta e = if is_set e then (false, e) else (true, park meta e)

-- `wake_all_waiters`; `none` when the fuel runs out or a pop waits.
unfoldable pub wake_all_waiters : ℕ → Event → Option Event
wake_all_waiters fuel e = elim (drain fuel e.waiters) [
  | none ↦ none
  | some w ↦ some (record e { waiters = w })
]

unfoldable pub set_event : ℕ → Event → Option Event
set_event fuel e = wake_all_waiters fuel (record e { state = true })

unfoldable pub reset : Event → Event
reset e = record e { state = false }
