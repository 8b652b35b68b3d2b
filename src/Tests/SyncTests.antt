-- ===== src/Tests/SyncTests.antt =====
-- A parked worker, two tasks that wait on an event, and a task between its unlock and the queue of a
-- condition variable.
use cothread.Prelude.{◌+◌, ◌<◌, ◌≡◌, refl, ◌⊎◌, true, false, none, [], ◌∷◌, arith}
use cothread.Task.{TaskState}
use cothread.CondVar.WaitRace
use cothread.CondVar.WaitRace.{
  WaitRace, wait_start, Forgotten, Reaches-missed, WaitSound, Reaches-WaitSound,
}
use cothread.MpscQueue
use cothread.MpscQueue.Fifo
use cothread.Worker.Park.{
  Phase, idles, registered, captured, found_none, committed, asleep, Park, start, set_idle,
  register, capture, recheck, recheck_pending, sleep, submit, Reaches, here, then', check_queues,
  check_pending, futex_wait,
}
use cothread.Worker.Park.Wake.{Reaches-woken}
use cothread.Event.{Event, set_event}
use cothread.Event.Wake.{Sets, set_event-Wakes}
use cothread.Waiters.{Waiters}
use cothread.Waiters
use cothread.Waiters.Order.{Waits, park-Waits}

abbrev at : Phase → Park
at p = record start { phase = p; is_idle = true; listed = true }

-- A worker sleeps, and a thread that queued a task has still to pop it.
abbrev caught : Park
caught = record (at (asleep 0)) { queued = 1; to_pop = 1 }

caught_reached : Reaches start caught
unfolding check_queues check_pending futex_wait
caught_reached =
    let idle = record start { phase = idles; is_idle = true } in
    then' start (at (asleep 0)) caught
      (then' start (at (committed 0)) (at (asleep 0))
        (then' start (at (found_none 0)) (at (committed 0))
          (then' start (at (captured 0)) (at (found_none 0))
            (then' start (at registered) (at (captured 0))
              (then' start idle (at registered)
                (then' start start idle (here start) (set_idle start refl)) (register idle refl))
              (capture (at registered) refl))
            (recheck (at (captured 0)) 0 refl))
          (recheck_pending (at (found_none 0)) 0 refl))
        (sleep (at (committed 0)) 0 refl))
      (submit (at (asleep 0)))

Reaches-woken_example :
    (0 < caught.to_pop + caught.submitted + caught.announced + caught.counted)
    ⊎ (caught.listed ≡ false)
    ⊎ (0 < caught.elsewhere)
Reaches-woken_example = Reaches-woken caught 0 caught_reached (omega arith) refl (omega arith)

abbrev nobody : Waiters
nobody = record {
  waiter_queue = MpscQueue.init (λ _. none);
  task_state = λ _. TaskState.running;
  waiting_sync = λ _. false;
  resumed = [];
}

nobody-Waits : Waits nobody []
nobody-Waits = record { queued = Fifo.init-Holds (λ _. none); suspended = tt }

abbrev two_parked : Waiters
two_parked = Waiters.park 4 (Waiters.park 3 nobody)

two_parked-Waits : Waits two_parked (3 ∷ 4 ∷ [])
two_parked-Waits =
    park-Waits (Waiters.park 3 nobody) (3 ∷ []) 4 (park-Waits nobody [] 3 nobody-Waits tt)
      (omega arith, tt)

abbrev two_wait : Event
two_wait = record { state = false; auto_reset = true; waiters = two_parked }

set_event-Wakes_example : Sets two_wait (3 ∷ 4 ∷ []) (set_event 3 two_wait)
set_event-Wakes_example = set_event-Wakes 3 two_wait (3 ∷ 4 ∷ []) (omega arith) two_parked-Waits

-- The task has released the mutex, and the notifier has taken it.
abbrev released : WaitRace
released = record wait_start { wait = WaitRace.unlocked; locked = false }

abbrev between : WaitRace
between = record released { notify = WaitRace.locks; locked = true }

Reaches-missed_example :
    (t : WaitRace) × WaitRace.Step between t
    × (t.notify ≡ WaitRace.notified)
    × (between.queued ≡ false)
    × WaitRace.Reaches wait_start t
    × ((u : WaitRace) → WaitRace.Reaches t u → Forgotten u)
Reaches-missed_example =
    Reaches-missed between
      (WaitRace.after released between
        (WaitRace.after wait_start released WaitRace.here (WaitRace.unlock wait_start refl))
        (WaitRace.notify_lock released refl refl))
      refl refl

Reaches-WaitSound_example :
    WaitSound (record wait_start { wait = WaitRace.unlocked; locked = false })
Reaches-WaitSound_example =
    Reaches-WaitSound _ (WaitRace.after _ _ WaitRace.here (WaitRace.unlock wait_start refl))
