-- ===== src/CondVar/Notify.antt =====
-- Whom a notification wakes.
use cothread.Prelude.{
  ℕ, suc, ◌<◌, ◌≡◌, refl, sym, subst, ◌∙◌, true, Option, some, List, [], ◌∷◌, ◌++◌, length, All,
  Fresh,
}
use cothread.Task.{TaskState}
use cothread.MpscQueue.{MpscQueue, got, empty, spins}
use cothread.MpscQueue
use cothread.MpscQueue.Fifo.{pop-Pops}
use cothread.Waiters.{Waiters, resume, drain}
use cothread.Waiters.Order.{Waits, Wakes, IsReady, drain-Wakes, park-Waits, resumed_fields}
use cothread.CondVar.{CondVar, suspend_on, notify_one, notify_all}

notify_got :
    (c : CondVar) (task : ℕ) (queue : MpscQueue)
    → MpscQueue.pop c.waiters.waiter_queue ≡ got task queue
    → notify_one c ≡ some (record c { waiters = resume task queue c.waiters })
unfolding notify_one
notify_got c task queue e = rw (e, notify_one) refl

-- What notify_one promises: the task is ready and handed to the scheduler once, and these wait still.
pub record Resumes (task : ℕ) (left : List ℕ) (c : CondVar) (r : Option CondVar) : Type 0 where
  pub after : CondVar
  pub returns : r ≡ some after
  pub ready : IsReady after.waiters task
  pub resumed : after.waiters.resumed ≡ c.waiters.resumed ++ task ∷ []
  pub waits : Waits after.waiters left
  pub no_signal : after.native_signals ≡ c.native_signals

keeps_waiting :
    (task : ℕ) (queue : MpscQueue) (w : Waiters) (tasks : List ℕ)
    → Fresh task tasks
    → All (λ t. (w.task_state t ≡ TaskState.suspended) × (w.waiting_sync t ≡ true)) tasks
    → All
        (λ t.
          ((resume task queue w).task_state t ≡ TaskState.suspended)
          × ((resume task queue w).waiting_sync t ≡ true))
        tasks
keeps_waiting task queue w [] f a = tt
keeps_waiting task queue w (x ∷ tasks) f a =
    let same = (resumed_fields task x queue w).1 (λ e. f.0 (sym e)) in
    ((same.0 ∙ a.0.0, same.1 ∙ a.0.1), keeps_waiting task queue w tasks f.1 a.1)

-- notify_one wakes the task that has waited longest, and no other; no thread is signalled then.
notify_one-Resumes :
    (c : CondVar) (task : ℕ) (tasks : List ℕ)
    → Waits c.waiters (task ∷ tasks)
    → Resumes task tasks c (notify_one c)
unfolding resume
notify_one-Resumes c task tasks v =
    let (queue, popped, left) = pop-Pops c.waiters.waiter_queue (task ∷ tasks) v.queued in
    record {
      after = record c { waiters = resume task queue c.waiters };
      returns = notify_got c task queue popped;
      ready = (resumed_fields task task queue c.waiters).0;
      resumed = refl;
      waits = record {
        queued = left;
        suspended = keeps_waiting task queue c.waiters tasks v.queued.distinct.0 v.suspended.1;
      };
      no_signal = refl;
    }

notify_all_lem :
    (fuel : ℕ) (c : CondVar) (w : Waiters)
    → drain fuel c.waiters ≡ some w
    → notify_all fuel c
      ≡ some (record c { waiters = w; native_broadcasts = suc c.native_broadcasts })
unfolding notify_all
notify_all_lem fuel c w d = rw (d, notify_all) refl

-- notify_all, with more rounds allowed than tasks wait, wakes them all, in the order of their waits, and
-- then the threads.
notify_all-Wakes :
    (fuel : ℕ) (c : CondVar) (tasks : List ℕ)
    → length tasks < fuel
    → Waits c.waiters tasks
    → (after : CondVar) × (notify_all fuel c ≡ some after)
      × Wakes c.waiters tasks (some after.waiters)
      × (after.native_broadcasts ≡ suc c.native_broadcasts)
notify_all-Wakes fuel c tasks f v =
    let w = drain-Wakes fuel c.waiters tasks f v.queued in
    (
      record c { waiters = w.after; native_broadcasts = suc c.native_broadcasts },
      notify_all_lem fuel c w.after w.returns,
      subst (Wakes c.waiters tasks) w.returns w,
      refl,
    )

-- A notification is missed: a wait releases the mutex before its task is in the queue, so a notify_all that
-- runs in between wakes those that waited before, and the task then waits alone, with nobody left to
-- notify it.
wait-misses_notify :
    (fuel : ℕ) (c : CondVar) (tasks : List ℕ) (task : ℕ)
    → length tasks < fuel
    → Waits c.waiters tasks
    → (after : CondVar) × (notify_all fuel c ≡ some after)
      × Waits (suspend_on task after).waiters (task ∷ [])
unfolding suspend_on
wait-misses_notify fuel c tasks task f v =
    let w = drain-Wakes fuel c.waiters tasks f v.queued in
    (
      record c { waiters = w.after; native_broadcasts = suc c.native_broadcasts },
      notify_all_lem fuel c w.after w.returns,
      park-Waits w.after [] task (record { queued = w.drained; suspended = tt }) tt,
    )
