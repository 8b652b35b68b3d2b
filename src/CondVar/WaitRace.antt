-- ===== src/CondVar/WaitRace.antt =====
-- CondVar::wait of src/bthread/sync/cond.cpp by one bthread, against one notify_one by a task that has the
-- mutex meanwhile. The mutex is what Mutex/Exclusion shows of it: one task at a time has it. A pop of the
-- queue with the Submit that follows is one step.
use cothread.Prelude.{◌≡◌, refl, ◌≢◌, ◌⊎◌, inl, inr, Bool, true, false, ◌||◌, arith}

-- Where the wait is: with the mutex; past unlock; past enqueue_waiter; past the switch of SuspendCurrent;
-- resumed, before lock; with the mutex again. `runs_twice` is a task that a worker took up while another
-- one still ran it.
pub data WaitPhase : Type 0 where
  owns : WaitPhase
  unlocked : WaitPhase
  enqueued : WaitPhase
  asleep : WaitPhase
  resumed : WaitPhase
  returned : WaitPhase
  runs_twice : WaitPhase

-- Where the notifier is: before lock; with the mutex; past notify_one; past unlock.
pub data NotifyPhase : Type 0 where
  before : NotifyPhase
  locks : NotifyPhase
  notified : NotifyPhase
  over : NotifyPhase

-- `submitted` tells whether the scheduler has the task.
pub record WaitRace : Type 0 where
  pub wait : WaitPhase
  pub notify : NotifyPhase
  pub locked : Bool
  pub queued : Bool
  pub submitted : Bool

abbrev pub wait_start : WaitRace
wait_start = record {
  wait = owns;
  notify = before;
  locked = true;
  queued = false;
  submitted = false;
}

pub data Step : WaitRace → WaitRace → Type 0 where
  unlock : (s : WaitRace) → s.wait ≡ owns → Step s (record s { wait = unlocked; locked = false })
  enqueue :
      (s : WaitRace) → s.wait ≡ unlocked → Step s (record s { wait = enqueued; queued = true })
  suspend : (s : WaitRace) → s.wait ≡ enqueued → Step s (record s { wait = asleep })
  resume :
      (s : WaitRace)
      → s.wait ≡ asleep
      → s.submitted ≡ true
      → Step s (record s { wait = resumed; submitted = false })
  resume_early :
      (s : WaitRace)
      → s.wait ≡ enqueued
      → s.submitted ≡ true
      → Step s (record s { wait = runs_twice; submitted = false })
  lock_again :
      (s : WaitRace)
      → s.wait ≡ resumed
      → s.locked ≡ false
      → Step s (record s { wait = returned; locked = true })
  notify_lock :
      (s : WaitRace)
      → s.notify ≡ before
      → s.locked ≡ false
      → Step s (record s { notify = locks; locked = true })
  notify_one :
      (s : WaitRace)
      → s.notify ≡ locks
      → Step s (record s { notify = notified; queued = false; submitted = s.queued || s.submitted })
  notify_unlock :
      (s : WaitRace) → s.notify ≡ notified → Step s (record s { notify = over; locked = false })

pub data Reaches (s : WaitRace) : WaitRace → Type 0 where
  here : Reaches s s
  after : (t u : WaitRace) → Reaches s t → Step t u → Reaches s u

-- The notification is past, and the task, which waits, was not handed to the scheduler.
abbrev pub Forgotten : WaitRace → Type 0
Forgotten s =
    ((s.notify ≡ notified) ⊎ (s.notify ≡ over))
    × (s.submitted ≡ false)
    × ((s.wait ≡ unlocked) ⊎ (s.wait ≡ enqueued) ⊎ (s.wait ≡ asleep))

Step-Forgotten : (s t : WaitRace) → Step s t → Forgotten s → Forgotten t
Step-Forgotten s _ (unlock _ e) h = absurd (ground (arith, h.2))
Step-Forgotten s _ (enqueue _ e) h = (h.0, h.1, inr (inl refl))
Step-Forgotten s _ (suspend _ e) h = (h.0, h.1, inr (inr refl))
Step-Forgotten s _ (resume _ e f) h = absurd (ground (arith, h.1))
Step-Forgotten s _ (resume_early _ e f) h = absurd (ground (arith, h.1))
Step-Forgotten s _ (lock_again _ e f) h = absurd (ground (arith, h.2))
Step-Forgotten s _ (notify_lock _ e f) h = absurd (ground (arith, h.0))
Step-Forgotten s _ (notify_one _ e) h = absurd (ground (arith, h.0))
Step-Forgotten s _ (notify_unlock _ e) h = (inr refl, h.1, h.2)

Reaches-Forgotten : (s t : WaitRace) → Forgotten s → Reaches s t → Forgotten t
Reaches-Forgotten s _ h here = h
Reaches-Forgotten s _ h (after t u r step) = Step-Forgotten t u step (Reaches-Forgotten s t h r)

-- The mutex is with one of the two at most; the wait goes on only after a notification; and a
-- notification that found the task in the queue leads to its resumption.
pub record WaitSound (s : WaitRace) : Type 0 where
  pub excludes :
      (s.wait ≡ owns) ⊎ (s.wait ≡ returned)
      → (s.locked ≡ true) × (s.notify ≢ locks) × (s.notify ≢ notified)
  pub held : (s.notify ≡ locks) ⊎ (s.notify ≡ notified) → s.locked ≡ true
  pub sent :
      s.submitted ≡ true
      → ((s.notify ≡ notified) ⊎ (s.notify ≡ over))
        × (s.queued ≡ false)
        × ((s.wait ≡ enqueued) ⊎ (s.wait ≡ asleep))
  pub goes_on : (s.wait ≡ resumed) ⊎ (s.wait ≡ returned) → (s.notify ≡ notified) ⊎ (s.notify ≡ over)
  pub waits : s.queued ≡ true → (s.wait ≡ enqueued) ⊎ (s.wait ≡ asleep)
  pub delivered : (s.wait ≡ enqueued) ⊎ (s.wait ≡ asleep) → s.queued ≡ false → s.submitted ≡ true

Step-WaitSound : (s t : WaitRace) → Step s t → WaitSound s → WaitSound t
Step-WaitSound s _ (unlock _ e) v = record {
  excludes = λ p. ground (arith, v.excludes, v.held, v.sent, v.goes_on, v.waits, v.delivered);
  held = λ p. ground (arith, v.excludes, v.held, v.sent, v.goes_on, v.waits, v.delivered);
  sent = λ p. ground (arith, v.excludes, v.held, v.sent, v.goes_on, v.waits, v.delivered);
  goes_on = λ p. ground (arith, v.excludes, v.held, v.sent, v.goes_on, v.waits, v.delivered);
  waits = λ p. ground (arith, v.excludes, v.held, v.sent, v.goes_on, v.waits, v.delivered);
  delivered = λ p q. ground (arith, v.excludes, v.held, v.sent, v.goes_on, v.waits, v.delivered);
}
Step-WaitSound s _ (enqueue _ e) v = record {
  excludes = λ p. ground (arith, v.excludes, v.held, v.sent, v.goes_on, v.waits, v.delivered);
  held = λ p. ground (arith, v.excludes, v.held, v.sent, v.goes_on, v.waits, v.delivered);
  sent = λ p. ground (arith, v.excludes, v.held, v.sent, v.goes_on, v.waits, v.delivered);
  goes_on = λ p. ground (arith, v.excludes, v.held, v.sent, v.goes_on, v.waits, v.delivered);
  waits = λ p. ground (arith, v.excludes, v.held, v.sent, v.goes_on, v.waits, v.delivered);
  delivered = λ p q. ground (arith, v.excludes, v.held, v.sent, v.goes_on, v.waits, v.delivered);
}
Step-WaitSound s _ (suspend _ e) v = record {
  excludes = λ p. ground (arith, v.excludes, v.held, v.sent, v.goes_on, v.waits, v.delivered);
  held = λ p. ground (arith, v.excludes, v.held, v.sent, v.goes_on, v.waits, v.delivered);
  sent = λ p. ground (arith, v.excludes, v.held, v.sent, v.goes_on, v.waits, v.delivered);
  goes_on = λ p. ground (arith, v.excludes, v.held, v.sent, v.goes_on, v.waits, v.delivered);
  waits = λ p. ground (arith, v.excludes, v.held, v.sent, v.goes_on, v.waits, v.delivered);
  delivered = λ p q. ground (arith, v.excludes, v.held, v.sent, v.goes_on, v.waits, v.delivered);
}
Step-WaitSound s _ (resume _ e f) v = record {
  excludes = λ p. ground (arith, v.excludes, v.held, v.sent, v.goes_on, v.waits, v.delivered);
  held = λ p. ground (arith, v.excludes, v.held, v.sent, v.goes_on, v.waits, v.delivered);
  sent = λ p. ground (arith, v.excludes, v.held, v.sent, v.goes_on, v.waits, v.delivered);
  goes_on = λ p. ground (arith, v.excludes, v.held, v.sent, v.goes_on, v.waits, v.delivered);
  waits = λ p. ground (arith, v.excludes, v.held, v.sent, v.goes_on, v.waits, v.delivered);
  delivered = λ p q. ground (arith, v.excludes, v.held, v.sent, v.goes_on, v.waits, v.delivered);
}
Step-WaitSound s _ (resume_early _ e f) v = record {
  excludes = λ p. ground (arith, v.excludes, v.held, v.sent, v.goes_on, v.waits, v.delivered);
  held = λ p. ground (arith, v.excludes, v.held, v.sent, v.goes_on, v.waits, v.delivered);
  sent = λ p. ground (arith, v.excludes, v.held, v.sent, v.goes_on, v.waits, v.delivered);
  goes_on = λ p. ground (arith, v.excludes, v.held, v.sent, v.goes_on, v.waits, v.delivered);
  waits = λ p. ground (arith, v.excludes, v.held, v.sent, v.goes_on, v.waits, v.delivered);
  delivered = λ p q. ground (arith, v.excludes, v.held, v.sent, v.goes_on, v.waits, v.delivered);
}
Step-WaitSound s _ (lock_again _ e f) v = record {
  excludes = λ p. ground (arith, v.excludes, v.held, v.sent, v.goes_on, v.waits, v.delivered);
  held = λ p. ground (arith, v.excludes, v.held, v.sent, v.goes_on, v.waits, v.delivered);
  sent = λ p. ground (arith, v.excludes, v.held, v.sent, v.goes_on, v.waits, v.delivered);
  goes_on = λ p. ground (arith, v.excludes, v.held, v.sent, v.goes_on, v.waits, v.delivered);
  waits = λ p. ground (arith, v.excludes, v.held, v.sent, v.goes_on, v.waits, v.delivered);
  delivered = λ p q. ground (arith, v.excludes, v.held, v.sent, v.goes_on, v.waits, v.delivered);
}
Step-WaitSound s _ (notify_lock _ e f) v = record {
  excludes = λ p. ground (arith, v.excludes, v.held, v.sent, v.goes_on, v.waits, v.delivered);
  held = λ p. ground (arith, v.excludes, v.held, v.sent, v.goes_on, v.waits, v.delivered);
  sent = λ p. ground (arith, v.excludes, v.held, v.sent, v.goes_on, v.waits, v.delivered);
  goes_on = λ p. ground (arith, v.excludes, v.held, v.sent, v.goes_on, v.waits, v.delivered);
  waits = λ p. ground (arith, v.excludes, v.held, v.sent, v.goes_on, v.waits, v.delivered);
  delivered = λ p q. ground (arith, v.excludes, v.held, v.sent, v.goes_on, v.waits, v.delivered);
}
Step-WaitSound s _ (notify_one _ e) v = record {
  excludes = λ p. ground (arith, v.excludes, v.held, v.sent, v.goes_on, v.waits, v.delivered);
  held = λ p. ground (arith, v.excludes, v.held, v.sent, v.goes_on, v.waits, v.delivered);
  sent = λ p. ground (arith, v.excludes, v.held, v.sent, v.goes_on, v.waits, v.delivered);
  goes_on = λ p. ground (arith, v.excludes, v.held, v.sent, v.goes_on, v.waits, v.delivered);
  waits = λ p. ground (arith, v.excludes, v.held, v.sent, v.goes_on, v.waits, v.delivered);
  delivered = λ p q. ground (arith, v.excludes, v.held, v.sent, v.goes_on, v.waits, v.delivered);
}
Step-WaitSound s _ (notify_unlock _ e) v = record {
  excludes = λ p. ground (arith, v.excludes, v.held, v.sent, v.goes_on, v.waits, v.delivered);
  held = λ p. ground (arith, v.excludes, v.held, v.sent, v.goes_on, v.waits, v.delivered);
  sent = λ p. ground (arith, v.excludes, v.held, v.sent, v.goes_on, v.waits, v.delivered);
  goes_on = λ p. ground (arith, v.excludes, v.held, v.sent, v.goes_on, v.waits, v.delivered);
  waits = λ p. ground (arith, v.excludes, v.held, v.sent, v.goes_on, v.waits, v.delivered);
  delivered = λ p q. ground (arith, v.excludes, v.held, v.sent, v.goes_on, v.waits, v.delivered);
}

-- In every state that is reached the wait is over only when the notifier has notified and has given the
-- mutex up, the two never have the mutex at once, and a task that sleeps and is no more in the queue is
-- with the scheduler.
pub Reaches-WaitSound : (s : WaitRace) → Reaches wait_start s → WaitSound s
Reaches-WaitSound _ here = record {
  excludes = λ p. ground arith;
  held = λ p. ground arith;
  sent = λ p. ground arith;
  goes_on = λ p. ground arith;
  waits = λ p. ground arith;
  delivered = λ p q. ground arith;
}
Reaches-WaitSound _ (after t u r step) = Step-WaitSound t u step (Reaches-WaitSound t r)

-- When the notifier has the mutex and the task is in the queue but still on its worker, a state can follow
-- in which two workers run the task.
Reaches-runs_twice :
    (s : WaitRace)
    → s.wait ≡ enqueued
    → s.queued ≡ true
    → s.notify ≡ locks
    → (t : WaitRace) × Reaches s t × (t.wait ≡ runs_twice)
Reaches-runs_twice s e q n =
    let popped = record s {
      notify = notified;
      queued = false;
      submitted = s.queued || s.submitted;
    } in
    (
      record popped { wait = runs_twice; submitted = false },
      after popped _ (after s popped here (notify_one s n)) (resume_early popped e (ground arith)),
      refl,
    )

trans : (s t u : WaitRace) → Reaches s t → Reaches t u → Reaches s u
trans s t _ r here = r
trans s t _ r (after m u q step) = after m u (trans s t m r q) step

-- When a state is reached in which the waiting task has released the mutex but has not enqueued itself,
-- and the notifier has the mutex, the notification can run next: it finds no task in the queue. From
-- then on, with no other notification, the task waits and the scheduler does not have it, whatever
-- steps follow.
pub Reaches-missed :
    (s : WaitRace)
    → Reaches wait_start s
    → s.wait ≡ unlocked
    → s.notify ≡ locks
    → (t : WaitRace) × Step s t
      × (t.notify ≡ notified)
      × (s.queued ≡ false)
      × Reaches wait_start t
      × ((u : WaitRace) → Reaches t u → Forgotten u)
Reaches-missed s r e n =
    let v = Reaches-WaitSound s r in
    let t = record s { notify = notified; queued = false; submitted = s.queued || s.submitted } in
    let quiet : s.queued ≡ false = ground (arith, v.waits) in
    let unsent : s.submitted ≡ false = ground (arith, v.sent) in
    (
      t,
      notify_one s n,
      refl,
      quiet,
      after s t r (notify_one s n),
      λ u q. Reaches-Forgotten t u (inl refl, ground arith, inl e) q,
    )
