-- ===== src/Tests/SchedulerTests.antt =====
-- A scheduler with two workers, one of them idle.
use cothread.Prelude.{
  ℕ, ◌^◌, ◌<◌, ◌≡◌, refl, ◌≢◌, true, false, none, some, [], ◌∷◌, arith, ltb, tally,
}
use cothread.Task.{new_task_meta}
use cothread.StealQueue.{StealQueue, steal, pop_loaded, is_empty}
use cothread.StealQueue
use cothread.StealQueue.Ring
use cothread.StealQueue.Owner.{push-Holds}
use cothread.StealQueue.Overlap.{pop_loaded-takes_twice}
use cothread.GlobalQueue.{SharedMpscQueue}
use cothread.IdleRegistry.Stack
use cothread.Scheduler.{Scheduler, init, submit}
use cothread.Api.{ok, ebusy}
use cothread.Timer.Thread.Books.{armed}
use cothread.Timer.Thread.Withdraw.{Disarmed}
use cothread.Api.Config.{
  set_worker_count, get_worker_count, set_worker_count-init, Timed, adds, timer_add, timer_cancel,
  timer_add-timer_cancel,
}
use cothread.ObjectPool.{ObjectPool}
use cothread.ObjectPool
use cothread.Timer.Shard.{int64_max}
use cothread.Timer.Thread.{TimerThread, shard_of}
use cothread.Scheduler.Submit.{Announces, submit-local}

abbrev no_shards : SharedMpscQueue
no_shards = record {
  round_robin = 0;
  total_count = 0;
  worker_count = 0;
  heads = λ _. none;
  tails = λ _. none;
  next = λ _. none;
}

-- Before Init.
abbrev new_scheduler : Scheduler
new_scheduler = record {
  workers = [];
  workers_atomic = λ i. false;
  worker_count = 0;
  configured_count = 0;
  group_count = 0;
  global_queue = no_shards;
  local_queues = λ i. StealQueue.init;
  idle = record { idle_head = none; idle_next = λ i. none };
  tasks = λ t. new_task_meta;
  timer_thread = none;
  timer_made = false;
  init_done = false;
  initialized = false;
  running = false;
  woken = [];
}

-- After Init with two workers; worker 1 is idle.
abbrev busy : Scheduler
busy = record new_scheduler {
  workers = 0 ∷ 1 ∷ [];
  workers_atomic = λ i. ltb i 2;
  worker_count = 2;
  group_count = 2;
  global_queue = record no_shards { worker_count = 2 };
  idle = record { idle_head = some 1; idle_next = λ i. none };
  init_done = true;
  initialized = true;
  running = true;
}

idle-Holds : Stack.Holds busy.idle (1 ∷ [])
idle-Holds = record { chain = (refl, refl); distinct = (tt, tt) }

submit-local_example :
    (t : Scheduler) × (submit 2 (some 0) 7 busy ≡ some t)
    × Ring.Holds (t.local_queues 0) (7 ∷ [])
    × ((v : ℕ) → 0 ≢ v → t.local_queues v ≡ StealQueue.init)
    × (t.global_queue ≡ busy.global_queue)
    × Announces 7 (1 ∷ []) busy t
submit-local_example =
    submit-local 2 0 7 busy [] (1 ∷ []) refl Ring.init-Holds (omega arith) idle-Holds

abbrev one_task : StealQueue
one_task = StealQueue.push 7 StealQueue.init

one_task-Holds : Ring.Holds one_task (7 ∷ [])
one_task-Holds = push-Holds StealQueue.init [] 7 Ring.init-Holds (omega arith)

abbrev two_tasks : StealQueue
two_tasks = StealQueue.push 8 one_task

two_tasks-Holds : Ring.Holds two_tasks (7 ∷ 8 ∷ [])
two_tasks-Holds = push-Holds one_task (7 ∷ []) 8 one_task-Holds (omega arith)

pop_loaded-takes_twice_example :
    let after = pop_loaded two_tasks.head two_tasks.tail (steal (steal two_tasks).1).1 in
    ((steal (steal two_tasks).1).0 ≡ some 8) × (after.0 ≡ some 8) × (is_empty after.1 ≡ false)
pop_loaded-takes_twice_example = pop_loaded-takes_twice two_tasks 7 8 two_tasks-Holds

set_worker_count-init_example :
    let r = set_worker_count 3 new_scheduler in
    (r.0 ≡ ok)
    × ((t : Scheduler) × (init 2 r.1 ≡ some t)
        × (get_worker_count t ≡ 3)
        × (t.workers ≡ 0 ∷ 1 ∷ 2 ∷ [])
        × ((other : ℕ) (u : Scheduler)
            → 0 < other
            → other < 2 ^ 31
            → get_worker_count u ≡ 3
            → set_worker_count other u ≡ (ebusy, u)))
set_worker_count-init_example =
    set_worker_count-init 2 3 new_scheduler refl refl (omega arith) (omega arith)

abbrev pool : ObjectPool
pool = ObjectPool.init 16

abbrev timers : TimerThread
timers = record {
  heaps = λ i. [];
  next_deadlines = λ i. int64_max;
  shard_assign = 0;
  worker_count = 2;
  heap = [];
  running = true;
  wakeup_futex = 0;
  next_id = 0;
  entry_pool = pool;
}

abbrev timed : Scheduler
timed = record busy { timer_thread = some timers; timer_made = true }

timers-Timed : Timed timers timed
unfolding shard_of tally
timers-Timed = record {
  started = refl;
  made = refl;
  there = refl;
  some_shard = omega arith;
  turns = omega arith;
  watched = λ i h. record { ordered = λ c a b. absurd (omega arith); none_early = refl };
}

timer_add-timer_cancel_example :
    (t' : TimerThread) × (u : TimerThread) × (timer_add 2 pool 5
        (some 70)
        0
        (some (record { tv_sec = 1; tv_nsec = 0 }))
        timed
      ≡ adds 0 (record timed { timer_thread = some t' }))
    × (tally (armed 0) (t'.heaps 0) ≡ 1)
    × (timer_cancel 2 pool 0 (record timed { timer_thread = some t' })
        ≡ some (ok, record timed { timer_thread = some u }))
    × Disarmed 0 u
unfolding tally
timer_add-timer_cancel_example =
    timer_add-timer_cancel 2 5 70 0 pool (record { tv_sec = 1; tv_nsec = 0 }) timers timed
      timers-Timed (omega arith) (λ j h. refl)
