-- ===== src/Scheduler.antt =====
-- src/bthread/core/scheduler.cpp and include/bthread/core/scheduler.hpp: Init, Submit, Shutdown and what
-- they use of the queues, the registry of idle workers and the tasks. A worker is its id; `workers` are the
-- ids whose Worker exists, `workers_atomic` tells which entries of that array are set, and `woken` lists the ids
-- for which WakeUp was called through it. `configured_count` is the bit pattern of an int. Starting and
-- joining threads, and Worker::Stop, are outside. Each operation runs by itself.
pub mod Submit
pub mod Restart
use cothread.Prelude.{
  ℕ, zero, suc, ◌^◌, Bool, true, false, not, ◌&&◌, ◌||◌, Option, none, some, List, [], ◌∷◌, ◌++◌,
  ltb, ◌==◌, if◌then◌else◌, update, set,
}
use cothread.Task.{TaskMeta, TaskState}
use cothread.StealQueue.{StealQueue}
use cothread.StealQueue
use cothread.GlobalQueue.{SharedMpscQueue}
use cothread.GlobalQueue
use cothread.IdleRegistry.{IdleRegistry, wake_idle_workers}
use cothread.Timer.Thread.{TimerThread, new_timer_thread}
use cothread.ObjectPool.{ObjectPool}
use cothread.Timer.Thread

abbrev pub max_workers : ℕ
max_workers = 256

pub record Scheduler : Type 0 where
  pub workers : List ℕ
  pub workers_atomic : ℕ → Bool
  pub worker_count : ℕ
  pub configured_count : ℕ
  pub group_count : ℕ
  pub global_queue : SharedMpscQueue
  pub local_queues : ℕ → StealQueue
  pub idle : IdleRegistry
  pub tasks : ℕ → TaskMeta
  pub timer_thread : Option TimerThread
  pub timer_made : Bool
  pub init_done : Bool
  pub initialized : Bool
  pub running : Bool
  pub woken : List ℕ

-- The configured number if it is positive, or else the number of processors, or 4 when that is unknown.
unfoldable pub count_of : ℕ → ℕ → ℕ
count_of hardware configured =
    if ltb 0 configured && ltb configured (2 ^ 31)
    then configured
    else if hardware == 0
    then 4
    else hardware

abbrev pub ids_from : ℕ → ℕ → List ℕ
ids_from i zero = []
ids_from i (suc k) = i ∷ ids_from (suc i) k

-- `none` is a write outside workers_atomic_.
unfoldable pub start_workers : ℕ → Scheduler → Option Scheduler
start_workers count s =
    if ltb max_workers count
    then none
    else some (record s {
      workers = s.workers ++ ids_from 0 count;
      workers_atomic = λ i. ltb i count || s.workers_atomic i;
      local_queues = λ i. if ltb i count then StealQueue.init else s.local_queues i;
      worker_count = count;
    })

-- `Init`, which runs once; `hardware` is what hardware_concurrency returns.
unfoldable pub init : ℕ → Scheduler → Option Scheduler
init hardware s =
    let n : ℕ = count_of hardware s.configured_count in
    if s.init_done then some s else elim (start_workers n (record s { running = true })) [
      | none ↦ none
      | some t ↦ some (record t {
        group_count = n;
        global_queue = GlobalQueue.init n t.global_queue;
        init_done = true;
        initialized = true;
      })
    ]

-- `Init(worker_count)`
unfoldable pub init_with : ℕ → ℕ → Scheduler → Option Scheduler
init_with hardware count s = init hardware (record s { configured_count = count })

abbrev pub chosen : (ℕ → Bool) → List ℕ → List ℕ
chosen set [] = []
chosen set (w ∷ ws) = if set w then w ∷ chosen set ws else chosen set ws

-- `WakeIdleWorkers`
unfoldable pub wake_idle : ℕ → Scheduler → Scheduler
wake_idle count s =
    let (ids, r) = wake_idle_workers count s.idle in
    record s { idle = r; woken = s.woken ++ chosen s.workers_atomic ids }

-- Submit once the scheduler is initialized; `current` is the worker of the calling thread.
unfoldable pub enqueue : Option ℕ → ℕ → Scheduler → Option Scheduler
enqueue current task s =
    let t = record s {
      tasks = update s.tasks task (record (s.tasks task) { state = TaskState.ready });
    } in
    elim current [
      | some w ↦ some (
          wake_idle 1 (record t {
            local_queues = update t.local_queues w (StealQueue.push task (t.local_queues w));
          }))
      | none ↦ elim (GlobalQueue.push task t.global_queue) [
        | none ↦ none
        | some q ↦ some (wake_idle 1 (record t { global_queue = q }))
      ]
    ]

unfoldable pub submit : ℕ → Option ℕ → ℕ → Scheduler → Option Scheduler
submit hardware current task s =
    if s.initialized
    then enqueue current task s
    else elim (init hardware s) [ none ↦ none | some t ↦ enqueue current task t ]

-- A suspended task that Shutdown found, made ready.
abbrev pub cleared_task : ℕ → Scheduler → Scheduler
cleared_task t s = record s {
  tasks =
      update s.tasks t
        (record (s.tasks t) { is_waiting = false; waiting_butex = none; state = TaskState.ready });
}

-- One attempt of Shutdown: the suspended tasks, as GetSuspendedTasks gives them, are resumed.
unfoldable pub resume_all : ℕ → Option ℕ → List ℕ → Scheduler → Option Scheduler
resume_all hardware current [] s = some s
resume_all hardware current (t ∷ ts) s = elim (submit hardware current t (cleared_task t s)) [
  | none ↦ none
  | some r ↦ resume_all hardware current ts r
]

unfoldable pub attempts : ℕ → Option ℕ → List (List ℕ) → Scheduler → Option Scheduler
attempts hardware current [] s = some s
attempts hardware current (ts ∷ rest) s = elim (resume_all hardware current ts s) [
  | none ↦ none
  | some r ↦ attempts hardware current rest r
]

-- The workers are joined and deleted, the timer thread is stopped.
unfoldable pub retire_workers : Scheduler → Scheduler
retire_workers s = record s { workers = []; worker_count = 0; timer_thread = none }

-- `Shutdown`, with the suspended tasks that its ten attempts find.
unfoldable pub shutdown : ℕ → Option ℕ → List (List ℕ) → Scheduler → Option Scheduler
shutdown hardware current found s =
    if not s.running
    then some s
    else elim (attempts hardware current found (record s { running = false })) [
      | none ↦ none
      | some r ↦ some (retire_workers r)
    ]

-- `GetWorker`; a negative index is a pattern from 2^31 on.
unfoldable pub get_worker : ℕ → Scheduler → Option ℕ
get_worker index s = if ltb index max_workers && s.workers_atomic index then some index else none

-- `GetTimerThread`, which makes the timer thread once; `pool` is its new pool.
unfoldable pub get_timer_thread : ℕ → ObjectPool → Scheduler → Option TimerThread × Scheduler
get_timer_thread hardware pool s =
    let wanted : ℕ =
      if ltb 0 s.configured_count && ltb s.configured_count (2 ^ 31)
      then s.configured_count
      else s.worker_count in
    let t = record (Thread.init (count_of hardware wanted) (new_timer_thread pool)) {
      running = true;
    } in
    if s.timer_made
    then (s.timer_thread, s)
    else (some t, record s { timer_thread = some t; timer_made = true })
