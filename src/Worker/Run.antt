-- ===== src/Worker/Run.antt =====
-- `Run` of src/bthread/core/worker.cpp: a worker's loop over the tasks that PickTask finds, in its batch, its
-- queue, the global queue and the queues of the other workers. The tasks here are bthreads, by the
-- slots of their TaskMetas; what a task does while it runs, what WakeButex on the join butex of a finished task
-- does, which queues the joiners it wakes, and what happens while the worker waits, are parameters.
-- Promise has the running of a coroutine.
pub mod Pick
pub mod Drain
use cothread.Prelude.{
  ℕ, zero, suc, ◌+◌, Bool, true, false, ◌&&◌, ◌||◌, Option, none, some, List, [], ◌∷◌, leb,
  if◌then◌else◌, update,
}
use cothread.Task.{TaskMeta, TaskState}
use cothread.TaskGroup.{TaskGroup}
use cothread.StealQueue.{StealQueue}
use cothread.GlobalQueue.{SharedMpscQueue, took, nothing, waits}
use cothread.GlobalQueue
use cothread.Worker.{Worker, pick_local, steal_task, handle_task_after_run}

-- A worker with what it shares; `queues i` is the local queue of worker `i`, none for a missing worker and
-- not read for the worker itself.
pub record World : Type 0 where
  pub worker : Worker
  pub group : TaskGroup
  pub global : SharedMpscQueue
  pub worker_count : ℕ
  pub queues : ℕ → Option StealQueue

-- A task, no task, or a wait in the global queue for a push that is under way.
pub data Picked : Type 0 where
  picks : ℕ → World → Picked
  finds_none : World → Picked
  spins : Picked

-- From the third step of `PickTask` on.
unfoldable pub pick_shared : World → Picked
pick_shared v = elim (GlobalQueue.pop v.worker.id v.global) [
  | took task q ↦ picks task (record v { global = q })
  | waits ↦ spins
  | nothing ↦ elim (steal_task v.worker.id v.worker_count v.queues) [
    | none ↦ finds_none v
    | some (task, victim, q) ↦ picks task (record v { queues = update v.queues victim (some q) })
  ]
]

-- `PickTask` after its first two steps.
unfoldable pub pick_after : Option ℕ × Worker → World → Picked
pick_after (none, w) v = pick_shared (record v { worker = w })
pick_after (some task, w) v = picks task (record v { worker = w })

unfoldable pub pick_task : World → Picked
pick_task v = pick_after (pick_local v.worker) v

-- The task becomes the worker's current one, and RUNNING.
unfoldable pub begin_task : ℕ → World → World
begin_task task v = elim (v.group.task_pool task) [
  | none ↦ v
  | some m ↦ record v {
    worker = record v.worker { current_task = some task };
    group = record v.group {
      task_pool = update v.group.task_pool task (some (record m { state = TaskState.running }));
    };
  }
]

abbrev pub woken_by : (ℕ → World → World) → Option ℕ → World → World
woken_by wake none v = v
woken_by wake (some butex) v = wake butex v

-- HandleTaskAfterRun of the task that ran, which is no longer the current one: its joiners are woken, and then
-- its reference is given up.
unfoldable pub end_task : (ℕ → World → World) → ℕ → World → World
end_task wake task v = elim (v.group.task_pool task) [
  | none ↦ v
  | some m ↦
      let w = record v.worker { current_task = none } in
      let joiners = (handle_task_after_run task m w v.group).0 in
      let v' = woken_by wake joiners (record v { worker = w }) in
      let handled = handle_task_after_run task m v'.worker v'.group in
      record v' { worker = handled.1; group = handled.2 }
]

-- A task from where it is picked to where its worker is done with it; `run` is what the task does,
-- `wake` what the waking of joiners does.
unfoldable pub serve : (ℕ → World → World) → (ℕ → World → World) → ℕ → World → World
serve run wake task v = end_task wake task (run task (begin_task task v))

-- The tasks that the loop after the stop ran, and what it left.
pub data Drained : Type 0 where
  drained : List ℕ → World → Drained
  stuck : Drained

abbrev pub and_before : ℕ → Drained → Drained
and_before task (drained ts v) = drained (task ∷ ts) v
and_before task stuck = stuck

-- The loop after the stop, for at most `k` tasks.
unfoldable pub drain : (ℕ → World → World) → (ℕ → World → World) → ℕ → World → Drained
drain run wake zero v = drained [] v
drain run wake (suc k) v = elim (pick_task v) [
  | spins ↦ stuck
  | finds_none v' ↦ drained [] v'
  | picks task v' ↦ and_before task (drain run wake k (serve run wake task v'))
]

abbrev pub drain_limit : ℕ
drain_limit = 100

-- The main loop left, or it runs on when the fuel is used up, or spins in the global queue.
pub data Looped : Type 0 where
  leaves : World → Looped
  runs_on : Looped
  loop_stuck : Looped

-- A task is served, and after every tenth one the flag is read once more.
abbrev pub next_count : ℕ → ℕ
next_count count = if leb 10 (count + 1) then 0 else count + 1

abbrev pub stops_after : ℕ → Bool → Bool
stops_after count stopped = leb 10 (count + 1) && stopped

-- The main loop: `stopped n` is the `n`-th reading of the stop flag, `wait` what WaitForTask lets happen,
-- `count` task_count. A round reads the flag before the task is picked, and again where it finds none.
unfoldable pub main_loop :
    (ℕ → World → World)
    → (ℕ → World → World)
    → (World → World)
    → (ℕ → Bool)
    → ℕ
    → ℕ
    → ℕ
    → World
    → Looped
main_loop run wake wait stopped zero n count v = runs_on
main_loop run wake wait stopped (suc fuel) n count v = elim (stopped n) [
  | true ↦ leaves v
  | false ↦ elim (pick_task v) [
    | spins ↦ loop_stuck
    | finds_none v' ↦ elim (stopped (n + 1) || stopped (n + 2)) [
      | true ↦ leaves (if stopped (n + 1) then v' else wait v')
      | false ↦ main_loop run wake wait stopped fuel (n + 3) count (wait v')
    ]
    | picks task v' ↦ elim (stops_after count (stopped (n + 1))) [
      | true ↦ leaves (serve run wake task v')
      | false ↦
          main_loop run wake wait stopped fuel (if leb 10 (count + 1) then n + 2 else n + 1)
            (next_count count) (serve run wake task v')
    ]
  ]
]

-- What `Run` did: its main loop and the loop after the stop.
unfoldable pub run_worker :
    (ℕ → World → World) → (ℕ → World → World) → (World → World) → (ℕ → Bool) → ℕ → World → Drained
run_worker run wake wait stopped fuel v = elim (main_loop run wake wait stopped fuel 0 0 v) [
  | leaves v' ↦ drain run wake drain_limit v'
  | runs_on ↦ stuck
  | loop_stuck ↦ stuck
]
