-- ===== src/Worker.antt =====
-- The part of a worker that it owns, src/bthread/core/worker.cpp and include/bthread/core/worker.hpp: the
-- batch of tasks, its queue, and its caches of stacks and TaskMetas. The arrays are functions of an
-- index with the count of cells in use; stacks and tasks are addresses.
pub mod Batch
pub mod Cache
pub mod Steal
pub mod Park
pub mod Run
use cothread.Prelude.{
  ℕ, zero, suc, ◌+◌, ◌-◌, ◌*◌, ◌%◌, ◌^◌, Bool, true, false, ◌&&◌, Option, none, some, List, [], ◌∷◌,
  ◌++◌, ltb, leb, ◌==◌, if◌then◌else◌, length, update,
}
use cothread.Task.{TaskMeta, TaskState, state_eq, is_bthread}
use cothread.Task
use cothread.TaskGroup.{TaskGroup}
use cothread.TaskGroup
use cothread.StealQueue.{StealQueue}
use cothread.StealQueue

abbrev pub batch_size : ℕ
batch_size = 8

abbrev pub stack_pool_size : ℕ
stack_pool_size = 8

abbrev pub default_stack_size : ℕ
default_stack_size = 8192

abbrev pub task_cache_size : ℕ
task_cache_size = 4

pub record Worker : Type 0 where
  pub id : ℕ
  pub local_queue : StealQueue
  pub current_task : Option ℕ
  pub local_batch : ℕ → ℕ
  pub batch_count : ℕ
  pub stack_pool : ℕ → ℕ
  pub stack_pool_count : ℕ
  pub task_cache : ℕ → ℕ
  pub task_cache_count : ℕ

-- The cells 0 to k - 1 pushed in order.
unfoldable pub push_all : ℕ → (ℕ → ℕ) → StealQueue → StealQueue
push_all zero batch q = q
push_all (suc k) batch q = StealQueue.push (batch k) (push_all k batch q)

unfoldable pub maybe_flush_batch : Worker → Worker
maybe_flush_batch w =
    if leb batch_size w.batch_count
    then record w {
      local_queue = push_all w.batch_count w.local_batch w.local_queue;
      batch_count = 0;
    }
    else w

-- A write of the batch outside its eight cells is a fault.
pub data Yielded : Type 0 where
  einval : Yielded
  stays : Yielded
  suspends : Worker → Yielded
  overruns : Yielded

-- `YieldCurrent` up to the switch of contexts; the store of READY to the task's state is left to
-- the task.
unfoldable pub yield_current : Worker → Yielded
yield_current w = elim w.current_task [
  | none ↦ einval
  | some task ↦
      if w.batch_count == 0 && StealQueue.is_empty w.local_queue
      then stays
      else if leb batch_size w.batch_count
      then overruns
      else suspends (
          maybe_flush_batch (record w {
            local_batch = update w.local_batch w.batch_count task;
            batch_count = w.batch_count + 1;
          }))
]

-- The cells from `i` on overwritten by the tasks.
unfoldable pub fill : ℕ → List ℕ → (ℕ → ℕ) → ℕ → ℕ
fill i [] cells = cells
fill i (x ∷ xs) cells = fill (suc i) xs (update cells i x)

-- The first two steps of `PickTask`: the batch, newest first, then a batch from the local queue.
unfoldable pub pick_local : Worker → Option ℕ × Worker
pick_local w =
    let (popped, q) = StealQueue.pop_multiple batch_size w.local_queue in
    let batch = fill 0 popped w.local_batch in
    if ltb 0 w.batch_count
    then (some (w.local_batch (w.batch_count - 1)), record w { batch_count = w.batch_count - 1 })
    else if ltb 0 (length popped)
    then (
      some (batch (length popped - 1)),
      record w { local_queue = q; local_batch = batch; batch_count = length popped - 1 },
    )
    else (none, record w { local_queue = q })

-- The last steps of `PickTask`: the other workers, two rounds from the next one on; `queue i` is the
-- local queue of worker `i`, and none for a missing worker. The result names the victim.
unfoldable pub steal_from : ℕ → ℕ → ℕ → ℕ → (ℕ → Option StealQueue) → Option (ℕ × ℕ × StealQueue)
steal_from zero i id wc queue = none
steal_from (suc k) i id wc queue =
    let victim : ℕ = i % wc in
    let rest = steal_from k (suc i) id wc queue in
    if victim == id then rest else elim (queue victim) [
      | none ↦ rest
      | some q ↦ elim (StealQueue.steal q).0 [
        | none ↦ rest
        | some task ↦ some (task, victim, (StealQueue.steal q).1)
      ]
    ]

unfoldable pub steal_task : ℕ → ℕ → (ℕ → Option StealQueue) → Option (ℕ × ℕ × StealQueue)
steal_task id wc queue = if leb wc 1 then none else steal_from (wc * 2) ((id + 1) % wc) id wc queue

-- A stack from the worker's pool, or `none`: then the platform allocates one of the size.
unfoldable pub acquire_stack : ℕ → Worker → Option ℕ × Worker
acquire_stack size w =
    if ltb 0 w.stack_pool_count && leb size default_stack_size
    then (
      some (w.stack_pool (w.stack_pool_count - 1)),
      record w { stack_pool_count = w.stack_pool_count - 1 },
    )
    else (none, w)

-- Whether the stack is handed to the platform to be freed; `none` is the null pointer.
unfoldable pub release_stack : Option ℕ → ℕ → Worker → Bool × Worker
release_stack none size w = (false, w)
release_stack (some top) size w =
    if ltb w.stack_pool_count stack_pool_size && size == default_stack_size
    then (
      false,
      record w {
        stack_pool = update w.stack_pool w.stack_pool_count top;
        stack_pool_count = w.stack_pool_count + 1;
      },
    )
    else (true, w)

-- The slots that were claimed, each with its TaskMeta made ready, put into the cache.
unfoldable pub cache_slots : List ℕ → Worker → TaskGroup → Worker × TaskGroup
cache_slots [] w g = (w, g)
cache_slots (slot ∷ slots) w g =
    let (meta, g') = TaskGroup.get_or_create_task_meta slot g in
    cache_slots slots
      (elim meta [
        | none ↦ w
        | some m ↦ record w {
          task_cache = update w.task_cache w.task_cache_count m;
          task_cache_count = w.task_cache_count + 1;
        }
      ])
      g'

unfoldable pub refill_task_cache : Worker → TaskGroup → Worker × TaskGroup
refill_task_cache w g =
    let (slots, g') = TaskGroup.alloc_multiple_slots task_cache_size g in cache_slots slots w g'

-- The cache's last TaskMeta, if there is one.
unfoldable pub take_cached : Worker → Option ℕ × Worker
take_cached w =
    if ltb 0 w.task_cache_count
    then (
      some (w.task_cache (w.task_cache_count - 1)),
      record w { task_cache_count = w.task_cache_count - 1 },
    )
    else (none, w)

unfoldable pub acquire_task_meta : Worker → TaskGroup → Option ℕ × Worker × TaskGroup
acquire_task_meta w g =
    let (w', g') = refill_task_cache w g in
    if ltb 0 w.task_cache_count
    then ((take_cached w).0, (take_cached w).1, g)
    else ((take_cached w').0, (take_cached w').1, g')

unfoldable pub release_task_meta : Option ℕ → Worker → TaskGroup → Worker × TaskGroup
release_task_meta none w g = (w, g)
release_task_meta (some task) w g =
    if ltb w.task_cache_count task_cache_size
    then (
      record w {
        task_cache = update w.task_cache w.task_cache_count task;
        task_cache_count = w.task_cache_count + 1;
      },
      g,
    )
    else (w, TaskGroup.dealloc_task_meta task g)

-- The cells below the count, none of which is null.
unfoldable pub dealloc_cells : ℕ → (ℕ → ℕ) → TaskGroup → TaskGroup
dealloc_cells zero cells g = g
dealloc_cells (suc k) cells g = TaskGroup.dealloc_task_meta (cells k) (dealloc_cells k cells g)

unfoldable pub drain_task_cache : Worker → TaskGroup → Worker × TaskGroup
drain_task_cache w g =
    (record w { task_cache_count = 0 }, dealloc_cells w.task_cache_count w.task_cache g)

-- The cells 0 to k - 1 in order.
unfoldable pub pooled_stacks : ℕ → (ℕ → ℕ) → List ℕ
pooled_stacks zero pool = []
pooled_stacks (suc k) pool = pooled_stacks k pool ++ pool k ∷ []

-- The stacks handed to the platform to be freed, none of which is null.
unfoldable pub drain_stack_pool : Worker → List ℕ × Worker
drain_stack_pool w =
    (pooled_stacks w.stack_pool_count w.stack_pool, record w { stack_pool_count = 0 })

-- The count of joiners, an `int`, is above 0.
abbrev pub has_joiners : TaskMeta → Bool
has_joiners m = ltb 0 m.join_waiters && ltb m.join_waiters (2 ^ 31)

-- The butex whose value is counted up and whose waiters are all woken, if there is one; the TaskMeta
-- loses a reference, and with the last one it goes back.
unfoldable pub handle_finished_bthread :
    ℕ → TaskMeta → Worker → TaskGroup → Option ℕ × Worker × TaskGroup
handle_finished_bthread task meta w g =
    let (m, last) = Task.release meta in
    let g' = record g { task_pool = update g.task_pool task (some m) } in
    let (w'', g'') = release_task_meta (some task) w g' in
    let joiners = if has_joiners meta then meta.join_butex else none in
    if last then (joiners, w'', g'') else (joiners, w, g')

-- A bthread that finished is handled; a coroutine, and a task that is suspended or ready, is left alone.
unfoldable pub handle_task_after_run :
    ℕ → TaskMeta → Worker → TaskGroup → Option ℕ × Worker × TaskGroup
handle_task_after_run task meta w g =
    let done = handle_finished_bthread task meta w g in
    if state_eq meta.state TaskState.finished && is_bthread meta.type then done else (none, w, g)
