-- ===== src/ExecutionQueue.antt =====
-- src/bthread/queue/execution_queue.cpp and include/bthread/queue/execution_queue.hpp. A wrapper is its
-- address; its task is a number, and `none` is an empty std::function. What a task does to the queue
-- while it runs is the argument `effect`. Each operation runs by itself.
pub mod Order
pub mod Stopped
use cothread.Prelude.{
  ℕ, zero, suc, Bool, true, false, Option, none, some, List, [], ◌∷◌, if◌then◌else◌, update,
}
use cothread.MpscQueue.{MpscQueue, Popped, got, empty, spins}
use cothread.MpscQueue
use cothread.ObjectPool.{ObjectPool}
use cothread.ObjectPool

pub record ExecutionQueue : Type 0 where
  pub queue : MpscQueue
  pub tasks : ℕ → Option ℕ
  pub pool : ObjectPool
  pub stopped : Bool
  pub pending : Bool

unfoldable pub init : ExecutionQueue
init = record {
  queue = MpscQueue.init (λ _. none);
  tasks = λ _. none;
  pool = ObjectPool.init 64;
  stopped = false;
  pending = false;
}

unfoldable pub submit : Option ℕ → ExecutionQueue → ExecutionQueue
submit task q =
    let (wrapper, pool) = ObjectPool.acquire q.pool in
    if q.stopped then q else record q {
      queue = MpscQueue.push wrapper q.queue;
      tasks = update q.tasks wrapper task;
      pool = pool;
      pending = true;
    }

-- What one call does: the queue is empty or stopped; an empty function was taken; a task ran; or the
-- pop waits for a push under way.
pub data Executed : Type 0 where
  idle : ExecutionQueue → Executed
  blank : ExecutionQueue → Executed
  ran : ℕ → ExecutionQueue → Executed
  waits : Executed

-- The wrapper back in the pool, its task moved out.
abbrev pub retire : ℕ → MpscQueue → ExecutionQueue → ExecutionQueue
retire wrapper queue q = record q {
  queue = queue;
  tasks = update q.tasks wrapper none;
  pool = ObjectPool.release (some wrapper) q.pool;
}

unfoldable pub execute_one : (ℕ → ExecutionQueue → ExecutionQueue) → ExecutionQueue → Executed
execute_one effect q = if q.stopped then idle q else elim (MpscQueue.pop q.queue) [
  | empty ↦ idle (record q { pending = false })
  | spins ↦ waits
  | got wrapper queue ↦ elim (q.tasks wrapper) [
    | none ↦ blank (retire wrapper queue q)
    | some task ↦ ran task (effect task (retire wrapper queue q))
  ]
]

-- The tasks that ran, whose number the source returns; the loop ends at the first call that runs
-- none. `none` when the fuel runs out or a pop waits.
pub execute :
    ℕ → (ℕ → ExecutionQueue → ExecutionQueue) → ExecutionQueue → Option (List ℕ × ExecutionQueue)
execute zero effect q = none
execute (suc fuel) effect q = elim (execute_one effect q) [
  | idle q' ↦ some ([], q')
  | blank q' ↦ some ([], q')
  | waits ↦ none
  | ran task q' ↦ elim (execute fuel effect q') [
    | none ↦ none
    | some (rest, q'') ↦ some (task ∷ rest, q'')
  ]
]

unfoldable pub stop :
    ℕ → (ℕ → ExecutionQueue → ExecutionQueue) → ExecutionQueue → Option (List ℕ × ExecutionQueue)
stop fuel effect q = execute fuel effect (record q { stopped = true })

unfoldable pub has_pending : ExecutionQueue → Bool
has_pending q = q.pending
