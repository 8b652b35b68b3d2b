-- ===== src/Waiters.antt =====
-- The tasks that wait on an event or a condition variable: the queue waiter_queue_ of
-- include/bthread/sync/event.hpp and cond.hpp with the fields of the tasks in it, and the loops of
-- src/bthread/sync/event.cpp and cond.cpp that drain it. A task is its address; `next` of the queue is the
-- field waiter_next of the tasks, `task_state` is their state, and `waiting_sync` tells whether their
-- field of that name points here. The calls of the scheduler's Submit are the list `resumed`, in order.
pub mod Order
use cothread.Prelude.{
  ℕ, zero, suc, Bool, true, false, Option, none, some, List, [], ◌∷◌, ◌++◌, update,
}
use cothread.Task.{TaskState}
use cothread.MpscQueue.{MpscQueue, got, empty, spins}
use cothread.MpscQueue

pub record Waiters : Type 0 where
  pub waiter_queue : MpscQueue
  pub task_state : ℕ → TaskState
  pub waiting_sync : ℕ → Bool
  pub resumed : List ℕ

-- The task is suspended and enqueued.
unfoldable pub park : ℕ → Waiters → Waiters
park task e = record e {
  task_state = update e.task_state task TaskState.suspended;
  waiting_sync = update e.waiting_sync task true;
  waiter_queue = MpscQueue.push task e.waiter_queue;
}

-- A waiter made ready and handed to the scheduler, with the queue after it.
unfoldable pub resume : ℕ → MpscQueue → Waiters → Waiters
resume task queue e = record e {
  waiter_queue = queue;
  task_state = update e.task_state task TaskState.ready;
  waiting_sync = update e.waiting_sync task false;
  resumed = e.resumed ++ task ∷ [];
}

-- The loop that takes and resumes every waiter; `none` when the fuel runs out or a pop waits.
pub drain : ℕ → Waiters → Option Waiters
drain zero e = none
drain (suc fuel) e = elim (MpscQueue.pop e.waiter_queue) [
  | got task queue ↦ drain fuel (resume task queue e)
  | empty ↦ some e
  | spins ↦ none
]
