-- ===== src/CondVar.antt =====
-- src/bthread/sync/cond.cpp and include/bthread/sync/cond.hpp, over the tasks that wait (Waiters), for a
-- bthread or a coroutine. Both waits release the mutex first, which is Mutex.UnlockStep, and then suspend
-- the task, which is `suspend_on`; a notification can run between the two. A bthread takes the mutex
-- again by lock, a coroutine by trying until it succeeds (Mutex.TryStep). Signals of the native condition
-- variable, on which threads wait that are no workers, are counted.
pub mod Notify
pub mod WaitRace
use cothread.Prelude.{ℕ, suc, Option, none, some}
use cothread.MpscQueue.{got, empty, spins}
use cothread.MpscQueue
use cothread.Waiters.{Waiters, park, resume, drain}

pub record CondVar : Type 0 where
  pub waiters : Waiters
  pub native_signals : ℕ
  pub native_broadcasts : ℕ

-- What wait and await_suspend do to their task once they have released the mutex.
unfoldable pub suspend_on : ℕ → CondVar → CondVar
suspend_on task c = record c { waiters = park task c.waiters }

-- `none` while a pop waits for a push that is under way.
unfoldable pub notify_one : CondVar → Option CondVar
notify_one c = elim (MpscQueue.pop c.waiters.waiter_queue) [
  | got task queue ↦ some (record c { waiters = resume task queue c.waiters })
  | empty ↦ some (record c { native_signals = suc c.native_signals })
  | spins ↦ none
]

unfoldable pub notify_all : ℕ → CondVar → Option CondVar
notify_all fuel c = elim (drain fuel c.waiters) [
  | none ↦ none
  | some w ↦ some (record c { waiters = w; native_broadcasts = suc c.native_broadcasts })
]
