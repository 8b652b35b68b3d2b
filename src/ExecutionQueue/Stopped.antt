-- ===== src/ExecutionQueue/Stopped.antt =====
-- What Stop does with the tasks that are queued.
use cothread.Prelude.{ℕ, suc, ◌≡◌, refl, true, false, Option, none, some, [], arith}
use cothread.MpscQueue.{MpscQueue, got}
use cothread.MpscQueue
use cothread.ExecutionQueue.{ExecutionQueue, submit, execute_one, execute, stop, retire}

-- Stop runs no task, whatever is queued: the flag that it sets first makes ExecuteOne return at once.
-- The queue keeps its items, and a later Submit adds none.
stop-runs_nothing :
    (fuel : ℕ) (effect : ℕ → ExecutionQueue → ExecutionQueue) (q : ExecutionQueue) (task : Option ℕ)
    → (stop (suc fuel) effect q ≡ some ([], record q { stopped = true }))
      × (submit task (record q { stopped = true }) ≡ record q { stopped = true })
unfolding stop execute execute_one submit
stop-runs_nothing fuel effect q task = (refl, refl)

-- An empty function ends a run of Execute: the tasks behind it stay queued.
blank-ends :
    (fuel : ℕ) (effect : ℕ → ExecutionQueue → ExecutionQueue) (q : ExecutionQueue) (w : ℕ)
    (queue : MpscQueue)
    → q.stopped ≡ false
    → MpscQueue.pop q.queue ≡ got w queue
    → q.tasks w ≡ none
    → execute (suc fuel) effect q ≡ some ([], retire w queue q)
unfolding execute execute_one
blank-ends fuel effect q w queue o e h = ground (arith, e)
