-- ===== src/Tests/QueueTests.antt =====
-- The queues with a few items.
use cothread.Prelude.{◌≡◌, false, some, [], ◌∷◌, arith}
use cothread.StealQueue
use cothread.StealQueue.{StealQueue, capacity, steal}
use cothread.StealQueue.Ring
use cothread.StealQueue.Ring.{Window}
use cothread.StealQueue.Owner.{push-Holds, pop-some}
use cothread.ExecutionQueue
use cothread.ExecutionQueue.{ExecutionQueue, submit, execute, stop}
use cothread.ExecutionQueue.Order
use cothread.ExecutionQueue.Order.{quiet, start-Holds, submit-Holds, execute-runs_all}

abbrev two_tasks : StealQueue
two_tasks = StealQueue.push 8 (StealQueue.push 7 StealQueue.init)

two_tasks-Holds : Ring.Holds two_tasks (7 ∷ 8 ∷ [])
two_tasks-Holds =
    push-Holds (StealQueue.push 7 StealQueue.init) (7 ∷ []) 8
      (push-Holds StealQueue.init [] 7 Ring.init-Holds (omega arith)) (omega arith)

pop-some_example :
    ((StealQueue.pop two_tasks).0 ≡ some 8) × Ring.Holds (StealQueue.pop two_tasks).1 (7 ∷ [])
pop-some_example = pop-some two_tasks (7 ∷ []) 8 two_tasks-Holds

abbrev one_submitted : ExecutionQueue
one_submitted = submit (some 70) ExecutionQueue.init

one_submitted-Holds : Order.Holds one_submitted (70 ∷ [])
one_submitted-Holds = submit-Holds ExecutionQueue.init [] 70 start-Holds

execute-runs_all_example :
    (q' : ExecutionQueue) × (execute 3 quiet (submit (some 71) one_submitted)
      ≡ some (70 ∷ 71 ∷ [], q'))
    × Order.Holds q' []
    × (q'.pending ≡ false)
execute-runs_all_example =
    execute-runs_all 3 (submit (some 71) one_submitted) (70 ∷ 71 ∷ []) (omega arith)
      (submit-Holds one_submitted (70 ∷ []) 71 one_submitted-Holds)
