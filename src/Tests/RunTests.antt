-- ===== src/Tests/RunTests.antt =====
-- A worker with 102 tasks in its queue, and two workers of which the other one has a task.
use mathlib.Core.List.{reverse, reverse-cons}
use cothread.Prelude.{
  ℕ, zero, suc, ◌+◌, ◌<◌, ◌≡◌, refl, none, some, List, [], ◌∷◌, arith, ◌==◌, if◌then◌else◌, length,
  length-append,
}
use cothread.TaskGroup
use cothread.StealQueue
use cothread.StealQueue.{StealQueue}
use cothread.StealQueue.Ring
use cothread.StealQueue.Owner.{push-Holds}
use cothread.GlobalQueue.{SharedMpscQueue}
use cothread.GlobalQueue.Shards
use cothread.Worker.{Worker}
use cothread.Worker.Run.{World, pick_task, drained, drain, drain_limit}
use cothread.Worker.Run.Pick.{Picks, pick_task-Picks}
use cothread.Worker.Run.Drain.{Has, drain-leaves_rest}

abbrev down : ℕ → List ℕ
down zero = []
down (suc k) = k ∷ down k

filled : ℕ → StealQueue
filled zero = StealQueue.init
filled (suc k) = StealQueue.push k (filled k)

length-down : (k : ℕ) → length (down k) ≡ k
length-down zero = refl
length-down (suc k) = omega (arith, length-down k)

filled-Holds :
    (k : ℕ) → k < 1000 → Ring.Holds (filled k) (reverse (down k)) × (length (reverse (down k)) ≡ k)
unfolding filled
filled-Holds zero h = (Ring.init-Holds, refl)
filled-Holds (suc k) h =
    let (v, e) = filled-Holds k (omega arith) in
    rw (reverse-cons k (down k)) (
      push-Holds (filled k) (reverse (down k)) k v (omega (arith, e)),
      omega (arith, e, length-append (reverse (down k)) (k ∷ [])),
    )

abbrev worker_of : StealQueue → Worker
worker_of q = record {
  id = 0;
  local_queue = q;
  current_task = none;
  local_batch = λ i. 0;
  batch_count = 0;
  stack_pool = λ i. 0;
  stack_pool_count = 0;
  task_cache = λ i. 0;
  task_cache_count = 0;
}

abbrev two_shards : SharedMpscQueue
two_shards = record {
  round_robin = 0;
  total_count = 0;
  worker_count = 2;
  heads = λ i. none;
  tails = λ i. none;
  next = λ i. none;
}

abbrev world : StealQueue → World
world q = record {
  worker = worker_of q;
  group = TaskGroup.init;
  global = two_shards;
  worker_count = 2;
  queues = λ i. if i == 1 then some (StealQueue.push 8 StealQueue.init) else none;
}

two_shards-Holds : Shards.Holds two_shards (λ i. [])
unfolding Shards.total
two_shards-Holds = record {
  shards = λ i h. record { chain = refl; ends = refl; distinct = tt };
  apart = λ i j a b ne. tt;
  counted = refl;
}

pick_task-Picks_example :
    Picks (world StealQueue.init) [] (λ i. []) (pick_task (world StealQueue.init))
pick_task-Picks_example =
    pick_task-Picks (world StealQueue.init) [] (λ i. []) Ring.init-Holds two_shards-Holds
      (omega arith) refl

many : Has (drain_limit + 2) (worker_of (filled 102))
many = record {
  queued = down 102;
  queue = (filled-Holds 102 (omega arith)).0;
  total = omega (arith, length-down 102);
}

drain-leaves_rest_example :
    (ts : List ℕ) × (after : World) × (drain
        (λ task v. v)
        (λ butex v. v)
        drain_limit
        (world (filled 102))
      ≡ drained ts after)
    × (length ts ≡ drain_limit)
    × Has 2 after.worker
drain-leaves_rest_example =
    drain-leaves_rest (λ task v. v) (λ butex v. v) 2 (world (filled 102)) (λ n task v h. h)
      (λ n butex v h. h) many
