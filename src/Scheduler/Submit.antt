-- ===== src/Scheduler/Submit.antt =====
-- Where Submit puts a task, and whom it wakes.
use cothread.Prelude.{
  ℕ, suc, ◌^◌, ◌<◌, ◌≡◌, refl, sym, ap, subst, ◌∙◌, ◌≢◌, true, Option, none, some, List, [], ◌∷◌,
  ◌++◌, arith, length, take, drop, Fresh, update, update_self, update_ne,
}
use cothread.Task.{TaskState}
use cothread.StealQueue.{StealQueue, capacity}
use cothread.StealQueue
use cothread.StealQueue.Ring
use cothread.StealQueue.Owner.{push-Holds}
use cothread.GlobalQueue.{SharedMpscQueue}
use cothread.GlobalQueue
use cothread.GlobalQueue.Shards
use cothread.GlobalQueue.Push.{turn, push-joins}
use cothread.IdleRegistry.Stack
use cothread.IdleRegistry.Stack.{wake_idle_workers-Holds}
use cothread.Scheduler.{Scheduler, chosen, wake_idle, enqueue, submit}

-- What Submit does apart from the queue: the task is ready, the worker that registered last as idle is
-- woken, and no other task is changed.
pub record Announces (task : ℕ) (idle : List ℕ) (s t : Scheduler) : Type 0 where
  pub ready : (t.tasks task).state ≡ TaskState.ready
  pub others : (u : ℕ) → task ≢ u → t.tasks u ≡ s.tasks u
  pub woken : t.woken ≡ s.woken ++ chosen s.workers_atomic (take 1 idle)
  pub idle_left : Stack.Holds t.idle (drop 1 idle)

abbrev pub made_ready : ℕ → Scheduler → Scheduler
made_ready task s = record s {
  tasks = update s.tasks task (record (s.tasks task) { state = TaskState.ready });
}

wake_idle-Announces :
    (task : ℕ) (idle : List ℕ) (s t : Scheduler)
    → Stack.Holds s.idle idle
    → t.idle ≡ s.idle
    → t.woken ≡ s.woken
    → t.workers_atomic ≡ s.workers_atomic
    → t.tasks ≡ (made_ready task s).tasks
    → Announces task idle s (wake_idle 1 t)
unfolding wake_idle
wake_idle-Announces task idle s t v i w a e =
    let (ids, left) =
      wake_idle_workers-Holds 1 t.idle idle (subst (λ r. Stack.Holds r idle) (sym i) v) in
    record {
      ready = ap (λ f. (f task).state) e ∙ ground arith;
      others = λ u d. ap (λ f. f u) e ∙ update_ne s.tasks task u _ d;
      woken =
          ap (λ l. t.woken ++ chosen t.workers_atomic l) ids
          ∙ ap (λ l. l ++ chosen t.workers_atomic (take 1 idle)) w
          ∙ ap (λ f. s.woken ++ chosen f (take 1 idle)) a;
      idle_left = left;
    }

-- A worker that submits a task keeps it in its own queue, as the newest one, while that queue has room;
-- the queues of the others and the global one stay as they are.
pub submit-local :
    (hardware w task : ℕ) (s : Scheduler) (xs idle : List ℕ)
    → s.initialized ≡ true
    → Ring.Holds (s.local_queues w) xs
    → suc (length xs) < capacity
    → Stack.Holds s.idle idle
    → (t : Scheduler) × (submit hardware (some w) task s ≡ some t)
      × Ring.Holds (t.local_queues w) (xs ++ task ∷ [])
      × ((v : ℕ) → w ≢ v → t.local_queues v ≡ s.local_queues v)
      × (t.global_queue ≡ s.global_queue)
      × Announces task idle s t
unfolding submit enqueue wake_idle
submit-local hardware w task s xs idle i h r v =
    let queue = StealQueue.push task (s.local_queues w) in
    let t = record (made_ready task s) { local_queues = update s.local_queues w queue } in
    (
      wake_idle 1 t,
      rw i refl,
      rw (update_self s.local_queues w queue) (push-Holds (s.local_queues w) xs task h r),
      λ u d. update_ne s.local_queues w u queue d,
      refl,
      wake_idle-Announces task idle s t v refl refl refl refl,
    )

pub submit_initialized :
    (hardware : ℕ) (current : Option ℕ) (task : ℕ) (s : Scheduler)
    → s.initialized ≡ true
    → submit hardware current task s ≡ enqueue current task s
unfolding submit
submit_initialized hardware current task s i = simp i

pub enqueue_global :
    (task : ℕ) (s : Scheduler) (queue : SharedMpscQueue)
    → GlobalQueue.push task s.global_queue ≡ some queue
    → enqueue none task s ≡ some (wake_idle 1 (record (made_ready task s) { global_queue = queue }))
unfolding enqueue
enqueue_global task s queue e = rw (e, enqueue) refl

-- A thread that is no worker submits to the shard of the global queue whose turn it is.
submit-global :
    (hardware task : ℕ) (s : Scheduler) (xs : ℕ → List ℕ) (idle : List ℕ)
    → s.initialized ≡ true
    → 0 < s.global_queue.worker_count
    → s.global_queue.round_robin < 2 ^ 31
    → Shards.Holds s.global_queue xs
    → ((i : ℕ) → i < s.global_queue.worker_count → Fresh task (xs i))
    → Stack.Holds s.idle idle
    → (t : Scheduler) × (submit hardware none task s ≡ some t)
      × Shards.Holds t.global_queue
          (update xs (turn s.global_queue) (xs (turn s.global_queue) ++ task ∷ []))
      × (t.local_queues ≡ s.local_queues)
      × Announces task idle s t
unfolding wake_idle
submit-global hardware task s xs idle i p r h f v =
    let (queue, pushed, joined) = push-joins task s.global_queue xs p r h f in
    let t = record (made_ready task s) { global_queue = queue } in
    (
      wake_idle 1 t,
      submit_initialized hardware none task s i ∙ enqueue_global task s queue pushed,
      joined,
      refl,
      wake_idle-Announces task idle s t v refl refl refl refl,
    )
