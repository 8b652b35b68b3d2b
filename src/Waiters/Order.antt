-- ===== src/Waiters/Order.antt =====
-- The tasks that wait, in order, and what draining the queue does to them.
use cothread.Prelude.{
  ℕ, zero, suc, ◌<◌, ◌≡◌, refl, sym, ◌∙◌, ◌≢◌, true, false, Option, some, List, [], ◌∷◌, ◌++◌,
  append_assoc, append-nil, arith, length, All, All-append, Fresh,
}
use cothread.Task.{TaskState}
use cothread.MpscQueue.{MpscQueue, got, empty, spins}
use cothread.MpscQueue
use cothread.MpscQueue.Fifo.{pop-Pops, push-appends}
use cothread.MpscQueue.Fifo
use cothread.Waiters.{Waiters, park, resume, drain}

-- These tasks wait, the first one longest: enqueued, suspended and marked.
pub record Waits (e : Waiters) (tasks : List ℕ) : Type 0 where
  pub queued : Fifo.Holds e.waiter_queue tasks
  pub suspended :
      All (λ t. (e.task_state t ≡ TaskState.suspended) × (e.waiting_sync t ≡ true)) tasks

-- What became of a task.
abbrev pub IsReady : Waiters → ℕ → Type 0
IsReady e t = (e.task_state t ≡ TaskState.ready) × (e.waiting_sync t ≡ false)

-- The queue is drained, the tasks are ready and handed on in the order of their waits, and every other
-- task is as it was.
pub record Wakes (e : Waiters) (tasks : List ℕ) (r : Option Waiters) : Type 0 where
  pub after : Waiters
  pub returns : r ≡ some after
  pub drained : Fifo.Holds after.waiter_queue []
  pub in_order : after.resumed ≡ e.resumed ++ tasks
  pub ready : All (IsReady after) tasks
  pub others :
      (t : ℕ)
      → Fresh t tasks
      → (after.task_state t ≡ e.task_state t) × (after.waiting_sync t ≡ e.waiting_sync t)

drain-empty :
    (fuel : ℕ) (e : Waiters) → MpscQueue.pop e.waiter_queue ≡ empty → drain (suc fuel) e ≡ some e
unfolding drain
drain-empty fuel e p = rw (p, drain) refl

drain-got :
    (fuel : ℕ) (e : Waiters) (task : ℕ) (queue : MpscQueue)
    → MpscQueue.pop e.waiter_queue ≡ got task queue
    → drain (suc fuel) e ≡ drain fuel (resume task queue e)
unfolding drain
drain-got fuel e task queue p = rw (p, drain) refl

pub resumed_fields :
    (task t : ℕ) (queue : MpscQueue) (e : Waiters)
    → IsReady (resume task queue e) task
      × (task ≢ t
          → ((resume task queue e).task_state t ≡ e.task_state t)
            × ((resume task queue e).waiting_sync t ≡ e.waiting_sync t))
unfolding resume
resumed_fields task t queue e = ground arith

-- The loop, with more rounds allowed than tasks wait, resumes them all.
pub drain-Wakes :
    (fuel : ℕ) (e : Waiters) (tasks : List ℕ)
    → length tasks < fuel
    → Fifo.Holds e.waiter_queue tasks
    → Wakes e tasks (drain fuel e)
unfolding resume
drain-Wakes zero e tasks f v = absurd (omega arith)
drain-Wakes (suc fuel) e [] f v = rw (drain-empty fuel e (pop-Pops e.waiter_queue [] v)) (record {
  after = e;
  returns = refl;
  drained = v;
  in_order = sym (append-nil e.resumed);
  ready = tt;
  others = λ t h. (refl, refl);
})
drain-Wakes (suc fuel) e (x ∷ tasks) f v =
    let (queue, popped, left) = pop-Pops e.waiter_queue (x ∷ tasks) v in
    let w = drain-Wakes fuel (resume x queue e) tasks (omega arith) left in
    let own = w.others x v.distinct.0 in
    rw (drain-got fuel e x queue popped) (record {
      after = w.after;
      returns = w.returns;
      drained = w.drained;
      in_order = w.in_order ∙ append_assoc e.resumed (x ∷ []) tasks;
      ready = (
        (own.0 ∙ (resumed_fields x x queue e).0.0, own.1 ∙ (resumed_fields x x queue e).0.1),
        w.ready,
      );
      others = λ t h.
          let same = (resumed_fields x t queue e).1 h.0 in
          ((w.others t h.1).0 ∙ same.0, (w.others t h.1).1 ∙ same.1);
    })

others_suspended :
    (e : Waiters) (task : ℕ) (tasks : List ℕ)
    → Fresh task tasks
    → All (λ t. (e.task_state t ≡ TaskState.suspended) × (e.waiting_sync t ≡ true)) tasks
    → All
        (λ t.
          ((park task e).task_state t ≡ TaskState.suspended)
          × ((park task e).waiting_sync t ≡ true))
        tasks
unfolding park
others_suspended e task [] f a = tt
others_suspended e task (x ∷ tasks) f a =
    (ground (arith, a.0), others_suspended e task tasks f.1 a.1)

-- A task that parks waits behind the others.
pub park-Waits :
    (e : Waiters) (tasks : List ℕ) (task : ℕ)
    → Waits e tasks
    → Fresh task tasks
    → Waits (park task e) (tasks ++ task ∷ [])
unfolding park
park-Waits e tasks task v f = record {
  queued = push-appends e.waiter_queue tasks task v.queued f;
  suspended =
      All-append _ tasks (task ∷ []) (others_suspended e task tasks f v.suspended)
        (ground arith, tt);
}
