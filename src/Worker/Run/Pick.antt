-- ===== src/Worker/Run/Pick.antt =====
-- Which task PickTask takes.
use mathlib.Core.List.{reverse}
use cothread.Prelude.{
  ℕ, zero, suc, ◌+◌, ◌≤◌, ◌<◌, ◌≡◌, refl, sym, ap, subst, ◌∙◌, Option, none, some, List, [], ◌∷◌,
  ◌++◌, append_assoc, append-nil, arith, length, take, drop, length-append, update, update_self,
  update_ne,
}
use cothread.StealQueue.{StealQueue}
use cothread.StealQueue
use cothread.StealQueue.Ring
use cothread.StealQueue.Owner.{pop_multiple-reverse}
use cothread.GlobalQueue.{SharedMpscQueue, Taken, took, nothing, waits}
use cothread.GlobalQueue
use cothread.GlobalQueue.Shards
use cothread.GlobalQueue.Pop.{Takes, pop-Takes}
use cothread.Worker.{Worker, batch_size, fill, pooled_stacks, pick_local, steal_task}
use cothread.Worker.Steal.{Steals, steal_task-Steals}
use cothread.Worker.Run.{World, Picked, picks, finds_none, pick_shared, pick_after, pick_task}

pooled-update :
    (k i x : ℕ) (cells : ℕ → ℕ) → k ≤ i → pooled_stacks k (update cells i x) ≡ pooled_stacks k cells
unfolding pooled_stacks
pooled-update zero i x cells h = refl
pooled-update (suc k) i x cells h =
    rw (pooled-update k i x cells (omega arith), update_ne cells i k x (omega arith)) refl

pooled-fill_past :
    (k i : ℕ) (ts : List ℕ) (cells : ℕ → ℕ)
    → k ≤ i
    → pooled_stacks k (fill i ts cells) ≡ pooled_stacks k cells
unfolding fill
pooled-fill_past k i [] cells h = refl
pooled-fill_past k i (x ∷ ts) cells h =
    pooled-fill_past k (suc i) ts (update cells i x) (omega arith) ∙ pooled-update k i x cells h

-- The cells from `i` on are filled with the tasks, and those before it stay.
pooled-fill :
    (i n : ℕ) (ts more : List ℕ) (cells : ℕ → ℕ)
    → n ≡ i + length ts
    → pooled_stacks n (fill i (ts ++ more) cells) ≡ pooled_stacks i cells ++ ts
unfolding fill pooled_stacks
pooled-fill i n [] more cells e =
    let same : n ≡ i = omega arith in
    rw (append-nil, same) (pooled-fill_past i i more cells (omega arith))
pooled-fill i n (x ∷ ts) more cells e =
    pooled-fill (suc i) n ts more (update cells i x) (omega arith)
    ∙ ap (λ l. (l ++ update cells i x i ∷ []) ++ ts) (pooled-update i i x cells (omega arith))
    ∙ rw (update_self cells i x, append_assoc) refl

fill_last :
    (i n x : ℕ) (ts : List ℕ) (cells : ℕ → ℕ)
    → n ≡ i + length ts
    → fill i (ts ++ x ∷ []) cells n ≡ x
unfolding fill
fill_last i n x [] cells e = ground arith
fill_last i n x (y ∷ ts) cells e = fill_last (suc i) n x ts (update cells i y) (omega arith)

-- A list that is not empty has a last element.
pub last_of : (x : ℕ) (xs : List ℕ) → (ts : List ℕ) × (y : ℕ) × (x ∷ xs ≡ ts ++ y ∷ [])
last_of x [] = ([], x, refl)
last_of x (z ∷ xs) = let (ts, y, e) = last_of z xs in (x ∷ ts, y, ap (◌∷◌ x) e)

-- What the worker finds by itself, with `zs` in its queue, newest first: the newest task of its batch; or,
-- when that is empty, the oldest of the eight newest in its queue, the others of which make the new
-- batch, oldest last; or nothing, when both are empty.
pub data PicksLocal (w : Worker) (zs : List ℕ) : Option ℕ × Worker → Type 0 where
  top :
      (n : ℕ)
      → w.batch_count ≡ suc n
      → PicksLocal w zs (some (w.local_batch n), record w { batch_count = n })
  refilled :
      (ts : List ℕ) (task : ℕ) (u : Worker)
      → w.batch_count ≡ 0
      → take batch_size zs ≡ ts ++ task ∷ []
      → u.id ≡ w.id
      → u.batch_count ≡ length ts
      → pooled_stacks (length ts) u.local_batch ≡ ts
      → Ring.Holds u.local_queue (reverse (drop batch_size zs))
      → PicksLocal w zs (some task, u)
  bare :
      (u : Worker)
      → w.batch_count ≡ 0
      → zs ≡ []
      → u.id ≡ w.id
      → u.batch_count ≡ 0
      → Ring.Holds u.local_queue []
      → PicksLocal w zs (none, u)

pick_top :
    (w : Worker) (n : ℕ)
    → w.batch_count ≡ suc n
    → pick_local w ≡ (some (w.local_batch n), record w { batch_count = n })
unfolding pick_local
pick_top w n e = ground arith

popped : Worker → List ℕ
popped w = (StealQueue.pop_multiple batch_size w.local_queue).0

pick_bare :
    (w : Worker)
    → w.batch_count ≡ 0
    → popped w ≡ []
    → pick_local w
      ≡ (none, record w { local_queue = (StealQueue.pop_multiple batch_size w.local_queue).1 })
unfolding pick_local popped
pick_bare w e p = ground arith

pick_refilled :
    (w : Worker) (ts : List ℕ) (task : ℕ)
    → w.batch_count ≡ 0
    → popped w ≡ ts ++ task ∷ []
    → pick_local w ≡ (
      some task,
      record w {
        local_queue = (StealQueue.pop_multiple batch_size w.local_queue).1;
        local_batch = fill 0 (ts ++ task ∷ []) w.local_batch;
        batch_count = length ts;
      },
    )
unfolding pick_local popped
pick_refilled w ts task e p =
    let size = length-append ts (task ∷ []) in
    ground (arith, fill_last 0 (length ts) task ts w.local_batch (omega arith), size)

from_popped :
    (w : Worker) (zs l : List ℕ)
    → w.batch_count ≡ 0
    → popped w ≡ l
    → take batch_size zs ≡ l
    → Ring.Holds (StealQueue.pop_multiple batch_size w.local_queue).1 (reverse (drop batch_size zs))
    → PicksLocal w zs (pick_local w)
unfolding pooled_stacks
from_popped w [] l e p t v = rw (pick_bare w e (p ∙ sym t)) (bare _ e refl refl e v)
from_popped w (z ∷ zs) [] e p t v = absurd (ground arith)
from_popped w (z ∷ zs) (x ∷ l) e p t v =
    let (ts, task, q) = last_of x l in
    rw (pick_refilled w ts task e (p ∙ q)) (
      refilled ts task _ e (t ∙ q) refl refl
        (pooled-fill 0 (length ts) ts (task ∷ []) w.local_batch (omega arith)) v)

pub pick_local-Picks :
    (w : Worker) (zs : List ℕ) (n : ℕ)
    → w.batch_count ≡ n
    → Ring.Holds w.local_queue (reverse zs)
    → PicksLocal w zs (pick_local w)
unfolding popped
pick_local-Picks w zs zero e v =
    let (p, h) = pop_multiple-reverse batch_size w.local_queue zs v in
    from_popped w zs (take batch_size zs) e p refl h
pick_local-Picks w zs (suc n) e v = rw (pick_top w n e) (top n e)

-- What PickTask finds, with `zs` in the worker's queue, newest first, and `xs i` in the shard `i` of the
-- global queue: what the worker finds by itself; only when that is nothing, what the global queue gives;
-- and only when that is nothing too, what it steals, or no task.
pub data Picks (v : World) (zs : List ℕ) (xs : ℕ → List ℕ) : Picked → Type 0 where
  own :
      (task : ℕ) (w : Worker)
      → PicksLocal v.worker zs (some task, w)
      → Picks v zs xs (picks task (record v { worker = w }))
  shared :
      (task : ℕ) (w : Worker) (q : SharedMpscQueue)
      → PicksLocal v.worker zs (none, w)
      → Takes v.global xs v.worker.id (took task q)
      → Picks v zs xs (picks task (record v { worker = w; global = q }))
  stolen :
      (task victim : ℕ) (w : Worker) (q : StealQueue)
      → PicksLocal v.worker zs (none, w)
      → Takes v.global xs v.worker.id nothing
      → Steals v.worker.id v.worker_count v.queues (some (task, victim, q))
      → Picks v zs xs
          (picks task (record v { worker = w; queues = update v.queues victim (some q) }))
  none_anywhere :
      (w : Worker)
      → PicksLocal v.worker zs (none, w)
      → Takes v.global xs v.worker.id nothing
      → Steals v.worker.id v.worker_count v.queues none
      → Picks v zs xs (finds_none (record v { worker = w }))

id_of_bare : (w u : Worker) (zs : List ℕ) (o : Option ℕ) → PicksLocal w zs (o, u) → u.id ≡ w.id
id_of_bare w _ zs _ (top n e) = refl
id_of_bare w _ zs _ (refilled ts task u e t i c p h) = i
id_of_bare w _ zs _ (bare u e z i c h) = i

from_others :
    (v : World) (zs : List ℕ) (xs : ℕ → List ℕ) (w : Worker) (r : Option (ℕ × ℕ × StealQueue))
    → PicksLocal v.worker zs (none, w)
    → Takes v.global xs v.worker.id nothing
    → Steals v.worker.id v.worker_count v.queues r
    → Picks v zs xs (elim r [
      | none ↦ finds_none (record v { worker = w })
      | some (task, victim, q) ↦
          picks task (record v { worker = w; queues = update v.queues victim (some q) })
    ])
from_others v zs xs w none l g s = none_anywhere w l g s
from_others v zs xs w (some (task, victim, q)) l g s = stolen task victim w q l g s

from_shared :
    (v : World) (zs : List ℕ) (xs : ℕ → List ℕ) (w : Worker) (r : Taken)
    → w.id ≡ v.worker.id
    → PicksLocal v.worker zs (none, w)
    → v.worker.id < v.worker_count
    → GlobalQueue.pop w.id v.global ≡ r
    → Takes v.global xs v.worker.id r
    → Picks v zs xs (pick_shared (record v { worker = w }))
unfolding pick_shared
from_shared v zs xs w (took task q) same l h e t = rw (e, pick_shared) (shared task w q l t)
from_shared v zs xs w nothing same l h e t =
    rw (e, pick_shared)
      (from_others v zs xs w (steal_task w.id v.worker_count v.queues) l t (
        subst
          (λ i. Steals v.worker.id v.worker_count v.queues (steal_task i v.worker_count v.queues))
          (sym same) (steal_task-Steals v.worker.id v.worker_count v.queues h)))
from_shared v zs xs w waits same l h e t = elim t [ ]

from_any :
    (v : World) (zs : List ℕ) (xs : ℕ → List ℕ) (r : Option ℕ × Worker)
    → PicksLocal v.worker zs r
    → v.worker.id < v.worker_count
    → Takes v.global xs v.worker.id (GlobalQueue.pop v.worker.id v.global)
    → Picks v zs xs (pick_after r v)
unfolding pick_after
from_any v zs xs (some task, w) l h t = own task w l
from_any v zs xs (none, w) l h t =
    let same = id_of_bare v.worker w zs none l in
    from_shared v zs xs w (GlobalQueue.pop v.worker.id v.global) same l h
      (ap (λ i. GlobalQueue.pop i v.global) same) t

-- PickTask, with no push to the global queue under way, never waits, and takes a task of the worker's own
-- if it has one, or else one of the global queue, or else one of another worker; it comes back without
-- a task only if the batch, the worker's queue, every shard and the queue of every other worker are empty.
pub pick_task-Picks :
    (v : World) (zs : List ℕ) (xs : ℕ → List ℕ)
    → Ring.Holds v.worker.local_queue (reverse zs)
    → Shards.Holds v.global xs
    → v.worker.id < v.worker_count
    → v.worker_count ≡ v.global.worker_count
    → Picks v zs xs (pick_task v)
unfolding pick_task
pick_task-Picks v zs xs q g h e =
    from_any v zs xs (pick_local v.worker)
      (pick_local-Picks v.worker zs v.worker.batch_count refl q) h
      (pop-Takes v.global xs v.worker.id g (omega (arith, e)))
