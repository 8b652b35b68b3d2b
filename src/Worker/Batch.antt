-- ===== src/Worker/Batch.antt =====
-- The batch: its bounds, and what a yield leads to.
use cothread.Prelude.{
  ℕ, zero, suc, ◌+◌, ◌≤◌, ◌<◌, ◌≡◌, ◌⊎◌, inl, inr, true, false, ◌&&◌, some, arith, ◌==◌, Bool-cases,
  length, update,
}
use cothread.StealQueue
use cothread.StealQueue.{StealQueue}
use cothread.Worker.{
  Worker, batch_size, maybe_flush_batch, Yielded, einval, stays, suspends, overruns, yield_current,
  pick_local,
}

-- What a worker may rely on while it runs a task: a cell of the batch is free.
abbrev pub HasRoom : Worker → Type 0
HasRoom w = w.batch_count < batch_size

length-pop_multiple : (k : ℕ) (q : StealQueue) → length (StealQueue.pop_multiple k q).0 ≤ k
unfolding StealQueue.pop_multiple
length-pop_multiple zero q = omega arith
length-pop_multiple (suc k) q = ground (arith, length-pop_multiple k (StealQueue.pop q).1)

-- Whatever a worker picks, a cell of its batch is free when the task runs.
pick_local-HasRoom : (w : Worker) → w.batch_count ≤ batch_size → HasRoom (pick_local w).1
unfolding pick_local
pick_local-HasRoom w h = ground (arith, length-pop_multiple batch_size w.local_queue)

-- A yield stayed inside the batch, and left a free cell.
abbrev pub Fits : Yielded → Type 0
Fits einval = Unit
Fits stays = Unit
Fits (suspends u) = HasRoom u
Fits overruns = false ≡ true

-- With a free cell a yield stays inside the batch, and leaves a free cell again.
yield_current-HasRoom : (w : Worker) → HasRoom w → Fits (yield_current w)
unfolding yield_current maybe_flush_batch
yield_current-HasRoom w h = ground arith

-- A task that yields, with fewer than seven tasks in the batch, is the task that its worker picks
-- next: no other task runs in between, whatever waits in the batch and in the queue.
yield_current-picks_self :
    (w : Worker) (task : ℕ)
    → w.current_task ≡ some task
    → w.batch_count + 1 < batch_size
    → (yield_current w ≡ stays)
      ⊎ ((u : Worker) × (yield_current w ≡ suspends u) × ((pick_local u).0 ≡ some task))
unfolding yield_current maybe_flush_batch pick_local
yield_current-picks_self w task e h =
    elim (Bool-cases (w.batch_count == 0 && StealQueue.is_empty w.local_queue)) [
      | inl alone ↦ inl (ground arith)
      | inr more ↦ inr (
        record w {
          local_batch = update w.local_batch w.batch_count task;
          batch_count = w.batch_count + 1;
        },
        ground arith,
        ground arith,
      )
    ]
