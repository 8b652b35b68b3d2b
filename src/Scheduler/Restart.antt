-- ===== src/Scheduler/Restart.antt =====
-- The scheduler's start and its end.
use cothread.Prelude.{
  ℕ, ◌+◌, ◌≤◌, ◌<◌, ◌≡◌, refl, true, false, ◌||◌, Option, none, some, List, [], ◌∷◌, ◌++◌, arith,
  ltb, if◌then◌else◌, length,
}
use cothread.GlobalQueue.{SharedMpscQueue}
use cothread.GlobalQueue
use cothread.StealQueue
use cothread.GlobalQueue.Push.{pushed}
use cothread.Scheduler.{
  Scheduler, max_workers, count_of, ids_from, start_workers, init, submit, get_worker,
}

-- What the first Init makes: `n` workers.
pub record Starts (n : ℕ) (s t : Scheduler) : Type 0 where
  pub workers : t.workers ≡ s.workers ++ ids_from 0 n
  pub found : (i : ℕ) → i < n → get_worker i t ≡ some i
  pub counted : (t.worker_count ≡ n) × (t.group_count ≡ n) × (t.global_queue.worker_count ≡ n)
  pub runs : (t.running ≡ true) × (t.initialized ≡ true) × (t.init_done ≡ true)

start_some : (n : ℕ) (s : Scheduler) → n ≤ max_workers → ltb max_workers n ≡ false
start_some n s h = ground arith

-- The first Init starts the configured number of workers, or one for each processor, if they are at most
-- 256; each is found under its id, and the global queue has one shard for each.
pub init-Starts :
    (hardware : ℕ) (s : Scheduler)
    → s.init_done ≡ false
    → count_of hardware s.configured_count ≤ max_workers
    → (t : Scheduler) × (init hardware s ≡ some t)
      × Starts (count_of hardware s.configured_count) s t
unfolding init start_workers get_worker GlobalQueue.init
init-Starts hardware s d h =
    let n = count_of hardware s.configured_count in
    let fits = start_some n s h in
    (
      record s {
        running = true;
        workers = s.workers ++ ids_from 0 n;
        workers_atomic = λ i. ltb i n || s.workers_atomic i;
        local_queues = λ i. if ltb i n then StealQueue.init else s.local_queues i;
        worker_count = n;
        group_count = n;
        global_queue = GlobalQueue.init n s.global_queue;
        init_done = true;
        initialized = true;
      },
      simp (d, fits),
      record {
        workers = refl;
        found = λ i l. ground arith;
        counted = (refl, refl, refl);
        runs = (refl, refl, refl);
      },
    )

-- What later operations leave as it is.
record Kept (s t : Scheduler) : Type 0 where
  running : t.running ≡ s.running
  init_done : t.init_done ≡ s.init_done
  initialized : t.initialized ≡ s.initialized
  workers_atomic : t.workers_atomic ≡ s.workers_atomic
  shards : t.global_queue.worker_count ≡ s.global_queue.worker_count

-- A call from a thread that is no worker that returns, after `k` pushes to the global queue.
record Continues (k : ℕ) (s : Scheduler) (r : Option Scheduler) : Type 0 where
  after : Scheduler
  returns : r ≡ some after
  kept : Kept s after
  turns : after.global_queue.round_robin ≡ s.global_queue.round_robin + k

-- How many tasks all attempts find.
abbrev pub length_all : List (List ℕ) → ℕ
length_all [] = 0
length_all (ts ∷ rest) = length ts + length_all rest

-- The state that Shutdown leaves, and what it cannot undo.
pub record Ends (s t : Scheduler) : Type 0 where
  pub stopped : t.running ≡ false
  pub no_workers : (t.workers ≡ []) × (t.worker_count ≡ 0)
  pub no_restart : (hardware count : ℕ) → init hardware t ≡ some t
  pub accepts :
      (hardware task : ℕ)
      → (u : Scheduler) × (submit hardware none task t ≡ some u)
        × (u.global_queue ≡ pushed task t.global_queue)
  pub dangling : (i : ℕ) → get_worker i t ≡ get_worker i s
