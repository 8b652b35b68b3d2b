-- ===== src/Timer/Thread.antt =====
-- The timer thread's operations: Init, Schedule, Cancel, Stop and the rounds of TimerThreadMain in
-- src/bthread/detail/timer_thread.cpp. The clock is an argument of each reading. Every mutex is taken
-- and released within one operation.
pub mod Wait
pub mod Books
pub mod Invariant
pub mod Withdraw
use mathlib.Core.Option
use cothread.Prelude.{
  ℕ, zero, suc, ◌+◌, ◌-◌, ◌*◌, ◌/◌, min, Bool, true, false, not, ◌||◌, Option, none, some, List, [],
  ◌∷◌, ◌++◌, map, ltb, leb, ◌==◌, if◌then◌else◌, update, u32, int_rem,
}
use cothread.ObjectPool.{ObjectPool}
use cothread.ObjectPool
use cothread.Timer.Heap.{TimerEntry, push_entry, add_to_heap}
use cothread.Timer.Shard.{Shard, int64_max, process_shard}

abbrev pub max_shards : ℕ
max_shards = 256

-- `heaps` and `next_deadlines` are the fields of the shards; `heap` is heap_. `next_id`,
-- `shard_assign` and `wakeup_futex` are the bit patterns of an atomic int.
pub record TimerThread : Type 0 where
  pub heaps : ℕ → List TimerEntry
  pub next_deadlines : ℕ → ℕ
  pub shard_assign : ℕ
  pub worker_count : ℕ
  pub heap : List TimerEntry
  pub running : Bool
  pub wakeup_futex : ℕ
  pub next_id : ℕ
  pub entry_pool : ObjectPool

unfoldable pub new_timer_thread : ObjectPool → TimerThread
new_timer_thread pool = record {
  heaps = λ _. [];
  next_deadlines = λ _. int64_max;
  shard_assign = 0;
  worker_count = 0;
  heap = [];
  running = false;
  wakeup_futex = 0;
  next_id = 0;
  entry_pool = pool;
}

-- At least one shard, at most `max_shards`; a negative count is taken like 0.
unfoldable pub init : ℕ → TimerThread → TimerThread
init count t = record t {
  worker_count = if min count max_shards == 0 then 1 else min count max_shards;
}

-- The shard `i`, with the pool.
unfoldable pub shard_of : ℕ → TimerThread → Shard
shard_of i t = record { heap = t.heaps i; next_deadline = t.next_deadlines i; pool = t.entry_pool }

unfoldable pub put_shard : ℕ → Shard → TimerThread → TimerThread
put_shard i s t = record t {
  heaps = update t.heaps i s.heap;
  next_deadlines = update t.next_deadlines i s.next_deadline;
  entry_pool = s.pool;
}

-- A timespec of a delay that is not negative.
pub record Delay : Type 0 where
  pub tv_sec : ℕ
  pub tv_nsec : ℕ

abbrev pub delay_us : Delay → ℕ
delay_us d = d.tv_sec * 1000000 + d.tv_nsec / 1000

-- -1 for a null delay; the id; or a write outside shards_.
pub data Scheduled : Type 0 where
  refused : Scheduled
  scheduled : ℕ → TimerThread → Scheduled
  outside : Scheduled

-- The entry joins the shard, and next_deadline falls to its deadline if that is earlier.
unfoldable pub insert_entry : TimerEntry → Shard → Shard
insert_entry e s = record s {
  heap = push_entry e s.heap;
  next_deadline = if ltb e.deadline_us s.next_deadline then e.deadline_us else s.next_deadline;
}

-- An entry from the pool, with its fields set, and the thread after next_id is counted up.
unfoldable pub new_entry : ℕ → ℕ → ℕ → Delay → TimerThread → TimerEntry × TimerThread
new_entry now callback arg d t =
    let (addr, pool) = ObjectPool.acquire t.entry_pool in
    (
      record {
        addr = addr;
        callback = callback;
        arg = arg;
        deadline_us = now + delay_us d;
        id = t.next_id;
        cancelled = false;
      },
      record t { next_id = u32 (t.next_id + 1); entry_pool = pool },
    )

-- `Schedule` at the time `now`: round robin over the shards, or the global heap before `Init`.
unfoldable pub schedule : ℕ → ℕ → ℕ → Option Delay → TimerThread → Scheduled
schedule now callback arg none t = refused
schedule now callback arg (some d) t =
    let (e, t') = new_entry now callback arg d t in
    if t.worker_count == 0
    then scheduled e.id (record t' { heap = add_to_heap e t'.heap })
    else elim (int_rem t'.shard_assign t'.worker_count) [
      | none ↦ outside
      | some i ↦
          let t'' = record t' { shard_assign = u32 (t'.shard_assign + 1) } in
          scheduled e.id (put_shard i (insert_entry e (shard_of i t'')) t'')
    ]

-- The first entry with the id is marked; `none` when there is none.
unfoldable pub mark_cancelled : ℕ → List TimerEntry → Option (List TimerEntry)
mark_cancelled id [] = none
mark_cancelled id (e ∷ heap) =
    let rest = Option.map (◌∷◌ e) (mark_cancelled id heap) in
    if e.id == id then some (record e { cancelled = true } ∷ heap) else rest

-- The search of `Cancel` through `k` shards from shard `i` on.
unfoldable pub cancel_from : ℕ → ℕ → ℕ → TimerThread → Bool × TimerThread
cancel_from zero i id t = (false, t)
cancel_from (suc k) i id t =
    let rest = cancel_from k (suc i) id t in
    elim (mark_cancelled id (t.heaps i)) [
      | none ↦ rest
      | some heap ↦ (true, record t { heaps = update t.heaps i heap })
    ]

unfoldable pub cancel : ℕ → TimerThread → Bool × TimerThread
cancel id t =
    if t.worker_count == 0
    then elim (mark_cancelled id t.heap) [
      | none ↦ (false, t)
      | some heap ↦ (true, record t { heap = heap })
    ]
    else cancel_from t.worker_count 0 id t

-- Every entry of a heap goes back to the pool.
unfoldable pub release_all : List TimerEntry → ObjectPool → ObjectPool
release_all [] pool = pool
release_all (e ∷ heap) pool = release_all heap (ObjectPool.release (some e.addr) pool)

unfoldable pub clear_from : ℕ → ℕ → TimerThread → TimerThread
clear_from zero i t = t
clear_from (suc k) i t =
    clear_from k (suc i)
      (record t { heaps = update t.heaps i []; entry_pool = release_all (t.heaps i) t.entry_pool })

-- `Stop`, which joins the thread before it clears the heaps.
unfoldable pub stop : TimerThread → TimerThread
stop t =
    let t' = record t { running = false; wakeup_futex = u32 (t.wakeup_futex + 1) } in
    if not t.running
    then t
    else if t.worker_count == 0
    then record t' { heap = []; entry_pool = release_all t.heap t.entry_pool }
    else clear_from t.worker_count 0 t'

-- The walk of TimerThreadMain over `k` shards from shard `i` on, in a round that began at `now`, with
-- the least deadline so far; the clock reads `clock i` when shard `i` is processed. The result is
-- the least deadline and the callbacks that ran; `none` when a shard's fuel ran out.
pub walk_shards :
    ℕ
    → ℕ
    → ℕ
    → ℕ
    → (ℕ → ℕ)
    → (TimerEntry → Shard → Shard)
    → ℕ
    → TimerThread
    → Option (ℕ × List TimerEntry × TimerThread)
walk_shards zero i fuel now clock effect least t = some (least, [], t)
walk_shards (suc k) i fuel now clock effect least t =
    let least' : ℕ = min (t.next_deadlines i) least in
    let skip = walk_shards k (suc i) fuel now clock effect least' t in
    let run = Option.bind (process_shard fuel (clock i) effect (shard_of i t)) λ r.
      let t' = put_shard i r.1 t in
      Option.map (λ q. (q.0, r.0 ++ q.1, q.2))
        (walk_shards k (suc i) fuel now clock effect (min (t'.next_deadlines i) least') t') in
    if leb (t.next_deadlines i) now then run else skip

-- How long the thread sleeps after a round.
unfoldable pub sleep_us : ℕ → ℕ → ℕ
sleep_us now least = if leb least now || least == int64_max then 100000 else least - now

-- One round in the sharded mode: the callbacks that ran, and the time to sleep.
unfoldable pub round :
    ℕ
    → ℕ
    → (ℕ → ℕ)
    → (TimerEntry → Shard → Shard)
    → TimerThread
    → Option (ℕ × List TimerEntry × TimerThread)
round fuel now clock effect t =
    Option.map (λ q. (sleep_us now q.0, q.1, q.2))
      (walk_shards t.worker_count 0 fuel now clock effect int64_max t)
