-- ===== src/Timer/Shard.antt =====
-- ProcessShard of src/bthread/detail/timer_thread.cpp: one shard's expired timers are run.
pub mod Process
pub mod Account
pub mod Stale
use mathlib.Core.Option
use cothread.Prelude.{
  ℕ, zero, suc, ◌-◌, ◌^◌, Option, none, some, List, [], ◌∷◌, map, leb, if◌then◌else◌,
}
use cothread.ObjectPool.{ObjectPool}
use cothread.ObjectPool
use cothread.Timer.Heap.{TimerEntry, shard_pop_from_heap}

abbrev pub int64_max : ℕ
int64_max = 2 ^ 63 - 1

-- A shard, with the pool of entries that all shards share.
pub record Shard : Type 0 where
  pub heap : List TimerEntry
  pub next_deadline : ℕ
  pub pool : ObjectPool

abbrev pub first_deadline : List TimerEntry → ℕ
first_deadline [] = int64_max
first_deadline (e ∷ heap) = e.deadline_us

-- The root taken off the heap, and given back to the pool.
unfoldable pub drop_root : TimerEntry → Shard → Shard
drop_root e s = record s {
  heap = shard_pop_from_heap s.heap;
  pool = ObjectPool.release (some e.addr) s.pool;
}

-- The same, with next_deadline brought up to date: what is done before a callback runs.
unfoldable pub expire_root : TimerEntry → Shard → Shard
expire_root e s = record s {
  heap = shard_pop_from_heap s.heap;
  next_deadline = first_deadline (shard_pop_from_heap s.heap);
  pool = ObjectPool.release (some e.addr) s.pool;
}

-- The loop, as the timers whose callbacks ran and the shard after it; `none` when the fuel ran out.
-- `effect e` is what becomes of the shard while it is unlocked for the callback of `e`: what the
-- callback and other threads do to it.
pub process_loop : ℕ → ℕ → (TimerEntry → Shard → Shard) → Shard → Option (List TimerEntry × Shard)
process_loop zero now effect s = none
process_loop (suc fuel) now effect s = elim s.heap [
  | [] ↦ some ([], s)
  | e ∷ rest ↦
      let cancelled_round = process_loop fuel now effect (drop_root e s) in
      let expired_round =
        Option.map (λ r. (e ∷ r.0, r.1))
          (process_loop fuel now effect (effect e (expire_root e s))) in
      if leb e.deadline_us now
      then if e.cancelled then cancelled_round else expired_round
      else some ([], s)
]

-- The last statement: next_deadline is brought up to date if timers are left.
unfoldable pub refresh_deadline : Shard → Shard
refresh_deadline s = elim s.heap [ [] ↦ s | e ∷ rest ↦ record s { next_deadline = e.deadline_us } ]

unfoldable pub process_shard :
    ℕ → ℕ → (TimerEntry → Shard → Shard) → Shard → Option (List TimerEntry × Shard)
process_shard fuel now effect s =
    Option.map (λ r. (r.0, refresh_deadline r.1)) (process_loop fuel now effect s)
