-- ===== src/GlobalQueue.antt =====
-- include/bthread/queue/shared_mpsc_queue.hpp and src/bthread/queue/shared_mpsc_queue.cpp: the scheduler's
-- queue of tasks, one MpscQueue for each worker. The tasks of all shards share the link field `next`;
-- `round_robin` and `total_count` are the bit patterns of an int. Each operation runs by itself.
pub mod Shards
pub mod Push
pub mod Pop
use cothread.Prelude.{
  ℕ, zero, suc, ◌+◌, ◌-◌, ◌^◌, Bool, Option, none, some, ltb, ◌==◌, if◌then◌else◌, update, u32,
  int_rem,
}
use cothread.MpscQueue.{MpscQueue, Popped, got, empty, spins}
use cothread.MpscQueue

pub record SharedMpscQueue : Type 0 where
  pub round_robin : ℕ
  pub total_count : ℕ
  pub worker_count : ℕ
  pub heads : ℕ → Option ℕ
  pub tails : ℕ → Option ℕ
  pub next : ℕ → Option ℕ

abbrev pub shard : ℕ → SharedMpscQueue → MpscQueue
shard i q = record { head = q.heads i; tail = q.tails i; next = q.next }

unfoldable pub put : ℕ → MpscQueue → SharedMpscQueue → SharedMpscQueue
put i m q = record q {
  heads = update q.heads i m.head;
  tails = update q.tails i m.tail;
  next = m.next;
}

-- `Init`.
unfoldable pub init : ℕ → SharedMpscQueue → SharedMpscQueue
init worker_count q = record q { worker_count = worker_count }

-- `none` is a fault: a division by no shards, or a negative index of the array.
unfoldable pub push : ℕ → SharedMpscQueue → Option SharedMpscQueue
push task q = if q.worker_count == 0 then none else elim (int_rem q.round_robin q.worker_count) [
  | none ↦ none
  | some i ↦ some (record (put i (MpscQueue.push task (shard i q)) q) {
    round_robin = u32 (q.round_robin + 1);
    total_count = u32 (q.total_count + 1);
  })
]

-- A task taken, no task, or a wait for a push that is under way.
pub data Taken : Type 0 where
  took : ℕ → SharedMpscQueue → Taken
  nothing : Taken
  waits : Taken

-- One shard's pop, with `rest` for when it is empty.
unfoldable pub take_or : ℕ → SharedMpscQueue → Taken → Taken
take_or i q rest = elim (MpscQueue.pop (shard i q)) [
  | got task m ↦ took task (record (put i m q) { total_count = u32 (q.total_count + 2 ^ 32 - 1) })
  | empty ↦ rest
  | spins ↦ waits
]

-- The other shards, `k` of them from `i` on.
unfoldable pub steal_shards : ℕ → ℕ → ℕ → SharedMpscQueue → Taken
steal_shards zero i worker_id q = nothing
steal_shards (suc k) i worker_id q =
    let rest = steal_shards k (suc i) worker_id q in
    if i == worker_id then rest else take_or i q rest

unfoldable pub pop : ℕ → SharedMpscQueue → Taken
pop worker_id q =
    let rest = steal_shards q.worker_count 0 worker_id q in
    if ltb worker_id q.worker_count then take_or worker_id q rest else rest

unfoldable pub is_empty : SharedMpscQueue → Bool
is_empty q = q.total_count == 0
