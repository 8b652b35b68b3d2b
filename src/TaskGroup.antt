-- ===== src/TaskGroup.antt =====
-- src/bthread/core/task_group.cpp and include/bthread/core/task_group.hpp: the pool of TaskMetas, its
-- free list of slots, and the ids made of a slot and a generation. Each operation is one that no
-- other thread interleaves with, so a compare-exchange succeeds at its first attempt.
pub mod Valid
pub mod Alloc
pub mod Suspended
pub mod Ids
pub mod Clean
use cothread.Prelude.{
  ℕ, zero, suc, ◌+◌, ◌*◌, ◌/◌, ◌%◌, ◌^◌, min, Bool, true, false, Option, none, some, List, [], ◌∷◌,
  ltb, ◌==◌, if◌then◌else◌, u32, update,
}
use cothread.Task.{TaskMeta, TaskState, new_task_meta, state_eq}

abbrev pub pool_size : ℕ
pool_size = 16384

pub record TaskGroup : Type 0 where
  pub task_pool : ℕ → Option TaskMeta
  pub free_slots : ℕ → Option ℕ
  pub free_head : Option ℕ
  pub generations : ℕ → ℕ
  pub worker_count : ℕ

-- The constructor.
unfoldable pub init : TaskGroup
init = record {
  task_pool = λ _. none;
  free_slots = λ i. if i + 1 == pool_size then none else some (i + 1);
  free_head = some 0;
  generations = λ _. 1;
  worker_count = 0;
}

-- The TaskMeta in a cell of the pool, or a new one.
abbrev pub meta_or_new : Option TaskMeta → TaskMeta
meta_or_new none = new_task_meta
meta_or_new (some meta) = meta

-- The TaskMeta of a slot, made when there is none, under the slot's present generation.
unfoldable pub refresh : ℕ → TaskGroup → TaskGroup
refresh slot g = record g {
  task_pool = update g.task_pool slot (
      some (record (meta_or_new (g.task_pool slot)) {
        slot_index = slot;
        generation = g.generations slot;
      }));
}

unfoldable pub alloc_task_meta : TaskGroup → Option (ℕ × TaskGroup)
alloc_task_meta g = elim g.free_head [
  | none ↦ none
  | some slot ↦ some (slot, refresh slot (record g { free_head = g.free_slots slot }))
]

-- The walk along the free list: the slots passed, at most `k`, and the place where it stops.
unfoldable pub collect : ℕ → (ℕ → Option ℕ) → Option ℕ → List ℕ × Option ℕ
collect zero next current = ([], current)
collect (suc k) next none = ([], none)
collect (suc k) next (some c) =
    let (found, current) = collect k next (next c) in (c ∷ found, current)

-- The slots written to the buffer, which is not null, for a `count` that is not negative.
unfoldable pub alloc_multiple_slots : ℕ → TaskGroup → List ℕ × TaskGroup
alloc_multiple_slots zero g = ([], g)
alloc_multiple_slots (suc c) g = elim g.free_head [
  | none ↦ ([], g)
  | some head ↦
      let (found, new_head) = collect (min (suc c) 16) g.free_slots (some head) in
      (found, record g { free_head = new_head })
]

unfoldable pub get_or_create_task_meta : ℕ → TaskGroup → Option ℕ × TaskGroup
get_or_create_task_meta slot g =
    if ltb slot pool_size then (some slot, refresh slot g) else (none, g)

-- What `DeallocTaskMeta` leaves of the TaskMeta; the stack stays for reuse.
unfoldable pub recycle : ℕ → TaskMeta → TaskMeta
recycle generation meta = record meta {
  generation = generation;
  state = TaskState.ready;
  ref_count = 0;
  fn = none;
  arg = none;
  result = none;
  join_butex = none;
  join_waiters = 0;
  waiting_butex = none;
  waiter = record { next = none; wakeup = false; timed_out = false; deadline_us = 0; timer_id = 0 };
  local_worker = none;
  next = none;
}

unfoldable pub dealloc_task_meta : ℕ → TaskGroup → TaskGroup
dealloc_task_meta task g = elim (g.task_pool task) [
  | none ↦ g
  | some meta ↦
      let slot : ℕ = meta.slot_index in
      let new_gen : ℕ = u32 (g.generations slot + 1) in
      record g {
        task_pool = update g.task_pool task (some (recycle new_gen meta));
        generations = update g.generations slot new_gen;
        free_slots = update g.free_slots slot g.free_head;
        free_head = some slot;
      }
]

-- `gen << 32 | slot` for two uint32_t: the halves share no bit, so the or is a sum.
unfoldable pub encode_id : ℕ → ℕ → ℕ
encode_id slot gen = gen * 2 ^ 32 + slot

unfoldable pub decode_id : ℕ → TaskGroup → Option ℕ
decode_id tid g =
    let slot : ℕ = tid % 2 ^ 32 in
    let gen : ℕ = tid / 2 ^ 32 in
    if ltb slot pool_size
    then elim (g.task_pool slot) [
      | none ↦ none
      | some meta ↦ if meta.generation == gen then some slot else none
    ]
    else none

unfoldable pub get_task_by_slot : ℕ → TaskGroup → Option TaskMeta
get_task_by_slot slot g = if ltb slot pool_size then g.task_pool slot else none

abbrev pub is_suspended : Option TaskMeta → Bool
is_suspended none = false
is_suspended (some meta) = state_eq meta.state TaskState.suspended

-- The loop of `GetSuspendedTasks`, over `k` slots from slot `i` on.
unfoldable pub suspended_from : ℕ → ℕ → TaskGroup → List ℕ
suspended_from zero i g = []
suspended_from (suc k) i g =
    let rest = suspended_from k (i + 1) g in if is_suspended (g.task_pool i) then i ∷ rest else rest

unfoldable pub get_suspended_tasks : TaskGroup → List ℕ
get_suspended_tasks g = suspended_from pool_size 0 g
