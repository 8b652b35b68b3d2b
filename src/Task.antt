-- ===== src/Task.antt =====
-- include/bthread/core/task_meta_base.hpp and task_meta.hpp: the metadata of a bthread. A pointer
-- to a TaskMeta is the slot of the pool that it was created for, and `none` is the null pointer.
-- Context, stack_size, owner_worker and the linked-list fields that nothing modelled reads are left
-- out; an atomic field is its value.
use cothread.Prelude.{ℕ, ◌+◌, ◌-◌, ◌^◌, Bool, true, false, ◌||◌, Option, none, ◌==◌, u32}

pub data TaskState : Type 0 where
  ready running suspended finished : TaskState

pub data TaskType : Type 0 where
  bthread coroutine : TaskType

abbrev pub state_eq : TaskState → TaskState → Bool
state_eq TaskState.ready TaskState.ready = true
state_eq TaskState.running TaskState.running = true
state_eq TaskState.suspended TaskState.suspended = true
state_eq TaskState.finished TaskState.finished = true
state_eq _ _ = false

abbrev pub is_bthread : TaskType → Bool
is_bthread TaskType.bthread = true
is_bthread TaskType.coroutine = false

pub record WaiterState : Type 0 where
  pub next : Option ℕ
  pub wakeup : Bool
  pub timed_out : Bool
  pub deadline_us : ℕ
  pub timer_id : ℕ

pub record TaskMeta : Type 0 where
  pub state : TaskState
  pub type : TaskType
  pub slot_index : ℕ
  pub generation : ℕ
  pub waiting_sync : Option ℕ
  pub stack : Option ℕ
  pub is_waiting : Bool
  pub wake_count : ℕ
  pub waiting_butex : Option ℕ
  pub waiter : WaiterState
  pub fn : Option ℕ
  pub arg : Option ℕ
  pub result : Option ℕ
  pub join_butex : Option ℕ
  pub join_waiters : ℕ
  pub ref_count : ℕ
  pub local_worker : Option ℕ
  pub next : Option ℕ

-- `new TaskMeta()`
abbrev pub new_task_meta : TaskMeta
new_task_meta = record {
  state = TaskState.ready;
  type = TaskType.bthread;
  slot_index = 0;
  generation = 0;
  waiting_sync = none;
  stack = none;
  is_waiting = false;
  wake_count = 0;
  waiting_butex = none;
  waiter = record { next = none; wakeup = false; timed_out = false; deadline_us = 0; timer_id = 0 };
  fn = none;
  arg = none;
  result = none;
  join_butex = none;
  join_waiters = 0;
  ref_count = 0;
  local_worker = none;
  next = none;
}

unfoldable pub can_resume : TaskMeta → Bool
can_resume t = state_eq t.state TaskState.ready || state_eq t.state TaskState.running

unfoldable pub is_finished : TaskMeta → Bool
is_finished t = state_eq t.state TaskState.finished

-- `Release`: the test is made on the count before the decrement; `ref_count` is the bit pattern of
-- an `int`.
unfoldable pub release : TaskMeta → TaskMeta × Bool
release t = (record t { ref_count = u32 (t.ref_count + 2 ^ 32 - 1) }, t.ref_count == 1)
