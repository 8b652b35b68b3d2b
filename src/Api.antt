-- ===== src/Api.antt =====
-- src/bthread.cpp: bthread_create, bthread_join and bthread_detach, called by a thread that is no worker,
-- over the TaskGroup. `enqueued` lists the tasks handed to the scheduler. What AllocateStack returns
-- is an argument; the stack's size and the context, which MakeContext sets up, are left out. The Init with
-- which bthread_create begins is Scheduler.init.
pub mod Create
pub mod Lifetime
pub mod Current
pub mod Life
pub mod Config
pub mod JoinRace
pub mod ByWorker
use cothread.Prelude.{
  ℕ, ◌+◌, Bool, Option, none, some, List, [], ◌∷◌, ◌++◌, if◌then◌else◌, update, u32,
}
use cothread.Task.{TaskMeta, TaskState, state_eq, release}
use cothread.TaskGroup.{
  TaskGroup, alloc_task_meta, dealloc_task_meta, decode_id, encode_id, meta_or_new,
}

pub record Api : Type 0 where
  pub group : TaskGroup
  pub enqueued : List ℕ

pub data Code : Type 0 where
  ok : Code
  einval : Code
  eagain : Code
  enomem : Code
  esrch : Code
  ebusy : Code

-- The TaskMeta of a slot is written.
abbrev pub put_meta : ℕ → TaskMeta → TaskGroup → TaskGroup
put_meta slot m g = record g { task_pool = update g.task_pool slot (some m) }

-- The stack that a TaskMeta kept, or the one that is allocated for it.
unfoldable pub stack_or : Option ℕ → Option ℕ → Option ℕ
stack_or none allocated = allocated
stack_or (some stack) allocated = some stack

-- The TaskMeta of a new task: one reference of its creator, one for a join.
abbrev pub prepare : ℕ → Option ℕ → ℕ → TaskMeta → TaskMeta
prepare fn arg stack m = record m {
  stack = some stack;
  fn = some fn;
  arg = arg;
  result = none;
  state = TaskState.ready;
  ref_count = 2;
  join_waiters = 0;
  join_butex = none;
}

pub data Created : Type 0 where
  created : ℕ → Api → Created
  fails : Code → Api → Created

-- From the stack on, for the TaskMeta `m` of the slot.
unfoldable pub start_task : Option ℕ → ℕ → Option ℕ → ℕ → TaskMeta → TaskGroup → Api → Created
start_task allocated fn arg slot m g a = elim (stack_or m.stack allocated) [
  | none ↦ fails enomem (record a { group = dealloc_task_meta slot g })
  | some stack ↦ created (encode_id m.slot_index m.generation) (record {
    group = put_meta slot (prepare fn arg stack m) g;
    enqueued = a.enqueued ++ slot ∷ [];
  })
]

-- `bthread_create` with the function pointer `fn` and a tid that is not null.
unfoldable pub create : Option ℕ → Option ℕ → Option ℕ → Api → Created
create allocated none arg a = fails einval a
create allocated (some fn) arg a = elim (alloc_task_meta a.group) [
  | none ↦ fails eagain a
  | some (slot, g) ↦ start_task allocated fn arg slot (meta_or_new (g.task_pool slot)) g a
]

-- What follows a Release: the TaskMeta is recycled with the last reference.
unfoldable pub after_release : ℕ → TaskMeta × Bool → TaskGroup → TaskGroup
after_release slot r g =
    let g' = put_meta slot r.0 g in if r.1 then dealloc_task_meta slot g' else g'

-- A reference given up.
unfoldable pub drop_ref : ℕ → TaskGroup → TaskGroup
drop_ref slot g = elim (g.task_pool slot) [ none ↦ g | some m ↦ after_release slot (release m) g ]

-- `bthread_detach`
unfoldable pub detach : ℕ → Api → Code × Api
detach tid a = elim (decode_id tid a.group) [
  | none ↦ (esrch, a)
  | some slot ↦ (ok, record a { group = drop_ref slot a.group })
]

-- `bthread_join` refuses the id, returns the result of a task that is finished, or waits on its butex.
pub data Joined : Type 0 where
  refused : Joined
  joined : Option ℕ → Api → Joined
  waits_on : ℕ → Api → Joined

-- The join butex that is there, or a new one.
abbrev pub butex_or : Option ℕ → ℕ → Option ℕ
butex_or none made = some made
butex_or (some butex) made = some butex

abbrev pub with_butex : ℕ → TaskMeta → TaskMeta
with_butex made m = record m { join_butex = butex_or m.join_butex made }

-- What a join does with a task that is finished.
unfoldable pub take_result : ℕ → TaskMeta → Api → Joined
take_result slot m a = joined m.result (record a { group = drop_ref slot a.group })

-- From where the join butex is there: the test of the state.
unfoldable pub join_made : ℕ → TaskMeta → Api → Joined
join_made slot m a =
    if state_eq m.state TaskState.finished
    then take_result slot m a
    else waits_on slot (record a {
      group = put_meta slot (record m { join_waiters = u32 (m.join_waiters + 1) }) a.group;
    })

-- `made` is the butex that is made if the task has none.
unfoldable pub join : ℕ → ℕ → Api → Joined
join made tid a = elim (decode_id tid a.group) [
  | none ↦ refused
  | some slot ↦ elim (a.group.task_pool slot) [
    | none ↦ refused
    | some m ↦
        join_made slot (with_butex made m)
          (record a { group = put_meta slot (with_butex made m) a.group })
  ]
]
