-- ===== src/Api/ByWorker.antt =====
-- src/bthread.cpp: bthread_create and bthread_join called on a worker, which takes TaskMetas and stacks from
-- its caches and gives TaskMetas back to them. `current` is the bthread that the worker runs, none for a
-- coroutine; `allocated` is what the platform returns for a stack.
pub mod Reuse
use cothread.Prelude.{
  ℕ, ◌+◌, ◌-◌, ◌^◌, ◌<◌, ◌≡◌, Bool, false, Option, none, some, List, arith, ◌==◌, if◌then◌else◌,
  u32,
}
use cothread.Task.{TaskMeta, TaskState, state_eq, release}
use cothread.TaskGroup.{TaskGroup, alloc_task_meta, decode_id, encode_id, meta_or_new, pool_size}
use cothread.TaskGroup.Valid.{IsValid}
use cothread.Worker.{
  Worker, task_cache_size, acquire_task_meta, release_task_meta, acquire_stack, take_cached,
}
use cothread.Api.{
  Api, Created, created, fails, einval, eagain, put_meta, with_butex, stack_or, prepare, start_task,
}
use cothread.Api.Create.{accepts, stack_or-some}
use cothread.Api.Current.{self, self-decode_id}
use cothread.Worker.Cache.{release-stores}
use cothread.Api.Lifetime.{release_parts}

-- The slot of the TaskMeta that the cache gave, else a slot of the group.
unfoldable pub or_alloc : Option ℕ × Worker × TaskGroup → Option ℕ × Worker × TaskGroup
or_alloc (some slot, w, g) = (some slot, w, g)
or_alloc (none, w, g) = elim (alloc_task_meta g) [
  | none ↦ (none, w, g)
  | some (slot, g') ↦ (some slot, w, g')
]

abbrev pub take_meta : Worker → TaskGroup → Option ℕ × Worker × TaskGroup
take_meta w g = or_alloc (acquire_task_meta w g)

-- The stack that a TaskMeta kept, else one of the worker's, else one of the platform's.
unfoldable pub stack_of : Option ℕ → ℕ → Option ℕ → Worker → Option ℕ × Worker
stack_of (some stack) size allocated w = (some stack, w)
stack_of none size allocated w =
    let (pooled, w') = acquire_stack size w in (stack_or pooled allocated, w')

-- From the stack on, for the TaskMeta `m` of the slot.
unfoldable pub start_on :
    ℕ → Option ℕ → ℕ → Option ℕ → ℕ → TaskMeta → TaskGroup → Worker → Api → Created × Worker
start_on size allocated fn arg slot m g w a =
    let (stack, w') = stack_of m.stack size allocated w in (start_task stack fn arg slot m g a, w')

-- From the TaskMeta on.
unfoldable pub create_from :
    ℕ → Option ℕ → ℕ → Option ℕ → Api → Option ℕ × Worker × TaskGroup → Created × Worker
create_from size allocated fn arg a (none, w, g) = (fails eagain (record a { group = g }), w)
create_from size allocated fn arg a (some slot, w, g) =
    start_on size allocated fn arg slot (meta_or_new (g.task_pool slot)) g w a

-- `bthread_create`
unfoldable pub create_on : ℕ → Option ℕ → Option ℕ → Option ℕ → Worker → Api → Created × Worker
create_on size allocated none arg w a = (fails einval a, w)
create_on size allocated (some fn) arg w a =
    create_from size allocated fn arg a (take_meta w a.group)

-- What `bthread_join` answers on a worker; `deadlocks` is EDEADLK.
pub data JoinedOn : Type 0 where
  refused : JoinedOn
  deadlocks : JoinedOn
  joined : Option ℕ → Api → Worker → JoinedOn
  waits_on : ℕ → Api → JoinedOn

abbrev pub is_current : Option ℕ → ℕ → Bool
is_current none slot = false
is_current (some running) slot = running == slot

-- What follows a Release: with the last reference the TaskMeta goes to the worker's cache.
unfoldable pub after_release_on : ℕ → TaskMeta × Bool → Worker → TaskGroup → Worker × TaskGroup
after_release_on slot r w g =
    let g' = put_meta slot r.0 g in if r.1 then release_task_meta (some slot) w g' else (w, g')

unfoldable pub take_result_on : ℕ → TaskMeta → Worker → Api → JoinedOn
take_result_on slot m w a =
    let (w', g) = after_release_on slot (release m) w a.group in
    joined m.result (record a { group = g }) w'

-- From where the join butex is there: the test of the state.
unfoldable pub join_made_on : ℕ → TaskMeta → Worker → Api → JoinedOn
join_made_on slot m w a =
    if state_eq m.state TaskState.finished
    then take_result_on slot m w a
    else waits_on slot (record a {
      group = put_meta slot (record m { join_waiters = u32 (m.join_waiters + 1) }) a.group;
    })

-- `bthread_join`; `made` is the butex that is made if the task has none.
unfoldable pub join_on : ℕ → Option ℕ → ℕ → Worker → Api → JoinedOn
join_on made current tid w a = elim (decode_id tid a.group) [
  | none ↦ refused
  | some slot ↦ if is_current current slot then deadlocks else elim (a.group.task_pool slot) [
    | none ↦ refused
    | some m ↦
        join_made_on slot (with_butex made m) w
          (record a { group = put_meta slot (with_butex made m) a.group })
  ]
]

-- `bthread_join` on a worker, from where its Wait has returned.
unfoldable pub join_waited_on : ℕ → Worker → Api → JoinedOn
join_waited_on slot w a = elim (a.group.task_pool slot) [
  | none ↦ refused
  | some m ↦ take_result_on slot (record m { join_waiters = u32 (m.join_waiters + 2 ^ 32 - 1) }) w a
]

-- A task that joins the id that it has of itself is told that it would deadlock.
join_on-self :
    (made s : ℕ) (m : TaskMeta) (w : Worker) (a : Api) (free : List ℕ)
    → IsValid a.group free
    → a.group.task_pool s ≡ some m
    → s < pool_size
    → join_on made (some s) (self (some s) a.group) w a ≡ deadlocks
unfolding join_on
join_on-self made s m w a free v p h =
    let (e, d) = self-decode_id s m a.group free v p h in rw (d, join_on) (ground arith)
