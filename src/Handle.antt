-- ===== src/Handle.antt =====
-- include/bthread/core/task.hpp, src/bthread/core/task.cpp and include/bthread/api/spawn.hpp: the handles of
-- type bthread::Task, and the making of tasks by spawn. A handle is null or the metadata it points to, the
-- slot of a bthread or the address of a coroutine's meta. `enqueued` lists the tasks handed to the
-- scheduler; the Init with which spawn may begin is Scheduler.init. result_ptr_, which nothing sets,
-- and the context, which MakeContext sets up, are left out.
pub mod Join
pub mod Spawned
use cothread.Prelude.{
  ℕ, ◌+◌, ◌-◌, ◌^◌, Bool, true, false, Option, none, some, List, [], ◌∷◌, ◌++◌, if◌then◌else◌,
  update, u32,
}
use cothread.Task.{TaskMeta, TaskState, TaskType, state_eq}
use cothread.TaskGroup.{TaskGroup, alloc_task_meta, encode_id, meta_or_new}
use cothread.Coroutines.{CoroutineMeta}
use cothread.Results.{
  Message, no_handle, not_completed, not_coroutine, not_implemented, Exception, std_exception,
}
use cothread.Promise.{Got, got, dangles}
use cothread.Api.{put_meta, drop_ref, stack_or}

pub data Ref : Type 0 where
  bthread : ℕ → Ref
  coroutine : ℕ → Ref

abbrev pub Handle : Type 0
Handle = Option Ref

-- The metas of coroutines by address; `none` for one that was deleted.
pub record Tasks : Type 0 where
  pub group : TaskGroup
  pub coroutines : ℕ → Option CoroutineMeta
  pub enqueued : List Ref

abbrev pub state_of_bthread : Option TaskMeta → Got TaskState
state_of_bthread none = dangles
state_of_bthread (some m) = got m.state

abbrev pub state_of_coroutine : Option CoroutineMeta → Got TaskState
state_of_coroutine none = dangles
state_of_coroutine (some c) = got c.state

-- The load of the state behind a pointer that is not null.
abbrev pub state_of : Ref → Tasks → Got TaskState
state_of (bthread slot) t = state_of_bthread (t.group.task_pool slot)
state_of (coroutine c) t = state_of_coroutine (t.coroutines c)

abbrev pub map_got {ℓ κ} : {A : Type ℓ} {B : Type κ} → (A → B) → Got A → Got B
map_got f (got a) = got (f a)
map_got f dangles = dangles

unfoldable pub valid : Handle → Bool
valid none = false
valid (some r) = true

unfoldable pub is_done : Handle → Tasks → Got Bool
is_done none t = got true
is_done (some r) t = map_got (state_eq TaskState.finished) (state_of r t)

unfoldable pub is_running : Handle → Tasks → Got Bool
is_running none t = got false
is_running (some r) t = map_got (state_eq TaskState.running) (state_of r t)

-- A coroutine's meta keeps slot 0 and generation 0.
unfoldable pub id : Handle → Tasks → Got ℕ
id none t = got 0
id (some (bthread slot)) t = elim (t.group.task_pool slot) [
  | none ↦ dangles
  | some m ↦ got (encode_id m.slot_index m.generation)
]
id (some (coroutine c)) t = map_got (λ _. 0) (state_of (coroutine c) t)

unfoldable pub type : Handle → TaskType
type none = TaskType.bthread
type (some (bthread slot)) = TaskType.bthread
type (some (coroutine c)) = TaskType.coroutine

-- What `get` throws once the task is done, and before.
abbrev pub get_throws : TaskType → Bool → Exception
get_throws type false = std_exception not_completed
get_throws TaskType.bthread true = std_exception not_coroutine
get_throws TaskType.coroutine true = std_exception not_implemented

-- `get`, which never returns.
unfoldable pub get : Handle → Tasks → Got Exception
get none t = got (std_exception no_handle)
get (some r) t = map_got (get_throws (type (some r))) (is_done (some r) t)

-- `join` returned, and the handle is null; it waits on the join butex; it spins, for a coroutine that is
-- not done; or it used a meta that was deleted.
pub data HandleJoined : Type 0 where
  returned : Tasks → HandleJoined
  waits_on : ℕ → Tasks → HandleJoined
  spins : HandleJoined
  faults : HandleJoined

abbrev pub with_group : TaskGroup → Tasks → Tasks
with_group g t = record t { group = g }

abbrev pub count_waiters : ℕ → TaskMeta → TaskMeta
count_waiters d m = record m { join_waiters = u32 (m.join_waiters + d) }

-- The end of a join of an unfinished bthread, with its TaskMeta `m` then.
unfoldable pub join_leaves : ℕ → TaskMeta → Tasks → Tasks
join_leaves slot m t =
    with_group (drop_ref slot (put_meta slot (count_waiters (2 ^ 32 - 1) m) t.group)) t

unfoldable pub join_bthread : ℕ → TaskMeta → Tasks → HandleJoined
join_bthread slot m t =
    let m' = count_waiters 1 m in
    let t' = with_group (put_meta slot m' t.group) t in
    if state_eq TaskState.finished m.state
    then returned (with_group (drop_ref slot t.group) t)
    else elim m.join_butex [
      | none ↦ returned (join_leaves slot m' t')
      | some butex ↦ waits_on butex t'
    ]

unfoldable pub join : Handle → Tasks → HandleJoined
join none t = returned t
join (some (bthread slot)) t = elim (t.group.task_pool slot) [
  | none ↦ faults
  | some m ↦ join_bthread slot m t
]
join (some (coroutine c)) t = elim (t.coroutines c) [
  | none ↦ faults
  | some m ↦
      if state_eq TaskState.finished m.state
      then returned (record t { coroutines = update t.coroutines c none })
      else spins
]

unfoldable pub detach : Handle → Tasks → Tasks
detach none t = t
detach (some (bthread slot)) t = with_group (drop_ref slot t.group) t
detach (some (coroutine c)) t = t

-- The TaskMeta of a spawned task: the function that runs the wrapper, and the wrapper.
abbrev pub spawn_meta : ℕ → ℕ → Option ℕ → TaskMeta → TaskMeta
spawn_meta run wrapper allocated m = record m {
  fn = some run;
  arg = some wrapper;
  state = TaskState.ready;
  stack = stack_or m.stack allocated;
}

-- `spawn` with what AllocateStack returns; none when no TaskMeta is free, and then it throws.
unfoldable pub spawn : ℕ → ℕ → Option ℕ → Tasks → Option (Handle × Tasks)
spawn run wrapper allocated t = elim (alloc_task_meta t.group) [
  | none ↦ none
  | some (slot, g) ↦ some (
    some (bthread slot),
    record t {
      group = put_meta slot (spawn_meta run wrapper allocated (meta_or_new (g.task_pool slot))) g;
      enqueued = t.enqueued ++ bthread slot ∷ [];
    },
  )
]

-- `spawn_detached`
unfoldable pub spawn_detached : ℕ → ℕ → Option ℕ → Tasks → Option Tasks
spawn_detached run wrapper allocated t = elim (spawn run wrapper allocated t) [
  | none ↦ none
  | some (handle, t') ↦ some (detach handle t')
]
