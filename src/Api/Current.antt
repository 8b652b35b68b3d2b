-- ===== src/Api/Current.antt =====
-- src/bthread.cpp and src/bthread/core/task_meta.cpp: what the running task asks and does, bthread_self and
-- bthread_exit, the entry of a bthread, and the end of a bthread_join that waited. `current` is the task
-- of the calling worker, none for a thread that is no worker and for a coroutine. What a task's
-- function returns is an argument.
use cothread.Prelude.{
  ℕ, ◌+◌, ◌-◌, ◌^◌, ◌<◌, ◌≡◌, refl, ap, ◌∙◌, false, Option, none, some, List, arith, update_self,
  update_again, u32,
}
use cothread.Task.{TaskMeta, TaskState, release}
use cothread.TaskGroup.{TaskGroup, encode_id, decode_id, pool_size}
use cothread.TaskGroup.Valid.{IsValid}
use cothread.Worker.{Worker, handle_finished_bthread}
use cothread.Api.{Api, refused, put_meta, drop_ref, Joined, joined}
use cothread.Api.Create.{accepts}
use cothread.Api.Lifetime.{release_parts}

-- `bthread_self`
unfoldable pub self : Option ℕ → TaskGroup → ℕ
self none g = 0
self (some slot) g = elim (g.task_pool slot) [
  | none ↦ 0
  | some m ↦ encode_id m.slot_index m.generation
]

abbrev pub exit_meta : Option ℕ → TaskMeta → TaskMeta
exit_meta retval m = record m { result = retval; state = TaskState.finished }

-- `bthread_exit`, up to the switch back to the worker.
unfoldable pub exit : Option ℕ → Option ℕ → TaskGroup → TaskGroup
exit retval none g = g
exit retval (some slot) g = elim (g.task_pool slot) [
  | none ↦ g
  | some m ↦ put_meta slot (exit_meta retval m) g
]

-- `BthreadEntry`, where the task's function returned `value`.
unfoldable pub bthread_entry : Option ℕ → ℕ → TaskGroup → TaskGroup
bthread_entry value slot g = elim (g.task_pool slot) [
  | none ↦ g
  | some m ↦ exit value (some slot) (put_meta slot (record m { result = value }) g)
]

-- `bthread_join` from where its Wait has returned.
unfoldable pub join_waited : ℕ → Api → Joined
join_waited slot a = elim (a.group.task_pool slot) [
  | none ↦ refused
  | some m ↦
      let left = record m { join_waiters = u32 (m.join_waiters + 2 ^ 32 - 1) } in
      joined m.result (record a { group = drop_ref slot (put_meta slot left a.group) })
]

-- The id that a task has of itself is accepted as long as it runs: it leads to the task's own TaskMeta.
pub self-decode_id :
    (s : ℕ) (m : TaskMeta) (g : TaskGroup) (free : List ℕ)
    → IsValid g free
    → g.task_pool s ≡ some m
    → s < pool_size
    → (self (some s) g ≡ encode_id s (g.generations s)) × (decode_id (self (some s) g) g ≡ some s)
unfolding self
self-decode_id s m g free v p h =
    let (i, j) = v.synced s m p in
    rw (p, self) (rw (i, j) (refl, accepts g s (g.generations s) m h p j))

exit_lem :
    (r : Option ℕ) (s : ℕ) (m : TaskMeta) (g : TaskGroup)
    → g.task_pool s ≡ some m
    → exit r (some s) g ≡ put_meta s (exit_meta r m) g
unfolding exit
exit_lem r s m g p = rw (p, exit) refl

pub bthread_entry_lem :
    (value : Option ℕ) (s : ℕ) (m : TaskMeta) (g : TaskGroup)
    → g.task_pool s ≡ some m
    → bthread_entry value s g ≡ put_meta s (exit_meta value m) g
unfolding bthread_entry
bthread_entry_lem value s m g p =
    let m' = record m { result = value } in
    rw (p, bthread_entry)
      (exit_lem value s m' (put_meta s m' g) (update_self g.task_pool s (some m'))
        ∙ ap (λ f. record g { task_pool = f })
            (update_again g.task_pool s (some m') (some (exit_meta value m))))

-- The worker gives up its reference, and the task's other one is left.
pub handle_finished_more :
    (s : ℕ) (m : TaskMeta) (w : Worker) (g : TaskGroup)
    → m.ref_count ≡ 2
    → (handle_finished_bthread s m w g).2 ≡ put_meta s (record m { ref_count = 1 }) g
unfolding handle_finished_bthread
handle_finished_more s m w g r =
    let e : release m ≡ (record m { ref_count = 1 }, false) =
      release_parts m 1 false (omega (arith, r)) (ground (arith, r)) in
    rw (e, handle_finished_bthread) refl
