-- ===== src/Worker/Cache.antt =====
-- The worker's caches of stacks and of TaskMetas.
use cothread.Prelude.{ℕ, ◌+◌, ◌-◌, ◌<◌, ◌≡◌, ap, some, arith, update}
use cothread.TaskGroup
use cothread.TaskGroup.{TaskGroup}
use cothread.Worker.{Worker, task_cache_size, acquire_task_meta, release_task_meta, take_cached}

pub release-stores :
    (w : Worker) (g : TaskGroup) (task : ℕ)
    → w.task_cache_count < task_cache_size
    → release_task_meta (some task) w g ≡ (
      record w {
        task_cache = update w.task_cache w.task_cache_count task;
        task_cache_count = w.task_cache_count + 1;
      },
      g,
    )
unfolding release_task_meta
release-stores w g task h = ground arith

acquire-takes :
    (w : Worker) (g : TaskGroup)
    → 0 < w.task_cache_count
    → ((acquire_task_meta w g).0 ≡ some (w.task_cache (w.task_cache_count - 1)))
      × ((acquire_task_meta w g).2 ≡ g)
unfolding acquire_task_meta take_cached
acquire-takes w g h = (ground arith, ground arith)

-- A TaskMeta released into a cache with room is the next one acquired, and the task group is as it was:
-- an id of the slot that was accepted before is accepted after, now for another task.
release_task_meta-keeps_id :
    (w : Worker) (g : TaskGroup) (task : ℕ)
    → w.task_cache_count < task_cache_size
    → let (w', g') = release_task_meta (some task) w g in
      let r = acquire_task_meta w' g' in
      (r.0 ≡ some task) × ((tid : ℕ) → TaskGroup.decode_id tid r.2 ≡ TaskGroup.decode_id tid g)
release_task_meta-keeps_id w g task h =
    let a =
      acquire-takes
        (record w {
          task_cache = update w.task_cache w.task_cache_count task;
          task_cache_count = w.task_cache_count + 1;
        })
        g (omega arith) in
    rw (release-stores w g task h) (ground (arith, a.0), λ tid. ap (TaskGroup.decode_id tid) a.1)
