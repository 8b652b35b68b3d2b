-- ===== src/Tests/HandleTests.antt =====
-- A new group, from which a task is spawned; its slot is 0.
use cothread.Prelude.{◌≡◌, refl, none, some, [], ◌∷◌, arith, update}
use cothread.Task.{TaskMeta, TaskState}
use cothread.TaskGroup.{TaskGroup}
use cothread.TaskGroup.Valid.{IsValid}
use cothread.TaskGroup.Clean.{AllClean}
use cothread.Handle.{bthread, Tasks, returned, join, spawn}
use cothread.Handle.Join.{spawn-join_early}

-- Slots 0 and 1 are free.
abbrev group : TaskGroup
group = record {
  task_pool = λ i. none;
  free_slots = update (λ i. none) 0 (some 1);
  free_head = some 0;
  generations = λ i. 1;
  worker_count = 2;
}

abbrev tasks : Tasks
tasks = record { group = group; coroutines = λ c. none; enqueued = [] }

group-IsValid : IsValid group (0 ∷ 1 ∷ [])
group-IsValid = record {
  chain = (refl, (refl, refl));
  distinct = ((omega arith, tt), (tt, tt));
  bounded = (omega arith, (omega arith, tt));
  synced = λ s m p. cc;
  words = λ s. omega arith;
}

group-AllClean : AllClean group (0 ∷ 1 ∷ [])
group-AllClean = ((refl, refl, refl), ((refl, refl, refl), tt))

spawn-join_early_example :
    (made : Tasks) × (after : Tasks) × (m : TaskMeta) × (spawn 60 61 (some 40) tasks
      ≡ some (some (bthread 0), made))
    × (join (some (bthread 0)) made ≡ returned after)
    × (after.group.task_pool 0 ≡ some m)
    × (m.state ≡ TaskState.ready)
    × (after.enqueued ≡ bthread 0 ∷ [])
spawn-join_early_example =
    spawn-join_early 60 61 0 (some 40) (1 ∷ []) tasks group-IsValid group-AllClean
