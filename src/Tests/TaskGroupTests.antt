-- ===== src/Tests/TaskGroupTests.antt =====
-- A group with slots 5 and 7 free, slot 3 in use and slot 4 suspended.
use cothread.Prelude.{ℕ, ◌≡◌, refl, none, some, [], ◌∷◌, arith, update}
use cothread.Task.{TaskMeta, TaskState, new_task_meta}
use cothread.TaskGroup.{TaskGroup, dealloc_task_meta, encode_id, decode_id}
use cothread.TaskGroup.Valid.{IsValid}
use cothread.TaskGroup.Alloc.{dealloc_task_meta-IsValid}

abbrev at_slot : ℕ → TaskMeta
at_slot s = record new_task_meta { slot_index = s; generation = 1 }

abbrev group : TaskGroup
group = record {
  task_pool =
      update (update (λ _. none) 3 (some (at_slot 3))) 4
        (some (record (at_slot 4) { state = TaskState.suspended }));
  free_slots = update (λ _. none) 5 (some 7);
  free_head = some 5;
  generations = λ _. 1;
  worker_count = 2;
}

group-IsValid : IsValid group (5 ∷ 7 ∷ [])
group-IsValid = record {
  chain = (refl, (refl, refl));
  distinct = ((omega arith, tt), (tt, tt));
  bounded = (omega arith, (omega arith, tt));
  synced = λ s m p. ground arith;
  words = λ s. omega arith;
}

dealloc_task_meta-IsValid_example :
    IsValid (dealloc_task_meta 3 group) (3 ∷ 5 ∷ 7 ∷ [])
    × (decode_id (encode_id 3 1) (dealloc_task_meta 3 group) ≡ none)
dealloc_task_meta-IsValid_example =
    dealloc_task_meta-IsValid group (5 ∷ 7 ∷ []) 3 (at_slot 3) group-IsValid refl
      (omega arith, (omega arith, tt)) (omega arith)
