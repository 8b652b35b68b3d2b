-- ===== src/Tests/ApiTests.antt =====
-- A group with slots 5 and 7 free, a new task in slot 3 and a finished one in slot 4.
use cothread.Prelude.{◌≡◌, refl, true, none, some, [], ◌∷◌, arith, update}
use cothread.Task.{TaskMeta, TaskState, new_task_meta}
use cothread.TaskGroup.{encode_id}
use cothread.TaskGroup.Valid.{IsValid}
use cothread.Api.{Api, ok, create, detach, join, joined}
use cothread.Worker.{Worker}
use cothread.TaskGroup.{decode_id}
use cothread.Api.{created}
use cothread.Api.ByWorker
use cothread.Api.ByWorker.{create_on, join_on}
use cothread.Api.ByWorker.Reuse.{join_on-create_on}
use cothread.Api.Life.{over, join-gives_result}
use cothread.Api.JoinRace
use cothread.Api.JoinRace.{JoinRace, join_start, Missed, Sound, Reaches-overlooked, Reaches-Sound}
use cothread.Api.Lifetime.{Recycles, detach-Recycles_early}

abbrev new_task : TaskMeta
new_task = record new_task_meta { slot_index = 3; generation = 1; ref_count = 2 }

abbrev over_task : TaskMeta
over_task = record new_task_meta {
  slot_index = 4;
  generation = 1;
  state = TaskState.finished;
  result = some 9;
  ref_count = 1;
}

abbrev api : Api
api = record {
  group = record {
    task_pool = update (update (λ _. none) 3 (some new_task)) 4 (some over_task);
    free_slots = update (λ _. none) 5 (some 7);
    free_head = some 5;
    generations = λ _. 1;
    worker_count = 2;
  };
  enqueued = 3 ∷ [];
}

api-IsValid : IsValid api.group (5 ∷ 7 ∷ [])
api-IsValid = record {
  chain = (refl, (refl, refl));
  distinct = ((omega arith, tt), (tt, tt));
  bounded = (omega arith, (omega arith, tt));
  synced = λ s m p. ground arith;
  words = λ s. omega arith;
}

detach-Recycles_early_example :
    let once = detach (encode_id 3 1) api in
    let twice = detach (encode_id 3 1) once.1 in
    (once.0 ≡ ok)
    × (twice.0 ≡ ok)
    × (twice.1.enqueued ≡ 3 ∷ [])
    × Recycles 3 (5 ∷ 7 ∷ []) api.group twice.1.group
detach-Recycles_early_example =
    detach-Recycles_early 3 new_task (5 ∷ 7 ∷ []) api api-IsValid refl refl
      (omega arith, (omega arith, tt)) (omega arith)

abbrev worker : Worker
worker = record {
  id = 0;
  local_queue = record { buffer = λ i. none; head = 0; tail = 0 };
  current_task = none;
  local_batch = λ i. 0;
  batch_count = 0;
  stack_pool = λ i. 0;
  stack_pool_count = 0;
  task_cache = λ i. 0;
  task_cache_count = 0;
}

join-gives_result_example :
    (made : Api) × (m : TaskMeta) × (create (some 40) (some 20) none api
      ≡ created (encode_id 5 1) made)
    × (made.group.task_pool 5 ≡ some m)
    × ((after : Api) × (join 60
            (encode_id 5 1)
            (record made { group = over (some 3) 5 m worker made.group })
          ≡ joined (some 3) after)
        × IsValid after.group (5 ∷ 7 ∷ [])
        × (decode_id (encode_id 5 1) after.group ≡ none))
join-gives_result_example =
    join-gives_result 20 40 5 60 none (some 3) (7 ∷ []) api worker api-IsValid

-- The join saw the task running, and the task has finished since.
abbrev at_counts : JoinRace
at_counts = record join_start { join = JoinRace.counts }

abbrev unseen : JoinRace
unseen = record at_counts { ending = JoinRace.stored; finished = true }

unseen_reached : JoinRace.Reaches join_start unseen
unfolding JoinRace.state_phase
unseen_reached =
    let read = record join_start { join = JoinRace.loads_state } in
    JoinRace.after at_counts unseen
      (JoinRace.after read at_counts
        (JoinRace.after join_start read JoinRace.here (JoinRace.read_value join_start refl))
        (JoinRace.load_state read refl))
      (JoinRace.store_finished at_counts refl)

Reaches-overlooked_example :
    (t : JoinRace) × JoinRace.Step unseen t
    × JoinRace.Reaches join_start t
    × (t.ending ≡ JoinRace.over)
    × ((u : JoinRace) → JoinRace.Reaches t u → Missed u)
Reaches-overlooked_example = Reaches-overlooked unseen unseen_reached refl refl

Reaches-Sound_example : Sound (record join_start { ending = JoinRace.stored; finished = true })
Reaches-Sound_example =
    Reaches-Sound _ (JoinRace.after _ _ JoinRace.here (JoinRace.store_finished join_start refl))

-- The worker joins the finished task 4 and creates a task again.
join_on-create_on_example :
    (after : Api) × (w' : Worker) × (join_on 60 (some 3) (encode_id 4 1) worker api
      ≡ ByWorker.joined (some 9) after w')
    × ((again : Api) × (made : TaskMeta) × ((create_on 8192 (some 40) (some 20) none w' after).0
          ≡ created (encode_id 4 1) again)
        × (decode_id (encode_id 4 1) again.group ≡ some 4)
        × (again.group.task_pool 4 ≡ some made)
        × (made.fn ≡ some 20)
        × (made.state ≡ TaskState.ready))
join_on-create_on_example =
    join_on-create_on 20 8192 40 4 60 none (some 3) over_task worker api (5 ∷ 7 ∷ []) api-IsValid
      refl refl refl (omega arith) refl (omega arith)
