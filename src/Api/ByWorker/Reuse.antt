-- ===== src/Api/ByWorker/Reuse.antt =====
-- A worker's cache hands a joined task's TaskMeta out again, under the same id.
use cothread.Prelude.{
  ℕ, ◌+◌, ◌-◌, ◌≤◌, ◌<◌, ◌≡◌, refl, sym, ap, ◌∙◌, true, false, Option, none, some, List, [], ◌∷◌,
  ◌++◌, arith, Fresh, update, update_self,
}
use cothread.Task.{TaskMeta, TaskState, release}
use cothread.TaskGroup.{TaskGroup, dealloc_task_meta, decode_id, encode_id, meta_or_new, pool_size}
use cothread.TaskGroup.Valid.{IsValid}
use cothread.Worker.{
  Worker, task_cache_size, acquire_task_meta, acquire_stack, release_task_meta, take_cached,
}
use cothread.Worker.Cache.{release-stores}
use cothread.Api.{Api, created, put_meta, with_butex, stack_or, prepare, start_task, drop_ref}
use cothread.Api.Create.{accepts, put_meta-IsValid, stack_or-some}
use cothread.Api.Lifetime.{release_parts, drop_ref-last, drop_ref-Recycles, Recycles}
use cothread.Api.ByWorker.{
  joined, is_current, after_release_on, take_result_on, join_made_on, join_on, or_alloc, take_meta,
  stack_of, start_on, create_from, create_on,
}

-- The worker's cache after it took a TaskMeta back.
abbrev keep : ℕ → Worker → Worker
keep s w = record w {
  task_cache = update w.task_cache w.task_cache_count s;
  task_cache_count = w.task_cache_count + 1;
}

take_result_on_lem :
    (s : ℕ) (m : TaskMeta) (w : Worker) (a : Api)
    → m.ref_count ≡ 1
    → w.task_cache_count < task_cache_size
    → take_result_on s m w a
      ≡ joined m.result
          (record a { group = put_meta s (record m { ref_count = 0 }) a.group })
          (keep s w)
unfolding take_result_on after_release_on
take_result_on_lem s m w a r h =
    let e : release m ≡ (record m { ref_count = 0 }, true) =
      release_parts m 0 true (omega (arith, r)) (ground (arith, r)) in
    rw (e, take_result_on)
      (ap (λ x. joined m.result (record a { group = x.1 }) x.0)
        (release-stores w (put_meta s (record m { ref_count = 0 }) a.group) s h))

join_on_lem :
    (butex : ℕ) (current : Option ℕ) (tid s : ℕ) (m : TaskMeta) (w : Worker) (a : Api)
    → decode_id tid a.group ≡ some s
    → is_current current s ≡ false
    → a.group.task_pool s ≡ some m
    → m.state ≡ TaskState.finished
    → join_on butex current tid w a
      ≡ take_result_on s
          (with_butex butex m)
          w
          (record a { group = put_meta s (with_butex butex m) a.group })
unfolding join_on join_made_on
join_on_lem butex current tid s m w a d c p f = rw (d, join_on) (rw c (rw p (rw f refl)))

take_meta-keep :
    (s : ℕ) (w : Worker) (g : TaskGroup)
    → (w' : Worker) × (take_meta (keep s w) g ≡ (some s, w', g))
unfolding acquire_task_meta take_cached or_alloc
take_meta-keep s w g =
    (record (keep s w) { task_cache_count = w.task_cache_count + 1 - 1 }, ap or_alloc kept_again)
  where
    kept_again :
        acquire_task_meta (keep s w) g
        ≡ (some s, record (keep s w) { task_cache_count = w.task_cache_count + 1 - 1 }, g)
    kept_again = ground arith

stack_of-some :
    (kept : Option ℕ) (size new : ℕ) (w : Worker)
    → (stack : ℕ) × (stack_or kept (stack_of kept size (some new) w).0 ≡ some stack)
unfolding stack_or stack_of
stack_of-some none size new w = stack_or-some (acquire_stack size w).0 new
stack_of-some (some stack) size new w = (stack, refl)

start_task_lem :
    (fn s stack : ℕ) (allocated arg : Option ℕ) (m : TaskMeta) (g : TaskGroup) (a : Api)
    → stack_or m.stack allocated ≡ some stack
    → start_task allocated fn arg s m g a
      ≡ created (encode_id m.slot_index m.generation) (record {
        group = put_meta s (prepare fn arg stack m) g;
        enqueued = a.enqueued ++ s ∷ [];
      })
unfolding start_task
start_task_lem fn s stack allocated arg m g a q = rw (q, start_task) refl

create_on_lem :
    (fn size new s stack : ℕ) (arg : Option ℕ) (m : TaskMeta) (g : TaskGroup) (w w' : Worker)
    (a : Api)
    → take_meta w a.group ≡ (some s, w', g)
    → g.task_pool s ≡ some m
    → stack_or m.stack (stack_of m.stack size (some new) w').0 ≡ some stack
    → (create_on size (some new) (some fn) arg w a).0
      ≡ created (encode_id m.slot_index m.generation) (record {
        group = put_meta s (prepare fn arg stack m) g;
        enqueued = a.enqueued ++ s ∷ [];
      })
unfolding create_on create_from start_on
create_on_lem fn size new s stack arg m g w w' a e p q =
    ap (λ t. (create_from size (some new) fn arg a t).0) e
    ∙ ap (λ o. (start_on size (some new) fn arg s (meta_or_new o) g w' a).0) p
    ∙ start_task_lem fn s stack (stack_of m.stack size (some new) w').0 arg m g a q

-- A worker joins a finished task by its id and has room in its cache: the join gives the task's result, and
-- the next task that the worker creates has the same id. The id, which was joined, is accepted for the
-- new task, which has its own function and is ready.
pub join_on-create_on :
    (fn size new s butex : ℕ) (arg current : Option ℕ) (m : TaskMeta) (w : Worker) (a : Api)
    (free : List ℕ)
    → IsValid a.group free
    → a.group.task_pool s ≡ some m
    → m.state ≡ TaskState.finished
    → m.ref_count ≡ 1
    → s < pool_size
    → is_current current s ≡ false
    → w.task_cache_count < task_cache_size
    → let tid = encode_id s (a.group.generations s) in
      (after : Api) × (w' : Worker) × (join_on butex current tid w a ≡ joined m.result after w')
      × ((again : Api) × (made : TaskMeta) × ((create_on size (some new) (some fn) arg w' after).0
            ≡ created tid again)
          × (decode_id tid again.group ≡ some s)
          × (again.group.task_pool s ≡ some made)
          × (made.fn ≡ some fn)
          × (made.state ≡ TaskState.ready))
join_on-create_on fn size new s butex arg current m w a free v p f r h c room =
    let gen = a.group.generations s in
    let (i, j) = v.synced s m p in
    let m' = with_butex butex m in
    let a' = record a { group = put_meta s m' a.group } in
    let last = record m' { ref_count = 0 } in
    let after = record a { group = put_meta s last a'.group } in
    let (w', t) = take_meta-keep s w after.group in
    let there = update_self a'.group.task_pool s (some last) in
    let (stack, q) = stack_of-some m.stack size new w' in
    let made = prepare fn arg stack last in
    let again : Api = record {
      group = put_meta s made after.group;
      enqueued = a.enqueued ++ s ∷ [];
    } in
    let there_again = update_self after.group.task_pool s (some made) in
    (
      after,
      keep s w,
      join_on_lem butex current (encode_id s gen) s m w a (accepts a.group s gen m h p j) c p f
          ∙ take_result_on_lem s m' w a' r room,
      (
        again,
        made,
        create_on_lem fn size new s stack arg last after.group (keep s w) w' after t there q
            ∙ ap (λ x. created x again) (ap (λ x. encode_id x m.generation) i ∙ ap (encode_id s) j),
        accepts again.group s gen made h there_again j,
        there_again,
        refl,
        refl,
      ),
    )

release-full :
    (w : Worker) (g : TaskGroup) (s : ℕ)
    → task_cache_size ≤ w.task_cache_count
    → release_task_meta (some s) w g ≡ (w, dealloc_task_meta s g)
unfolding release_task_meta
release-full w g s h = ground arith

-- A worker joins a finished task by its id and its cache is full: the join gives the task's result, the
-- slot is free again, and the id is refused from then on.
join_on-Recycles :
    (butex s : ℕ) (current : Option ℕ) (m : TaskMeta) (w : Worker) (a : Api) (free : List ℕ)
    → IsValid a.group free
    → a.group.task_pool s ≡ some m
    → m.state ≡ TaskState.finished
    → m.ref_count ≡ 1
    → Fresh s free
    → s < pool_size
    → is_current current s ≡ false
    → task_cache_size ≤ w.task_cache_count
    → (after : Api) × (join_on butex current (encode_id s (a.group.generations s)) w a
        ≡ joined m.result after w)
      × Recycles s free a.group after.group
unfolding take_result_on after_release_on
join_on-Recycles butex s current m w a free v p f r fresh h c full =
    let gen = a.group.generations s in
    let (i, j) = v.synced s m p in
    let m' = with_butex butex m in
    let b = put_meta s m' a.group in
    let there = update_self a.group.task_pool s (some m') in
    let e : release m' ≡ (record m' { ref_count = 0 }, true) =
      release_parts m' 0 true (omega (arith, r)) (ground (arith, r)) in
    let last =
      drop_ref-Recycles s m' b free (put_meta-IsValid s m' a.group free v i j) there r fresh h in
    (
      record a { group = drop_ref s b },
      join_on_lem butex current (encode_id s gen) s m w a (accepts a.group s gen m h p j) c p f
          ∙ ap
              (λ x.
                let (w', g) = after_release_on s x w b in
                joined m.result (record a { group = g }) w')
              e
          ∙ ap (λ x. joined m.result (record a { group = x.1 }) x.0)
              (release-full w (put_meta s (record m' { ref_count = 0 }) b) s full)
          ∙ ap (λ x. joined m.result (record a { group = x }) w)
              (sym (drop_ref-last s m' b there r)),
      record { valid = last.valid; refused_now = last.refused_now },
    )
