-- ===== src/Api/Create.antt =====
-- What create makes: a task whose id is accepted.
use cothread.Prelude.{
  ℕ, ◌<◌, ◌≡◌, refl, ap, ◌∙◌, inl, inr, Option, none, some, List, [], ◌∷◌, ◌++◌, arith,
  Option-cases, update_self,
}
use cothread.Task.{TaskMeta, TaskState}
use cothread.TaskGroup.{TaskGroup, pool_size, alloc_task_meta, decode_id, encode_id, meta_or_new}
use cothread.TaskGroup.Valid.{IsValid}
use cothread.TaskGroup.Ids.{decode_id-encode_id, encode_id_parts}
use cothread.TaskGroup.Alloc.{alloc_task_meta-Allocates}
use cothread.Api.{Api, Created, created, put_meta, stack_or, prepare, start_task, create}

pub put_meta-IsValid :
    (s : ℕ) (m : TaskMeta) (g : TaskGroup) (free : List ℕ)
    → IsValid g free
    → m.slot_index ≡ s
    → m.generation ≡ g.generations s
    → IsValid (put_meta s m g) free
put_meta-IsValid s m g free v i e = record {
  chain = v.chain;
  distinct = v.distinct;
  bounded = v.bounded;
  synced = λ t k p. ground (arith, v.synced t k, i, e);
  words = v.words;
}

-- An accepted id belongs to a TaskMeta.
pub accepted_meta :
    (g : TaskGroup) (s gen : ℕ)
    → s < pool_size
    → decode_id (encode_id s gen) g ≡ some s
    → (m : TaskMeta) × (g.task_pool s ≡ some m)
unfolding decode_id
accepted_meta g s gen h e = elim (Option-cases (g.task_pool s)) [
  | inl gone ↦ absurd (ground (arith, encode_id_parts s gen))
  | inr there ↦ there
]

pub accepts :
    (g : TaskGroup) (s gen : ℕ) (m : TaskMeta)
    → s < pool_size
    → g.task_pool s ≡ some m
    → m.generation ≡ gen
    → decode_id (encode_id s gen) g ≡ some s
accepts g s gen m h e k = decode_id-encode_id g s gen m h e ∙ ground (arith, k)

-- What create promises: the id of the first free slot, under its present generation, is accepted; the
-- task has its function, two references, and was handed to the scheduler.
pub record Creates (fn s : ℕ) (free : List ℕ) (a : Api) (r : Created) : Type 0 where
  pub after : Api
  pub returns : r ≡ created (encode_id s (a.group.generations s)) after
  pub valid : IsValid after.group free
  pub accepted : decode_id (encode_id s (a.group.generations s)) after.group ≡ some s
  pub meta : TaskMeta
  pub there : after.group.task_pool s ≡ some meta
  pub starts :
      (meta.fn ≡ some fn)
      × (meta.state ≡ TaskState.ready)
      × (meta.ref_count ≡ 2)
      × (meta.generation ≡ a.group.generations s)
  pub queued : after.enqueued ≡ a.enqueued ++ s ∷ []

create_lem :
    (fn s stack : ℕ) (allocated arg : Option ℕ) (a : Api) (g : TaskGroup) (m : TaskMeta)
    → alloc_task_meta a.group ≡ some (s, g)
    → g.task_pool s ≡ some m
    → stack_or m.stack allocated ≡ some stack
    → create allocated (some fn) arg a
      ≡ created (encode_id m.slot_index m.generation) (record {
        group = put_meta s (prepare fn arg stack m) g;
        enqueued = a.enqueued ++ s ∷ [];
      })
unfolding create start_task
create_lem fn s stack allocated arg a g m e p q =
    (rw (e, create) refl) ∙ ap (λ o. start_task allocated fn arg s (meta_or_new o) g a) p ∙ started
  where
    started :
        start_task allocated fn arg s m g a
        ≡ created (encode_id m.slot_index m.generation) (record {
          group = put_meta s (prepare fn arg stack m) g;
          enqueued = a.enqueued ++ s ∷ [];
        })
    started = rw (q, start_task) refl

pub stack_or-some :
    (kept : Option ℕ) (new : ℕ) → (stack : ℕ) × (stack_or kept (some new) ≡ some stack)
unfolding stack_or
stack_or-some none new = (new, refl)
stack_or-some (some stack) new = (stack, refl)

-- With a free slot and a stack for it, create makes a task in the first free slot, as promised.
pub create-Creates :
    (fn new s : ℕ) (arg : Option ℕ) (free : List ℕ) (a : Api)
    → IsValid a.group (s ∷ free)
    → Creates fn s free a (create (some new) (some fn) arg a)
create-Creates fn new s arg free a v =
    let (g, e, w, d, k) = alloc_task_meta-Allocates a.group (s ∷ free) v in
    let h = v.bounded.0 in
    let (m, p) = accepted_meta g s (a.group.generations s) h d in
    let (i, j) = w.synced s m p in
    let (stack, q) = stack_or-some m.stack new in
    let gen = j ∙ ap (λ f. f s) k in
    let made = prepare fn arg stack m in
    record {
      after = record { group = put_meta s made g; enqueued = a.enqueued ++ s ∷ [] };
      returns =
          create_lem fn s stack (some new) arg a g m e p q
          ∙ ap
              (λ x.
                created x (record { group = put_meta s made g; enqueued = a.enqueued ++ s ∷ [] }))
              (ap (λ x. encode_id x m.generation) i ∙ ap (encode_id s) gen);
      valid = put_meta-IsValid s made g free w i j;
      accepted =
          accepts (put_meta s made g) s (a.group.generations s) made h
            (update_self g.task_pool s (some made)) gen;
      meta = made;
      there = update_self g.task_pool s (some made);
      starts = (refl, refl, refl, gen);
      queued = refl;
    }
