-- ===== src/Handle/Spawned.antt =====
-- What spawn makes.
use cothread.Prelude.{
  ℕ, ◌≡◌, refl, ap, subst, ◌∙◌, Option, some, List, [], ◌∷◌, ◌++◌, arith, update_self,
}
use cothread.Task.{TaskMeta, TaskState}
use cothread.TaskGroup.{TaskGroup, alloc_task_meta, meta_or_new}
use cothread.TaskGroup.Valid.{IsValid}
use cothread.TaskGroup.Alloc.{alloc_task_meta-Allocates}
use cothread.TaskGroup.Clean.{AllClean, Clean, alloc_task_meta-AllClean}
use cothread.Api.{put_meta}
use cothread.Api.Create.{put_meta-IsValid, accepted_meta}
use cothread.Handle.{bthread, Handle, Tasks, spawn_meta, spawn}

-- A spawned task: a handle of the first free slot, whose TaskMeta is ready and clean, so without any
-- reference, and a place with the scheduler.
pub record Spawns (s : ℕ) (free : List ℕ) (t : Tasks) (r : Option (Handle × Tasks)) : Type 0 where
  pub after : Tasks
  pub returns : r ≡ some (some (bthread s), after)
  pub valid : IsValid after.group free
  pub meta : TaskMeta
  pub there : after.group.task_pool s ≡ some meta
  pub ready : meta.state ≡ TaskState.ready
  pub clean : Clean (some meta)
  pub queued : after.enqueued ≡ t.enqueued ++ bthread s ∷ []
  pub coroutines : after.coroutines ≡ t.coroutines

spawn_lem :
    (run wrapper s : ℕ) (allocated : Option ℕ) (t : Tasks) (g : TaskGroup) (m : TaskMeta)
    → alloc_task_meta t.group ≡ some (s, g)
    → g.task_pool s ≡ some m
    → spawn run wrapper allocated t
      ≡ some (
        some (bthread s),
        record t {
          group = put_meta s (spawn_meta run wrapper allocated m) g;
          enqueued = t.enqueued ++ bthread s ∷ [];
        },
      )
unfolding spawn
spawn_lem run wrapper s allocated t g m e p =
    (rw (e, spawn) refl)
    ∙ ap
        (λ o. some (
          some (bthread s),
          record t {
            group = put_meta s (spawn_meta run wrapper allocated (meta_or_new o)) g;
            enqueued = t.enqueued ++ bthread s ∷ [];
          },
        ))
        p

-- With a free slot and clean TaskMetas, spawn makes a task in the first free slot.
pub spawn-Spawns :
    (run wrapper s : ℕ) (allocated : Option ℕ) (free : List ℕ) (t : Tasks)
    → IsValid t.group (s ∷ free)
    → AllClean t.group (s ∷ free)
    → Spawns s free t (spawn run wrapper allocated t)
spawn-Spawns run wrapper s allocated free t v c =
    let (g, e, w, d, k) = alloc_task_meta-Allocates t.group (s ∷ free) v in
    let (g', e', clean, rest) = alloc_task_meta-AllClean t.group free s v c in
    let same : g' ≡ g = ground (arith, e, e') in
    let (m, p) = accepted_meta g s (t.group.generations s) v.bounded.0 d in
    let (i, j) = w.synced s m p in
    let made = spawn_meta run wrapper allocated m in
    record {
      after = record t { group = put_meta s made g; enqueued = t.enqueued ++ bthread s ∷ [] };
      returns = spawn_lem run wrapper s allocated t g m e p;
      valid = put_meta-IsValid s made g free w i j;
      meta = made;
      there = update_self g.task_pool s (some made);
      ready = refl;
      clean = subst Clean p (subst (λ h. Clean (h.task_pool s)) same clean);
      queued = refl;
      coroutines = refl;
    }
