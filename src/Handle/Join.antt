-- ===== src/Handle/Join.antt =====
-- Joining and detaching through a handle.
use cothread.Prelude.{
  ℕ, ◌+◌, ◌-◌, ◌^◌, ◌≡◌, refl, ap, ◌∙◌, ◌≢◌, inl, inr, false, Option, none, some, List, [], ◌∷◌,
  ◌++◌, arith, Option-cases, Fresh, update_self, u32,
}
use cothread.Task.{TaskMeta, TaskState, release}
use cothread.TaskGroup.{TaskGroup}
use cothread.TaskGroup.Valid.{IsValid}
use cothread.TaskGroup.Clean.{AllClean}
use cothread.Worker.{Worker, handle_finished_bthread}
use cothread.Api.{put_meta, drop_ref, after_release}
use cothread.Api.Create.{put_meta-IsValid}
use cothread.Api.Lifetime.{release_parts, drop_ref_lem}
use cothread.Api.Current.{exit_meta, bthread_entry_lem}
use cothread.Api.Life.{over}
use cothread.Handle.{
  bthread, coroutine, Tasks, with_group, count_waiters, join_leaves, returned, join_bthread, join,
  spawn,
}
use cothread.Handle.Spawned.{spawn-Spawns}
use cothread.Promise.Run.{Unfinished}

-- One reference less, which was not the last one.
abbrev fewer : TaskMeta → TaskMeta
fewer m = record m { ref_count = u32 (m.ref_count + 2 ^ 32 - 1) }

drop_ref-fewer :
    (s : ℕ) (m : TaskMeta) (g : TaskGroup)
    → g.task_pool s ≡ some m
    → m.ref_count ≢ 1
    → drop_ref s g ≡ put_meta s (fewer m) g
unfolding after_release
drop_ref-fewer s m g p r =
    drop_ref_lem s m g (fewer m, false) p
      (release_parts m (u32 (m.ref_count + 2 ^ 32 - 1)) false refl (ground (arith, r)))

join_bthread_lem :
    (s : ℕ) (m : TaskMeta) (t : Tasks)
    → t.group.task_pool s ≡ some m
    → join (some (bthread s)) t ≡ join_bthread s m t
unfolding join
join_bthread_lem s m t p = rw (p, join) refl

-- A bthread that is not finished and has no join butex: the join returns.
join_bthread-returns :
    (s : ℕ) (m : TaskMeta) (t : Tasks)
    → m.state ≡ TaskState.ready
    → m.join_butex ≡ none
    → join_bthread s m t
      ≡ returned (
          join_leaves s (count_waiters 1 m) (with_group (put_meta s (count_waiters 1 m) t.group) t))
unfolding join_bthread
join_bthread-returns s m t e b = simp (e, b)

-- The group after such a join, where the task had no reference.
left_lem :
    (s : ℕ) (m : TaskMeta) (g : TaskGroup)
    → m.ref_count ≡ 0
    → let m' = count_waiters (2 ^ 32 - 1) (count_waiters 1 m) in
      drop_ref s (put_meta s m' (put_meta s (count_waiters 1 m) g))
      ≡ put_meta s (fewer m') (put_meta s m' (put_meta s (count_waiters 1 m) g))
left_lem s m g r =
    let m' = count_waiters (2 ^ 32 - 1) (count_waiters 1 m) in
    let h = put_meta s (count_waiters 1 m) g in
    drop_ref-fewer s m' (put_meta s m' h) (update_self h.task_pool s (some m')) (omega (arith, r))

-- A join of a task that spawn has just made returns at once, although the task is still ready and waits
-- with the scheduler: spawn makes no join butex, and without one the join does not wait.
pub spawn-join_early :
    (run wrapper s : ℕ) (allocated : Option ℕ) (free : List ℕ) (t : Tasks)
    → IsValid t.group (s ∷ free)
    → AllClean t.group (s ∷ free)
    → (made : Tasks) × (after : Tasks) × (m : TaskMeta) × (spawn run wrapper allocated t
        ≡ some (some (bthread s), made))
      × (join (some (bthread s)) made ≡ returned after)
      × (after.group.task_pool s ≡ some m)
      × (m.state ≡ TaskState.ready)
      × (after.enqueued ≡ t.enqueued ++ bthread s ∷ [])
unfolding join_leaves
spawn-join_early run wrapper s allocated free t v c =
    let p = spawn-Spawns run wrapper s allocated free t v c in
    let m' = count_waiters (2 ^ 32 - 1) (count_waiters 1 p.meta) in
    let h = put_meta s (count_waiters 1 p.meta) p.after.group in
    let after = join_leaves s (count_waiters 1 p.meta) (with_group h p.after) in
    (
      p.after,
      after,
      fewer m',
      p.returns,
      join_bthread_lem s p.meta p.after p.there
          ∙ join_bthread-returns s p.meta p.after p.ready p.clean.1,
      ap (λ (g : TaskGroup). g.task_pool s) (left_lem s p.meta p.after.group p.clean.0)
          ∙ update_self (put_meta s m' h).task_pool s (some (fewer m')),
      p.ready,
      p.queued,
    )

join_bthread-finished :
    (s : ℕ) (m : TaskMeta) (t : Tasks)
    → m.state ≡ TaskState.finished
    → join_bthread s m t ≡ returned (with_group (drop_ref s t.group) t)
unfolding join_bthread
join_bthread-finished s m t e = simp e

handle_finished_fewer :
    (s : ℕ) (m : TaskMeta) (w : Worker) (g : TaskGroup)
    → m.ref_count ≢ 1
    → (handle_finished_bthread s m w g).2 ≡ put_meta s (fewer m) g
unfolding handle_finished_bthread
handle_finished_fewer s m w g r =
    let e : release m ≡ (fewer m, false) =
      release_parts m (u32 (m.ref_count + 2 ^ 32 - 1)) false refl (ground (arith, r)) in
    rw (e, handle_finished_bthread) refl

-- A spawned task is never recycled: after it ran, its worker gave it up and its handle was joined, the group
-- is still well formed with the free slots that spawn left, so the task's own slot is not among them.
-- spawn sets no reference count.
spawn-join_leaks :
    (run wrapper s : ℕ) (allocated value : Option ℕ) (free : List ℕ) (t : Tasks) (w : Worker)
    → IsValid t.group (s ∷ free)
    → AllClean t.group (s ∷ free)
    → (made : Tasks) × (m : TaskMeta) × (after : Tasks) × (spawn run wrapper allocated t
        ≡ some (some (bthread s), made))
      × (made.group.task_pool s ≡ some m)
      × (join (some (bthread s)) (with_group (over value s m w made.group) made) ≡ returned after)
      × IsValid after.group free
      × Fresh s free
spawn-join_leaks run wrapper s allocated value free t w v c =
    let p = spawn-Spawns run wrapper s allocated free t v c in
    let ended = exit_meta value p.meta in
    let g = put_meta s ended p.after.group in
    let left = put_meta s (fewer ended) g in
    let done = with_group left p.after in
    let there = update_self g.task_pool s (some (fewer ended)) in
    let (i, j) = p.valid.synced s p.meta p.there in
    let last = put_meta s (fewer (fewer ended)) left in
    let gone : over value s p.meta w p.after.group ≡ left =
      ap (λ h. (handle_finished_bthread s ended w h).2)
        (bthread_entry_lem value s p.meta p.after.group p.there)
      ∙ handle_finished_fewer s ended w g (omega (arith, p.clean.0)) in
    (
      p.after,
      p.meta,
      with_group last p.after,
      p.returns,
      p.there,
      ap (λ h. join (some (bthread s)) (with_group h p.after)) gone
          ∙ join_bthread_lem s (fewer ended) done there
          ∙ join_bthread-finished s (fewer ended) done refl
          ∙ ap (λ h. returned (with_group h p.after))
              (drop_ref-fewer s (fewer ended) left there (omega (arith, p.clean.0))),
      put_meta-IsValid s (fewer (fewer ended)) left free
          (put_meta-IsValid s (fewer ended) g free
            (put_meta-IsValid s ended p.after.group free p.valid i j) i j)
          i j,
      v.distinct.0,
    )

-- A join of a coroutine whose meta is not finished does not return.
join-Unfinished :
    (c : ℕ) (t u : Tasks) → Unfinished c t.coroutines → join (some (coroutine c)) t ≢ returned u
unfolding join
join-Unfinished c t u h e = elim (Option-cases (t.coroutines c)) [
  | inl gone ↦ ground (arith, gone)
  | inr (m, there) ↦ ground (arith, there, h m there)
]
