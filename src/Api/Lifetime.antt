-- ===== src/Api/Lifetime.antt =====
-- The end of a task's id: join and detach give up references, and the last one recycles the TaskMeta.
use cothread.Prelude.{
  ℕ, suc, ◌+◌, ◌-◌, ◌^◌, ◌<◌, ◌≡◌, refl, ap, ◌∙◌, Bool, true, false, none, some, List, ◌∷◌, arith,
  ◌==◌, Fresh, update_self, u32,
}
use cothread.Task.{TaskMeta, TaskState, release}
use cothread.TaskGroup.{TaskGroup, pool_size, dealloc_task_meta, decode_id, encode_id}
use cothread.TaskGroup.Valid.{IsValid}
use cothread.TaskGroup.Alloc.{dealloc_task_meta-IsValid}
use cothread.Api.{
  after_release, Api, ok, put_meta, drop_ref, detach, joined, join, join_made, take_result,
  with_butex,
}
use cothread.Api.Create.{put_meta-IsValid, accepts}

pub release_parts :
    (m : TaskMeta) (k : ℕ) (b : Bool)
    → u32 (m.ref_count + 2 ^ 32 - 1) ≡ k
    → (m.ref_count == 1) ≡ b
    → release m ≡ (record m { ref_count = k }, b)
unfolding release
release_parts m k b e f =
    ap (λ x. (record m { ref_count = x }, m.ref_count == 1)) e
    ∙ ap (λ x. (record m { ref_count = k }, x)) f

pub drop_ref_lem :
    (s : ℕ) (m : TaskMeta) (g : TaskGroup) (r : TaskMeta × Bool)
    → g.task_pool s ≡ some m
    → release m ≡ r
    → drop_ref s g ≡ after_release s r g
unfolding drop_ref
drop_ref_lem s m g r p e = rw (p, drop_ref) (ap (λ x. after_release s x g) e)

drop_ref-more :
    (s k : ℕ) (m : TaskMeta) (g : TaskGroup)
    → g.task_pool s ≡ some m
    → m.ref_count ≡ suc (suc k)
    → k < 2 ^ 31
    → drop_ref s g ≡ put_meta s (record m { ref_count = suc k }) g
unfolding after_release
drop_ref-more s k m g p r b =
    drop_ref_lem s m g (record m { ref_count = suc k }, false) p
      (release_parts m (suc k) false (omega (arith, r)) (ground (arith, r)))

pub drop_ref-last :
    (s : ℕ) (m : TaskMeta) (g : TaskGroup)
    → g.task_pool s ≡ some m
    → m.ref_count ≡ 1
    → drop_ref s g ≡ dealloc_task_meta s (put_meta s (record m { ref_count = 0 }) g)
unfolding after_release
drop_ref-last s m g p r =
    drop_ref_lem s m g (record m { ref_count = 0 }, true) p
      (release_parts m 0 true (omega (arith, r)) (ground (arith, r)))

-- What the last reference leaves: the slot is free, first of all, and its id is refused.
pub record Recycles (s : ℕ) (free : List ℕ) (g : TaskGroup) (after : TaskGroup) : Type 0 where
  pub valid : IsValid after (s ∷ free)
  pub refused_now : decode_id (encode_id s (g.generations s)) after ≡ none

pub drop_ref-Recycles :
    (s : ℕ) (m : TaskMeta) (g : TaskGroup) (free : List ℕ)
    → IsValid g free
    → g.task_pool s ≡ some m
    → m.ref_count ≡ 1
    → Fresh s free
    → s < pool_size
    → Recycles s free g (drop_ref s g)
drop_ref-Recycles s m g free v p r f h =
    let (i, j) = v.synced s m p in
    let last = record m { ref_count = 0 } in
    let (w, d) =
      dealloc_task_meta-IsValid (put_meta s last g) free s last
        (put_meta-IsValid s last g free v i j) (update_self g.task_pool s (some last)) f h in
    rw (drop_ref-last s m g p r) (record { valid = w; refused_now = d })

detach_lem :
    (tid s : ℕ) (a : Api)
    → decode_id tid a.group ≡ some s
    → detach tid a ≡ (ok, record a { group = drop_ref s a.group })
unfolding detach
detach_lem tid s a e = rw (e, detach) refl

join_lem :
    (made tid s : ℕ) (m : TaskMeta) (a : Api)
    → decode_id tid a.group ≡ some s
    → a.group.task_pool s ≡ some m
    → m.state ≡ TaskState.finished
    → join made tid a
      ≡ joined m.result (record a { group = drop_ref s (put_meta s (with_butex made m) a.group) })
unfolding join join_made take_result
join_lem made tid s m a e p f = rw (e, join) (rw p (rw f refl))

-- Joining a task that is finished, and whose worker has given up its reference, returns the task's
-- result and recycles the TaskMeta: the slot is free, and the id is refused from then on.
pub join-Recycles :
    (made s : ℕ) (m : TaskMeta) (free : List ℕ) (a : Api)
    → IsValid a.group free
    → a.group.task_pool s ≡ some m
    → m.state ≡ TaskState.finished
    → m.ref_count ≡ 1
    → Fresh s free
    → s < pool_size
    → (after : Api) × (join made (encode_id s (a.group.generations s)) a ≡ joined m.result after)
      × Recycles s free a.group after.group
join-Recycles made s m free a v p e r f h =
    let (i, j) = v.synced s m p in
    let d = accepts a.group s (a.group.generations s) m h p j in
    let m' = with_butex made m in
    let g = put_meta s m' a.group in
    let last =
      drop_ref-Recycles s m' g free (put_meta-IsValid s m' a.group free v i j)
        (update_self a.group.task_pool s (some m')) r f h in
    (
      record a { group = drop_ref s g },
      join_lem made (encode_id s (a.group.generations s)) s m a d p e,
      record { valid = last.valid; refused_now = last.refused_now },
    )

-- A task with both its references, as create leaves it, can be detached twice: both calls succeed, and the
-- second recycles the TaskMeta, whatever the task's state is; it stays with the scheduler, although its
-- slot is the next one to be given out.
pub detach-Recycles_early :
    (s : ℕ) (m : TaskMeta) (free : List ℕ) (a : Api)
    → IsValid a.group free
    → a.group.task_pool s ≡ some m
    → m.ref_count ≡ 2
    → Fresh s free
    → s < pool_size
    → let tid = encode_id s (a.group.generations s) in
      let once = detach tid a in
      let twice = detach tid once.1 in
      (once.0 ≡ ok)
      × (twice.0 ≡ ok)
      × (twice.1.enqueued ≡ a.enqueued)
      × Recycles s free a.group twice.1.group
detach-Recycles_early s m free a v p r f h =
    let gen = a.group.generations s in
    let (i, j) = v.synced s m p in
    let m' = record m { ref_count = 1 } in
    let g' = put_meta s m' a.group in
    let b = record a { group = g' } in
    let there = update_self a.group.task_pool s (some m') in
    let one : detach (encode_id s gen) a ≡ (ok, b) =
      detach_lem (encode_id s gen) s a (accepts a.group s gen m h p j)
      ∙ ap (λ g. (ok, record a { group = g })) (drop_ref-more s 0 m a.group p r (omega arith)) in
    let two : detach (encode_id s gen) b ≡ (ok, record b { group = drop_ref s g' }) =
      detach_lem (encode_id s gen) s b (accepts g' s gen m' h there j) in
    let last =
      drop_ref-Recycles s m' g' free (put_meta-IsValid s m' a.group free v i j) there refl f h in
    rw (one, two) (refl, refl, refl, record { valid = last.valid; refused_now = last.refused_now })
