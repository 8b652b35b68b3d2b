-- ===== src/TaskGroup/Clean.antt =====
-- What a free slot's TaskMeta holds of the tasks that had it: nothing of its references and its joiners.
use cothread.Prelude.{
  ℕ, ◌+◌, ◌≡◌, refl, sym, subst, Option, none, some, List, [], ◌∷◌, All, Fresh, update, update_self,
  update_ne, u32,
}
use cothread.Task.{TaskMeta}
use cothread.TaskGroup.{
  TaskGroup, init, meta_or_new, refresh, alloc_task_meta, recycle, dealloc_task_meta,
}
use cothread.TaskGroup.Valid.{IsValid}
use cothread.TaskGroup.Alloc.{dealloc_task_meta_lem, popped}

-- No reference, no joiner, no join butex.
abbrev pub Clean : Option TaskMeta → Type 0
Clean o =
    ((meta_or_new o).ref_count ≡ 0)
    × ((meta_or_new o).join_butex ≡ none)
    × ((meta_or_new o).join_waiters ≡ 0)

abbrev pub AllClean : TaskGroup → List ℕ → Type 0
AllClean g free = All (λ s. Clean (g.task_pool s)) free

init-AllClean : (free : List ℕ) → AllClean init free
unfolding init
init-AllClean [] = tt
init-AllClean (s ∷ free) = ((refl, refl, refl), init-AllClean free)

update-AllClean :
    (s : ℕ) (o : Option TaskMeta) (g : TaskGroup) (free : List ℕ)
    → Fresh s free
    → AllClean g free
    → AllClean (record g { task_pool = update g.task_pool s o }) free
update-AllClean s o g [] f c = tt
update-AllClean s o g (x ∷ free) f c =
    (rw (update_ne g.task_pool s x o (λ e. f.0 (sym e))) c.0, update-AllClean s o g free f.1 c.1)

-- Recycling keeps every free slot clean, that of the recycled task included.
dealloc_task_meta-AllClean :
    (g : TaskGroup) (free : List ℕ) (s : ℕ) (m : TaskMeta)
    → IsValid g free
    → g.task_pool s ≡ some m
    → Fresh s free
    → AllClean g free
    → AllClean (dealloc_task_meta s g) (s ∷ free)
unfolding recycle
dealloc_task_meta-AllClean g free s m v e f c =
    let after = recycle (u32 (g.generations s + 1)) m in
    subst (λ h. AllClean h (s ∷ free)) (sym (dealloc_task_meta_lem g free s m v e))
      (
        rw (update_self g.task_pool s (some after)) (refl, refl, refl),
        update-AllClean s (some after) g free f c,
      )

-- Allocation takes a clean TaskMeta, and leaves the other free slots clean.
pub alloc_task_meta-AllClean :
    (g : TaskGroup) (free : List ℕ) (s : ℕ)
    → IsValid g (s ∷ free)
    → AllClean g (s ∷ free)
    → (h : TaskGroup) × (alloc_task_meta g ≡ some (s, h)) × Clean (h.task_pool s) × AllClean h free
unfolding alloc_task_meta refresh
alloc_task_meta-AllClean g free s v c = rw (v.chain.0) (
  refresh s (popped s g),
  refl,
  rw (update_self g.task_pool s _) c.0,
  update-AllClean s _ (popped s g) free v.distinct.0 c.1,
)
