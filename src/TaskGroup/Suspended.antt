-- ===== src/TaskGroup/Suspended.antt =====
-- The search for suspended tasks.
use cothread.Prelude.{
  ℕ, zero, suc, ◌+◌, ◌≡◌, ◌&&◌, List, arith, ltb, leb, ◌==◌, if◌then◌else◌, tally,
}
use cothread.TaskGroup.{TaskGroup, pool_size, is_suspended, suspended_from, get_suspended_tasks}

-- How often a slot stands in a list.
abbrev pub occurrences : ℕ → List ℕ → ℕ
occurrences slot = tally (λ x. x == slot)

suspended_from-tally :
    (k i slot : ℕ) (g : TaskGroup)
    → occurrences slot (suspended_from k i g)
      ≡ (if leb i slot && ltb slot (i + k) && is_suspended (g.task_pool slot) then 1 else 0)
unfolding suspended_from tally
suspended_from-tally zero i slot g = ground arith
suspended_from-tally (suc k) i slot g = ground (arith, suspended_from-tally k (i + 1) slot g)

-- The search finds a slot once if it is below the pool's size and its TaskMeta is suspended, and
-- else not at all.
get_suspended_tasks-exact :
    (slot : ℕ) (g : TaskGroup)
    → occurrences slot (get_suspended_tasks g)
      ≡ (if ltb slot pool_size && is_suspended (g.task_pool slot) then 1 else 0)
unfolding get_suspended_tasks
get_suspended_tasks-exact slot g = ground (arith, suspended_from-tally pool_size 0 slot g)
