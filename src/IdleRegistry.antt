-- ===== src/IdleRegistry.antt =====
-- The registry of idle workers in src/bthread/core/scheduler.cpp, RegisterIdleWorker and PopIdleWorker: a
-- stack linked through an array by worker id; `none` is -1. Each operation runs by itself.
pub mod Stack
use cothread.Prelude.{ℕ, zero, suc, Option, none, some, List, [], ◌∷◌, update}

pub record IdleRegistry : Type 0 where
  pub idle_head : Option ℕ
  pub idle_next : ℕ → Option ℕ

unfoldable pub register_idle_worker : ℕ → IdleRegistry → IdleRegistry
register_idle_worker worker_id r = record r {
  idle_head = some worker_id;
  idle_next = update r.idle_next worker_id r.idle_head;
}

unfoldable pub pop_idle_worker : IdleRegistry → Option ℕ × IdleRegistry
pop_idle_worker r = elim r.idle_head [
  | none ↦ (none, r)
  | some w ↦ (some w, record r { idle_head = r.idle_next w })
]

-- The workers that `WakeIdleWorkers` wakes, one for each id popped, at most `count`.
unfoldable pub wake_idle_workers : ℕ → IdleRegistry → List ℕ × IdleRegistry
wake_idle_workers zero r = ([], r)
wake_idle_workers (suc k) r =
    let (popped, r') = pop_idle_worker r in
    elim popped [
      | none ↦ ([], r')
      | some w ↦ let (rest, r'') = wake_idle_workers k r' in (w ∷ rest, r'')
    ]

unfoldable pub reset_idle_registry : IdleRegistry → IdleRegistry
reset_idle_registry r = record r { idle_head = none }
