-- ===== src/Coroutines.antt =====
-- src/coro/scheduler.cpp and include/coro/meta.h: the pool of coroutine metas and the queue of sleeping
-- coroutines. A meta is its index in meta_pool_; times are numbers. The pool's operations hold
-- meta_mutex_, those of the sleepers sleep_mutex.
pub mod Sleep
pub mod Metas
use cothread.Prelude.{
  ℕ, suc, Bool, true, false, ◌||◌, Option, none, some, List, [], ◌∷◌, ltb, leb, if◌then◌else◌,
  get_or, set,
}
use cothread.Task.{TaskState, state_eq}

pub record CoroutineMeta : Type 0 where
  pub state : TaskState
  pub handle : Option ℕ
  pub cancel_requested : Bool
  pub waiting_sync : Option ℕ
  pub next : Option ℕ
  pub owner_worker : Option ℕ

-- `CoroutineMeta()`.
abbrev pub new_meta : CoroutineMeta
new_meta = record {
  state = TaskState.ready;
  handle = none;
  cancel_requested = false;
  waiting_sync = none;
  next = none;
  owner_worker = none;
}

abbrev pub is_none : Option ℕ → Bool
is_none none = true
is_none (some h) = false

abbrev pub is_reusable : CoroutineMeta → Bool
is_reusable m = state_eq m.state TaskState.finished || is_none m.handle

-- The reset of a reused meta; its handle stays.
abbrev pub reset_meta : CoroutineMeta → CoroutineMeta
reset_meta m = record m {
  state = TaskState.ready;
  cancel_requested = false;
  waiting_sync = none;
  next = none;
  owner_worker = none;
}

-- The first reusable meta, or a new one at the end.
unfoldable pub alloc_meta : List CoroutineMeta → ℕ × List CoroutineMeta
alloc_meta [] = (0, new_meta ∷ [])
alloc_meta (m ∷ metas) =
    let (i, rest) = alloc_meta metas in
    if is_reusable m then (0, reset_meta m ∷ metas) else (suc i, m ∷ rest)

unfoldable pub free_meta : ℕ → List CoroutineMeta → List CoroutineMeta
free_meta i metas =
    set metas i (record (get_or metas i new_meta) { state = TaskState.finished; handle = none })

-- A sleeping coroutine: an entry of the multimap.
pub record Sleeper : Type 0 where
  pub wake_time : ℕ
  pub meta : ℕ

-- A new entry goes behind those of an equal time.
unfoldable pub emplace : Sleeper → List Sleeper → List Sleeper
emplace s [] = s ∷ []
emplace s (x ∷ xs) = if ltb s.wake_time x.wake_time then s ∷ x ∷ xs else x ∷ emplace s xs

-- One pass of the sleep thread: the coroutines made ready and submitted, in order, and those that
-- sleep on.
unfoldable pub wake_due : ℕ → List Sleeper → List Sleeper × List Sleeper
wake_due now [] = ([], [])
wake_due now (s ∷ rest) =
    let (woken, later) = wake_due now rest in
    if leb s.wake_time now then (s ∷ woken, later) else ([], s ∷ rest)
