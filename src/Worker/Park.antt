-- ===== src/Worker/Park.antt =====
-- WaitForTask and WakeUp of src/bthread/core/worker.cpp with the registry of idle workers of
-- src/bthread/core/scheduler.cpp, interleaved: one worker that waits, and any number of threads that
-- queue a task, pop an idle worker, and call WakeUp if it is this one. A step is one access to shared
-- state, where a push to the registry and a pop are one; the accesses are sequentially consistent.
-- `queued` counts the tasks in the local and the global queue: while the worker waits only the global one
-- grows, so reading both is one step. `wake_count` counts all increments, and the futex compares its low
-- 32 bits. Stop, which wakes every worker, is left out.
pub mod Wake
pub mod Unlisted
use cothread.Prelude.{ℕ, suc, ◌≡◌, Bool, true, false, ◌==◌, if◌then◌else◌, u32}

-- Where the worker is: outside or spinning, before is_idle_ is set; before it registers; before the load of
-- wake_count_;
-- before the test of the queues; before the test of wake_pending_; before FutexWait; in it; after it.
pub data Phase : Type 0 where
  looks : Phase
  idles : Phase
  registered : Phase
  captured : ℕ → Phase
  found_none : ℕ → Phase
  committed : ℕ → Phase
  asleep : ℕ → Phase
  returned : Phase

-- `listed` tells whether the registry has the worker. `to_pop` is the number of threads that queued a task and
-- have still to pop an idle worker; `elsewhere` counts the pops that gave another one. `submitted`,
-- `announced`, `counted` and `woken` are the numbers of threads that popped this worker and have still to
-- set wake_pending_, to increment wake_count_, to call FutexWake, to clear wake_pending_.
pub record Park : Type 0 where
  pub phase : Phase
  pub queued : ℕ
  pub is_idle : Bool
  pub wake_pending : Bool
  pub wake_count : ℕ
  pub listed : Bool
  pub to_pop : ℕ
  pub elsewhere : ℕ
  pub submitted : ℕ
  pub announced : ℕ
  pub counted : ℕ
  pub woken : ℕ

abbrev pub start : Park
start = record {
  phase = looks;
  queued = 0;
  is_idle = false;
  wake_pending = false;
  wake_count = 0;
  listed = false;
  to_pop = 0;
  elsewhere = 0;
  submitted = 0;
  announced = 0;
  counted = 0;
  woken = 0;
}

-- FutexWake: a worker in FutexWait returns from it.
unfoldable pub wake : Phase → Phase
wake (asleep e) = returned
wake looks = looks
wake idles = idles
wake registered = registered
wake (captured e) = captured e
wake (found_none e) = found_none e
wake (committed e) = committed e
wake returned = returned

-- FutexWait with the expected value `e`, when the word is `count`: it returns at once if they differ.
unfoldable pub futex_wait : ℕ → ℕ → Phase
futex_wait count e = if u32 count == u32 e then asleep e else returned

-- The re-check of the queues and of the flag, after which the worker goes on or turns back.
unfoldable pub check_queues : ℕ → ℕ → Phase
check_queues queued e = if queued == 0 then found_none e else looks

unfoldable pub check_pending : Bool → ℕ → Phase
check_pending pending e = if pending then looks else committed e

-- A worker can be in the registry more than once and then stays listed after a pop; the registration of a
-- worker that is in it already can cut this one off.
pub data Step : Park → Park → Type 0 where
  set_idle : (s : Park) → s.phase ≡ looks → Step s (record s { phase = idles; is_idle = true })
  register : (s : Park) → s.phase ≡ idles → Step s (record s { phase = registered; listed = true })
  capture : (s : Park) → s.phase ≡ registered → Step s (record s { phase = captured s.wake_count })
  recheck :
      (s : Park) (e : ℕ)
      → s.phase ≡ captured e
      → Step s (record s { phase = check_queues s.queued e })
  recheck_pending :
      (s : Park) (e : ℕ)
      → s.phase ≡ found_none e
      → Step s (record s { phase = check_pending s.wake_pending e })
  sleep :
      (s : Park) (e : ℕ)
      → s.phase ≡ committed e
      → Step s (record s { phase = futex_wait s.wake_count e })
  time_out : (s : Park) (e : ℕ) → s.phase ≡ asleep e → Step s (record s { phase = returned })
  clear_idle :
      (s : Park) → s.phase ≡ returned → Step s (record s { phase = looks; is_idle = false })
  take_task : (s : Park) (n : ℕ) → s.queued ≡ suc n → Step s (record s { queued = n })
  submit : (s : Park) → Step s (record s { queued = suc s.queued; to_pop = suc s.to_pop })
  pop_this :
      (s : Park) (n : ℕ) (still : Bool)
      → s.to_pop ≡ suc n
      → s.listed ≡ true
      → Step s (record s { to_pop = n; listed = still; submitted = suc s.submitted })
  pop_other :
      (s : Park) (n : ℕ)
      → s.to_pop ≡ suc n
      → Step s (record s { to_pop = n; elsewhere = suc s.elsewhere })
  pop_none :
      (s : Park) (n : ℕ) → s.to_pop ≡ suc n → s.listed ≡ false → Step s (record s { to_pop = n })
  cut_off : (s : Park) → Step s (record s { listed = false })
  announce :
      (s : Park) (n : ℕ)
      → s.submitted ≡ suc n
      → Step s (record s { submitted = n; announced = suc s.announced; wake_pending = true })
  count :
      (s : Park) (n : ℕ)
      → s.announced ≡ suc n
      → Step s (record s { announced = n; counted = suc s.counted; wake_count = suc s.wake_count })
  futex_wake :
      (s : Park) (n : ℕ)
      → s.counted ≡ suc n
      → Step s (record s { counted = n; woken = suc s.woken; phase = wake s.phase })
  clear_pending :
      (s : Park) (n : ℕ) → s.woken ≡ suc n → Step s (record s { woken = n; wake_pending = false })

-- The states after any number of steps.
pub data Reaches : Park → Park → Type 0 where
  here : (s : Park) → Reaches s s
  then' : (s t u : Park) → Reaches s t → Step t u → Reaches s u
