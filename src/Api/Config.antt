-- ===== src/Api/Config.antt =====
-- The rest of src/bthread.cpp: bthread_yield, the timers, and the number of workers, over the scheduler and its
-- timer thread. An int is its bit pattern, `hardware` is what hardware_concurrency returns, and `pool`
-- the entry pool of a timer thread that is made.
use cothread.Prelude.{
  ℕ, ◌^◌, ◌≤◌, ◌<◌, ◌≡◌, refl, ap, ◌∙◌, Bool, true, false, not, ◌&&◌, Option, none, some, ◌++◌,
  arith, ltb, if◌then◌else◌, lt→ltb, tally,
}
use cothread.Worker.{Worker, Yielded, stays, yield_current}
use cothread.ObjectPool.{ObjectPool}
use cothread.Timer.Thread.{TimerThread, Delay, refused, scheduled, outside, schedule, cancel}
use cothread.Timer.Thread.Invariant.{AllWatched, turn}
use cothread.Timer.Thread.Withdraw.{Disarmed, schedule-cancel}
use cothread.Timer.Thread.Books.{has_id, armed}
use cothread.Scheduler.{Scheduler, max_workers, count_of, init, get_timer_thread, ids_from}
use cothread.Scheduler.Restart.{init-Starts}
use cothread.Api.{Code, ok, einval, esrch, ebusy}

-- `bthread_yield`: by a thread that is no worker the system's yield, by a worker its own.
unfoldable pub yield_now : Option Worker → Yielded
yield_now none = stays
yield_now (some w) = yield_current w

abbrev pub is_positive : ℕ → Bool
is_positive n = ltb 0 n && ltb n (2 ^ 31)

-- `bthread_set_worker_count`
unfoldable pub set_worker_count : ℕ → Scheduler → Code × Scheduler
set_worker_count count s =
    if not (is_positive count)
    then (einval, s)
    else if is_positive s.worker_count
    then (ebusy, s)
    else (ok, record s { configured_count = count })

-- `bthread_get_worker_count`
unfoldable pub get_worker_count : Scheduler → ℕ
get_worker_count s = s.worker_count

-- What bthread_timer_add gives: -1, an id, or a fault, as the use of a timer thread that is gone is.
pub data TimerAdded : Type 0 where
  rejected : Scheduler → TimerAdded
  adds : ℕ → Scheduler → TimerAdded
  crashes : TimerAdded

-- The call of Schedule on the timer thread that GetTimerThread returned.
unfoldable pub schedule_on : ℕ → ℕ → ℕ → Delay → Option TimerThread × Scheduler → TimerAdded
schedule_on now callback arg d (none, s) = crashes
schedule_on now callback arg d (some t, s) = elim (schedule now callback arg (some d) t) [
  | refused ↦ rejected s
  | scheduled id t' ↦ adds id (record s { timer_thread = some t' })
  | outside ↦ crashes
]

unfoldable pub timer_add : ℕ → ObjectPool → ℕ → Option ℕ → ℕ → Option Delay → Scheduler → TimerAdded
timer_add hardware pool now none arg delay s = rejected s
timer_add hardware pool now (some callback) arg none s = rejected s
timer_add hardware pool now (some callback) arg (some d) s = elim (init hardware s) [
  | none ↦ crashes
  | some t ↦ schedule_on now callback arg d (get_timer_thread hardware pool t)
]

-- The call of Cancel.
unfoldable pub cancel_on : ℕ → Option TimerThread × Scheduler → Option (Code × Scheduler)
cancel_on id (none, s) = none
cancel_on id (some t, s) =
    let (found, t') = cancel id t in
    some (if found then ok else esrch, record s { timer_thread = some t' })

-- `bthread_timer_cancel`, which calls no Init; none is a fault.
unfoldable pub timer_cancel : ℕ → ObjectPool → ℕ → Scheduler → Option (Code × Scheduler)
timer_cancel hardware pool id s =
    if ltb id (2 ^ 31) then cancel_on id (get_timer_thread hardware pool s) else some (einval, s)

set_worker_count_lem :
    (count : ℕ) (s : Scheduler)
    → is_positive count ≡ true
    → is_positive s.worker_count ≡ false
    → set_worker_count count s ≡ (ok, record s { configured_count = count })
unfolding set_worker_count
set_worker_count_lem count s p q = simp (p, q)

set_worker_count_busy :
    (count : ℕ) (s : Scheduler)
    → is_positive count ≡ true
    → is_positive s.worker_count ≡ true
    → set_worker_count count s ≡ (ebusy, s)
unfolding set_worker_count
set_worker_count_busy count s p q = simp (p, q)

positive : (n : ℕ) → 0 < n → n < 2 ^ 31 → is_positive n ≡ true
positive n a b = ground arith

count_of_positive : (hardware n : ℕ) → is_positive n ≡ true → count_of hardware n ≡ n
unfolding count_of
count_of_positive hardware n p = rw (p, count_of) refl

-- A number of workers that is set before the scheduler starts, at most 256, is the number that Init starts.
-- In every state of the scheduler that has that many workers a further number above 0 is refused.
pub set_worker_count-init :
    (hardware count : ℕ) (s : Scheduler)
    → s.init_done ≡ false
    → s.worker_count ≡ 0
    → 0 < count
    → count ≤ max_workers
    → let r = set_worker_count count s in
      (r.0 ≡ ok)
      × ((t : Scheduler) × (init hardware r.1 ≡ some t)
          × (get_worker_count t ≡ count)
          × (t.workers ≡ s.workers ++ ids_from 0 count)
          × ((other : ℕ) (u : Scheduler)
              → 0 < other
              → other < 2 ^ 31
              → get_worker_count u ≡ count
              → set_worker_count other u ≡ (ebusy, u)))
unfolding get_worker_count
set_worker_count-init hardware count s d w pos h =
    let wide : is_positive count ≡ true = positive count pos (omega arith) in
    let s' = record s { configured_count = count } in
    let n = count_of_positive hardware count wide in
    let set = set_worker_count_lem count s wide (ground (arith, w)) in
    let (t, e, v) = init-Starts hardware s' d (omega (arith, n)) in
    (
      ap (λ r. r.0) set,
      (
        t,
        ap (λ r. init hardware r.1) set ∙ e,
        v.counted.0 ∙ n,
        v.workers ∙ ap (λ k. s.workers ++ ids_from 0 k) n,
        λ other u a b c.
            set_worker_count_busy other u (positive other a b) (ap is_positive c ∙ wide),
      ),
    )

-- A scheduler that runs, with its timer thread `t` in good order.
pub record Timed (t : TimerThread) (s : Scheduler) : Type 0 where
  pub started : s.init_done ≡ true
  pub made : s.timer_made ≡ true
  pub there : s.timer_thread ≡ some t
  pub some_shard : 0 < t.worker_count
  pub turns : t.shard_assign < 2 ^ 31
  pub watched : AllWatched t

init_done_lem : (hardware : ℕ) (s : Scheduler) → s.init_done ≡ true → init hardware s ≡ some s
unfolding init
init_done_lem hardware s d = simp d

get_timer_thread_lem :
    (hardware : ℕ) (pool : ObjectPool) (o : Option TimerThread) (s : Scheduler)
    → s.timer_made ≡ true
    → s.timer_thread ≡ o
    → get_timer_thread hardware pool s ≡ (o, s)
unfolding get_timer_thread
get_timer_thread_lem hardware pool o s m e = simp m (ap (λ (x : Option TimerThread). (x, s)) e)

timer_add_lem :
    (hardware now callback arg id : ℕ) (pool : ObjectPool) (d : Delay) (t t' : TimerThread)
    (s : Scheduler)
    → Timed t s
    → schedule now callback arg (some d) t ≡ scheduled id t'
    → timer_add hardware pool now (some callback) arg (some d) s
      ≡ adds id (record s { timer_thread = some t' })
unfolding timer_add schedule_on
timer_add_lem hardware now callback arg id pool d t t' s v e =
    rw (init_done_lem hardware s v.started, timer_add)
      (ap (schedule_on now callback arg d)
          (get_timer_thread_lem hardware pool (some t) s v.made v.there)
        ∙ (rw (e, schedule_on) refl))

-- While the scheduler runs and no timer escapes the deadlines of its timer thread: bthread_timer_add, with an
-- id that is not negative and that no timer has yet, arms one timer under the id
-- that it returns; bthread_timer_cancel with this id returns 0 and leaves no timer with it armed in
-- any shard.
pub timer_add-timer_cancel :
    (hardware now callback arg : ℕ) (pool : ObjectPool) (d : Delay) (t : TimerThread)
    (s : Scheduler)
    → Timed t s
    → t.next_id < 2 ^ 31
    → ((j : ℕ) → j < t.worker_count → tally (has_id t.next_id) (t.heaps j) ≡ 0)
    → (t' : TimerThread) × (u : TimerThread) × (timer_add hardware pool now
          (some callback)
          arg
          (some d)
          s
        ≡ adds t.next_id (record s { timer_thread = some t' }))
      × (tally (armed t.next_id) (t'.heaps (turn t)) ≡ 1)
      × (timer_cancel hardware pool t.next_id (record s { timer_thread = some t' })
          ≡ some (ok, record s { timer_thread = some u }))
      × Disarmed t.next_id u
unfolding timer_cancel cancel_on
timer_add-timer_cancel hardware now callback arg pool d t s v h fresh =
    let (t', e, one, c, gone) =
      schedule-cancel now callback arg d t v.some_shard v.turns v.watched fresh in
    let r = record s { timer_thread = some t' } in
    let u = (cancel t.next_id t').1 in
    (
      t',
      u,
      timer_add_lem hardware now callback arg t.next_id pool d t t' s v e,
      one,
      rw (lt→ltb t.next_id (2 ^ 31) h, get_timer_thread_lem hardware pool (some t') r v.made refl)
          (ap (λ b. some (if b then ok else esrch, record s { timer_thread = some u })) c),
      gone,
    )

-- Once the timer thread was retired by a shutdown, bthread_timer_add uses a null pointer.
timer_add-crashes :
    (hardware now callback arg : ℕ) (pool : ObjectPool) (d : Delay) (s : Scheduler)
    → s.init_done ≡ true
    → s.timer_made ≡ true
    → s.timer_thread ≡ none
    → timer_add hardware pool now (some callback) arg (some d) s ≡ crashes
unfolding timer_add schedule_on
timer_add-crashes hardware now callback arg pool d s i m e =
    rw (init_done_lem hardware s i, timer_add)
      (ap (schedule_on now callback arg d) (get_timer_thread_lem hardware pool none s m e))
