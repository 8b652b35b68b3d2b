-- ===== src/Worker/Park/Unlisted.antt =====
-- A worker that sleeps and is not in the registry of idle workers.
use cothread.Prelude.{refl, true, false}
use cothread.Worker.Park.{
  registered, asleep, Park, start, wake, futex_wait, check_queues, check_pending, Step, set_idle,
  register, capture, recheck, recheck_pending, sleep, take_task, submit, pop_this, pop_none,
  announce, count, futex_wake, clear_pending, Reaches, here, then',
}

-- The worker has registered, and a thread whose task the worker has run already has still to pop.
abbrev registers : Park
registers = record start { phase = registered; is_idle = true; listed = true; to_pop = 1 }

-- That thread is done with WakeUp, before the worker has loaded wake_count_.
abbrev woken_early : Park
woken_early = record registers { to_pop = 0; listed = false; wake_count = 1 }

-- The worker sleeps, a task is queued, and no thread is left that would wake it.
abbrev stranded : Park
stranded = record woken_early { phase = asleep 1; queued = 1 }

trans : (s t u : Park) → Reaches s t → Reaches t u → Reaches s u
trans s t u r (here _) = r
trans s t u r (then' _ m _ q step) = then' s m u (trans s t m r q) step

first : (s t u : Park) → Step s t → Reaches t u → Reaches s u
first s t u step r = trans s t u (then' s s t (here s) step) r

to_registers : Reaches start registers
to_registers = first _ _ _ (submit start) (
    first _ _ _ (take_task _ 0 refl)
      (first _ _ _ (set_idle _ refl) (first _ _ _ (register _ refl) (here _))))

to_woken : Reaches registers woken_early
unfolding wake
to_woken = first _ _ _ (pop_this _ 0 false refl refl) (
    first _ _ _ (announce _ 0 refl) (
      first _ _ _ (count _ 0 refl)
        (first _ _ _ (futex_wake _ 0 refl) (first _ _ _ (clear_pending _ 0 refl) (here _)))))

to_stranded : Reaches woken_early stranded
unfolding check_queues check_pending futex_wait
to_stranded = first _ _ _ (capture _ refl) (
    first _ _ _ (recheck _ 1 refl) (
      first _ _ _ (recheck_pending _ 1 refl) (
        first _ _ _ (sleep _ 1 refl)
          (first _ _ _ (submit _) (first _ _ _ (pop_none _ 0 refl refl) (here _))))))

-- A state is reached in which the worker is in FutexWait with a task queued and every thread that queued a
-- task is done: the last one found no idle worker, since the pop for an earlier task, which the worker had
-- run itself, took it from the registry before it slept. Only the timeout of FutexWait ends its sleep.
Reaches-stranded : Reaches start stranded
Reaches-stranded =
    trans start woken_early stranded (trans start registers woken_early to_registers to_woken)
      to_stranded
