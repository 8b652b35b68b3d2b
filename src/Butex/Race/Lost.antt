-- ===== src/Butex/Race/Lost.antt =====
-- The wake-ups that are lost or come twice.
use cothread.Prelude.{ℕ, suc, ◌≡◌, refl, subst, true, false, arith}
use cothread.Task.{TaskState}
use cothread.Butex.Race.{
  WaitPhase, contends, returned, sleeps, saw_suspended, done, Race, race_start, suspend_phase,
  contend_phase, exchange, compare_count, pop_phase, look_phase, Step, check, mark, recheck, link,
  confirm, withdraw, save, suspend, recount, contend, enqueue_self, set_value, pop, clear, count,
  look, make_ready, enqueue, Reaches, here, then',
}

join : (s t u : Race) → Reaches s t → Reaches t u → Reaches s u
join s t u r (here _) = r
join s t u r (then' _ m _ q step) = then' s m u (join s t m r q) step

-- A step before others.
pub first : (s t u : Race) → Step s t → Reaches t u → Reaches s u
first s t u step r = join s t u (then' s s t (here s) step) r

same_count : (n : ℕ) → compare_count n n ≡ sleeps n
unfolding compare_count
same_count n = ground arith

other_count : (n : ℕ) → compare_count n (suc n) ≡ contends
unfolding compare_count
other_count n = ground arith

abbrev pub asleep_forever : ℕ → Race
asleep_forever n = record {
  wait = sleeps (suc n);
  wake = done;
  stale = true;
  is_waiting = false;
  in_queue = false;
  claimed = true;
  state = TaskState.suspended;
  wake_count = suc n;
  enqueued = 0;
}

no_step : (n : ℕ) (t : Race) → Step (asleep_forever n) t → ⊥
no_step n t (check _ p) = ground (arith, p)
no_step n t (mark _ p) = ground (arith, p)
no_step n t (recheck _ p) = ground (arith, p)
no_step n t (link _ p) = ground (arith, p)
no_step n t (confirm _ p) = ground (arith, p)
no_step n t (withdraw _ p) = ground (arith, p)
no_step n t (save _ p) = ground (arith, p)
no_step n t (suspend _ m p) = ground (arith, p)
no_step n t (recount _ m p) = ground (arith, p)
no_step n t (contend _ p) = ground (arith, p)
no_step n t (enqueue_self _ p) = ground (arith, p)
no_step n t (set_value _ p) = ground (arith, p)
no_step n t (pop _ p) = ground (arith, p)
no_step n t (clear _ p) = ground (arith, p)
no_step n t (count _ p) = ground (arith, p)
no_step n t (look _ p) = ground (arith, p)
no_step n t (make_ready _ p) = ground (arith, p)
no_step n t (enqueue _ p) = ground (arith, p)

-- A wake-up can be lost: when the whole of Wake runs between the third load of the value and the load of
-- wake_count, Wake sees the task run and leaves it, and the task then sleeps, out of the queue and never
-- enqueued, on a value that is not the expected one; neither thread has a step left.
pub Reaches-sleeper_lost :
    (n : ℕ)
    → Reaches (race_start n) (asleep_forever n) × ((t : Race) → Step (asleep_forever n) t → ⊥)
unfolding suspend_phase exchange pop_phase look_phase
Reaches-sleeper_lost n = (
  subst (λ w. Reaches (race_start n) (record (asleep_forever n) { wait = w })) (same_count (suc n))
      (first _ _ _ (check _ refl) (
        first _ _ _ (mark _ refl) (
          first _ _ _ (recheck _ refl) (
            first _ _ _ (link _ refl) (
              first _ _ _ (confirm _ refl) (
                first _ _ _ (set_value _ refl) (
                  first _ _ _ (pop _ refl) (
                    first _ _ _ (clear _ refl) (
                      first _ _ _ (count _ refl) (
                        first _ _ _ (look _ refl) (
                          first _ _ _ (save _ refl) (
                            first _ _ _ (suspend _ _ refl)
                              (first _ _ _ (recount _ _ refl) (here _)))))))))))))),
  λ t step. no_step n t step,
)

abbrev pub enqueued_twice : ℕ → Race
enqueued_twice n = record {
  wait = returned;
  wake = done;
  stale = true;
  is_waiting = false;
  in_queue = false;
  claimed = true;
  state = TaskState.ready;
  wake_count = suc n;
  enqueued = 2;
}

abbrev contending : ℕ → WaitPhase → Race
contending n w = record {
  wait = w;
  wake = saw_suspended;
  stale = true;
  is_waiting = false;
  in_queue = false;
  claimed = true;
  state = TaskState.suspended;
  wake_count = suc n;
  enqueued = 0;
}

-- A task can be enqueued twice while it runs on: when Wake has loaded SUSPENDED, Wait can still exchange
-- it for READY, enqueue its own task and return, and Wake then enqueues the task again.
Reaches-enqueued_twice : (n : ℕ) → Reaches (race_start n) (enqueued_twice n)
unfolding suspend_phase exchange pop_phase look_phase contend_phase
Reaches-enqueued_twice n =
    join (race_start n) (contending n contends) (enqueued_twice n)
      (subst (λ w. Reaches (race_start n) (contending n w)) (other_count n)
        (first _ _ _ (check _ refl) (
          first _ _ _ (mark _ refl) (
            first _ _ _ (recheck _ refl) (
              first _ _ _ (link _ refl) (
                first _ _ _ (confirm _ refl) (
                  first _ _ _ (save _ refl) (
                    first _ _ _ (suspend _ _ refl) (
                      first _ _ _ (set_value _ refl) (
                        first _ _ _ (pop _ refl) (
                          first _ _ _ (clear _ refl) (
                            first _ _ _ (count _ refl) (
                              first _ _ _ (look _ refl)
                                (first _ _ _ (recount _ _ refl) (here _)))))))))))))))
      (first _ _ _ (contend _ refl) (
        first _ _ _ (enqueue_self _ refl)
          (first _ _ _ (make_ready _ refl) (first _ _ _ (enqueue _ refl) (here _)))))
