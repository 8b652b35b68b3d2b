-- ===== src/Tests/MutexTests.antt =====
-- Tasks at a mutex.
use cothread.Prelude.{ℕ, ◌≡◌, refl, true, some, [], arith, update}
use cothread.Mutex.{
  Phase, outside, fast, sleeping, owns, unqueued, counts_out, Mutex, new_mutex, free, held, goes,
  exchange, look_free, try_fast, mark, try_first, await_ready, locks, tries, awaiting, Reaches,
  here, then',
}
use cothread.Mutex.Owner.{Exclusive}
use cothread.Mutex.Exclusion.{Reaches-Exclusive}
use cothread.Mutex.Mark.{Reaches-marked}
use cothread.Mutex.Flaws.{Abandoned, skip_wake-strands}

abbrev looked : Mutex
looked = goes 0 fast new_mutex

abbrev taken : Mutex
taken = goes 0 owns (record looked { word = held })

taken-reached : Reaches new_mutex taken
unfolding exchange
taken-reached =
    then' _ _ _ (then' _ _ _ (here _) (locks _ _ (look_free new_mutex 0 refl refl)))
      (locks _ _ (try_fast looked 0 refl))

Reaches-Exclusive_example : Exclusive taken
Reaches-Exclusive_example = Reaches-Exclusive taken taken-reached refl

-- Task 1 is a coroutine that has set HAS_WAITERS.
abbrev ready : Mutex
ready = goes 1 Phase.awaits taken

abbrev unlucky : Mutex
unlucky = goes 1 Phase.marks ready

abbrev marked : Mutex
marked =
    goes 1 Phase.retries (record unlucky { word = record { locked = true; has_waiters = true } })

marked-reached : Reaches new_mutex marked
unfolding exchange
marked-reached =
    then' _ _ _
      (then' _ _ _ (then' _ _ _ taken-reached (tries _ _ (await_ready taken 1 refl)))
        (awaiting _ _ (try_first ready 1 refl)))
      (awaiting _ _ (mark unlucky 1 refl))

Reaches-marked_example :
    (marked.word.has_waiters ≡ true)
    × ((t : ℕ) (won lost : Phase) → exchange t free held won lost marked ≡ goes t lost marked)
Reaches-marked_example = Reaches-marked marked marked marked-reached refl (here marked)

-- Task 0 unlocks, task 1's unlock has woken somebody before, task 2 sleeps.
abbrev two_unlock : Mutex
two_unlock = record {
  word = record { locked = true; has_waiters = true };
  pending_wake = 1;
  waiters = [];
  value = some 1;
  running = true;
  phase = update (update (update (λ t. outside) 0 unqueued) 1 counts_out) 2 sleeping;
}

skip_wake-strands_example :
    (n : Mutex) × Reaches two_unlock n × Abandoned 2 sleeping n × (n.pending_wake ≡ 0)
skip_wake-strands_example =
    skip_wake-strands two_unlock 0 1 2 (ground arith) (ground arith) (ground arith) refl refl refl
      (λ x a b c. ground (arith, a, b, c)) refl
