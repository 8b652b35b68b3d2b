-- ===== src/Tests/TimerTests.antt =====
-- The timer thread with two shards and three timers.
use cothread.Prelude.{
  ℕ, zero, suc, ◌<◌, ◌≡◌, refl, Bool, true, false, some, List, [], ◌∷◌, arith, ltb, get_or, tally,
}
use cothread.ObjectPool
use cothread.Timer.Heap.{TimerEntry, shard_pop_from_heap}
use cothread.Timer.Heap.Order.{IsHeap, SameEntries}
use cothread.Timer.Heap.Down.{shard_pop_from_heap-IsHeap}
use cothread.Timer.Shard.{Shard, process_shard}
use cothread.Timer.Shard.Process.{is_due, IsCalm, IsFresh, Ends, process_shard-Ends}
use cothread.Timer.Shard.Account.{quiet, Accounts, process_shard-Accounts}
use cothread.Timer.Thread.{TimerThread, Delay, shard_of, schedule}
use cothread.Timer.Thread.Invariant.{AllWatched, added, Adds, schedule-Adds}

abbrev timer : ℕ → ℕ → Bool → TimerEntry
timer id deadline off = record {
  addr = id;
  callback = 10;
  arg = 0;
  deadline_us = deadline;
  id = id;
  cancelled = off;
}

abbrev three : List TimerEntry
three = timer 1 3 false ∷ timer 2 4 true ∷ timer 3 9 false ∷ []

abbrev shard : List TimerEntry → Shard
shard heap = record { heap = heap; next_deadline = 3; pool = ObjectPool.init 16 }

three-IsHeap : IsHeap three
unfolding get_or
three-IsHeap zero p q = absurd (omega arith)
three-IsHeap (suc zero) p q = omega arith
three-IsHeap (suc (suc zero)) p q = omega arith
three-IsHeap (suc (suc (suc c))) p q = absurd (omega arith)

quiet-IsCalm : (now : ℕ) → IsCalm now quiet
quiet-IsCalm now = record { ordered = λ e s h. h; bounded = λ e s. omega arith }

few_due : tally (is_due 5) three < 3
unfolding tally
few_due = omega arith

shard_pop_from_heap-IsHeap_example :
    IsHeap (shard_pop_from_heap three)
    × SameEntries (timer 1 3 false ∷ shard_pop_from_heap three) three
shard_pop_from_heap-IsHeap_example =
    shard_pop_from_heap-IsHeap (timer 1 3 false) (timer 2 4 true ∷ timer 3 9 false ∷ [])
      three-IsHeap

process_shard-Ends_example : (t : Ends 5 (process_shard 3 5 quiet (shard three))) × IsFresh t.left
process_shard-Ends_example =
    process_shard-Ends 3 5 quiet (shard three) (quiet-IsCalm 5) three-IsHeap few_due

process_shard-Accounts_example : Accounts 5 0 three (process_shard 3 5 quiet (shard three))
process_shard-Accounts_example = process_shard-Accounts 3 5 (shard three) three-IsHeap few_due

three_early : tally (λ e. ltb e.deadline_us 3) three ≡ 0
unfolding tally
three_early = refl

abbrev threads : ℕ → TimerThread
threads assign = record {
  heaps = λ _. three;
  next_deadlines = λ _. 3;
  shard_assign = assign;
  worker_count = 3;
  heap = [];
  running = true;
  wakeup_futex = 0;
  next_id = 4;
  entry_pool = ObjectPool.init 16;
}

threads-AllWatched : AllWatched (threads 7)
unfolding shard_of
threads-AllWatched i h = record { ordered = three-IsHeap; none_early = three_early }

abbrev second : Delay
second = record { tv_sec = 1; tv_nsec = 0 }

schedule-Adds_example :
    Adds (added 5 10 0 second (threads 7)) (threads 7) (schedule 5 10 0 (some second) (threads 7))
schedule-Adds_example =
    schedule-Adds 5 10 0 second (threads 7) (omega arith) (omega arith) threads-AllWatched
