-- ===== src/Tests/ButexTests.antt =====
-- A butex with one sleeper, the race of one Wait with one Wake.
use cothread.Prelude.{◌≡◌, refl, true, false, none, some, [], ◌∷◌, arith, update}
use cothread.Task.{TaskMeta, TaskState, new_task_meta}
use cothread.MpmcQueue.{MpmcQueue}
use cothread.MpmcQueue.Deque.{HoldsIn}
use cothread.Butex.{Butex, wait, wake}
use cothread.Butex.Wake.{Waits, Serves, wake-Serves}
use cothread.Butex.Wait.{Joins, wait-Joins}
use cothread.Butex.Race.{
  Race, race_start, sleeps, done, check, mark, recheck, link, confirm, save, suspend, recount,
  set_value, pop, clear, count, look, make_ready, enqueue, Step, Reaches, here, suspend_phase,
  exchange, compare_count, pop_phase, look_phase,
}
use cothread.Butex.Race.Woken.{Reaches-enqueued}
use cothread.Butex.Race.Lost.{first, asleep_forever, Reaches-sleeper_lost}

abbrev asleep_meta : TaskMeta
asleep_meta = record new_task_meta {
  state = TaskState.suspended;
  is_waiting = true;
  waiting_butex = some 0;
}

abbrev late_meta : TaskMeta
late_meta = record new_task_meta {
  state = TaskState.running;
  waiter = record new_task_meta.waiter { wakeup = true; timed_out = true };
}

abbrev queue_of_5 : MpmcQueue
queue_of_5 = record { head = some 5; tail = some 5; next = λ t. none; claimed = λ t. false }

-- Task 5 sleeps; task 7 runs and has timed out before.
abbrev butex : Butex
butex = record {
  queue = queue_of_5;
  value = 3;
  tasks = update (λ t. asleep_meta) 7 late_meta;
  running = true;
  enqueued = [];
  cancelled = [];
}

abbrev queue_of_5-HoldsIn : HoldsIn 1 queue_of_5 (5 ∷ [])
queue_of_5-HoldsIn = (
  record {
    items = 5 ∷ [];
    links = record { chain = (refl, refl); ends = refl; distinct = (tt, tt) };
    waiting = refl;
  },
  omega arith,
)

abbrev butex-Waits : Waits 1 butex (5 ∷ [])
butex-Waits = record { queued = queue_of_5-HoldsIn; asleep = (refl, tt); distinct = (tt, tt) }

wake-Serves_example : Serves 1 1 butex (5 ∷ []) (wake 2 2 1 butex)
wake-Serves_example = wake-Serves 2 2 1 1 butex (5 ∷ []) (omega arith) (omega arith) butex-Waits

wait-Joins_example : Joins 1 7 false butex (5 ∷ []) (wait 7 3 none false butex)
wait-Joins_example =
    wait-Joins 1 7 3 none false butex (5 ∷ []) butex-Waits (ground arith, tt) refl refl refl refl

abbrev woken_once : Race
woken_once = record {
  wait = sleeps 0;
  wake = done;
  stale = true;
  is_waiting = false;
  in_queue = false;
  claimed = true;
  state = TaskState.ready;
  wake_count = 1;
  enqueued = 1;
}

Reaches-enqueued_example : (woken_once.enqueued ≡ 1) × (woken_once.state ≡ TaskState.ready)
unfolding suspend_phase exchange compare_count pop_phase look_phase
Reaches-enqueued_example =
    Reaches-enqueued 0 woken_once
      (first _ _ _ (check _ refl) (
        first _ _ _ (mark _ refl) (
          first _ _ _ (recheck _ refl) (
            first _ _ _ (link _ refl) (
              first _ _ _ (confirm _ refl) (
                first _ _ _ (save _ refl) (
                  first _ _ _ (suspend _ _ refl) (
                    first _ _ _ (recount _ _ refl) (
                      first _ _ _ (set_value _ refl) (
                        first _ _ _ (pop _ refl) (
                          first _ _ _ (clear _ refl) (
                            first _ _ _ (count _ refl) (
                              first _ _ _ (look _ refl) (
                                first _ _ _ (make_ready _ refl)
                                  (first _ _ _ (enqueue _ refl) (here _))))))))))))))))
      refl refl

Reaches-sleeper_lost_example :
    Reaches (race_start 0) (asleep_forever 0) × ((t : Race) → Step (asleep_forever 0) t → ⊥)
Reaches-sleeper_lost_example = Reaches-sleeper_lost 0
