-- ===== src/Butex/Race.antt =====
-- One Wait and one set_value with Wake, interleaved, of src/bthread/sync/butex.cpp: the only task that
-- waits on the butex, without a timeout, and one thread that changes the value and calls Wake. A step is
-- one access to shared state, or several of which the others read none; the accesses are
-- sequentially consistent. AddToTail is one step: until it has linked the item, a pop spins. The count
-- of wakes does not wrap here, where one Wake runs.
pub mod Woken
pub mod Lost
use cothread.Prelude.{ℕ, suc, ◌≡◌, Bool, true, false, not, ◌&&◌, ◌||◌, ◌==◌, if◌then◌else◌}
use cothread.Task.{TaskState, state_eq}

-- Where Wait is: before the first load of the value; before the exchange of is_waiting; before the
-- second load; before AddToTail; before the third load; about to claim its own node; before the load of
-- wake_count; before the exchange of the state, and then before the second load of wake_count, with the
-- count that it saved; before the exchange back; about to enqueue itself; returned; in SuspendCurrent.
pub data WaitPhase : Type 0 where
  enters : WaitPhase
  matched : WaitPhase
  marked : WaitPhase
  rechecked : WaitPhase
  linked : WaitPhase
  withdraws : WaitPhase
  confirmed : WaitPhase
  saved : ℕ → WaitPhase
  suspended : ℕ → WaitPhase
  contends : WaitPhase
  wins : WaitPhase
  returned : WaitPhase
  sleeps : ℕ → WaitPhase

-- Where the other thread is: before set_value; before the pop; with the waiter, before it clears
-- is_waiting, counts, and loads the state; about to store READY; to enqueue; done.
pub data WakePhase : Type 0 where
  idle : WakePhase
  changed : WakePhase
  popped : WakePhase
  cleared : WakePhase
  counted : WakePhase
  saw_suspended : WakePhase
  made_ready : WakePhase
  done : WakePhase

-- `stale` is set when the value is no longer the expected one; `enqueued` counts the calls of EnqueueTask.
pub record Race : Type 0 where
  pub wait : WaitPhase
  pub wake : WakePhase
  pub stale : Bool
  pub is_waiting : Bool
  pub in_queue : Bool
  pub claimed : Bool
  pub state : TaskState
  pub wake_count : ℕ
  pub enqueued : ℕ

abbrev pub race_start : ℕ → Race
race_start count = record {
  wait = enters;
  wake = idle;
  stale = false;
  is_waiting = false;
  in_queue = false;
  claimed = false;
  state = TaskState.running;
  wake_count = count;
  enqueued = 0;
}

-- The exchange of the state by Wait, from RUNNING and from SUSPENDED.
unfoldable pub suspend_phase : TaskState → ℕ → WaitPhase
suspend_phase s n = if state_eq s TaskState.running then suspended n else returned

unfoldable pub contend_phase : TaskState → WaitPhase
contend_phase s = if state_eq s TaskState.suspended then wins else returned

unfoldable pub exchange : TaskState → TaskState → TaskState → TaskState
exchange s expected desired = if state_eq s expected then desired else s

-- The second load of wake_count.
unfoldable pub compare_count : ℕ → ℕ → WaitPhase
compare_count n count = if count == n then sleeps n else contends

-- The pop by Wake: an item that waits, or none.
unfoldable pub pop_phase : Bool → Bool → WakePhase
pop_phase in_queue claimed = if in_queue && not claimed then popped else done

-- The load of the state by Wake.
unfoldable pub look_phase : TaskState → WakePhase
look_phase s = if state_eq s TaskState.suspended then saw_suspended else done

pub data Step : Race → Race → Type 0 where
  check :
      (s : Race)
      → s.wait ≡ enters
      → Step s (record s { wait = if s.stale then returned else matched })
  mark :
      (s : Race)
      → s.wait ≡ matched
      → Step s (record s {
        wait = if s.is_waiting then returned else marked;
        is_waiting = true;
        claimed = if s.is_waiting then s.claimed else false;
      })
  recheck :
      (s : Race)
      → s.wait ≡ marked
      → Step s (record s {
        wait = if s.stale then returned else rechecked;
        is_waiting = if s.stale then false else s.is_waiting;
      })
  link : (s : Race) → s.wait ≡ rechecked → Step s (record s { wait = linked; in_queue = true })
  confirm :
      (s : Race)
      → s.wait ≡ linked
      → Step s (record s { wait = if s.stale then withdraws else confirmed })
  withdraw :
      (s : Race)
      → s.wait ≡ withdraws
      → Step s (record s { wait = returned; claimed = true; is_waiting = false })
  save : (s : Race) → s.wait ≡ confirmed → Step s (record s { wait = saved s.wake_count })
  suspend :
      (s : Race) (n : ℕ)
      → s.wait ≡ saved n
      → Step s (record s {
        wait = suspend_phase s.state n;
        state = exchange s.state TaskState.running TaskState.suspended;
        is_waiting = if state_eq s.state TaskState.running then s.is_waiting else false;
      })
  recount :
      (s : Race) (n : ℕ)
      → s.wait ≡ suspended n
      → Step s (record s { wait = compare_count n s.wake_count })
  contend :
      (s : Race)
      → s.wait ≡ contends
      → Step s (record s {
        wait = contend_phase s.state;
        state = exchange s.state TaskState.suspended TaskState.ready;
        is_waiting = if state_eq s.state TaskState.suspended then s.is_waiting else false;
      })
  enqueue_self :
      (s : Race)
      → s.wait ≡ wins
      → Step s (record s {
        wait = returned;
        enqueued = suc s.enqueued;
        state = TaskState.ready;
        is_waiting = false;
      })
  set_value : (s : Race) → s.wake ≡ idle → Step s (record s { wake = changed; stale = true })
  pop :
      (s : Race)
      → s.wake ≡ changed
      → Step s (record s {
        wake = pop_phase s.in_queue s.claimed;
        in_queue = false;
        claimed = s.claimed || s.in_queue;
      })
  clear : (s : Race) → s.wake ≡ popped → Step s (record s { wake = cleared; is_waiting = false })
  count :
      (s : Race)
      → s.wake ≡ cleared
      → Step s (record s { wake = counted; wake_count = suc s.wake_count })
  look : (s : Race) → s.wake ≡ counted → Step s (record s { wake = look_phase s.state })
  make_ready :
      (s : Race)
      → s.wake ≡ saw_suspended
      → Step s (record s { wake = made_ready; state = TaskState.ready })
  enqueue :
      (s : Race)
      → s.wake ≡ made_ready
      → Step s (record s { wake = done; enqueued = suc s.enqueued; state = TaskState.ready })

-- The states after any number of steps.
pub data Reaches : Race → Race → Type 0 where
  here : (s : Race) → Reaches s s
  then' : (s t u : Race) → Reaches s t → Step t u → Reaches s u
