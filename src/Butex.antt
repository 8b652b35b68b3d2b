-- ===== src/Butex.antt =====
-- src/bthread/sync/butex.cpp and include/bthread/sync/butex.hpp: waiting and waking through one butex. A
-- task is its address, `tasks` are the TaskMetas; a task waits on this butex or on none. `value` and
-- the ids of timers are bit patterns of an int. EnqueueTask, the timer's Schedule and Cancel are
-- calls to other parts: `enqueued` and `cancelled` list what they were given. Each operation runs by
-- itself here; Race interleaves one Wait with one Wake.
pub mod Wake
pub mod Wait
pub mod Timeout
pub mod Race
use cothread.Prelude.{
  ℕ, zero, suc, ◌+◌, ◌-◌, min, Bool, true, false, not, ◌||◌, Option, none, some, List, [], ◌∷◌,
  ◌++◌, ◌==◌, if◌then◌else◌, length, update, u32,
}
use cothread.Task.{TaskMeta, TaskState, state_eq}
use cothread.MpmcQueue.{MpmcQueue, add_to_tail, add_to_head, pop_multiple_from_head, remove, claim}

pub record Butex : Type 0 where
  pub queue : MpmcQueue
  pub value : ℕ
  pub tasks : ℕ → TaskMeta
  pub running : Bool
  pub enqueued : List ℕ
  pub cancelled : List ℕ

-- A TaskMeta changed.
abbrev pub change : ℕ → (TaskMeta → TaskMeta) → Butex → Butex
change t f b = record b { tasks = update b.tasks t (f (b.tasks t)) }

abbrev pub wake_batch_size : ℕ
wake_batch_size = 16

-- The code that a wait returns.
pub data WaitResult : Type 0 where
  done : WaitResult
  canceled : WaitResult
  timed_out : WaitResult

-- Wait returns, or its task is suspended.
pub data Waited : Type 0 where
  returns : WaitResult → Butex → Waited
  suspends : Butex → Waited

-- The deadline and the id of the timer that Schedule made, when there is a timeout.
abbrev pub arm : Option (ℕ × ℕ) → TaskMeta → TaskMeta
arm none m = m
arm (some (deadline, id)) m = record m {
  waiter = record m.waiter { deadline_us = deadline; timer_id = id };
}

-- The node is cleared and linked.
abbrev pub placed_queue : ℕ → Bool → MpmcQueue → MpmcQueue
placed_queue t prepend queue =
    let q = record queue {
      next = update queue.next t none;
      claimed = update queue.claimed t false;
    } in
    if prepend then add_to_head true true true t q else add_to_tail true true t q

-- Steps 2 to 7 of Wait: the node is cleared, the timer set, the butex noted, the task enqueued.
unfoldable pub join : ℕ → Option (ℕ × ℕ) → Bool → Butex → Butex
join t timeout prepend b =
    change t (λ m. arm timeout (record m { is_waiting = true; waiting_butex = some 0 }))
      (record b { queue = placed_queue t prepend b.queue })

-- Wait by a bthread: `expected` is compared with the value, which no other thread changes meanwhile.
unfoldable pub wait : ℕ → ℕ → Option (ℕ × ℕ) → Bool → Butex → Waited
wait t expected timeout prepend b =
    let m = b.tasks t in
    let joined = join t timeout prepend b in
    if not b.running
    then returns canceled b
    else if not (b.value == expected) || m.is_waiting
    then returns done b
    else if state_eq m.state TaskState.running
    then suspends (change t (λ k. record k { state = TaskState.suspended }) joined)
    else returns done (change t (λ k. record k { waiting_butex = none; is_waiting = false }) joined)

-- What Wait does after its task was resumed.
unfoldable pub resume : ℕ → Butex → WaitResult × Butex
resume t b =
    let b' = change t (λ m. record m { waiting_butex = none }) b in
    (
      if not b.running then canceled else if (b.tasks t).waiter.timed_out then timed_out else done,
      b',
    )

-- The task is made ready and handed to the scheduler.
unfoldable pub hand_over : ℕ → Butex → Butex
hand_over t b = record (change t (λ m. record m { state = TaskState.ready }) b) {
  enqueued = b.enqueued ++ t ∷ [];
}

-- What Wake does with a waiter that it popped.
unfoldable pub wake_one : ℕ → Butex → Butex
wake_one t b =
    let id : ℕ = (b.tasks t).waiter.timer_id in
    let b' =
      record (change t (λ m. record m { is_waiting = false; wake_count = u32 (m.wake_count + 1) })
        b) { cancelled = if id == 0 then b.cancelled else b.cancelled ++ id ∷ [] } in
    if state_eq (b.tasks t).state TaskState.suspended then hand_over t b' else b'

unfoldable pub wake_each : List ℕ → Butex → Butex
wake_each [] b = b
wake_each (t ∷ ts) b = wake_each ts (wake_one t b)

-- The loop of Wake, for `count` waiters still to be woken: a batch of at most 16 at a time. `fuel`
-- bounds each pop, `rounds` the batches; `none` when one of them runs out.
pub wake : ℕ → ℕ → ℕ → Butex → Option Butex
wake fuel zero count b = none
wake fuel (suc rounds) count b =
    let size : ℕ = min count wake_batch_size in
    if count == 0 then some b else elim (pop_multiple_from_head fuel size b.queue) [
      | none ↦ none
      | some (ts, q) ↦
          let rest = wake fuel rounds (count - length ts) (wake_each ts (record b { queue = q })) in
          if length ts == 0 then some (record b { queue = q }) else rest
    ]

-- `TimeoutCallback`: only the first to set `wakeup` goes on.
unfoldable pub timeout_callback : ℕ → Butex → Butex
timeout_callback t b =
    let m = b.tasks t in
    let marked =
      change t (λ k. record k { waiter = record k.waiter { wakeup = true; timed_out = true } }) b in
    let removed = remove m.is_waiting t b.queue in
    let left : Butex = elim m.waiting_butex [
      | none ↦ marked
      | some here ↦ record (change t (λ k. record k { is_waiting = removed.0 }) marked) {
        queue = removed.1;
      }
    ] in
    if m.waiter.wakeup
    then b
    else if state_eq m.state TaskState.suspended
    then hand_over t left
    else marked
