-- ===== src/Butex/Timeout.antt =====
-- How a timeout ends a wait, and what it leaves behind.
use cothread.Prelude.{
  ℕ, ◌≡◌, refl, sym, ap, ◌∙◌, ◌≢◌, Bool, true, false, Option, none, some, List, [], ◌∷◌, ◌++◌,
  arith,
}
use cothread.Task.{TaskState}
use cothread.MpmcQueue.{MpmcQueue, remove, claim}
use cothread.MpmcQueue.Deque.{Holds}
use cothread.MpmcQueue.Pop.{without, remove-Holds}
use cothread.Butex.Wait.{wait_suspends, suspended_on}
use cothread.Butex.{
  wake_one, Butex, WaitResult, change, suspends, join, wait, resume, timeout_callback, hand_over,
}
use cothread.Butex.Wake.{Waits}

-- What a timeout promises that ends the wait of `t`.
pub record Expires (t : ℕ) (b : Butex) (ws : List ℕ) (after : Butex) : Type 0 where
  pub ready : (after.tasks t).state ≡ TaskState.ready
  pub handed : after.enqueued ≡ b.enqueued ++ t ∷ []
  pub left : Holds after.queue (without t ws)
  pub others : (s : ℕ) → t ≢ s → after.tasks s ≡ b.tasks s
  pub result : b.running ≡ true → (resume t after).0 ≡ WaitResult.timed_out

-- After a removal that gave `r`.
abbrev expired : Bool × MpmcQueue → ℕ → Butex → Butex
expired r t b =
    let marked =
      change t (λ k. record k { is_waiting = r.0 })
        (change t (λ k. record k { waiter = record k.waiter { wakeup = true; timed_out = true } })
          b) in
    hand_over t (record marked { queue = r.1 })

module _ (t here : ℕ) (b : Butex) (a : (b.tasks t).state ≡ TaskState.suspended)
    (w : (b.tasks t).is_waiting ≡ true) (h : (b.tasks t).waiting_butex ≡ some here)
    (f : (b.tasks t).waiter.wakeup ≡ false) where
  remove_waiting : remove (b.tasks t).is_waiting t b.queue ≡ (false, claim t b.queue)
  unfolding remove
  remove_waiting = rw w refl

  timeout_removed : timeout_callback t b ≡ expired (remove (b.tasks t).is_waiting t b.queue) t b
  unfolding timeout_callback
  timeout_removed = simp (f, a, h)

  timeout_first : timeout_callback t b ≡ expired (false, claim t b.queue) t b
  timeout_first = timeout_removed ∙ ap (λ r. expired r t b) remove_waiting

  expired-Expires :
      (n : ℕ) (ws : List ℕ) → Waits n b ws → Expires t b ws (expired (false, claim t b.queue) t b)
  unfolding hand_over resume remove
  expired-Expires n ws v = record {
    ready = ground arith;
    handed = refl;
    left = (remove-Holds b.queue ws t true v.queued.0).1;
    others = λ s e. ground arith;
    result = λ r. ground arith;
  }

-- The first timeout of a task that waits hands it to the scheduler, takes it out of those that wait,
-- and its Wait returns ETIMEDOUT, unless the scheduler stopped; no other task is touched.
timeout_callback-Expires :
    (n t here : ℕ) (b : Butex) (ws : List ℕ)
    → Waits n b ws
    → (b.tasks t).state ≡ TaskState.suspended
    → (b.tasks t).is_waiting ≡ true
    → (b.tasks t).waiting_butex ≡ some here
    → (b.tasks t).waiter.wakeup ≡ false
    → Expires t b ws (timeout_callback t b)
timeout_callback-Expires n t here b ws v a w h f =
    rw (timeout_first t here b a w h f) (expired-Expires t here b a w h f n ws v)

waiter_kept :
    (t : ℕ) (timeout : Option (ℕ × ℕ)) (prepend : Bool) (b : Butex)
    → (((suspended_on t timeout prepend b).tasks t).waiter.wakeup ≡ (b.tasks t).waiter.wakeup)
      × (((suspended_on t timeout prepend b).tasks t).waiter.timed_out
          ≡ (b.tasks t).waiter.timed_out)
unfolding join
waiter_kept t none prepend b = (ground arith, ground arith)
waiter_kept t (some (deadline, id)) prepend b = (ground arith, ground arith)

timeout_late : (t : ℕ) (b : Butex) → (b.tasks t).waiter.wakeup ≡ true → timeout_callback t b ≡ b
unfolding timeout_callback
timeout_late t b u = rw u refl

running_still : (t : ℕ) (b : Butex) → (wake_one t b).running ≡ b.running
unfolding wake_one hand_over
running_still t b = ground arith

waiter_still : (t : ℕ) (b : Butex) → ((wake_one t b).tasks t).waiter ≡ (b.tasks t).waiter
unfolding wake_one hand_over
waiter_still t b = ground arith

resume_late :
    (t : ℕ) (b : Butex)
    → (b.tasks t).waiter.timed_out ≡ true
    → b.running ≡ true
    → (resume t b).0 ≡ WaitResult.timed_out
unfolding resume
resume_late t b o r = rw (r, o) refl

-- A task that timed out once in its life never gets another timeout: a later Wait that suspends it on
-- a butex keeps its marks, so the callback of the new timer changes nothing, and a Wake makes that Wait
-- return ETIMEDOUT.
timeout_callback-again :
    (t expected : ℕ) (timeout : Option (ℕ × ℕ)) (prepend : Bool) (b c : Butex)
    → (b.tasks t).waiter.wakeup ≡ true
    → (b.tasks t).waiter.timed_out ≡ true
    → wait t expected timeout prepend b ≡ suspends c
    → (timeout_callback t c ≡ c)
      × (c.running ≡ true → (resume t (wake_one t c)).0 ≡ WaitResult.timed_out)
timeout_callback-again t expected timeout prepend b c u o e =
    let same = wait_suspends t expected timeout prepend b c e in
    let (k, l) = waiter_kept t timeout prepend b in
    let m = ap (λ s. (s.tasks t).waiter) (sym same) in
    (
      timeout_late t c (ap (λ w. w.wakeup) m ∙ k ∙ u),
      λ r.
          resume_late t (wake_one t c) (ap (λ w. w.timed_out) (waiter_still t c ∙ m) ∙ l ∙ o)
            (running_still t c ∙ r),
    )
