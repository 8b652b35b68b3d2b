-- ===== src/Event/TimedWait.antt =====
-- The timeout of wait_for.
use cothread.Prelude.{
  ℕ, zero, suc, ◌≡◌, refl, inl, inr, Bool, true, false, some, List, ◌∷◌, ◌++◌, Bool-cases,
  replicate, set,
}
use cothread.Event.{
  Event, Waited, passes, parks, worker, wait, wait_slow, poll, TimedWaited, answers, parks_until,
  polls, wait_for, wait_for_slow,
}

-- The wait with the answer that wait_for gives after it; a worker without a task, and a thread that is no
-- worker, are not compared.
abbrev pub as_timed : Waited → TimedWaited
as_timed (passes e) = answers true e
as_timed (parks e) = parks_until e
as_timed Waited.goes_on = polls
as_timed Waited.spins_on = polls

-- For a task of a worker, wait_for is wait: whatever the timeout, it passes a set event, and parks the task
-- on one that is not set.
wait_for-wait :
    (rounds : List (Bool × Bool)) (task : ℕ) (e : Event)
    → wait_for rounds (worker (some task)) e ≡ as_timed (wait (worker (some task)) e)
unfolding wait_for wait wait_for_slow wait_slow
wait_for-wait rounds task e = elim (Bool-cases e.state) [
  | inl set ↦ rw set refl
  | inr unset ↦ rw unset refl
]

-- For a thread that is no worker, the timeout counts: while the rounds find the event unset it polls, until
-- the first round that finds the deadline passed, and then it answers false and leaves the event.
poll-late :
    (quiet : ℕ) (rounds : List (Bool × Bool)) (e : Event)
    → poll (replicate quiet (false, false) ++ (false, true) ∷ rounds) e ≡ some (false, e)
unfolding poll
poll-late zero rounds e = refl
poll-late (suc quiet) rounds e = poll-late quiet rounds e
