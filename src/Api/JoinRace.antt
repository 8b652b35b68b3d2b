-- ===== src/Api/JoinRace.antt =====
-- One bthread_join and the end of the task that it joins, access by access: src/bthread.cpp and
-- HandleFinishedBthread of src/bthread/core/worker.cpp. The join butex is made and stored before the first
-- access here. Of Butex::Wait the last load of the value and the sleep are steps of their own, and
-- Butex/Race has the accesses between them: a Wake that comes in between is noticed or not. A Wait that
-- is cut short returns although the value is unchanged and no Wake came: on ECANCELED when the scheduler
-- does not run, on an interrupted futex, for a task that is marked as waiting already, or since a shutdown
-- resumed the task. bthread_join ignores what Wait returns.
use cothread.Prelude.{◌≡◌, refl, ◌≢◌, ◌⊎◌, inl, inr, Bool, true, false, arith, if◌then◌else◌}

-- Where the join is: before it reads the butex's value; before it loads the state; before it counts itself;
-- before its Wait; in it, past the last load of the value; asleep; or it takes the result.
pub data JoinPhase : Type 0 where
  reads_value : JoinPhase
  loads_state : JoinPhase
  counts : JoinPhase
  waits : JoinPhase
  commits : JoinPhase
  asleep : JoinPhase
  takes : JoinPhase

-- Where the end of the task is: before the store of FINISHED; before its worker looks at join_waiters; before
-- set_value; before Wake; done.
pub data EndPhase : Type 0 where
  running : EndPhase
  stored : EndPhase
  sets_value : EndPhase
  wakes : EndPhase
  over : EndPhase

-- `changed` tells whether the butex's value is another one than the join read, `cut` whether its Wait was cut
-- short.
pub record JoinRace : Type 0 where
  pub join : JoinPhase
  pub ending : EndPhase
  pub finished : Bool
  pub join_waiters : Bool
  pub changed : Bool
  pub cut : Bool

abbrev pub join_start : JoinRace
join_start = record {
  join = reads_value;
  ending = running;
  finished = false;
  join_waiters = false;
  changed = false;
  cut = false;
}

unfoldable pub state_phase : Bool → JoinPhase
state_phase finished = if finished then takes else counts

unfoldable pub wait_phase : Bool → JoinPhase
wait_phase changed = if changed then takes else commits

unfoldable pub waiters_phase : Bool → EndPhase
waiters_phase join_waiters = if join_waiters then sets_value else over

-- What a Wake does to the join; `noticed` tells of one that comes before the sleep.
unfoldable pub woken_phase : Bool → JoinPhase → JoinPhase
woken_phase noticed asleep = takes
woken_phase noticed commits = if noticed then takes else commits
woken_phase noticed reads_value = reads_value
woken_phase noticed loads_state = loads_state
woken_phase noticed counts = counts
woken_phase noticed waits = waits
woken_phase noticed takes = takes

-- Wait has begun and has not returned.
abbrev pub InWait : JoinPhase → Type 0
InWait p = (p ≡ waits) ⊎ (p ≡ commits) ⊎ (p ≡ asleep)

pub data Step : JoinRace → JoinRace → Type 0 where
  read_value :
      (s : JoinRace)
      → s.join ≡ reads_value
      → Step s (record s { join = loads_state; changed = false })
  load_state :
      (s : JoinRace) → s.join ≡ loads_state → Step s (record s { join = state_phase s.finished })
  count : (s : JoinRace) → s.join ≡ counts → Step s (record s { join = waits; join_waiters = true })
  wait : (s : JoinRace) → s.join ≡ waits → Step s (record s { join = wait_phase s.changed })
  sleep : (s : JoinRace) → s.join ≡ commits → Step s (record s { join = asleep })
  cut_short : (s : JoinRace) → InWait s.join → Step s (record s { join = takes; cut = true })
  store_finished :
      (s : JoinRace) → s.ending ≡ running → Step s (record s { ending = stored; finished = true })
  load_waiters :
      (s : JoinRace)
      → s.ending ≡ stored
      → Step s (record s { ending = waiters_phase s.join_waiters })
  set_value :
      (s : JoinRace) → s.ending ≡ sets_value → Step s (record s { ending = wakes; changed = true })
  wake :
      (s : JoinRace) (noticed : Bool)
      → s.ending ≡ wakes
      → Step s (record s { ending = over; join = woken_phase noticed s.join })

pub data Reaches (s : JoinRace) : JoinRace → Type 0 where
  here : Reaches s s
  after : (t u : JoinRace) → Reaches s t → Step t u → Reaches s u

-- The worker is done and has left the value that the join read, and the join has not returned but by a Wait
-- that was cut short.
abbrev pub Missed : JoinRace → Type 0
Missed s =
    (s.ending ≡ over)
    × (s.changed ≡ false)
    × ((s.join ≡ counts) ⊎ InWait s.join ⊎ ((s.join ≡ takes) × (s.cut ≡ true)))

Step-Missed : (s t : JoinRace) → Step s t → Missed s → Missed t
unfolding wait_phase
Step-Missed s _ (read_value _ e) h = absurd (ground (arith, h.2))
Step-Missed s _ (load_state _ e) h = absurd (ground (arith, h.2))
Step-Missed s _ (count _ e) h = (h.0, h.1, inr (inl (inl refl)))
Step-Missed s _ (wait _ e) h = (h.0, h.1, inr (inl (inr (inl (ground (arith, h.1))))))
Step-Missed s _ (sleep _ e) h = (h.0, h.1, inr (inl (inr (inr refl))))
Step-Missed s _ (cut_short _ e) h = (h.0, h.1, inr (inr (refl, refl)))
Step-Missed s _ (store_finished _ e) h = absurd (ground arith)
Step-Missed s _ (load_waiters _ e) h = absurd (ground arith)
Step-Missed s _ (set_value _ e) h = absurd (ground arith)
Step-Missed s _ (wake _ noticed e) h = absurd (ground arith)

Reaches-Missed : (s t : JoinRace) → Missed s → Reaches s t → Missed t
Reaches-Missed s _ h here = h
Reaches-Missed s _ h (after t u r step) = Step-Missed t u step (Reaches-Missed s t h r)

-- What holds throughout: the worker looks for joiners only when the task is finished; a join takes the
-- result only when the task is finished or its Wait was cut short; the value is changed only before a
-- Wake; and a join is counted exactly from where it counts itself on, if it saw the task unfinished.
pub record Sound (s : JoinRace) : Type 0 where
  pub ended : s.ending ≢ running → s.finished ≡ true
  pub taken : s.join ≡ takes → (s.finished ≡ true) ⊎ (s.cut ≡ true)
  pub seen : s.changed ≡ true → (s.ending ≡ wakes) ⊎ (s.ending ≡ over)
  pub uncounted :
      (s.join ≡ reads_value) ⊎ (s.join ≡ loads_state) ⊎ (s.join ≡ counts) → s.join_waiters ≡ false
  pub counted : InWait s.join → s.join_waiters ≡ true

-- After a Wake the join is where it was, or it was in Wait and takes the result.
woken : (b : Bool) (p : JoinPhase) → (woken_phase b p ≡ p) ⊎ ((woken_phase b p ≡ takes) × InWait p)
unfolding woken_phase
woken b reads_value = inl refl
woken b loads_state = inl refl
woken b counts = inl refl
woken b waits = inl refl
woken true commits = inr (refl, inr (inl refl))
woken false commits = inl refl
woken b asleep = inr (refl, inr (inr refl))
woken b takes = inl refl

Step-Sound : (s t : JoinRace) → Step s t → Sound s → Sound t
unfolding state_phase wait_phase waiters_phase
Step-Sound s _ (read_value _ e) v = record {
  ended = λ p. ground (arith, v.ended, v.taken, v.seen, v.uncounted, v.counted);
  taken = λ p. ground (arith, v.ended, v.taken, v.seen, v.uncounted, v.counted);
  seen = λ p. ground (arith, v.ended, v.taken, v.seen, v.uncounted, v.counted);
  uncounted = λ p. ground (arith, v.ended, v.taken, v.seen, v.uncounted, v.counted);
  counted = λ p. ground (arith, v.ended, v.taken, v.seen, v.uncounted, v.counted);
}
Step-Sound s _ (load_state _ e) v = record {
  ended = λ p. ground (arith, v.ended, v.taken, v.seen, v.uncounted, v.counted);
  taken = λ p. ground (arith, v.ended, v.taken, v.seen, v.uncounted, v.counted);
  seen = λ p. ground (arith, v.ended, v.taken, v.seen, v.uncounted, v.counted);
  uncounted = λ p. ground (arith, v.ended, v.taken, v.seen, v.uncounted, v.counted);
  counted = λ p. ground (arith, v.ended, v.taken, v.seen, v.uncounted, v.counted);
}
Step-Sound s _ (count _ e) v = record {
  ended = λ p. ground (arith, v.ended, v.taken, v.seen, v.uncounted, v.counted);
  taken = λ p. ground (arith, v.ended, v.taken, v.seen, v.uncounted, v.counted);
  seen = λ p. ground (arith, v.ended, v.taken, v.seen, v.uncounted, v.counted);
  uncounted = λ p. ground (arith, v.ended, v.taken, v.seen, v.uncounted, v.counted);
  counted = λ p. ground (arith, v.ended, v.taken, v.seen, v.uncounted, v.counted);
}
Step-Sound s _ (wait _ e) v = record {
  ended = λ p. ground (arith, v.ended, v.taken, v.seen, v.uncounted, v.counted);
  taken = λ p. ground (arith, v.ended, v.taken, v.seen, v.uncounted, v.counted);
  seen = λ p. ground (arith, v.ended, v.taken, v.seen, v.uncounted, v.counted);
  uncounted = λ p. ground (arith, v.ended, v.taken, v.seen, v.uncounted, v.counted);
  counted = λ p. ground (arith, v.ended, v.taken, v.seen, v.uncounted, v.counted);
}
Step-Sound s _ (sleep _ e) v = record {
  ended = λ p. ground (arith, v.ended, v.taken, v.seen, v.uncounted, v.counted);
  taken = λ p. ground (arith, v.ended, v.taken, v.seen, v.uncounted, v.counted);
  seen = λ p. ground (arith, v.ended, v.taken, v.seen, v.uncounted, v.counted);
  uncounted = λ p. ground (arith, v.ended, v.taken, v.seen, v.uncounted, v.counted);
  counted = λ p. ground (arith, v.ended, v.taken, v.seen, v.uncounted, v.counted);
}
Step-Sound s _ (cut_short _ e) v = record {
  ended = λ p. ground (arith, v.ended, v.taken, v.seen, v.uncounted, v.counted);
  taken = λ p. ground (arith, v.ended, v.taken, v.seen, v.uncounted, v.counted);
  seen = λ p. ground (arith, v.ended, v.taken, v.seen, v.uncounted, v.counted);
  uncounted = λ p. ground (arith, v.ended, v.taken, v.seen, v.uncounted, v.counted);
  counted = λ p. ground (arith, v.ended, v.taken, v.seen, v.uncounted, v.counted);
}
Step-Sound s _ (store_finished _ e) v = record {
  ended = λ p. ground (arith, v.ended, v.taken, v.seen, v.uncounted, v.counted);
  taken = λ p. ground (arith, v.ended, v.taken, v.seen, v.uncounted, v.counted);
  seen = λ p. ground (arith, v.ended, v.taken, v.seen, v.uncounted, v.counted);
  uncounted = λ p. ground (arith, v.ended, v.taken, v.seen, v.uncounted, v.counted);
  counted = λ p. ground (arith, v.ended, v.taken, v.seen, v.uncounted, v.counted);
}
Step-Sound s _ (load_waiters _ e) v = record {
  ended = λ p. ground (arith, v.ended, v.taken, v.seen, v.uncounted, v.counted);
  taken = λ p. ground (arith, v.ended, v.taken, v.seen, v.uncounted, v.counted);
  seen = λ p. ground (arith, v.ended, v.taken, v.seen, v.uncounted, v.counted);
  uncounted = λ p. ground (arith, v.ended, v.taken, v.seen, v.uncounted, v.counted);
  counted = λ p. ground (arith, v.ended, v.taken, v.seen, v.uncounted, v.counted);
}
Step-Sound s _ (set_value _ e) v = record {
  ended = λ p. ground (arith, v.ended, v.taken, v.seen, v.uncounted, v.counted);
  taken = λ p. ground (arith, v.ended, v.taken, v.seen, v.uncounted, v.counted);
  seen = λ p. ground (arith, v.ended, v.taken, v.seen, v.uncounted, v.counted);
  uncounted = λ p. ground (arith, v.ended, v.taken, v.seen, v.uncounted, v.counted);
  counted = λ p. ground (arith, v.ended, v.taken, v.seen, v.uncounted, v.counted);
}
Step-Sound s _ (wake _ noticed e) v = record {
  ended =
      λ p. ground (arith, v.ended, v.taken, v.seen, v.uncounted, v.counted, woken noticed s.join);
  taken =
      λ p. ground (arith, v.ended, v.taken, v.seen, v.uncounted, v.counted, woken noticed s.join);
  seen =
      λ p. ground (arith, v.ended, v.taken, v.seen, v.uncounted, v.counted, woken noticed s.join);
  uncounted =
      λ p. ground (arith, v.ended, v.taken, v.seen, v.uncounted, v.counted, woken noticed s.join);
  counted =
      λ p. ground (arith, v.ended, v.taken, v.seen, v.uncounted, v.counted, woken noticed s.join);
}

join_start-Sound : Sound join_start
join_start-Sound = record {
  ended = λ p. absurd (p refl);
  taken = λ p. ground arith;
  seen = λ p. ground arith;
  uncounted = λ p. refl;
  counted = λ p. ground arith;
}

-- In every state that is reached from the start the worker has looked for joiners only if the task is
-- finished, and the join takes the result only if the task is finished or its Wait was cut short; the
-- value is changed only before a Wake; and join_waiters counts the join while it is in Wait, and not
-- before it has counted itself.
pub Reaches-Sound : (s : JoinRace) → Reaches join_start s → Sound s
Reaches-Sound _ here = join_start-Sound
Reaches-Sound _ (after t u r step) = Step-Sound t u step (Reaches-Sound t r)

-- When a state is reached in which the join has seen the task unfinished but has not counted itself, and
-- the task has finished since, its worker can look for joiners next: it finds none and is done with the
-- task. From then on the join does not return, unless its Wait is cut short, whatever steps follow.
pub Reaches-overlooked :
    (s : JoinRace)
    → Reaches join_start s
    → s.join ≡ counts
    → s.ending ≡ stored
    → (t : JoinRace) × Step s t
      × Reaches join_start t
      × (t.ending ≡ over)
      × ((u : JoinRace) → Reaches t u → Missed u)
unfolding waiters_phase
Reaches-overlooked s r e f =
    let v = Reaches-Sound s r in
    let same : s.changed ≡ false = ground (arith, v.seen) in
    let done : waiters_phase s.join_waiters ≡ over =
      rw (v.uncounted (inr (inr e)), waiters_phase) refl in
    let t = record s { ending = waiters_phase s.join_waiters } in
    (
      t,
      load_waiters s f,
      after s t r (load_waiters s f),
      done,
      λ u q. Reaches-Missed t u (done, same, inl e) q,
    )
