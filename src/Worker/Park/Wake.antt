-- ===== src/Worker/Park/Wake.antt =====
-- Which wake-ups reach a worker that sleeps.
use cothread.Prelude.{ℕ, ◌+◌, ◌^◌, ◌≤◌, ◌<◌, ◌≡◌, refl, ◌⊎◌, inl, inr, false, arith}
use cothread.Worker.Park.{
  Phase, looks, idles, registered, captured, found_none, committed, asleep, returned, Park, start,
  wake, futex_wait, check_queues, check_pending, Step, set_idle, register, capture, recheck,
  recheck_pending, sleep, time_out, clear_idle, take_task, submit, pop_this, pop_other, pop_none,
  cut_off, announce, count, futex_wake, clear_pending, Reaches, here, then',
}

-- A wake-up goes to another worker, or finds this one gone from the registry.
abbrev Astray : Park → Type 0
Astray s = (s.listed ≡ false) ⊎ (0 < s.elsewhere)

-- What holds at each place of the worker: a task that it has not seen belongs to a thread that still
-- changes the word, or has changed it since, or went astray; one that sleeps has a thread on the way to
-- wake it, or the wake-up went astray.
abbrev Safe : Phase → Park → Type 0
Safe looks s = Unit
Safe idles s = Unit
Safe registered s = Unit
Safe (captured e) s = e ≤ s.wake_count
Safe (found_none e) s =
    (e ≤ s.wake_count)
    × ((s.queued ≡ 0) ⊎ (e < s.wake_count) ⊎ (0 < s.to_pop + s.submitted + s.announced) ⊎ Astray s)
Safe (committed e) s =
    (e ≤ s.wake_count)
    × ((s.queued ≡ 0) ⊎ (e < s.wake_count) ⊎ (0 < s.to_pop + s.submitted + s.announced) ⊎ Astray s)
Safe (asleep e) s =
    (s.queued ≡ 0) ⊎ (0 < s.to_pop + s.submitted + s.announced + s.counted) ⊎ Astray s
Safe returned s = Unit

-- A step of another thread, from the counts before it to those after it.
record Helps (s t : Park) : Type 0 where
  grows : s.wake_count ≤ t.wake_count
  queues : s.queued ≡ 0 → (t.queued ≡ 0) ⊎ (0 < t.to_pop)
  changes :
      0 < s.to_pop + s.submitted + s.announced
      → (0 < t.to_pop + t.submitted + t.announced) ⊎ (s.wake_count < t.wake_count) ⊎ Astray t
  strays : Astray s → Astray t

-- A step that leaves the worker in its place.
Helps-Safe :
    (p : Phase) (s t : Park)
    → Helps s t
    → (0 < s.to_pop + s.submitted + s.announced + s.counted
        → (0 < t.to_pop + t.submitted + t.announced + t.counted) ⊎ Astray t)
    → Safe p s
    → Safe p t
Helps-Safe looks s t h k v = tt
Helps-Safe idles s t h k v = tt
Helps-Safe registered s t h k v = tt
Helps-Safe (captured e) s t h k v = omega (arith, h.grows)
Helps-Safe (found_none e) s t h k v = ground (arith, h.grows, h.queues, h.changes, h.strays)
Helps-Safe (committed e) s t h k v = ground (arith, h.grows, h.queues, h.changes, h.strays)
Helps-Safe (asleep e) s t h k v = ground (arith, h.queues, h.strays, k)
Helps-Safe returned s t h k v = tt

wake-Safe : (p : Phase) (s t : Park) → Helps s t → Safe p s → Safe (wake p) t
unfolding wake
wake-Safe looks s t h v = tt
wake-Safe idles s t h v = tt
wake-Safe registered s t h v = tt
wake-Safe (captured e) s t h v = omega (arith, h.grows)
wake-Safe (found_none e) s t h v = ground (arith, h.grows, h.queues, h.changes, h.strays)
wake-Safe (committed e) s t h v = ground (arith, h.grows, h.queues, h.changes, h.strays)
wake-Safe (asleep e) s t h v = tt
wake-Safe returned s t h v = tt

Step-Safe : (s t : Park) → Step s t → s.wake_count < 2 ^ 32 → Safe s.phase s → Safe t.phase t
unfolding futex_wait check_queues check_pending
Step-Safe s t (set_idle _ p) b v = tt
Step-Safe s t (register _ p) b v = tt
Step-Safe s t (capture _ p) b v = omega arith
Step-Safe s t (recheck _ e p) b v = ground (arith, p, v)
Step-Safe s t (recheck_pending _ e p) b v = ground (arith, p, v)
Step-Safe s t (sleep _ e p) b v = ground (arith, p, v)
Step-Safe s t (time_out _ e p) b v = tt
Step-Safe s t (clear_idle _ p) b v = tt
Step-Safe s t (take_task _ n p) b v =
    Helps-Safe s.phase s t
      (record {
        grows = omega arith;
        queues = λ q. ground arith;
        changes = λ c. inl (omega arith);
        strays = λ a. a;
      })
      (λ k. inl (omega arith)) v
Step-Safe s t (submit _) b v =
    Helps-Safe s.phase s t
      (record {
        grows = omega arith;
        queues = λ q. inr (omega arith);
        changes = λ c. inl (omega arith);
        strays = λ a. a;
      })
      (λ k. inl (omega arith)) v
Step-Safe s t (pop_this _ n still p l) b v =
    Helps-Safe s.phase s t
      (record {
        grows = omega arith;
        queues = λ q. inl q;
        changes = λ c. inl (omega arith);
        strays = λ a. ground (arith, a, l);
      })
      (λ k. inl (omega arith)) v
Step-Safe s t (pop_other _ n p) b v =
    Helps-Safe s.phase s t
      (record {
        grows = omega arith;
        queues = λ q. inl q;
        changes = λ c. inr (inr (inr (omega arith)));
        strays = λ a. inr (omega arith);
      })
      (λ k. inr (inr (omega arith))) v
Step-Safe s t (pop_none _ n p l) b v =
    Helps-Safe s.phase s t
      (record {
        grows = omega arith;
        queues = λ q. inl q;
        changes = λ c. inr (inr (inl l));
        strays = λ a. a;
      })
      (λ k. inr (inl l)) v
Step-Safe s t (cut_off _) b v =
    Helps-Safe s.phase s t
      (record {
        grows = omega arith;
        queues = λ q. inl q;
        changes = λ c. inl (omega arith);
        strays = λ a. inl refl;
      })
      (λ k. inl (omega arith)) v
Step-Safe s t (announce _ n p) b v =
    Helps-Safe s.phase s t
      (record {
        grows = omega arith;
        queues = λ q. inl q;
        changes = λ c. inl (omega arith);
        strays = λ a. a;
      })
      (λ k. inl (omega arith)) v
Step-Safe s t (count _ n p) b v =
    Helps-Safe s.phase s t
      (record {
        grows = omega arith;
        queues = λ q. inl q;
        changes = λ c. inr (inl (omega arith));
        strays = λ a. a;
      })
      (λ k. inl (omega arith)) v
Step-Safe s t (futex_wake _ n p) b v =
    wake-Safe s.phase s t
      (record {
        grows = omega arith;
        queues = λ q. inl q;
        changes = λ c. inl (omega arith);
        strays = λ a. a;
      })
      v
Step-Safe s t (clear_pending _ n p) b v =
    Helps-Safe s.phase s t
      (record {
        grows = omega arith;
        queues = λ q. inl q;
        changes = λ c. inl (omega arith);
        strays = λ a. a;
      })
      (λ k. inl (omega arith)) v

wake_count-Step : (s t : Park) → Step s t → s.wake_count ≤ t.wake_count
wake_count-Step s t (set_idle _ p) = omega arith
wake_count-Step s t (register _ p) = omega arith
wake_count-Step s t (capture _ p) = omega arith
wake_count-Step s t (recheck _ e p) = omega arith
wake_count-Step s t (recheck_pending _ e p) = omega arith
wake_count-Step s t (sleep _ e p) = omega arith
wake_count-Step s t (time_out _ e p) = omega arith
wake_count-Step s t (clear_idle _ p) = omega arith
wake_count-Step s t (take_task _ n p) = omega arith
wake_count-Step s t (submit _) = omega arith
wake_count-Step s t (pop_this _ n still p l) = omega arith
wake_count-Step s t (pop_other _ n p) = omega arith
wake_count-Step s t (pop_none _ n p l) = omega arith
wake_count-Step s t (cut_off _) = omega arith
wake_count-Step s t (announce _ n p) = omega arith
wake_count-Step s t (count _ n p) = omega arith
wake_count-Step s t (futex_wake _ n p) = omega arith
wake_count-Step s t (clear_pending _ n p) = omega arith

Reaches-Safe : (s t : Park) → Reaches s t → t.wake_count < 2 ^ 32 → Safe s.phase s → Safe t.phase t
Reaches-Safe s t (here _) b v = v
Reaches-Safe s t (then' _ m _ r step) b v =
    let grown = wake_count-Step m t step in
    Step-Safe m t step (omega arith) (Reaches-Safe s m r (omega arith) v)

-- However the steps interleave, while fewer than 2^32 wake-ups have been counted: when the worker is in
-- FutexWait and a task is queued, then some thread that queued a task has still to pop an idle worker,
-- or has popped this one and not called FutexWake yet; or the registry does not have the worker any
-- more; or some pop gave another worker.
pub Reaches-woken :
    (s : Park) (e : ℕ)
    → Reaches start s
    → s.wake_count < 2 ^ 32
    → s.phase ≡ asleep e
    → 0 < s.queued
    → (0 < s.to_pop + s.submitted + s.announced + s.counted)
      ⊎ (s.listed ≡ false)
      ⊎ (0 < s.elsewhere)
Reaches-woken s e r b p q =
    let v : Safe s.phase s = Reaches-Safe start s r b tt in ground (arith, p, v)
