-- ===== src/Butex/Race/Woken.antt =====
-- The wake-ups that reach the task that waits.
use cothread.Prelude.{
  ℕ, suc, ◌≡◌, refl, sym, subst, ◌∙◌, ◌≢◌, ◌⊎◌, inl, inr, Bool, true, false, arith,
}
use cothread.Task.{TaskState}
use cothread.Butex.Race.{
  WaitPhase, WakePhase, enters, matched, marked, rechecked, linked, withdraws, confirmed, saved,
  suspended, contends, wins, returned, sleeps, idle, changed, popped, cleared, counted,
  saw_suspended, made_ready, done, Race, race_start, suspend_phase, contend_phase, exchange,
  compare_count, pop_phase, look_phase, Step, check, mark, recheck, link, confirm, withdraw, save,
  suspend, recount, contend, enqueue_self, set_value, pop, clear, count, look, make_ready, enqueue,
  Reaches, here, then',
}

-- The waiter runs or sleeps, and nobody has enqueued it.
abbrev Still : TaskState → ℕ → Race → Type 0
Still state n s = (s.state ≡ state) × (s.enqueued ≡ 0) × (s.wake_count ≡ n)

abbrev Linked : TaskState → ℕ → Race → Type 0
Linked state n s = Still state n s × (s.in_queue ≡ true) × (s.claimed ≡ false)

-- Before the third load of the value: the other thread has changed it, or done nothing yet.
abbrev Early : Bool → ℕ → Race → Type 0
Early in_queue n s =
    (s.stale ≡ true) ⊎ ((s.wake ≡ idle) × Still TaskState.running n s × (s.in_queue ≡ in_queue))

abbrev EarlyClean : Bool → ℕ → Race → Type 0
EarlyClean in_queue n s =
    (s.stale ≡ true)
    ⊎ ((s.wake ≡ idle)
        × Still TaskState.running n s
        × (s.in_queue ≡ in_queue)
        × (s.claimed ≡ false))

-- After it, while the task runs.
abbrev Awake : WakePhase → ℕ → Race → Type 0
Awake idle n s = Linked TaskState.running n s
Awake changed n s = Linked TaskState.running n s
Awake popped n s = Still TaskState.running n s
Awake cleared n s = Still TaskState.running n s
Awake counted n s = Still TaskState.running (suc n) s
Awake saw_suspended n s = ⊥
Awake made_ready n s = ⊥
Awake done n s = Still TaskState.running (suc n) s

-- Once it has set SUSPENDED, when Wake had not counted before.
abbrev Asleep : WakePhase → ℕ → Race → Type 0
Asleep idle n s = Linked TaskState.suspended n s
Asleep changed n s = Linked TaskState.suspended n s
Asleep popped n s = Still TaskState.suspended n s
Asleep cleared n s = Still TaskState.suspended n s
Asleep counted n s = Still TaskState.suspended (suc n) s
Asleep saw_suspended n s = Still TaskState.suspended (suc n) s
Asleep made_ready n s = (s.state ≡ TaskState.ready) × (s.enqueued ≡ 0) × (s.wake_count ≡ suc n)
Asleep done n s = (s.state ≡ TaskState.ready) × (s.enqueued ≡ 1) × (s.wake_count ≡ suc n)

-- Between its exchange of the state and its second load of the count: asleep, or Wake is through and
-- counted without seeing it asleep.
abbrev Between : WakePhase → ℕ → Race → Type 0
Between w n s = Asleep w n s ⊎ ((w ≡ done) × Still TaskState.suspended (suc n) s)

-- What holds at each place of Wait, where `n` is the count before Wake counts.
abbrev Safe : WaitPhase → ℕ → Race → Type 0
Safe enters n s = Early false n s
Safe matched n s = Early false n s
Safe marked n s = EarlyClean false n s
Safe rechecked n s = EarlyClean false n s
Safe linked n s = EarlyClean true n s
Safe withdraws n s = Unit
Safe confirmed n s = Awake s.wake n s
Safe (saved m) n s = (m ≡ suc n) ⊎ ((m ≡ n) × Awake s.wake n s)
Safe (suspended m) n s = (m ≡ suc n) ⊎ ((m ≡ n) × Between s.wake n s)
Safe contends n s = Unit
Safe wins n s = Unit
Safe returned n s = Unit
Safe (sleeps m) n s = (m ≡ suc n) ⊎ ((m ≡ n) × Asleep s.wake n s)

-- A step of the other thread.
record Wakes (n : ℕ) (s t : Race) : Type 0 where
  early : (b : Bool) → Early b n s → Early b n t
  clean : (b : Bool) → EarlyClean b n s → EarlyClean b n t
  awake : Awake s.wake n s → Awake t.wake n t
  asleep : Asleep s.wake n s → Asleep t.wake n t
  going : s.wake ≢ done

Wakes-Safe : (w : WaitPhase) (n : ℕ) (s t : Race) → Wakes n s t → Safe w n s → Safe w n t
Wakes-Safe enters n s t k v = k.early false v
Wakes-Safe matched n s t k v = k.early false v
Wakes-Safe marked n s t k v = k.clean false v
Wakes-Safe rechecked n s t k v = k.clean false v
Wakes-Safe linked n s t k v = k.clean true v
Wakes-Safe withdraws n s t k v = tt
Wakes-Safe confirmed n s t k v = k.awake v
Wakes-Safe (saved m) n s t k (inl e) = inl e
Wakes-Safe (saved m) n s t k (inr (e, v)) = inr (e, k.awake v)
Wakes-Safe (suspended m) n s t k (inl e) = inl e
Wakes-Safe (suspended m) n s t k (inr (e, inl v)) = inr (e, inl (k.asleep v))
Wakes-Safe (suspended m) n s t k (inr (e, inr (d, v))) = absurd (k.going d)
Wakes-Safe contends n s t k v = tt
Wakes-Safe wins n s t k v = tt
Wakes-Safe returned n s t k v = tt
Wakes-Safe (sleeps m) n s t k (inl e) = inl e
Wakes-Safe (sleeps m) n s t k (inr (e, v)) = inr (e, k.asleep v)

set_value-Wakes :
    (n : ℕ) (s : Race) → s.wake ≡ idle → Wakes n s (record s { wake = changed; stale = true })
set_value-Wakes n s p = record {
  early = λ b v. inl refl;
  clean = λ b v. inl refl;
  awake = λ v. subst (λ w. Awake w n s) p v;
  asleep = λ v. subst (λ w. Asleep w n s) p v;
  going = λ d. ground (arith, p, d);
}

-- The steps after set_value.
later-Wakes :
    (n : ℕ) (s t : Race) (w : WakePhase)
    → s.wake ≡ w
    → w ≢ idle
    → w ≢ done
    → (s.stale ≡ true → t.stale ≡ true)
    → (Awake w n s → Awake t.wake n t)
    → (Asleep w n s → Asleep t.wake n t)
    → Wakes n s t
later-Wakes n s t w p i d k a b = record {
  early = λ c v. inl (k (ground (arith, i, p, v)));
  clean = λ c v. inl (k (ground (arith, i, p, v)));
  awake = λ v. a (subst (λ x. Awake x n s) p v);
  asleep = λ v. b (subst (λ x. Asleep x n s) p v);
  going = λ e. d (sym p ∙ e);
}

Step-Safe : (n : ℕ) (s t : Race) → Step s t → Safe s.wait n s → Safe t.wait n t
unfolding suspend_phase contend_phase exchange compare_count pop_phase look_phase
Step-Safe n s t (check _ p) v = ground (arith, p, v)
Step-Safe n s t (mark _ p) v = ground (arith, p, v)
Step-Safe n s t (recheck _ p) v = ground (arith, p, v)
Step-Safe n s t (link _ p) v = ground (arith, p, v)
Step-Safe n s t (confirm _ p) v = ground (arith, p, v)
Step-Safe n s t (withdraw _ p) v = tt
Step-Safe n s t (save _ p) v = ground (arith, p, v)
Step-Safe n s t (suspend _ m p) v = ground (arith, p, v)
Step-Safe n s t (recount _ m p) v = ground (arith, p, v)
Step-Safe n s t (contend _ p) v = ground (arith, p, v)
Step-Safe n s t (enqueue_self _ p) v = tt
Step-Safe n s t (set_value _ p) v = Wakes-Safe s.wait n s t (set_value-Wakes n s p) v
Step-Safe n s t (pop _ p) v =
    Wakes-Safe s.wait n s t
      (later-Wakes n s t changed p (ground arith) (ground arith) (λ k. k) (λ a. ground (arith, a))
        (λ a. ground (arith, a)))
      v
Step-Safe n s t (clear _ p) v =
    Wakes-Safe s.wait n s t
      (later-Wakes n s t popped p (ground arith) (ground arith) (λ k. k) (λ a. a) (λ a. a)) v
Step-Safe n s t (count _ p) v =
    Wakes-Safe s.wait n s t
      (later-Wakes n s t cleared p (ground arith) (ground arith) (λ k. k) (λ a. ground (arith, a))
        (λ a. ground (arith, a)))
      v
Step-Safe n s t (look _ p) v =
    Wakes-Safe s.wait n s t
      (later-Wakes n s t counted p (ground arith) (ground arith) (λ k. k) (λ a. ground (arith, a))
        (λ a. ground (arith, a)))
      v
Step-Safe n s t (make_ready _ p) v =
    Wakes-Safe s.wait n s t
      (later-Wakes n s t saw_suspended p (ground arith) (ground arith) (λ k. k)
        (λ a. ground (arith, a)) (λ a. ground (arith, a)))
      v
Step-Safe n s t (enqueue _ p) v =
    Wakes-Safe s.wait n s t
      (later-Wakes n s t made_ready p (ground arith) (ground arith) (λ k. k)
        (λ a. ground (arith, a)) (λ a. ground (arith, a)))
      v

Reaches-Safe : (n : ℕ) (s t : Race) → Reaches s t → Safe s.wait n s → Safe t.wait n t
Reaches-Safe n s t (here _) v = v
Reaches-Safe n s t (then' _ m _ r step) v = Step-Safe n m t step (Reaches-Safe n s m r v)

-- However the steps interleave: when the task sleeps in SuspendCurrent, having loaded the count before
-- Wake incremented it, and Wake is through, then Wake has enqueued it, exactly once, and made it ready.
pub Reaches-enqueued :
    (n : ℕ) (s : Race)
    → Reaches (race_start n) s
    → s.wait ≡ sleeps n
    → s.wake ≡ done
    → (s.enqueued ≡ 1) × (s.state ≡ TaskState.ready)
Reaches-enqueued n s r p q =
    let v : Safe s.wait n s =
      Reaches-Safe n (race_start n) s r (inr (refl, (refl, refl, refl), refl)) in
    ground (arith, p, q, v)
