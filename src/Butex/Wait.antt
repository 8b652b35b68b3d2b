-- ===== src/Butex/Wait.antt =====
-- What Wait does to the queue of the tasks that wait, and how a timeout ends a wait.
use cothread.Prelude.{
  ℕ, suc, ◌≡◌, refl, subst, ◌∙◌, ◌≢◌, inl, inr, Bool, true, false, Option, none, List, [], ◌∷◌,
  ◌++◌, arith, Bool-cases, All, All-append, Fresh, Distinct, update, update_self, Chain-update,
}
use cothread.Task.{TaskState}
use cothread.MpmcQueue.{MpmcQueue}
use cothread.MpmcQueue.Deque.{
  HoldsIn, live, Holds, live-update, add_to_tail-appends, add_to_head-leads,
}
use cothread.Butex.{Butex, Waited, placed_queue, change, suspends, join, wait}
use cothread.MpscQueue.Fifo.{Distinct-append}
use cothread.Butex.Wake.{IsAsleep, Waits}

Fresh-live : (claimed : ℕ → Bool) (t : ℕ) (xs : List ℕ) → Fresh t xs → Fresh t (live claimed xs)
Fresh-live claimed t [] f = tt
Fresh-live claimed t (x ∷ xs) f = elim (Bool-cases (claimed x)) [
  | inl out ↦ rw out (Fresh-live claimed t xs f.1)
  | inr in' ↦ rw in' (f.0, Fresh-live claimed t xs f.1)
]

-- Where a task that waits goes: in front, or behind all others.
abbrev pub placed : Bool → ℕ → List ℕ → List ℕ
placed true t ws = t ∷ ws
placed false t ws = ws ++ t ∷ []

placed-Distinct :
    (prepend : Bool) (t : ℕ) (ws : List ℕ)
    → Fresh t ws
    → Distinct ws
    → Distinct (placed prepend t ws)
placed-Distinct true t ws f d = (f, d)
placed-Distinct false t ws f d = Distinct-append ws t d f

placed-All :
    (P : ℕ → Type 0) (prepend : Bool) (t : ℕ) (ws : List ℕ)
    → P t
    → All P ws
    → All P (placed prepend t ws)
placed-All P true t ws p a = (p, a)
placed-All P false t ws p a = All-append P ws (t ∷ []) a (p, tt)

-- The item is linked where it belongs, once its node is cleared.
placed-HoldsIn :
    (n t : ℕ) (prepend : Bool) (q : MpmcQueue) (ws : List ℕ) (v : HoldsIn n q ws)
    → Fresh t v.0.items
    → HoldsIn (suc n) (placed_queue t prepend q) (placed prepend t ws)
placed-HoldsIn n t prepend q ws v f = choose prepend
  where
    cleared : MpmcQueue
    cleared = record q { next = update q.next t none; claimed = update q.claimed t false }

    same : Holds cleared ws
    same = record {
      items = v.0.items;
      links = record {
        chain = Chain-update q.next q.head t none v.0.items f v.0.links.chain;
        ends = v.0.links.ends;
        distinct = v.0.links.distinct;
      };
      waiting = live-update q.claimed t false v.0.items f ∙ v.0.waiting;
    }

    choose : (prepend : Bool) → HoldsIn (suc n) (placed_queue t prepend q) (placed prepend t ws)
    choose true =
        let (w, h) = add_to_head-leads cleared ws same true t f (update_self q.claimed t false) in
        (w, omega (arith, v.1))
    choose false = let (w, h) = add_to_tail-appends cleared ws same t f in (w, omega (arith, v.1))

-- What a call of Wait promises that suspends its task.
pub record Joins (n t : ℕ) (prepend : Bool) (b : Butex) (ws : List ℕ) (r : Waited) : Type 0 where
  pub after : Butex
  pub suspended : r ≡ suspends after
  pub waits : Waits (suc n) after (placed prepend t ws)
  pub others : (s : ℕ) → t ≢ s → after.tasks s ≡ b.tasks s
  pub value : after.value ≡ b.value
  pub nobody_woken : after.enqueued ≡ b.enqueued

abbrev pub suspended_on : ℕ → Option (ℕ × ℕ) → Bool → Butex → Butex
suspended_on t timeout prepend b =
    change t (λ k. record k { state = TaskState.suspended }) (join t timeout prepend b)

sleeps_still :
    (t : ℕ) (timeout : Option (ℕ × ℕ)) (prepend : Bool) (b : Butex) (ws : List ℕ)
    → Fresh t ws
    → All (IsAsleep b) ws
    → All (IsAsleep (suspended_on t timeout prepend b)) ws
unfolding join
sleeps_still t timeout prepend b [] f a = tt
sleeps_still t timeout prepend b (w ∷ ws) f a =
    (ground (arith, a.0, f.0), sleeps_still t timeout prepend b ws f.1 a.1)

-- A running task that waits while the value is the expected one is suspended and joins those that
-- wait: behind them, or in front of them with `prepend`. Nobody else is changed or woken. The task's
-- node must not be linked in the queue any more.
pub wait-Joins :
    (n t expected : ℕ) (timeout : Option (ℕ × ℕ)) (prepend : Bool) (b : Butex) (ws : List ℕ)
    (v : Waits n b ws)
    → Fresh t v.queued.0.items
    → b.running ≡ true
    → b.value ≡ expected
    → (b.tasks t).state ≡ TaskState.running
    → (b.tasks t).is_waiting ≡ false
    → Joins n t prepend b ws (wait t expected timeout prepend b)
unfolding wait join
wait-Joins n t expected timeout prepend b ws v f r e s w =
    let g = subst (Fresh t) v.queued.0.waiting (Fresh-live b.queue.claimed t v.queued.0.items f) in
    record {
      after = suspended_on t timeout prepend b;
      suspended = ground arith;
      waits = record {
        queued = placed-HoldsIn n t prepend b.queue ws v.queued f;
        asleep =
            placed-All (IsAsleep (suspended_on t timeout prepend b)) prepend t ws (ground arith)
              (sleeps_still t timeout prepend b ws g v.asleep);
        distinct = placed-Distinct prepend t ws g v.distinct;
      };
      others = λ u h. ground arith;
      value = refl;
      nobody_woken = refl;
    }

-- A Wait that suspends leaves the state in which its task sleeps.
pub wait_suspends :
    (t expected : ℕ) (timeout : Option (ℕ × ℕ)) (prepend : Bool) (b c : Butex)
    → wait t expected timeout prepend b ≡ suspends c
    → suspended_on t timeout prepend b ≡ c
unfolding wait
wait_suspends t expected timeout prepend b c e = ground (arith, e)
