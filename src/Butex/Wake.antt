-- ===== src/Butex/Wake.antt =====
-- What Wake does to the tasks that wait.
use cothread.Prelude.{
  ℕ, zero, suc, ◌-◌, ◌≤◌, ◌<◌, min, ◌≡◌, refl, sym, ap, subst, ◌∙◌, false, Option, some, List, [],
  ◌∷◌, ◌++◌, append_assoc, append-nil, arith, length, take, drop, length-take, length-drop, All,
  All-append, Fresh, Distinct, take-nil, drop-nil, All-take, All-drop, Distinct-take, Distinct-drop,
  take-drop, Fresh-apart, apart_sym, take-drop_apart,
}
use cothread.Task.{TaskState}
use cothread.MpmcQueue.{MpmcQueue, pop_multiple_from_head}
use cothread.MpmcQueue.Deque.{HoldsIn}
use cothread.MpmcQueue.Pop.{pop_multiple_from_head-takes}
use cothread.Butex.{Butex, wake_batch_size, hand_over, wake_one, wake_each, wake}

abbrev pub IsAsleep : Butex → ℕ → Type 0
IsAsleep b t = (b.tasks t).state ≡ TaskState.suspended

abbrev pub IsAwake : Butex → ℕ → Type 0
IsAwake b t = ((b.tasks t).state ≡ TaskState.ready) × ((b.tasks t).is_waiting ≡ false)

-- These tasks wait, in the order in which they are woken; at most n items are linked.
pub record Waits (n : ℕ) (b : Butex) (ws : List ℕ) : Type 0 where
  pub queued : HoldsIn n b.queue ws
  pub asleep : All (IsAsleep b) ws
  pub distinct : Distinct ws

-- The tasks `ts` were woken: each is ready and was handed to the scheduler once, in this order; every
-- other task is as it was.
pub record Wakes (b : Butex) (ts : List ℕ) (after : Butex) : Type 0 where
  pub awake : All (IsAwake after) ts
  pub in_order : after.enqueued ≡ b.enqueued ++ ts
  pub others : (t : ℕ) → Fresh t ts → after.tasks t ≡ b.tasks t
  pub value : after.value ≡ b.value

wake_one-Wakes : (t : ℕ) (b : Butex) → IsAsleep b t → Wakes b (t ∷ []) (wake_one t b)
unfolding wake_one hand_over
wake_one-Wakes t b a = record {
  awake = ((ground arith, ground arith), tt);
  in_order = ground arith;
  others = λ s f. ground arith;
  value = ground arith;
}

-- Other tasks sleep on.
IsAsleep-still :
    (b after : Butex) (woken ts : List ℕ)
    → Wakes b woken after
    → All (λ t. Fresh t woken) ts
    → All (IsAsleep b) ts
    → All (IsAsleep after) ts
IsAsleep-still b after woken [] w f a = tt
IsAsleep-still b after woken (s ∷ ts) w f a =
    (ap (λ m. m.state) (w.others s f.0) ∙ a.0, IsAsleep-still b after woken ts w f.1 a.1)

-- Two groups of tasks woken one after the other.
Wakes-append :
    (b c d : Butex) (ts us : List ℕ)
    → All (λ t. Fresh t us) ts
    → Wakes b ts c
    → Wakes c us d
    → Wakes b (ts ++ us) d
Wakes-append b c d ts us apart v w = record {
  awake = All-append _ ts us (keep ts apart v.awake) w.awake;
  in_order = w.in_order ∙ ap (λ l. l ++ us) v.in_order ∙ append_assoc b.enqueued ts us;
  others = λ t f. let (g, h) = split ts t f in w.others t h ∙ v.others t g;
  value = w.value ∙ v.value;
}
  where
    keep : (xs : List ℕ) → All (λ t. Fresh t us) xs → All (IsAwake c) xs → All (IsAwake d) xs
    keep [] f a = tt
    keep (x ∷ xs) f a = (
      (ap (λ m. m.state) (w.others x f.0) ∙ a.0.0, ap (λ m. m.is_waiting) (w.others x f.0) ∙ a.0.1),
      keep xs f.1 a.1,
    )

    split : (xs : List ℕ) (t : ℕ) → Fresh t (xs ++ us) → Fresh t xs × Fresh t us
    split [] t f = (tt, f)
    split (x ∷ xs) t f = let (g, h) = split xs t f.1 in ((f.0, g), h)

Wakes-none : (b : Butex) → Wakes b [] b
Wakes-none b = record {
  awake = tt;
  in_order = sym (append-nil b.enqueued);
  others = λ t f. refl;
  value = refl;
}

wake_each-Wakes :
    (ts : List ℕ) (b : Butex) → Distinct ts → All (IsAsleep b) ts → Wakes b ts (wake_each ts b)
unfolding wake_each
wake_each-Wakes [] b d a = Wakes-none b
wake_each-Wakes (t ∷ ts) b d a =
    let one = wake_one-Wakes t b a.0 in
    Wakes-append b (wake_one t b) (wake_each ts (wake_one t b)) (t ∷ []) ts (d.0, tt) one
      (wake_each-Wakes ts (wake_one t b) d.1
        (IsAsleep-still b (wake_one t b) (t ∷ []) ts one (apart_sym (t ∷ []) ts (d.0, tt)) a.1))

queue-wake_each : (ts : List ℕ) (b : Butex) → (wake_each ts b).queue ≡ b.queue
unfolding wake_each wake_one hand_over
queue-wake_each [] b = refl
queue-wake_each (t ∷ ts) b = queue-wake_each ts (wake_one t b) ∙ ground arith

-- The rounds of the loop, case by case.
module _ (fuel rounds : ℕ) (b : Butex) where
  wake_nobody : wake fuel (suc rounds) 0 b ≡ some b
  unfolding wake
  wake_nobody = ground arith

  module _ (count : ℕ) (some_left : 0 < count) (ts : List ℕ) (q : MpmcQueue)
      (popped : pop_multiple_from_head fuel (min count wake_batch_size) b.queue
        ≡ some (ts, q)) where
    wake_last : length ts ≡ 0 → wake fuel (suc rounds) count b ≡ some (record b { queue = q })
    unfolding wake
    wake_last none_left = ground (arith, popped)

    wake_next :
        0 < length ts
        → wake fuel (suc rounds) count b
          ≡ wake fuel rounds (count - length ts) (wake_each ts (record b { queue = q }))
    unfolding wake
    wake_next more = ground (arith, popped)

-- What a call of Wake promises, for `count` of the tasks that wait.
pub record Serves (n count : ℕ) (b : Butex) (ws : List ℕ) (r : Option Butex) : Type 0 where
  pub after : Butex
  pub returns : r ≡ some after
  pub woken : Wakes b (take count ws) after
  pub left : HoldsIn n after.queue (drop count ws)

requeued :
    (b : Butex) (q : MpmcQueue) (ts : List ℕ) (after : Butex)
    → Wakes (record b { queue = q }) ts after
    → Wakes b ts after
requeued b q ts after w = record {
  awake = w.awake;
  in_order = w.in_order;
  others = w.others;
  value = w.value;
}

serve_next :
    (n count size : ℕ) (b c : Butex) (ws : List ℕ) (r : Option Butex)
    → size ≤ count
    → Distinct ws
    → Wakes b (take size ws) c
    → Serves n (count - length (take size ws)) c (drop size ws) r
    → Serves n count b ws r
serve_next n count size b c ws r h d w s =
    let (t, e) = take-drop size count ws h in
    let d' = subst Distinct (sym t) (Distinct-take count ws d) in
    record {
      after = s.after;
      returns = s.returns;
      woken =
          subst (λ l. Wakes b l s.after) t
            (Wakes-append b c s.after (take size ws) _ (Fresh-apart (take size ws) _ d') w s.woken);
      left = subst (HoldsIn n s.after.queue) e s.left;
    }

-- Wake ends: it wakes the first `count` tasks that wait, or all there are, in the order of the queue,
-- each once, and leaves the others waiting. A pop gets more fuel than items are linked, and one batch
-- more is allowed than tasks wait.
pub wake-Serves :
    (fuel rounds count n : ℕ) (b : Butex) (ws : List ℕ)
    → n < fuel
    → length ws < rounds
    → Waits n b ws
    → Serves n count b ws (wake fuel rounds count b)
wake-Serves fuel zero count n b ws f g v = absurd (omega arith)
wake-Serves fuel (suc rounds) zero n b ws f g v =
    rw (wake_nobody fuel rounds b)
      (record { after = b; returns = refl; woken = Wakes-none b; left = v.queued })
wake-Serves fuel (suc rounds) (suc count) n b [] f g v =
    let size = min (suc count) wake_batch_size in
    let (q, e, h) = pop_multiple_from_head-takes fuel size b.queue [] n f v.queued in
    let none_there = take-nil {A = ℕ} size in
    rw (wake_last fuel rounds b (suc count) (omega arith) (take size []) q e (rw none_there refl))
      (record {
        after = record b { queue = q };
        returns = refl;
        woken = requeued b q [] (record b { queue = q }) (Wakes-none (record b { queue = q }));
        left = subst (HoldsIn n q) (drop-nil size) h;
      })
wake-Serves fuel (suc rounds) (suc count) n b (x ∷ xs) f g v =
    let ws = x ∷ xs in
    let size = min (suc count) wake_batch_size in
    let (q, e, h) = pop_multiple_from_head-takes fuel size b.queue ws n f v.queued in
    let ts = take size ws in
    let size_ts = length-take size ws in
    let c = wake_each ts (record b { queue = q }) in
    let w = requeued b q ts c (
      wake_each-Wakes ts (record b { queue = q }) (Distinct-take size ws v.distinct)
        (All-take size _ ws v.asleep)) in
    let rest =
      wake-Serves fuel rounds (suc count - length ts) n c (drop size ws) f
        (omega (arith, length-drop size ws))
        (record {
          queued = rw (queue-wake_each ts (record b { queue = q })) h;
          asleep =
              IsAsleep-still b c ts (drop size ws) w
                (apart_sym ts (drop size ws) (take-drop_apart size ws v.distinct))
                (All-drop size _ ws v.asleep);
          distinct = Distinct-drop size ws v.distinct;
        }) in
    rw (wake_next fuel rounds b (suc count) (omega arith) ts q e (omega (arith, size_ts)))
      (serve_next n (suc count) size b c ws _ (omega arith) v.distinct w rest)
