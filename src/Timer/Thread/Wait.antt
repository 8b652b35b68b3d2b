-- ===== src/Timer/Thread/Wait.antt =====
-- How long the timer thread sleeps between rounds.
use mathlib.Core.Option
use cothread.Prelude.{
  ℕ, zero, suc, ◌+◌, ◌≤◌, ◌<◌, min, ◌≡◌, refl, ap, subst, ◌∙◌, ◌⊎◌, inl, inr, Option, some, List,
  [], ◌++◌, arith, dec_lt, leb, lt→leb, Bool-cases, update_ne, tally,
}
use cothread.Timer.Heap.{TimerEntry}
use cothread.Timer.Heap.Order.{IsHeap}
use cothread.Timer.Shard.{Shard, int64_max}
use cothread.Timer.Shard.Process.{is_due, IsCalm, process_shard-Ends}
use cothread.Timer.Thread.{TimerThread, shard_of, put_shard, walk_shards, sleep_us, round}

-- The shards from `i` on are heaps, with fewer timers due than the fuel.
abbrev pub AreReady : ℕ → ℕ → ℕ → (ℕ → ℕ) → TimerThread → Type 0
AreReady k i fuel clock t =
    (j : ℕ) → i ≤ j → j < i + k → IsHeap (t.heaps j) × (tally (is_due (clock j)) (t.heaps j) < fuel)

-- A walk ends, and the least deadline that it finds is no later than any next_deadline that stood
-- when it began.
record Walked (k i least : ℕ) (t : TimerThread) (r : Option (ℕ × List TimerEntry × TimerThread))
    : Type 0 where
  found : ℕ
  fired : List TimerEntry
  after : TimerThread
  returns : r ≡ some (found, fired, after)
  below : found ≤ least
  covers : (j : ℕ) → i ≤ j → j < i + k → found ≤ t.next_deadlines j

put_shard_ne :
    (i j : ℕ) (s : Shard) (t : TimerThread)
    → i < j
    → ((put_shard i s t).heaps j ≡ t.heaps j)
      × ((put_shard i s t).next_deadlines j ≡ t.next_deadlines j)
unfolding put_shard
put_shard_ne i j s t h = (
  update_ne t.heaps i j s.heap (omega arith),
  update_ne t.next_deadlines i j s.next_deadline (omega arith),
)

module _ (fuel now : ℕ) (clock : ℕ → ℕ) (effect : TimerEntry → Shard → Shard) where
  Walked-next :
      (k i least lower : ℕ) (t u : TimerThread) (r : Option (ℕ × List TimerEntry × TimerThread))
      → lower ≤ least
      → lower ≤ t.next_deadlines i
      → ((j : ℕ) → i < j → u.next_deadlines j ≡ t.next_deadlines j)
      → Walked k (suc i) lower u r
      → Walked (suc k) i least t r
  Walked-next k i least lower t u r p q same w = record {
    found = w.found;
    fired = w.fired;
    after = w.after;
    returns = w.returns;
    below = omega (arith, w.below);
    covers = λ j a b. elim (dec_lt i j) [
      | yes past ↦ omega (arith, same j past, w.covers j past (omega arith))
      | no at ↦
          let here : i ≡ j = omega arith in
          subst (λ x. w.found ≤ t.next_deadlines x) here (omega (arith, w.below))
    ];
  }

  Walked-prefix :
      (k i least : ℕ) (t : TimerThread) (ran : List TimerEntry)
      (r : Option (ℕ × List TimerEntry × TimerThread))
      → Walked k i least t r
      → Walked k i least t (Option.map (λ q. (q.0, ran ++ q.1, q.2)) r)
  Walked-prefix k i least t ran r w = record {
    found = w.found;
    fired = ran ++ w.fired;
    after = w.after;
    returns = ap (Option.map (λ q. (q.0, ran ++ q.1, q.2))) w.returns;
    below = w.below;
    covers = w.covers;
  }

  walk_shards-Walked :
      (k i least : ℕ) (t : TimerThread)
      → ((n : ℕ) → IsCalm n effect)
      → AreReady k i fuel clock t
      → Walked k i least t (walk_shards k i fuel now clock effect least t)
  unfolding walk_shards shard_of Option.bind
  walk_shards-Walked zero i least t calm ready = record {
    found = least;
    fired = [];
    after = t;
    returns = refl;
    below = omega arith;
    covers = λ j a b. absurd (omega arith);
  }
  walk_shards-Walked (suc k) i least t calm ready =
      elim (Bool-cases (leb (t.next_deadlines i) now)) [
        | inr wait ↦ rw wait (
            Walked-next k i least (min (t.next_deadlines i) least) t t _ (omega arith) (omega arith)
              (λ j h. refl)
              (walk_shards-Walked k (suc i) (min (t.next_deadlines i) least) t calm
                (λ j a b. ready j (omega arith) (omega arith))))
        | inl due ↦
            let (heaped, few) = ready i (omega arith) (omega arith) in
            let run =
              (process_shard-Ends fuel (clock i) effect (shard_of i t) (calm (clock i)) heaped
                few).0 in
            let u = put_shard i run.left t in
            let lower = min (u.next_deadlines i) (min (t.next_deadlines i) least) in
            rw (due, run.returns)
              (Walked-prefix (suc k) i least t run.fired _ (
                Walked-next k i least lower t u _ (omega arith) (omega arith)
                  (λ j h. (put_shard_ne i j run.left t h).1)
                  (walk_shards-Walked k (suc i) lower u calm (λ j a b.
                    rw ((put_shard_ne i j run.left t a).0) (ready j (omega arith) (omega arith))))))
      ]

sleep_us-due : (now least : ℕ) → least ≤ now → sleep_us now least ≡ 100000
unfolding sleep_us
sleep_us-due now least h = ground arith

-- Some shard's next_deadline has passed.
abbrev pub HasDue : ℕ → TimerThread → Type 0
HasDue now t = (i : ℕ) × (i < t.worker_count) × (t.next_deadlines i ≤ now)

-- A round that begins when some shard is due ends in a sleep of 100 ms, whatever timers are left:
-- the minimum is taken over the deadlines from before the shards were processed.
round-sleeps_long :
    (fuel now : ℕ) (clock : ℕ → ℕ) (effect : TimerEntry → Shard → Shard) (t : TimerThread)
    → ((n : ℕ) → IsCalm n effect)
    → AreReady t.worker_count 0 fuel clock t
    → HasDue now t
    → (fired : List TimerEntry) × (after : TimerThread) × (round fuel now clock effect t
        ≡ some (100000, fired, after))
unfolding round
round-sleeps_long fuel now clock effect t calm ready (i, inside, due) =
    let w = walk_shards-Walked fuel now clock effect t.worker_count 0 int64_max t calm ready in
    let low = sleep_us-due now w.found (omega (arith, w.covers i (omega arith) (omega arith))) in
    (
      w.fired,
      w.after,
      ap (Option.map (λ q. (sleep_us now q.0, q.1, q.2))) w.returns
          ∙ ap (λ n. some (n, w.fired, w.after)) low,
    )

-- The least of the deadlines of `k` shards from `i` on, and of `least`.
earliest : ℕ → ℕ → ℕ → TimerThread → ℕ
earliest zero i least t = least
earliest (suc k) i least t = earliest k (suc i) (min (t.next_deadlines i) least) t

earliest-le :
    (k i least : ℕ) (t : TimerThread)
    → (earliest k i least t ≤ least)
      × ((j : ℕ) → i ≤ j → j < i + k → earliest k i least t ≤ t.next_deadlines j)
unfolding earliest
earliest-le zero i least t = (omega arith, λ j a b. absurd (omega arith))
earliest-le (suc k) i least t =
    let (low, covers) = earliest-le k (suc i) (min (t.next_deadlines i) least) t in
    (
      omega arith,
      λ j a b. elim (dec_lt i j) [
        | yes past ↦ covers j past (omega arith)
        | no at ↦
            let here : i ≡ j = omega arith in
            subst (λ x. earliest (suc k) i least t ≤ t.next_deadlines x) here (omega arith)
      ],
    )

walk_shards-idle :
    (k i fuel now : ℕ) (clock : ℕ → ℕ) (effect : TimerEntry → Shard → Shard) (least : ℕ)
    (t : TimerThread)
    → ((j : ℕ) → i ≤ j → j < i + k → now < t.next_deadlines j)
    → walk_shards k i fuel now clock effect least t ≡ some (earliest k i least t, [], t)
unfolding walk_shards earliest
walk_shards-idle zero i fuel now clock effect least t h = refl
walk_shards-idle (suc k) i fuel now clock effect least t h =
    rw (lt→leb now (t.next_deadlines i) (h i (omega arith) (omega arith))) (
      walk_shards-idle k (suc i) fuel now clock effect (min (t.next_deadlines i) least) t
        (λ j a b. h j (omega arith) (omega arith)))

-- What a round without a due shard does: nothing but sleep, for 100 ms when no shard has a deadline,
-- and else no longer than to any shard's next_deadline.
pub record Idles (now : ℕ) (t : TimerThread) (r : Option (ℕ × List TimerEntry × TimerThread))
    : Type 0 where
  pub sleep : ℕ
  pub returns : r ≡ some (sleep, [], t)
  pub length : (sleep ≡ 100000) ⊎ ((j : ℕ) → j < t.worker_count → now + sleep ≤ t.next_deadlines j)
  pub waits : 0 < sleep

sleep_us-cases :
    (now least : ℕ)
    → (0 < sleep_us now least)
      × ((sleep_us now least ≡ 100000) ⊎ (now + sleep_us now least ≡ least))
unfolding sleep_us
sleep_us-cases now least = ground arith

-- A round that begins when no shard is due runs no callback and changes nothing. It sleeps, for 100 ms
-- or no longer than to any shard's next_deadline.
round-Idles :
    (fuel now : ℕ) (clock : ℕ → ℕ) (effect : TimerEntry → Shard → Shard) (t : TimerThread)
    → ((j : ℕ) → j < t.worker_count → now < t.next_deadlines j)
    → Idles now t (round fuel now clock effect t)
unfolding round
round-Idles fuel now clock effect t h =
    let first = earliest t.worker_count 0 int64_max t in
    let walk =
      walk_shards-idle t.worker_count 0 fuel now clock effect int64_max t
        (λ j a b. h j (omega arith)) in
    let covers = (earliest-le t.worker_count 0 int64_max t).1 in
    let cases = sleep_us-cases now first in
    record {
      sleep = sleep_us now first;
      returns = ap (Option.map (λ q. (sleep_us now q.0, q.1, q.2))) walk;
      length = elim cases.1 [
        | inl long ↦ inl long
        | inr exact ↦ inr (λ j p. omega (arith, covers j (omega arith) (omega arith)))
      ];
      waits = cases.0;
    }
