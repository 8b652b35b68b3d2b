-- ===== src/Timer/Shard/Process.antt =====
-- What a run of ProcessShard does, and that it ends.
use mathlib.Core.Option
use cothread.Prelude.{
  ℕ, zero, suc, ◌≤◌, ◌<◌, ◌≡◌, refl, ap, inl, inr, Bool, true, false, Option, some, List, [], ◌∷◌,
  arith, leb, tests, Bool-cases, length, All, get_or, tally,
}
use cothread.Timer.Heap.{TimerEntry, deadline_at, shard_pop_from_heap}
use cothread.Timer.Heap.Order.{IsHeap, root_earliest}
use cothread.Timer.Heap.Down.{shard_pop_from_heap-IsHeap}
use cothread.Timer.Shard.{
  Shard, drop_root, expire_root, process_loop, refresh_deadline, process_shard,
}

abbrev pub is_due : ℕ → TimerEntry → Bool
is_due now e = leb e.deadline_us now

-- No timer of a heap is due if the root is not.
pub none_due :
    (now : ℕ) (x : TimerEntry) (heap : List TimerEntry)
    → IsHeap (x ∷ heap)
    → leb x.deadline_us now ≡ false
    → (i : ℕ) → i < length (x ∷ heap)
    → now < deadline_at (x ∷ heap) i
unfolding get_or
none_due now x heap h late i p = omega (tests, root_earliest (x ∷ heap) i h p)

-- While a callback runs, the heap stays a heap, and no further timer becomes due.
pub record IsCalm (now : ℕ) (effect : TimerEntry → Shard → Shard) : Type 0 where
  pub ordered : (e : TimerEntry) (s : Shard) → IsHeap s.heap → IsHeap (effect e s).heap
  pub bounded :
      (e : TimerEntry) (s : Shard)
      → tally (is_due now) (effect e s).heap ≤ tally (is_due now) s.heap

-- A run ends, every callback that ran was of a timer that was due and not cancelled, and in the
-- heap that is left no timer is due.
pub record Ends (now : ℕ) (r : Option (List TimerEntry × Shard)) : Type 0 where
  pub fired : List TimerEntry
  pub left : Shard
  pub returns : r ≡ some (fired, left)
  pub ran : All (λ e. (e.deadline_us ≤ now) × (e.cancelled ≡ false)) fired
  pub ordered : IsHeap left.heap
  pub later : (i : ℕ) → i < length left.heap → now < deadline_at left.heap i

pub due_popped :
    (now : ℕ) (x : TimerEntry) (heap : List TimerEntry)
    → IsHeap (x ∷ heap)
    → leb x.deadline_us now ≡ true
    → suc (tally (is_due now) (shard_pop_from_heap (x ∷ heap))) ≡ tally (is_due now) (x ∷ heap)
unfolding tally
due_popped now x heap h due = ground (arith, (shard_pop_from_heap-IsHeap x heap h).1 (is_due now))

pub heap-drop_root :
    (x : TimerEntry) (s : Shard) (heap : List TimerEntry)
    → s.heap ≡ x ∷ heap
    → (drop_root x s).heap ≡ shard_pop_from_heap (x ∷ heap)
unfolding drop_root
heap-drop_root x s heap e = ap shard_pop_from_heap e

pub heap-expire_root :
    (x : TimerEntry) (s : Shard) (heap : List TimerEntry)
    → s.heap ≡ x ∷ heap
    → (expire_root x s).heap ≡ shard_pop_from_heap (x ∷ heap)
unfolding expire_root
heap-expire_root x s heap e = ap shard_pop_from_heap e

-- One round of the loop, case by case.
module _ (fuel now : ℕ) (effect : TimerEntry → Shard → Shard) (s : Shard) where
  pub loop_empty : s.heap ≡ [] → process_loop (suc fuel) now effect s ≡ some ([], s)
  unfolding process_loop
  loop_empty e = ground arith

  module _ (x : TimerEntry) (heap : List TimerEntry) (e : s.heap ≡ x ∷ heap) where
    pub loop_late :
        leb x.deadline_us now ≡ false → process_loop (suc fuel) now effect s ≡ some ([], s)
    unfolding process_loop
    loop_late late = ground arith

    pub loop_cancelled :
        leb x.deadline_us now ≡ true
        → x.cancelled ≡ true
        → process_loop (suc fuel) now effect s ≡ process_loop fuel now effect (drop_root x s)
    unfolding process_loop
    loop_cancelled due off = ground arith

    pub loop_expired :
        leb x.deadline_us now ≡ true
        → x.cancelled ≡ false
        → process_loop (suc fuel) now effect s
          ≡ Option.map
              (λ r. (x ∷ r.0, r.1))
              (process_loop fuel now effect (effect x (expire_root x s)))
    unfolding process_loop
    loop_expired due on = ground arith

Ends-fired :
    (now : ℕ) (x : TimerEntry) (r : Option (List TimerEntry × Shard))
    → leb x.deadline_us now ≡ true
    → x.cancelled ≡ false
    → Ends now r
    → Ends now (Option.map (λ q. (x ∷ q.0, q.1)) r)
Ends-fired now x r due on t = record {
  fired = x ∷ t.fired;
  left = t.left;
  returns = ap (Option.map (λ q. (x ∷ q.0, q.1))) t.returns;
  ran = ((omega tests, on), t.ran);
  ordered = t.ordered;
  later = t.later;
}

Ends-late :
    (now : ℕ) (s : Shard) (heap : List TimerEntry)
    → s.heap ≡ heap
    → IsHeap heap
    → ((i : ℕ) → i < length heap → now < deadline_at heap i)
    → Ends now (some ([], s))
Ends-late now s heap e h l = record {
  fired = [];
  left = s;
  returns = refl;
  ran = tt;
  ordered = rw e h;
  later = rw e l;
}

process_loop-Ends :
    (fuel now : ℕ) (effect : TimerEntry → Shard → Shard) (s : Shard) (heap : List TimerEntry)
    → IsCalm now effect
    → s.heap ≡ heap
    → IsHeap heap
    → tally (is_due now) heap < fuel
    → Ends now (process_loop fuel now effect s)
process_loop-Ends zero now effect s heap c e h f = absurd (omega arith)
process_loop-Ends (suc fuel) now effect s [] c e h f =
    rw (loop_empty fuel now effect s e) (Ends-late now s [] e h (λ i p. absurd (omega arith)))
process_loop-Ends (suc fuel) now effect s (x ∷ heap) c e h f =
    elim (Bool-cases (leb x.deadline_us now)) [
      | inr late ↦
          rw (loop_late fuel now effect s x heap e late)
            (Ends-late now s (x ∷ heap) e h (none_due now x heap h late))
      | inl due ↦
          let popped = shard_pop_from_heap-IsHeap x heap h in
          let fewer = due_popped now x heap h due in
          elim (Bool-cases x.cancelled) [
            | inl off ↦ rw (loop_cancelled fuel now effect s x heap e due off) (
                process_loop-Ends fuel now effect (drop_root x s) _ c (heap-drop_root x s heap e)
                  popped.0 (omega arith))
            | inr on ↦
                let same = heap-expire_root x s heap e in
                let h' : IsHeap (expire_root x s).heap = rw same popped.0 in
                let f' : tally (is_due now) (expire_root x s).heap < fuel = rw same (omega arith) in
                rw (loop_expired fuel now effect s x heap e due on) (
                  Ends-fired now x _ due on (
                    process_loop-Ends fuel now effect (effect x (expire_root x s)) _ c refl
                      (c.ordered x (expire_root x s) h')
                      (omega (arith, c.bounded x (expire_root x s)))))
          ]
    ]

pub heap-refresh_deadline : (s : Shard) → (refresh_deadline s).heap ≡ s.heap
unfolding refresh_deadline
heap-refresh_deadline s = ground arith

-- next_deadline is the deadline of the root, when there is one.
abbrev pub IsFresh : Shard → Type 0
IsFresh s =
    (x : TimerEntry) (rest : List TimerEntry) → s.heap ≡ x ∷ rest → s.next_deadline ≡ x.deadline_us

refresh_deadline-IsFresh : (s : Shard) → IsFresh (refresh_deadline s)
unfolding refresh_deadline
refresh_deadline-IsFresh s x rest e = ground arith

-- A run on a heap ends when more rounds are allowed than timers are due: every callback that ran
-- was of a timer that was due and not cancelled, and what is left is a heap without a due timer,
-- with next_deadline up to date if the heap is not empty.
-- During the callbacks the shard may change in any way that keeps a heap and makes no timer due.
pub process_shard-Ends :
    (fuel now : ℕ) (effect : TimerEntry → Shard → Shard) (s : Shard)
    → IsCalm now effect
    → IsHeap s.heap
    → tally (is_due now) s.heap < fuel
    → (t : Ends now (process_shard fuel now effect s)) × IsFresh t.left
unfolding process_shard
process_shard-Ends fuel now effect s c h f =
    let t = process_loop-Ends fuel now effect s s.heap c refl h f in
    let same = heap-refresh_deadline t.left in
    (
      record {
        fired = t.fired;
        left = refresh_deadline t.left;
        returns = ap (Option.map (λ r. (r.0, refresh_deadline r.1))) t.returns;
        ran = t.ran;
        ordered = rw same t.ordered;
        later = rw same t.later;
      },
      refresh_deadline-IsFresh t.left,
    )
