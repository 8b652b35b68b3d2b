-- ===== src/Timer/Shard/Stale.antt =====
-- A shard whose last timers were cancelled keeps an outdated next_deadline.
use mathlib.Core.Option
use cothread.Prelude.{
  ℕ, zero, suc, ◌<◌, ◌≡◌, refl, ap, ◌∙◌, Bool, true, not, ◌&&◌, Option, some, List, [], ◌∷◌, arith,
  leb, tally,
}
use cothread.Timer.Heap.{TimerEntry, shard_pop_from_heap}
use cothread.Timer.Heap.Order.{IsHeap}
use cothread.Timer.Heap.Down.{shard_pop_from_heap-IsHeap}
use cothread.Timer.Shard.{Shard, drop_root, process_loop, refresh_deadline, process_shard}
use cothread.Timer.Shard.Process.{is_due, due_popped, heap-drop_root, loop_empty, loop_cancelled}

-- Entries that are not due, or not cancelled.
abbrev pub is_wanted : ℕ → TimerEntry → Bool
is_wanted now e = not (is_due now e && e.cancelled)

pub record Emptied (before : Shard) (r : Option (List TimerEntry × Shard)) : Type 0 where
  pub left : Shard
  pub returns : r ≡ some ([], left)
  pub empty : left.heap ≡ []
  pub stale : left.next_deadline ≡ before.next_deadline

next_deadline-drop_root :
    (x : TimerEntry) (s : Shard) → (drop_root x s).next_deadline ≡ s.next_deadline
unfolding drop_root
next_deadline-drop_root x s = refl

first_unwanted :
    (now : ℕ) (x : TimerEntry) (heap : List TimerEntry)
    → tally (is_wanted now) (x ∷ heap) ≡ 0
    → (leb x.deadline_us now ≡ true) × (x.cancelled ≡ true)
unfolding tally
first_unwanted now x heap e = ground arith

rest_unwanted :
    (now : ℕ) (x : TimerEntry) (heap : List TimerEntry)
    → IsHeap (x ∷ heap)
    → tally (is_wanted now) (x ∷ heap) ≡ 0
    → tally (is_wanted now) (shard_pop_from_heap (x ∷ heap)) ≡ 0
unfolding tally
rest_unwanted now x heap h e =
    ground (arith, (shard_pop_from_heap-IsHeap x heap h).1 (is_wanted now))

process_loop-Emptied :
    (fuel now : ℕ) (effect : TimerEntry → Shard → Shard) (s : Shard) (heap : List TimerEntry)
    → s.heap ≡ heap
    → IsHeap heap
    → tally (is_wanted now) heap ≡ 0
    → tally (is_due now) heap < fuel
    → Emptied s (process_loop fuel now effect s)
process_loop-Emptied zero now effect s heap e h w f = absurd (omega arith)
process_loop-Emptied (suc fuel) now effect s [] e h w f =
    rw (loop_empty fuel now effect s e)
      (record { left = s; returns = refl; empty = e; stale = refl })
process_loop-Emptied (suc fuel) now effect s (x ∷ heap) e h w f =
    let (due, off) = first_unwanted now x heap w in
    let fewer = due_popped now x heap h due in
    let t =
      process_loop-Emptied fuel now effect (drop_root x s) _ (heap-drop_root x s heap e)
        (shard_pop_from_heap-IsHeap x heap h).0 (rest_unwanted now x heap h w) (omega arith) in
    rw (loop_cancelled fuel now effect s x heap e due off) (record {
      left = t.left;
      returns = t.returns;
      empty = t.empty;
      stale = t.stale ∙ next_deadline-drop_root x s;
    })

-- If every timer of a shard is due and cancelled, ProcessShard empties the heap, runs nothing, and
-- leaves next_deadline at the value that it had: it is not set to INT64_MAX, and the shard goes on
-- looking due.
process_shard-stale :
    (fuel now : ℕ) (effect : TimerEntry → Shard → Shard) (s : Shard)
    → IsHeap s.heap
    → tally (is_wanted now) s.heap ≡ 0
    → tally (is_due now) s.heap < fuel
    → Emptied s (process_shard fuel now effect s)
unfolding process_shard refresh_deadline
process_shard-stale fuel now effect s h w f =
    let t = process_loop-Emptied fuel now effect s s.heap refl h w f in
    let same : refresh_deadline t.left ≡ t.left = ground (arith, t.empty) in
    record {
      left = t.left;
      returns =
          ap (Option.map (λ r. (r.0, refresh_deadline r.1))) t.returns
          ∙ ap (λ q. some ([], q)) same;
      empty = t.empty;
      stale = t.stale;
    }
