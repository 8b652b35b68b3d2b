-- ===== src/Timer/Heap/Order.antt =====
-- The heap order, and that the root is earliest.
use cothread.Prelude.{ℕ, zero, suc, ◌≤◌, ◌<◌, ◌≡◌, Bool, List, arith, length, tally}
use cothread.Timer.Heap.{TimerEntry, deadline_at, parent}

-- No entry is due before its parent.
abbrev pub IsHeap : List TimerEntry → Type 0
IsHeap heap = (c : ℕ) → 0 < c → c < length heap → deadline_at heap (parent c) ≤ deadline_at heap c

-- The two vectors hold the same entries, as often.
abbrev pub SameEntries : List TimerEntry → List TimerEntry → Type 0
SameEntries a b = (p : TimerEntry → Bool) → tally p a ≡ tally p b

-- Every entry past `i` has its grandparent in order, whatever stands at `i` itself.
abbrev pub Spans : List TimerEntry → ℕ → Type 0
Spans heap i =
    (c : ℕ)
    → 0 < c
    → c < length heap
    → parent c ≡ i
    → 0 < i
    → deadline_at heap (parent i) ≤ deadline_at heap c

root_below :
    (k : ℕ) (heap : List TimerEntry) (i : ℕ)
    → IsHeap heap
    → i < k
    → i < length heap
    → deadline_at heap 0 ≤ deadline_at heap i
root_below zero heap i h f p = absurd (omega arith)
root_below (suc k) heap zero h f p = omega arith
root_below (suc k) heap (suc i) h f p = omega (
  arith,
  h (suc i) (omega arith) p,
  root_below k heap (parent (suc i)) h (omega arith) (omega arith),
)

pub root_earliest :
    (heap : List TimerEntry) (i : ℕ)
    → IsHeap heap
    → i < length heap
    → deadline_at heap 0 ≤ deadline_at heap i
root_earliest heap i h p = root_below (suc i) heap i h (omega arith) p
