-- ===== src/Timer/Heap/Up.antt =====
-- Sifting up restores the heap order.
use cothread.Prelude.{
  ℕ, zero, suc, ◌-◌, ◌≤◌, ◌<◌, refl, ◌∙◌, ◌≢◌, inl, inr, List, [], ◌∷◌, ◌++◌, arith, leb, ◌==◌,
  tests, Bool-cases, length, length-append, get_or-append, tally, tally-append, length-swap,
  get_or-swap, tally-swap,
}
use cothread.Timer.Heap.{
  TimerEntry, null_entry, deadline_at, swap_at, parent, sift_up_loop, shard_sift_up, push_entry,
}
use cothread.Timer.Heap.Order.{IsHeap, SameEntries, Spans}

-- Only the entry at `i` may be due before its parent.
pub record EarlyAt (heap : List TimerEntry) (i : ℕ) : Type 0 where
  pub inside : i < length heap
  pub others :
      (c : ℕ) → 0 < c → c < length heap → c ≢ i → deadline_at heap (parent c) ≤ deadline_at heap c
  pub spans : Spans heap i

swap-EarlyAt :
    (heap : List TimerEntry) (i : ℕ)
    → EarlyAt heap i
    → 0 < i
    → deadline_at heap i < deadline_at heap (parent i)
    → EarlyAt (swap_at heap i (parent i)) (parent i)
swap-EarlyAt heap i v pos lt =
    let size = length-swap heap i (parent i) null_entry in
    let at =
      λ (c : ℕ). get_or-swap heap i (parent i) c null_entry v.inside (omega (arith, v.inside)) in
    record {
      inside = omega (arith, size, v.inside);
      others = λ c p q r. ground (arith, size, at c, at (parent c), v.others c, v.spans c);
      spans = λ c p q r s.
          ground (arith, size, at c, at (parent (parent i)), v.others c, v.others (parent i));
    }

swap-SameEntries :
    (heap : List TimerEntry) (i j : ℕ)
    → i < length heap
    → j < length heap
    → SameEntries (swap_at heap i j) heap
swap-SameEntries heap i j hi hj p = tally-swap p heap i j null_entry hi hj

settled-IsHeap :
    (heap : List TimerEntry) (i : ℕ)
    → EarlyAt heap i
    → (0 < i → deadline_at heap (parent i) ≤ deadline_at heap i)
    → IsHeap heap
settled-IsHeap heap i v e c p q = ground (arith, v.others c)

sift_up_loop-IsHeap :
    (fuel : ℕ) (heap : List TimerEntry) (i : ℕ)
    → i ≤ fuel
    → EarlyAt heap i
    → IsHeap (sift_up_loop fuel heap i) × SameEntries (sift_up_loop fuel heap i) heap
unfolding sift_up_loop
sift_up_loop-IsHeap zero heap i f v =
    (settled-IsHeap heap i v (λ p. absurd (omega arith)), λ p. refl)
sift_up_loop-IsHeap (suc fuel) heap i f v = elim (Bool-cases (i == 0)) [
  | inl root ↦ rw root (settled-IsHeap heap i v (λ p. absurd (omega tests)), λ p. refl)
  | inr below ↦ elim (Bool-cases (leb (deadline_at heap (parent i)) (deadline_at heap i))) [
    | inl fine ↦ rw (below, fine) (settled-IsHeap heap i v (λ p. omega tests), λ p. refl)
    | inr early ↦
        let pos : i ≢ 0 = omega tests in
        let (heaped, same) =
          sift_up_loop-IsHeap fuel (swap_at heap i (parent i)) (parent i) (omega arith)
            (swap-EarlyAt heap i v (omega arith) (omega tests)) in
        rw (below, early)
          (
            heaped,
            λ p. same p ∙ swap-SameEntries heap i (parent i) v.inside (omega (arith, v.inside)) p,
          )
  ]
]

grown-EarlyAt :
    (heap : List TimerEntry) (entry : TimerEntry)
    → IsHeap heap
    → EarlyAt (heap ++ entry ∷ []) (length (heap ++ entry ∷ []) - 1)
grown-EarlyAt heap entry h =
    let size = length-append heap (entry ∷ []) in
    let at = λ (c : ℕ). get_or-append heap entry c null_entry in
    record {
      inside = omega (arith, size);
      others = λ c p q r. ground (arith, size, at c, at (parent c), h c);
      spans = λ c p q r s. absurd (omega (arith, size));
    }

-- Adding a timer to a heap gives a heap of the old timers and the new one.
pub push_entry-IsHeap :
    (entry : TimerEntry) (heap : List TimerEntry)
    → IsHeap heap
    → IsHeap (push_entry entry heap) × SameEntries (push_entry entry heap) (entry ∷ heap)
unfolding push_entry shard_sift_up tally
push_entry-IsHeap entry heap h =
    let grown = heap ++ entry ∷ [] in
    let (heaped, same) =
      sift_up_loop-IsHeap (length grown - 1) grown (length grown - 1) (omega arith)
        (grown-EarlyAt heap entry h) in
    (heaped, λ p. omega (arith, same p, tally-append p heap (entry ∷ [])))
