-- ===== src/Timer/Heap/Down.antt =====
-- Sifting down restores the heap order.
use cothread.Prelude.{
  ℕ, zero, suc, ◌+◌, ◌-◌, ◌*◌, ◌≤◌, ◌<◌, ◌≡◌, refl, ◌∙◌, ◌≢◌, ◌⊎◌, inl, inr, Bool, List, ◌∷◌, arith,
  ◌==◌, if◌then◌else◌, ==→ne, tests, Bool-cases, length, length-take, get_or, set, length-set,
  get_or-set, get_or-take, tally, tally-set, tally-take, length-swap, get_or-swap, tally-swap,
}
use cothread.Timer.Heap.{
  TimerEntry, null_entry, entry_at, deadline_at, swap_at, parent, smallest_of, sift_down_loop,
  shard_sift_down, move_last, shard_pop_from_heap,
}
use cothread.Timer.Heap.Order.{IsHeap, SameEntries, Spans}

-- Only the entry at `i` may be due after its children.
pub record LateAt (heap : List TimerEntry) (i : ℕ) : Type 0 where
  pub others :
      (c : ℕ)
      → 0 < c
      → c < length heap
      → parent c ≢ i
      → deadline_at heap (parent c) ≤ deadline_at heap c
  pub spans : Spans heap i

-- What the two tests of a round find: `i` itself, due no later than its children, or the child that
-- is due first, and before `i`.
record Chosen (heap : List TimerEntry) (i m : ℕ) : Type 0 where
  least : (c : ℕ) → 0 < c → c < length heap → parent c ≡ i → deadline_at heap m ≤ deadline_at heap c
  place :
      (m ≡ i)
      ⊎ ((m < length heap) × (parent m ≡ i) × (i < m) × (deadline_at heap m < deadline_at heap i))

smallest_of-Chosen : (heap : List TimerEntry) (i : ℕ) → Chosen heap i (smallest_of heap i)
unfolding smallest_of
smallest_of-Chosen heap i = record {
  least = λ c p q r. let side : (c ≡ 2 * i + 1) ⊎ (c ≡ 2 * i + 2) = omega arith in ground arith;
  place = ground arith;
}

swap-LateAt :
    (heap : List TimerEntry) (i m : ℕ)
    → LateAt heap i
    → Chosen heap i m
    → m < length heap
    → parent m ≡ i
    → i < m
    → deadline_at heap m < deadline_at heap i
    → LateAt (swap_at heap i m) m
swap-LateAt heap i m v s inside child after early =
    let size = length-swap heap i m null_entry in
    let at = λ (c : ℕ). get_or-swap heap i m c null_entry (omega arith) inside in
    record {
      others =
          λ c p q r. ground (arith, size, at c, at (parent c), v.others c, v.spans m, s.least c);
      spans = λ c p q r t. ground (arith, size, at c, at (parent m), v.others c);
    }

settled-IsHeap :
    (heap : List TimerEntry) (i : ℕ)
    → LateAt heap i
    → ((c : ℕ) → 0 < c → c < length heap → parent c ≡ i → deadline_at heap i ≤ deadline_at heap c)
    → IsHeap heap
settled-IsHeap heap i v e c p q = ground (arith, v.others c, e c)

swap-SameEntries :
    (heap : List TimerEntry) (i j : ℕ)
    → i < length heap
    → j < length heap
    → SameEntries (swap_at heap i j) heap
swap-SameEntries heap i j hi hj p = tally-swap p heap i j null_entry hi hj

sift_down_loop-IsHeap :
    (fuel : ℕ) (heap : List TimerEntry) (i : ℕ)
    → length heap ≤ fuel + i
    → LateAt heap i
    → IsHeap (sift_down_loop fuel heap i) × SameEntries (sift_down_loop fuel heap i) heap
unfolding sift_down_loop
sift_down_loop-IsHeap zero heap i f v =
    (settled-IsHeap heap i v (λ c p q r. absurd (omega arith)), λ p. refl)
sift_down_loop-IsHeap (suc fuel) heap i f v =
    let m = smallest_of heap i in
    let s = smallest_of-Chosen heap i in
    elim (Bool-cases (m == i)) [
      | inl stay ↦
          let same : m ≡ i = omega tests in
          rw stay (settled-IsHeap heap i v (λ c p q r. ground (arith, s.least c p q r)), λ p. refl)
      | inr move ↦ elim s.place [
        | inl same ↦ absurd (==→ne m i move same)
        | inr (inside, child, after, early) ↦
            let (heaped, same) =
              sift_down_loop-IsHeap fuel (swap_at heap i m) m
                (omega (arith, length-swap heap i m null_entry))
                (swap-LateAt heap i m v s inside child after early) in
            rw move (heaped, λ p. same p ∙ swap-SameEntries heap i m (omega arith) inside p)
      ]
    ]

module _ (heap : List TimerEntry) (n : ℕ) (filled : length heap ≡ suc n) where
  abbrev last : TimerEntry
  last = entry_at heap (length heap - 1)

  length-move_last : length (move_last heap) ≡ n
  length-move_last =
      omega (arith, length-take (length heap - 1) (set heap 0 last), length-set heap 0 last)

  at-move_last :
      (c : ℕ) → c < n → entry_at (move_last heap) c ≡ (if 0 == c then last else entry_at heap c)
  at-move_last c h =
      get_or-take (length heap - 1) (set heap 0 last) c null_entry (omega arith)
      ∙ get_or-set heap 0 c last null_entry (omega arith)

  move_last-LateAt : IsHeap heap → LateAt (move_last heap) 0
  move_last-LateAt h = record {
    others =
        λ c p q r. ground (arith, length-move_last, at-move_last c, at-move_last (parent c), h c);
    spans = λ c p q r s. absurd (omega arith);
  }

  move_last-tally :
      (p : TimerEntry → Bool)
      → tally p heap ≡ tally p (move_last heap) + (if p (entry_at heap 0) then 1 else 0)
  move_last-tally p =
      let size = length-set heap 0 last in
      let written = get_or-set heap 0 (length heap - 1) last null_entry (omega arith) in
      let cut = tally-take p (length heap - 1) (set heap 0 last) null_entry (omega (arith, size)) in
      let put = tally-set p heap 0 last null_entry (omega arith) in
      ground (arith, size, written, cut, put)

  down-IsHeap :
      IsHeap heap
      → IsHeap (sift_down_loop (length (move_last heap)) (move_last heap) 0)
        × SameEntries (sift_down_loop (length (move_last heap)) (move_last heap) 0) (move_last heap)
  down-IsHeap h =
      sift_down_loop-IsHeap (length (move_last heap)) (move_last heap) 0 (omega arith)
        (move_last-LateAt h)

-- Taking the root off a heap leaves a heap of the other timers.
pub shard_pop_from_heap-IsHeap :
    (x : TimerEntry) (heap : List TimerEntry)
    → IsHeap (x ∷ heap)
    → IsHeap (shard_pop_from_heap (x ∷ heap))
      × SameEntries (x ∷ shard_pop_from_heap (x ∷ heap)) (x ∷ heap)
unfolding shard_pop_from_heap shard_sift_down tally get_or
shard_pop_from_heap-IsHeap x heap h =
    let n = length heap in
    let (heaped, same) = down-IsHeap (x ∷ heap) n refl h in
    let taken = move_last-tally (x ∷ heap) n refl in
    elim (Bool-cases (length (move_last (x ∷ heap)) == 0)) [
      | inl bare ↦ rw bare ((λ c p q. absurd (omega tests)), λ p. omega (arith, taken p))
      | inr more ↦ rw more (heaped, λ p. omega (arith, same p, taken p))
    ]
