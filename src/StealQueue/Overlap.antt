-- ===== src/StealQueue/Overlap.antt =====
-- Thieves between the loads of an operation and its compare-exchange or store.
use cothread.Prelude.{
  ℕ, ◌+◌, ◌-◌, ◌%◌, ◌≡◌, ap, ◌∙◌, ◌≢◌, false, none, some, List, [], ◌∷◌, ◌++◌, arith, ne→==, length,
}
use cothread.StealQueue.{
  StealQueue, capacity, extract_index, bump, pop, steal, pop_loaded, steal_loaded, is_empty,
}
use cothread.StealQueue.Ring.{Holds, index-bump, Window-append_inv}
use cothread.StealQueue.Owner.{newest, newest_lem, steal_more, steal-some}

-- With nothing in between these are the operations themselves.
pop_loaded-pop : (q : StealQueue) → pop_loaded q.head q.tail q ≡ pop q
unfolding pop_loaded pop
pop_loaded-pop q = ground arith

steal_loaded-steal : (q : StealQueue) → steal_loaded q.head q.tail q ≡ steal q
unfolding steal_loaded steal
steal_loaded-steal q = ground arith

loaded_last :
    (h t : ℕ) (q : StealQueue)
    → extract_index h ≢ extract_index t
    → (extract_index t + capacity - 1) % capacity ≡ extract_index h
    → q.head ≢ h
    → pop_loaded h t q ≡ (none, q)
unfolding pop_loaded
loaded_last h t q a b c = ground arith

loaded_more :
    (h t : ℕ) (q : StealQueue)
    → extract_index h ≢ extract_index t
    → (extract_index t + capacity - 1) % capacity ≢ extract_index h
    → pop_loaded h t q ≡ (
      q.buffer ((extract_index t + capacity - 1) % capacity),
      record q { tail = bump t ((extract_index t + capacity - 1) % capacity) },
    )
unfolding pop_loaded
loaded_more h t q a b = ground arith

-- The head word after a steal.
head-steal :
    (q : StealQueue) (x : ℕ) (xs : List ℕ)
    → Holds q (x ∷ xs)
    → steal q ≡ (
      q.buffer (extract_index q.head),
      record q { head = bump q.head ((extract_index q.head + 1) % capacity) },
    )
head-steal q x xs v = steal_more q (omega (arith, v.ends, v.room))

-- When a thief takes the only task after the owner's pop has loaded head and tail, the pop gives none:
-- the task is taken once.
pop_loaded-leaves_last :
    (q : StealQueue) (x : ℕ)
    → Holds q (x ∷ [])
    → ((steal q).0 ≡ some x) × (pop_loaded q.head q.tail (steal q).1 ≡ (none, (steal q).1))
pop_loaded-leaves_last q x v =
    let at = newest_lem q [] x v in
    let moved : extract_index (bump q.head ((extract_index q.head + 1) % capacity))
        ≢ extract_index q.head =
      rw (index-bump q.head (extract_index q.head + 1)) (omega (arith, v.inside)) in
    (
      (steal-some q [] x v).0,
      loaded_last q.head q.tail (steal q).1 at.1 (omega (arith, v.inside, at.0))
          (rw (head-steal q x [] v) (λ e. moved (ap extract_index e))),
    )

-- When a thief takes the oldest of two or more tasks after the owner's pop has loaded head and tail, the
-- pop takes the newest, and the tasks between them stay.
pop_loaded-shares :
    (q : StealQueue) (x z : ℕ) (xs : List ℕ)
    → Holds q (x ∷ xs ++ z ∷ [])
    → ((steal q).0 ≡ some x)
      × ((pop_loaded q.head q.tail (steal q).1).0 ≡ some z)
      × Holds (pop_loaded q.head q.tail (steal q).1).1 xs
pop_loaded-shares q x z xs v =
    let at = newest_lem q (x ∷ xs) z v in
    let stolen = steal-some q (xs ++ z ∷ []) x v in
    let s = (steal q).1 in
    let head_word = ap (λ r. r.1.head) (head-steal q x (xs ++ z ∷ []) v) in
    let head_index : extract_index s.head ≡ (extract_index q.head + 1) % capacity =
      ap extract_index head_word ∙ index-bump q.head (extract_index q.head + 1) in
    let read =
      Window-append_inv s.buffer (extract_index s.head) xs z stolen.1.inside stolen.1.window in
    let cell : newest q ≡ (extract_index s.head + length xs) % capacity =
      omega (arith, at.0, head_index) in
    rw (loaded_more q.head q.tail s at.1 (omega (arith, v.inside, at.0, at.2))) (
      stolen.0,
      ap s.buffer cell ∙ read.0,
      record {
        inside = stolen.1.inside;
        ends = index-bump q.tail (extract_index q.tail + capacity - 1) ∙ cell;
        room = omega (arith, at.2);
        window = read.1;
      },
    )

-- When thieves take both of two tasks after the owner's pop has loaded head and tail, the pop gives the
-- second one again: it is taken twice, and the ring, which has no task left, does not read as empty.
pub pop_loaded-takes_twice :
    (q : StealQueue) (x z : ℕ)
    → Holds q (x ∷ z ∷ [])
    → let after = pop_loaded q.head q.tail (steal (steal q).1).1 in
      ((steal (steal q).1).0 ≡ some z) × (after.0 ≡ some z) × (is_empty after.1 ≡ false)
unfolding is_empty
pop_loaded-takes_twice q x z v =
    let at = newest_lem q (x ∷ []) z v in
    let first = steal-some q (z ∷ []) x v in
    let s = (steal q).1 in
    let second = steal-some s [] z first.1 in
    let one = head-steal q x (z ∷ []) v in
    let two = head-steal s z [] first.1 in
    let i : extract_index s.head ≡ (extract_index q.head + 1) % capacity =
      ap (λ r. extract_index r.1.head) one ∙ index-bump q.head (extract_index q.head + 1) in
    let j : extract_index (steal s).1.head ≡ (extract_index s.head + 1) % capacity =
      ap (λ r. extract_index r.1.head) two ∙ index-bump s.head (extract_index s.head + 1) in
    let k = index-bump q.tail (extract_index q.tail + capacity - 1) in
    let cell : newest q ≡ extract_index s.head = omega (arith, at.0, i) in
    rw (loaded_more q.head q.tail (steal s).1 at.1 (omega (arith, v.inside, at.0))) (
      second.0,
      ap (λ r. r.1.buffer (newest q)) two ∙ ap s.buffer cell ∙ first.1.window.0,
      ne→== (extract_index (steal s).1.head) (extract_index (bump q.tail (newest q)))
          (omega (arith, i, j, k, cell, v.inside)),
    )
