-- ===== src/StealQueue/Owner.antt =====
-- The queue, one operation at a time, is a double-ended queue of at most 1023 tasks: the owner works
-- at the newest end, a thief takes the oldest.
use mathlib.Core.List.{reverse, reverse-cons, reverse-reverse}
use cothread.Prelude.{
  ℕ, zero, suc, ◌+◌, ◌-◌, ◌%◌, ◌<◌, ◌≡◌, refl, ap, ◌∙◌, ◌≢◌, ◌↔◌, true, none, some, List, [], ◌∷◌,
  ◌++◌, arith, length, take, drop, length-append, update_self,
}
use cothread.StealQueue.{
  StealQueue, capacity, extract_index, bump, push, pop, steal, is_empty, pop_multiple,
}
use cothread.StealQueue.Ring.{Holds, index-bump, Window-update, Window-append, Window-append_inv}

-- A push onto fewer than 1023 tasks adds the task at the newest end.
pub push-Holds :
    (q : StealQueue) (xs : List ℕ) (task : ℕ)
    → Holds q xs
    → suc (length xs) < capacity
    → Holds (push task q) (xs ++ task ∷ [])
unfolding push
push-Holds q xs task v r = record {
  inside = v.inside;
  ends =
      rw (index-bump q.tail (extract_index q.tail + 1), v.ends)
        (omega (arith, length-append xs (task ∷ [])));
  room = omega (arith, length-append xs (task ∷ []));
  window = rw v.ends (
      Window-append _ (extract_index q.head) xs task v.inside (update_self q.buffer _ (some task)) (
        Window-update q.buffer (extract_index q.head) (length xs) (some task) xs v.inside
          (omega arith) (omega arith) v.window));
}

-- `Push` has no test for a full ring: the 1024th task makes the indices equal, and the queue then
-- holds nothing.
push-full :
    (q : StealQueue) (xs : List ℕ) (task : ℕ)
    → Holds q xs
    → suc (length xs) ≡ capacity
    → Holds (push task q) []
unfolding push
push-full q xs task v r = record {
  inside = v.inside;
  ends = rw (index-bump q.tail (extract_index q.tail + 1), v.ends) (omega arith);
  room = omega arith;
  window = tt;
}

-- The owner finds nothing in an empty queue.
pop-none : (q : StealQueue) → Holds q [] → pop q ≡ (none, q)
unfolding pop
pop-none q v = ground (arith, v.ends)

-- The cell that the owner reads.
abbrev pub newest : StealQueue → ℕ
newest q = (extract_index q.tail + capacity - 1) % capacity

pop_last :
    (q : StealQueue)
    → extract_index q.head ≢ extract_index q.tail
    → newest q ≡ extract_index q.head
    → pop q ≡ (
      q.buffer (newest q),
      record q {
        head = bump q.head ((newest q + 1) % capacity);
        tail = bump q.tail ((newest q + 1) % capacity);
      },
    )
unfolding pop
pop_last q h e = ground arith

pop_more :
    (q : StealQueue)
    → extract_index q.head ≢ extract_index q.tail
    → newest q ≢ extract_index q.head
    → pop q ≡ (q.buffer (newest q), record q { tail = bump q.tail (newest q) })
unfolding pop
pop_more q h e = ground arith

pub newest_lem :
    (q : StealQueue) (xs : List ℕ) (x : ℕ)
    → Holds q (xs ++ x ∷ [])
    → (newest q ≡ (extract_index q.head + length xs) % capacity)
      × (extract_index q.head ≢ extract_index q.tail)
      × (length xs + 1 < capacity)
newest_lem q xs x v =
    let size = length-append xs (x ∷ []) in
    let ends = v.ends in (omega (arith, size), omega (arith, size), omega (arith, size))

-- The owner's pop takes the newest task, and leaves the others in order.
pub pop-some :
    (q : StealQueue) (xs : List ℕ) (x : ℕ)
    → Holds q (xs ++ x ∷ [])
    → ((pop q).0 ≡ some x) × Holds (pop q).1 xs
pop-some q [] x v =
    let at = newest_lem q [] x v in
    rw (pop_last q at.1 (omega (arith, v.inside))) (
      ap q.buffer (omega (arith, v.inside)) ∙ v.window.0,
      record {
        inside = rw (index-bump q.head (newest q + 1)) (omega arith);
        ends =
            rw (index-bump q.head (newest q + 1), index-bump q.tail (newest q + 1)) (omega arith);
        room = omega arith;
        window = tt;
      },
    )
pop-some q (y ∷ ys) x v =
    let at = newest_lem q (y ∷ ys) x v in
    let read = Window-append_inv q.buffer (extract_index q.head) (y ∷ ys) x v.inside v.window in
    rw (pop_more q at.1 (omega (arith, v.inside))) (
      ap q.buffer at.0 ∙ read.0,
      record {
        inside = v.inside;
        ends = index-bump q.tail (extract_index q.tail + capacity - 1) ∙ at.0;
        room = omega arith;
        window = read.1;
      },
    )

-- A thief finds nothing in an empty queue.
steal-none : (q : StealQueue) → Holds q [] → steal q ≡ (none, q)
unfolding steal
steal-none q v = ground (arith, v.ends)

pub steal_more :
    (q : StealQueue)
    → extract_index q.head ≢ extract_index q.tail
    → steal q ≡ (
      q.buffer (extract_index q.head),
      record q { head = bump q.head ((extract_index q.head + 1) % capacity) },
    )
unfolding steal
steal_more q h = ground arith

-- A thief takes the oldest task, and leaves the others in order.
pub steal-some :
    (q : StealQueue) (xs : List ℕ) (x : ℕ)
    → Holds q (x ∷ xs)
    → ((steal q).0 ≡ some x) × Holds (steal q).1 xs
steal-some q xs x v = rw (steal_more q (omega (arith, v.ends, v.room))) (
  v.window.0,
  record {
    inside = rw (index-bump q.head (extract_index q.head + 1)) (omega arith);
    ends = rw (index-bump q.head (extract_index q.head + 1)) (omega (arith, v.ends));
    room = omega (arith, v.room);
    window = rw (index-bump q.head (extract_index q.head + 1)) (v.window.1);
  },
)

-- The test for an empty queue is exact when no other thread works on the queue.
pub is_empty_iff : (q : StealQueue) (xs : List ℕ) → Holds q xs → (is_empty q ≡ true) ↔ (xs ≡ [])
unfolding is_empty
is_empty_iff q [] v = ground (arith, v.ends)
is_empty_iff q (x ∷ xs) v = ground (arith, v.ends, v.room)

pub pop_multiple-reverse :
    (k : ℕ) (q : StealQueue) (zs : List ℕ)
    → Holds q (reverse zs)
    → ((pop_multiple k q).0 ≡ take k zs) × Holds (pop_multiple k q).1 (reverse (drop k zs))
unfolding pop_multiple
pop_multiple-reverse zero q zs v = (refl, v)
pop_multiple-reverse (suc k) q [] v = rw (pop-none q v, pop_multiple) (refl, rw (pop-none q v) v)
pop_multiple-reverse (suc k) q (z ∷ zs) v =
    let one = pop-some q (reverse zs) z (rw (reverse-cons z zs) at v) in
    let ih = pop_multiple-reverse k (pop q).1 zs one.1 in
    rw (one.0, pop_multiple) (ap (◌∷◌ z) ih.0, ih.1)

-- A batch of `k` pops takes the `k` newest tasks, newest first, and leaves the others in order.
pop_multiple-Holds :
    (k : ℕ) (q : StealQueue) (xs : List ℕ)
    → Holds q xs
    → ((pop_multiple k q).0 ≡ take k (reverse xs))
      × Holds (pop_multiple k q).1 (reverse (drop k (reverse xs)))
pop_multiple-Holds k q xs v = pop_multiple-reverse k q (reverse xs) (rw (reverse-reverse xs) v)
