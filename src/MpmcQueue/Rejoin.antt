-- ===== src/MpmcQueue/Rejoin.antt =====
-- An item that joins again while it is still linked.
use cothread.Prelude.{ℕ, suc, ◌≡◌, ◌≢◌, true, none, some, List, ◌∷◌, arith, update}
use cothread.MpscQueue.Fifo.{last_of, last_of-ne}
use cothread.MpmcQueue.{
  MpmcQueue, take_tail, link_tail, add_to_tail, got, drained, pop_from_head, claim, unlink_last,
}
use cothread.MpmcQueue.Deque.{Links}

abbrev rejoined : MpmcQueue → ℕ → ℕ → MpmcQueue
rejoined q item l = record (take_tail item q) {
  next = update (update q.next item none) l (some item);
}

rejoin :
    (q : MpmcQueue) (item l : ℕ)
    → q.tail ≡ some l
    → add_to_tail true true item q ≡ rejoined q item l
unfolding add_to_tail take_tail link_tail
rejoin q item l e = ground arith

pop_rejoined :
    (fuel : ℕ) (q : MpmcQueue) (item l : ℕ)
    → q.head ≡ some item
    → l ≢ item
    → pop_from_head (suc fuel) (rejoined q item l)
      ≡ got item (unlink_last item (claim item (rejoined q item l)))
unfolding pop_from_head take_tail
pop_rejoined fuel q item l h ne = ground arith

pop_again :
    (fuel : ℕ) (q : MpmcQueue) (item l : ℕ)
    → pop_from_head (suc fuel) (unlink_last item (claim item (rejoined q item l)))
      ≡ drained (unlink_last item (claim item (rejoined q item l)))
unfolding pop_from_head unlink_last claim take_tail
pop_again fuel q item l = ground arith

-- The first item was removed, and is linked still. When it joins again behind other items, it is cut
-- off from them: the next pop gives that item, and the queue is empty from then on, so that the
-- items that waited behind it are never popped.
add_to_tail-loses_others :
    (fuel : ℕ) (q : MpmcQueue) (item x : ℕ) (xs : List ℕ)
    → Links q (item ∷ x ∷ xs)
    → (after : MpmcQueue) × (pop_from_head (suc fuel) (add_to_tail true true item q)
        ≡ got item after)
      × (pop_from_head (suc fuel) after ≡ drained after)
add_to_tail-loses_others fuel q item x xs k =
    let l = last_of x xs in
    let ne : l ≢ item = last_of-ne item x xs k.distinct.0 in
    rw (rejoin q item l k.ends) (
      unlink_last item (claim item (rejoined q item l)),
      pop_rejoined fuel q item l k.chain.0 ne,
      pop_again fuel q item l,
    )
