-- ===== src/MpmcQueue.antt =====
-- include/bthread/queue/mpmc_queue.hpp: the queue of a butex's waiters. An item is its address, `next`
-- and `claimed` are the fields of its node. Each operation runs by itself; what another thread can do
-- in between shows where an operation loads is_waiting more than once: the loads' results are arguments.
-- A null is_waiting counts as one that is set.
pub mod Deque
pub mod Pop
pub mod Rejoin
use cothread.Prelude.{
  ℕ, zero, suc, Bool, true, false, not, Option, none, some, List, [], ◌∷◌, ◌==◌, if◌then◌else◌,
  update,
}

pub record MpmcQueue : Type 0 where
  pub head : Option ℕ
  pub tail : Option ℕ
  pub next : ℕ → Option ℕ
  pub claimed : ℕ → Bool

abbrev pub points_to : ℕ → Option ℕ → Bool
points_to h none = false
points_to h (some t) = h == t

-- The item at the far end, before it is linked.
unfoldable pub take_tail : ℕ → MpmcQueue → MpmcQueue
take_tail item q = record q {
  tail = some item;
  next = update q.next item none;
  claimed = update q.claimed item false;
}

unfoldable pub link_tail : ℕ → Option ℕ → MpmcQueue → MpmcQueue
link_tail item (some prev) q = record q { next = update q.next prev (some item) }
link_tail item none q = elim q.head [ none ↦ record q { head = some item } | some h ↦ q ]

unfoldable pub claim : ℕ → MpmcQueue → MpmcQueue
claim item q = record q { claimed = update q.claimed item true }

-- `before` and `after` are what is_waiting holds before and after the exchange of tail_.
unfoldable pub add_to_tail : Bool → Bool → ℕ → MpmcQueue → MpmcQueue
add_to_tail before after item q =
    if before
    then if after then link_tail item q.tail (take_tail item q) else claim item (take_tail item q)
    else q

-- The same for head_; `direct` is the test of the task's state, after which a claimed item stays first.
unfoldable pub add_to_head : Bool → Bool → Bool → ℕ → MpmcQueue → MpmcQueue
add_to_head before after direct item q =
    let linked = record q { next = update q.next item q.head } in
    let first = record linked { head = some item } in
    if not before
    then q
    else if not after
    then claim item (if direct then first else linked)
    else elim q.head [
      | some h ↦ first
      | none ↦ elim q.tail [ none ↦ record first { tail = some item } | some t ↦ first ]
    ]

-- An item, or none with the queue as it is left, or a loop that only another thread can end.
pub data Popped : Type 0 where
  got : ℕ → MpmcQueue → Popped
  drained : MpmcQueue → Popped
  spins : Popped

-- The last item is out: head_ and tail_ are cleared.
unfoldable pub unlink_last : ℕ → MpmcQueue → MpmcQueue
unlink_last h q = record q { head = none; tail = if points_to h q.tail then none else q.tail }

-- The loop of `PopFromHead`; it spins when the fuel is out.
unfoldable pub pop_from_head : ℕ → MpmcQueue → Popped
pop_from_head zero q = spins
pop_from_head (suc fuel) q = elim q.head [
  | none ↦ elim q.tail [ none ↦ drained q | some t ↦ spins ]
  | some h ↦
      if q.claimed h
      then elim (q.next h) [
        | some n ↦ pop_from_head fuel (record q { head = some n })
        | none ↦
            let rest = pop_from_head fuel (unlink_last h q) in
            if points_to h q.tail then rest else spins
      ]
      else elim (q.next h) [
        | some n ↦ got h (record (claim h q) { head = some n })
        | none ↦ got h (unlink_last h (claim h q))
      ]
]

-- The items written to the buffer, at most `k`; `none` when a pop spins.
unfoldable pub pop_multiple_from_head : ℕ → ℕ → MpmcQueue → Option (List ℕ × MpmcQueue)
pop_multiple_from_head fuel zero q = some ([], q)
pop_multiple_from_head fuel (suc k) q = elim (pop_from_head fuel q) [
  | got item q' ↦ elim (pop_multiple_from_head fuel k q') [
    | none ↦ none
    | some (rest, q'') ↦ some (item ∷ rest, q'')
  ]
  | drained q' ↦ some ([], q')
  | spins ↦ none
]

-- `Remove`, for an item whose is_waiting holds `waiting`: the mark after it, and the queue.
unfoldable pub remove : Bool → ℕ → MpmcQueue → Bool × MpmcQueue
remove waiting item q = if waiting then (false, claim item q) else (waiting, q)

unfoldable pub is_empty : MpmcQueue → Bool
is_empty q = elim q.head [ none ↦ true | some h ↦ false ]
