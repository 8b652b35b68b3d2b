-- ===== src/MpscQueue.antt =====
-- include/bthread/queue/mpsc_queue.hpp: the intrusive queue. An item is its address, and `next` is the
-- link field that the policy picks; tail_ is the oldest item and head_ the newest. Each operation
-- runs by itself; the spins of Pop wait for a push that has not linked its item yet.
pub mod Fifo
use cothread.Prelude.{
  ℕ, zero, suc, Bool, true, false, Option, none, some, List, [], ◌∷◌, ◌==◌, if◌then◌else◌, update,
}

pub record MpscQueue : Type 0 where
  pub head : Option ℕ
  pub tail : Option ℕ
  pub next : ℕ → Option ℕ

unfoldable pub init : (ℕ → Option ℕ) → MpscQueue
init next = record { head = none; tail = none; next = next }

-- The item becomes the newest; it is linked behind the one before it, or set as the oldest.
unfoldable pub push : ℕ → MpscQueue → MpscQueue
push item q =
    let cleared = update q.next item none in
    elim q.head [
      | none ↦ record q { head = some item; tail = some item; next = cleared }
      | some prev ↦ record q { head = some item; next = update cleared prev (some item) }
    ]

-- The item taken; an empty queue; or a wait for the push that replaced head_.
pub data Popped : Type 0 where
  got : ℕ → MpscQueue → Popped
  empty : Popped
  spins : Popped

abbrev pub is_last : ℕ → Option ℕ → Bool
is_last t none = false
is_last t (some h) = t == h

unfoldable pub pop : MpscQueue → Popped
pop q = elim q.tail [
  | none ↦ empty
  | some t ↦ elim (q.next t) [
    | some n ↦ got t (record q { tail = some n; next = update q.next t none })
    | none ↦
        if is_last t q.head
        then got t (record q { head = none; tail = none; next = update q.next t none })
        else spins
  ]
]

unfoldable pub is_empty : MpscQueue → Bool
is_empty q = elim q.tail [ none ↦ true | some t ↦ false ]

-- The items written to the buffer, at most `k`; `none` if a pop spins.
unfoldable pub pop_multiple : ℕ → MpscQueue → Option (List ℕ × MpscQueue)
pop_multiple zero q = some ([], q)
pop_multiple (suc k) q = elim (pop q) [
  | got item q' ↦ elim (pop_multiple k q') [
    | none ↦ none
    | some (rest, q'') ↦ some (item ∷ rest, q'')
  ]
  | empty ↦ some ([], q)
  | spins ↦ none
]
