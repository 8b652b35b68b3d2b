-- ===== src/Timer/Heap.antt =====
-- The timers' binary heap, src/bthread/detail/timer_thread.cpp: the static functions on a shard's vector,
-- and those on the member heap_. A vector is a list; an index that the loops read is always inside, so
-- the entry that an outside read would give never shows.
pub mod Order
pub mod Up
pub mod Down
use mathlib.Core.Option
use cothread.Prelude.{
  ℕ, zero, suc, ◌+◌, ◌-◌, ◌*◌, ◌/◌, Bool, false, ◌&&◌, Option, none, some, List, [], ◌∷◌, ◌++◌, map,
  ltb, leb, ◌==◌, if◌then◌else◌, length, take, get_or, set, swap,
}

-- Times are microseconds that are not negative, below 2^63. `addr` is the entry's address.
pub record TimerEntry : Type 0 where
  pub addr : ℕ
  pub callback : ℕ
  pub arg : ℕ
  pub deadline_us : ℕ
  pub id : ℕ
  pub cancelled : Bool

abbrev pub null_entry : TimerEntry
null_entry = record { addr = 0; callback = 0; arg = 0; deadline_us = 0; id = 0; cancelled = false }

abbrev pub entry_at : List TimerEntry → ℕ → TimerEntry
entry_at heap i = get_or heap i null_entry

abbrev pub deadline_at : List TimerEntry → ℕ → ℕ
deadline_at heap i = (entry_at heap i).deadline_us

abbrev pub swap_at : List TimerEntry → ℕ → ℕ → List TimerEntry
swap_at heap i j = swap heap i j null_entry

abbrev pub parent : ℕ → ℕ
parent i = (i - 1) / 2

-- The loop of `ShardSiftUp`; the fuel is the index, which falls in each round.
pub sift_up_loop : ℕ → List TimerEntry → ℕ → List TimerEntry
sift_up_loop zero heap idx = heap
sift_up_loop (suc fuel) heap idx =
    let rest = sift_up_loop fuel (swap_at heap idx (parent idx)) (parent idx) in
    if idx == 0
    then heap
    else if leb (deadline_at heap (parent idx)) (deadline_at heap idx)
    then heap
    else rest

unfoldable pub shard_sift_up : List TimerEntry → ℕ → List TimerEntry
shard_sift_up heap idx = sift_up_loop idx heap idx

-- The index with the earliest deadline among `idx` and its two children.
unfoldable pub smallest_of : List TimerEntry → ℕ → ℕ
smallest_of heap idx =
    let n : ℕ = length heap in
    let left : ℕ = 2 * idx + 1 in
    let right : ℕ = 2 * idx + 2 in
    let first : ℕ =
      if ltb left n && ltb (deadline_at heap left) (deadline_at heap idx) then left else idx in
    if ltb right n && ltb (deadline_at heap right) (deadline_at heap first) then right else first

-- The loop of `ShardSiftDown`; the index grows below the vector's length, which is the fuel.
pub sift_down_loop : ℕ → List TimerEntry → ℕ → List TimerEntry
sift_down_loop zero heap idx = heap
sift_down_loop (suc fuel) heap idx =
    let smallest : ℕ = smallest_of heap idx in
    let rest = sift_down_loop fuel (swap_at heap idx smallest) smallest in
    if smallest == idx then heap else rest

unfoldable pub shard_sift_down : List TimerEntry → ℕ → List TimerEntry
shard_sift_down heap idx = sift_down_loop (length heap) heap idx

-- `push_back`, then sift up from the last index.
unfoldable pub push_entry : TimerEntry → List TimerEntry → List TimerEntry
push_entry entry heap = let grown = heap ++ entry ∷ [] in shard_sift_up grown (length grown - 1)

-- `heap[0] = heap.back(); heap.pop_back();`
abbrev pub move_last : List TimerEntry → List TimerEntry
move_last heap = take (length heap - 1) (set heap 0 (entry_at heap (length heap - 1)))

unfoldable pub shard_pop_from_heap : List TimerEntry → List TimerEntry
shard_pop_from_heap [] = []
shard_pop_from_heap (x ∷ heap) =
    let moved = move_last (x ∷ heap) in if length moved == 0 then moved else shard_sift_down moved 0

-- `SiftUp`, `SiftDown` and `AddToHeap` on heap_: the same text over the member.
unfoldable pub sift_up : List TimerEntry → ℕ → List TimerEntry
sift_up heap idx = sift_up_loop idx heap idx

unfoldable pub sift_down : List TimerEntry → ℕ → List TimerEntry
sift_down heap idx = sift_down_loop (length heap) heap idx

unfoldable pub add_to_heap : TimerEntry → List TimerEntry → List TimerEntry
add_to_heap entry heap = let grown = heap ++ entry ∷ [] in sift_up grown (length grown - 1)

-- The entry taken, or null, and the heap left.
unfoldable pub pop_from_heap : List TimerEntry → Option TimerEntry × List TimerEntry
pop_from_heap [] = (none, [])
pop_from_heap (x ∷ heap) =
    let moved = move_last (x ∷ heap) in
    (some x, if length moved == 0 then moved else sift_down moved 0)

-- The place of the first entry with the address.
unfoldable pub find_entry : ℕ → List TimerEntry → Option ℕ
find_entry addr [] = none
find_entry addr (e ∷ heap) =
    let rest = Option.map suc (find_entry addr heap) in if e.addr == addr then some 0 else rest

-- `RemoveFromHeap`; `none` is a read outside the vector.
unfoldable pub remove_from_heap : ℕ → List TimerEntry → Option (List TimerEntry)
remove_from_heap addr heap = elim (find_entry addr heap) [
  | none ↦ some heap
  | some idx ↦
      let left = take (length heap - 1) (set heap idx (entry_at heap (length heap - 1))) in
      if idx == 0
      then some (sift_down left 0)
      else if leb (length left) idx
      then none
      else if ltb (deadline_at left idx) (deadline_at left (parent idx))
      then some (sift_up left idx)
      else some (sift_down left idx)
]
