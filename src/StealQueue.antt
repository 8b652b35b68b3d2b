-- ===== src/StealQueue.antt =====
-- include/bthread/queue/work_stealing_queue.hpp and src/bthread/queue/work_stealing_queue.cpp: the ring
-- of a worker's tasks. The words of head and tail pack a version above a 32-bit index. Here each
-- operation runs by itself, but for the forms of pop and steal that go on from the words they loaded.
pub mod Ring
pub mod Owner
pub mod Overlap
use cothread.Prelude.{
  ℕ, zero, suc, ◌+◌, ◌-◌, ◌*◌, ◌/◌, ◌%◌, ◌^◌, Bool, Option, none, some, List, [], ◌∷◌, ◌==◌,
  if◌then◌else◌, update, u32,
}

abbrev pub capacity : ℕ
capacity = 1024

pub record StealQueue : Type 0 where
  pub buffer : ℕ → Option ℕ
  pub head : ℕ
  pub tail : ℕ

unfoldable pub extract_index : ℕ → ℕ
extract_index v = v % 2 ^ 32

unfoldable pub extract_version : ℕ → ℕ
extract_version v = v / 2 ^ 32 % 2 ^ 32

-- `ver << 32 | idx` for two uint32_t, whose bits do not meet.
unfoldable pub make_val : ℕ → ℕ → ℕ
make_val ver idx = u32 ver * 2 ^ 32 + idx

-- The word after `v` with the index `idx`.
abbrev pub bump : ℕ → ℕ → ℕ
bump v idx = make_val (extract_version v + 1) idx

unfoldable pub init : StealQueue
init = record { buffer = λ _. none; head = 0; tail = 0 }

unfoldable pub push : ℕ → StealQueue → StealQueue
push task q =
    let idx : ℕ = extract_index q.tail in
    record q { buffer = update q.buffer idx (some task); tail = bump q.tail ((idx + 1) % capacity) }

-- The owner takes the newest task; the last one it claims through head.
unfoldable pub pop : StealQueue → Option ℕ × StealQueue
pop q =
    let h : ℕ = extract_index q.head in
    let idx : ℕ = (extract_index q.tail + capacity - 1) % capacity in
    if h == extract_index q.tail
    then (none, q)
    else if idx == h
    then (
      q.buffer idx,
      record q {
        head = bump q.head ((idx + 1) % capacity);
        tail = bump q.tail ((idx + 1) % capacity);
      },
    )
    else (q.buffer idx, record q { tail = bump q.tail idx })

-- One attempt: no other thread moves head, so the compare-exchange succeeds.
unfoldable pub steal : StealQueue → Option ℕ × StealQueue
steal q =
    let idx : ℕ = extract_index q.head in
    if idx == extract_index q.tail
    then (none, q)
    else (q.buffer idx, record q { head = bump q.head ((idx + 1) % capacity) })

-- The owner's pop from its two loads on: `h` and `t` are the words that it loaded, `q` is the queue at its
-- compare-exchange or store.
unfoldable pub pop_loaded : ℕ → ℕ → StealQueue → Option ℕ × StealQueue
pop_loaded h t q =
    let idx : ℕ = (extract_index t + capacity - 1) % capacity in
    if extract_index h == extract_index t
    then (none, q)
    else if idx == extract_index h
    then if q.head == h
      then (
        q.buffer idx,
        record q { head = bump h ((idx + 1) % capacity); tail = bump t ((idx + 1) % capacity) },
      )
      else (none, q)
    else (q.buffer idx, record q { tail = bump t idx })

-- One attempt of a thief from its two loads on; none when its compare-exchange fails.
unfoldable pub steal_loaded : ℕ → ℕ → StealQueue → Option ℕ × StealQueue
steal_loaded h t q =
    let idx : ℕ = extract_index h in
    if idx == extract_index t
    then (none, q)
    else if q.head == h
    then (q.buffer idx, record q { head = bump h ((idx + 1) % capacity) })
    else (none, q)

unfoldable pub is_empty : StealQueue → Bool
is_empty q = extract_index q.head == extract_index q.tail

-- The tasks written to the buffer: at most `k`, up to the first pop that gives none.
unfoldable pub pop_multiple : ℕ → StealQueue → List ℕ × StealQueue
pop_multiple zero q = ([], q)
pop_multiple (suc k) q =
    let (popped, q') = pop q in
    elim popped [
      | none ↦ ([], q')
      | some task ↦ let (rest, q'') = pop_multiple k q' in (task ∷ rest, q'')
    ]
