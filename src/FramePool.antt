-- ===== src/FramePool.antt =====
-- src/coro/frame_pool.cpp and include/coro/frame_pool.h: blocks of one size for coroutine frames, free
-- ones linked through their first word. A block is its address; `malloc` stands for the allocator, which
-- answers the n-th call. Every operation holds the pool's mutex.
pub mod Blocks
use cothread.Prelude.{
  ℕ, zero, suc, ◌||◌, Option, none, some, List, [], ◌∷◌, ◌++◌, ltb, ◌==◌, if◌then◌else◌, update,
}

-- `calls` counts the calls of malloc.
pub record FramePool : Type 0 where
  pub block_size : ℕ
  pub allocated_blocks : List ℕ
  pub free_list : Option ℕ
  pub next : ℕ → Option ℕ
  pub calls : ℕ

abbrev pub new_frame_pool : FramePool
new_frame_pool = record {
  block_size = 0;
  allocated_blocks = [];
  free_list = none;
  next = λ _. none;
  calls = 0;
}

-- sizeof(FreeNode), one pointer.
abbrev pub free_node_size : ℕ
free_node_size = 8

-- `none` is the null pointer.
unfoldable pub deallocate : Option ℕ → FramePool → FramePool
deallocate none p = p
deallocate (some block) p = record p {
  free_list = some block;
  next = update p.next block p.free_list;
}

-- A block from malloc, which is recorded.
unfoldable pub expand : (ℕ → Option ℕ) → FramePool → Option ℕ × FramePool
expand malloc p = elim (malloc p.calls) [
  | none ↦ (none, record p { calls = suc p.calls })
  | some block ↦ (
    some block,
    record p { calls = suc p.calls; allocated_blocks = p.allocated_blocks ++ block ∷ [] },
  )
]

-- The blocks that Init makes, one by one; one that malloc refuses is left out.
unfoldable pub fill_pool : (ℕ → Option ℕ) → ℕ → FramePool → FramePool
fill_pool malloc zero p = p
fill_pool malloc (suc k) p =
    let (block, p') = expand malloc p in fill_pool malloc k (deallocate block p')

unfoldable pub init : (ℕ → Option ℕ) → ℕ → ℕ → FramePool → FramePool
init malloc block_size initial_count p =
    fill_pool malloc initial_count (record p {
      block_size = if ltb block_size free_node_size then free_node_size else block_size;
    })

-- `none` sends the caller to the heap.
unfoldable pub allocate : (ℕ → Option ℕ) → ℕ → FramePool → Option ℕ × FramePool
allocate malloc size p =
    if ltb p.block_size size || p.block_size == 0 then (none, p) else elim p.free_list [
      | none ↦ expand malloc p
      | some block ↦ (some block, record p { free_list = p.next block })
    ]
