-- ===== src/Platform.antt =====
-- The stacks and the futex results of src/platform/platform_linux.cpp, and the stacks of
-- src/platform/platform_windows.cpp. Addresses and sizes are numbers below 2^64; what the system call maps
-- is an argument, as is what memory reads as at an address that no header was written to.
pub mod Stacks
use cothread.Prelude.{
  ℕ, ◌+◌, ◌-◌, ◌*◌, ◌%◌, ◌^◌, ◌&&◌, ◌||◌, Option, none, some, List, ◌∷◌, ◌==◌, if◌then◌else◌,
  update, u64,
}

abbrev pub page_size : ℕ
page_size = 4096

-- `x & ~(k - 1)`, for a power of two k.
abbrev pub align_down : ℕ → ℕ → ℕ
align_down k x = x - x % k

pub record StackHeader : Type 0 where
  pub base_ptr : ℕ
  pub total_size : ℕ
  pub requested_size : ℕ

-- `regions` are the mapped regions, with their sizes, and `guards` the pages without access.
pub record Memory : Type 0 where
  pub headers : ℕ → StackHeader
  pub regions : List (ℕ × ℕ)
  pub guards : List ℕ

abbrev pub total_of : ℕ → ℕ
total_of size = u64 (page_size + page_size + size + 16)

-- `AllocateStack`, where mmap gives the address, or fails.
unfoldable pub allocate_stack : Option ℕ → ℕ → Memory → Option ℕ × Memory
allocate_stack none size mem = (none, mem)
allocate_stack (some ptr) size mem =
    let total : ℕ = total_of size in
    (
      some (align_down 16 (u64 (ptr + total))),
      record {
        headers =
            update mem.headers ptr
              (record { base_ptr = ptr; total_size = total; requested_size = size });
        regions = (ptr, total) ∷ mem.regions;
        guards = (ptr + page_size) ∷ mem.guards;
      },
    )

-- Where `DeallocateStack` looks for the header; subtraction is that of a size_t.
unfoldable pub header_page_of : ℕ → ℕ → ℕ
header_page_of stack_top size =
    u64
      (align_down page_size (u64 (stack_top + 2 * 2 ^ 64 - size - page_size)) + 2 ^ 64 - page_size)

-- The region that `DeallocateStack` unmaps, none for a null pointer.
unfoldable pub deallocate_stack : Option ℕ → ℕ → Memory → Option (ℕ × ℕ)
deallocate_stack none size mem = none
deallocate_stack (some stack_top) size mem =
    let page : ℕ = header_page_of stack_top size in
    let header = mem.headers page in
    if header.requested_size == size && header.base_ptr == page
    then some (header.base_ptr, header.total_size)
    else some (page, total_of size)

abbrev pub stack_guard_pages : ℕ
stack_guard_pages = 2

-- The same on Windows, where VirtualAlloc gives the address; VirtualFree frees what was given at exactly the
-- address that it is called with.
unfoldable pub allocate_stack_windows : Option ℕ → ℕ → Option ℕ
allocate_stack_windows none size = none
allocate_stack_windows (some ptr) size =
    some (align_down 16 (u64 (ptr + u64 (size + page_size * stack_guard_pages))))

unfoldable pub freed_windows : ℕ → ℕ → ℕ
freed_windows stack_top size = u64 (stack_top + 2 ^ 64 - u64 (size + page_size * stack_guard_pages))

-- What FutexWait returns, for what the system call returned: done, or failed with an error number.
pub data FutexReturn : Type 0 where
  woken : FutexReturn
  failed : ℕ → FutexReturn

abbrev pub eintr : ℕ
eintr = 4

abbrev pub eagain : ℕ
eagain = 11

unfoldable pub futex_wait_result : FutexReturn → ℕ
futex_wait_result woken = 0
futex_wait_result (failed err) = if err == eagain || err == eintr then 0 else err
