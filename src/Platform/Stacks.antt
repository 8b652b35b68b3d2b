-- ===== src/Platform/Stacks.antt =====
-- That a stack has the room that was asked for, and is given back whole.
use cothread.Prelude.{
  ℕ, ◌+◌, ◌*◌, ◌%◌, ◌^◌, ◌≤◌, ◌<◌, ◌≡◌, refl, ap, ◌∙◌, ◌↔◌, some, ◌∷◌, arith, update, update_self,
  u64,
}
use cothread.Platform.{
  page_size, align_down, Memory, total_of, allocate_stack, header_page_of, deallocate_stack,
  stack_guard_pages, allocate_stack_windows, freed_windows,
}

-- What the system promises of a region that it maps.
abbrev pub Mapped : ℕ → ℕ → Type 0
Mapped ptr total = (ptr % page_size ≡ 0) × (0 < ptr) × (ptr + total < 2 ^ 64)

abbrev pub room : ℕ → ℕ
room size = page_size + page_size + size + 16

header_page_of_top :
    (ptr size : ℕ)
    → Mapped ptr (room size)
    → header_page_of (align_down 16 (ptr + room size)) size ≡ ptr
unfolding header_page_of
header_page_of_top ptr size h = omega arith

total_of_lem : (size : ℕ) → room size < 2 ^ 64 → total_of size ≡ room size
total_of_lem size h = omega arith

-- The memory after an allocation.
abbrev after : ℕ → ℕ → Memory → Memory
after ptr size mem = record {
  headers =
      update mem.headers ptr
        (record { base_ptr = ptr; total_size = room size; requested_size = size });
  regions = (ptr, room size) ∷ mem.regions;
  guards = (ptr + page_size) ∷ mem.guards;
}

allocate_stack_lem :
    (ptr size : ℕ) (mem : Memory)
    → Mapped ptr (room size)
    → allocate_stack (some ptr) size mem
      ≡ (some (align_down 16 (ptr + room size)), after ptr size mem)
unfolding allocate_stack
allocate_stack_lem ptr size mem h =
    let t = total_of_lem size (omega arith) in
    let w : u64 (ptr + room size) ≡ ptr + room size = omega arith in
    rw (t, allocate_stack) (ap (λ x. (some (align_down 16 x), after ptr size mem)) w)

-- A stack is aligned to 16 bytes at its top, and has the size that was asked for, or more, between its top
-- and the page without access, which is the second page of the region.
pub allocate_stack-Fits :
    (ptr size : ℕ) (mem : Memory)
    → Mapped ptr (room size)
    → (top : ℕ) × (mem' : Memory) × (allocate_stack (some ptr) size mem ≡ (some top, mem'))
      × (mem'.guards ≡ (ptr + page_size) ∷ mem.guards)
      × (top % 16 ≡ 0)
      × (ptr + page_size + page_size + size ≤ top)
      × (top ≤ ptr + room size)
allocate_stack-Fits ptr size mem h = (
  align_down 16 (ptr + room size),
  after ptr size mem,
  allocate_stack_lem ptr size mem h,
  refl,
  omega arith,
  omega arith,
  omega arith,
)

deallocate_stack_lem :
    (top ptr size total : ℕ) (mem : Memory)
    → header_page_of top size ≡ ptr
    → mem.headers ptr ≡ record { base_ptr = ptr; total_size = total; requested_size = size }
    → deallocate_stack (some top) size mem ≡ some (ptr, total)
unfolding deallocate_stack
deallocate_stack_lem top ptr size total mem p e = rw (p, deallocate_stack) (rw e (ground arith))

-- A stack that is given back with the size that it was asked for is unmapped whole, and nothing else is.
pub allocate_stack-deallocate_stack :
    (ptr size : ℕ) (mem : Memory)
    → Mapped ptr (room size)
    → let r = allocate_stack (some ptr) size mem in
      deallocate_stack r.0 size r.1 ≡ some (ptr, room size)
allocate_stack-deallocate_stack ptr size mem h =
    ap (λ r. deallocate_stack r.0 size r.1) (allocate_stack_lem ptr size mem h)
    ∙ deallocate_stack_lem (align_down 16 (ptr + room size)) ptr size (room size)
        (after ptr size mem) (header_page_of_top ptr size h) (update_self mem.headers ptr _)

-- On Windows a stack is freed at the address where it was given only if its size is a multiple of 16; for
-- any other size VirtualFree is called with another address.
freed_windows-exact :
    (ptr size : ℕ)
    → Mapped ptr (size + page_size * stack_guard_pages)
    → (top : ℕ) × (allocate_stack_windows (some ptr) size ≡ some top)
      × ((freed_windows top size ≡ ptr) ↔ (size % 16 ≡ 0))
unfolding allocate_stack_windows freed_windows
freed_windows-exact ptr size h =
    let total = size + page_size * stack_guard_pages in
    let t : u64 total ≡ total = omega arith in
    let w : u64 (ptr + total) ≡ ptr + total = omega arith in
    (
      align_down 16 (ptr + total),
      ap (λ x. some (align_down 16 (u64 (ptr + x)))) t ∙ ap (λ x. some (align_down 16 x)) w,
      ((λ e. omega (arith, e)), (λ e. omega (arith, e))),
    )
