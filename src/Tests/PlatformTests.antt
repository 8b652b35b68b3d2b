-- ===== src/Tests/PlatformTests.antt =====
-- A stack of 8192 bytes in a region at 65536.
use cothread.Prelude.{ℕ, ◌+◌, ◌%◌, ◌≤◌, ◌≡◌, refl, some, [], ◌∷◌, arith}
use cothread.Platform.{Memory, page_size, allocate_stack, deallocate_stack}
use cothread.Platform.Stacks.{room, allocate_stack-Fits, allocate_stack-deallocate_stack}

abbrev memory : Memory
memory = record {
  headers = λ _. record { base_ptr = 0; total_size = 0; requested_size = 0 };
  regions = [];
  guards = [];
}

allocate_stack-Fits_example :
    (top : ℕ) × (mem' : Memory) × (allocate_stack (some 65536) 8192 memory ≡ (some top, mem'))
    × (mem'.guards ≡ 69632 ∷ [])
    × (top % 16 ≡ 0)
    × (65536 + page_size + page_size + 8192 ≤ top)
    × (top ≤ 65536 + room 8192)
allocate_stack-Fits_example = allocate_stack-Fits 65536 8192 memory (refl, omega arith, omega arith)

allocate_stack-deallocate_stack_example :
    let r = allocate_stack (some 65536) 8192 memory in
    deallocate_stack r.0 8192 r.1 ≡ some (65536, room 8192)
allocate_stack-deallocate_stack_example =
    allocate_stack-deallocate_stack 65536 8192 memory (refl, omega arith, omega arith)
