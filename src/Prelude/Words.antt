-- ===== src/Prelude/Words.antt =====
-- Fixed-width integers: the wrap-around of unsigned counters, and `int` counters as bit patterns.
use Prim.Native.Nat.{ℕ, ◌-◌, ◌%◌, ◌^◌}
use mathlib.Core.Option.{Option, none, some}
use cothread.Prelude.Tests.{ltb, ◌==◌, if◌then◌else◌}

abbrev pub u32 : ℕ → ℕ
u32 n = n % 2 ^ 32

abbrev pub u64 : ℕ → ℕ
u64 n = n % 2 ^ 64

-- `p % n` of an `int` with the bit pattern `p`, as an array index. A pattern from 2^31 on is
-- negative, and so is its remainder, unless that is 0; a negative index is `none`.
abbrev pub int_rem : ℕ → ℕ → Option ℕ
int_rem p n =
    if ltb p (2 ^ 31) then some (p % n) else if (2 ^ 32 - p) % n == 0 then some 0 else none
