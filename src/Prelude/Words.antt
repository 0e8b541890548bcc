-- ===== src/Prelude/Words.antt =====
-- Shifts, wraps and bit tests of machine words as arithmetic.
use Prim.Native.Nat.{ℕ, ◌*◌, ◌/◌, ◌%◌, ◌^◌, bit_and}
use mathlib.Core.Bool.{Bool, not}
use snek_os.Prelude.Tests.{◌==◌}

-- `x >> k`
abbrev pub shr : ℕ → ℕ → ℕ
shr x k = x / 2 ^ k

-- `x << k`, before any cut to a width
abbrev pub shl : ℕ → ℕ → ℕ
shl x k = x * 2 ^ k

-- the wrap of a word of 8, 16, 32 and 64 bits
abbrev pub u8 : ℕ → ℕ
u8 x = x % 256

abbrev pub u16 : ℕ → ℕ
u16 x = x % 65536

abbrev pub u32 : ℕ → ℕ
u32 x = x % 4294967296

abbrev pub u64 : ℕ → ℕ
u64 x = x % 2 ^ 64

-- `x & m != 0`
abbrev pub has : ℕ → ℕ → Bool
has x m = not (bit_and x m == 0)
