-- ===== src/Common/Words.antt =====
-- Unsigned words of C and the tests of their bits.
mod Bits
pub use Bits.{bit_and_mask}
use Prim.Native.Nat.{ℕ, ◌+◌, ◌-◌, ◌%◌, ◌^◌, bit_and}
use mathlib.Core.Bool.{Bool, not}
use package.amdhardware_kernel.Common.Tests.{◌==◌}

abbrev pub u32 : ℕ → ℕ
u32 n = n % 2 ^ 32

abbrev pub u64 : ℕ → ℕ
u64 n = n % 2 ^ 64

-- `a - b` of two 32-bit words.
abbrev pub sub32 : ℕ → ℕ → ℕ
sub32 a b = (a + 2 ^ 32 - b) % 2 ^ 32

abbrev pub all_ones : ℕ
all_ones = 2 ^ 32 - 1

-- `~m` of a 32-bit word.
abbrev pub not32 : ℕ → ℕ
not32 m = all_ones - m

-- `w & m` as a condition.
abbrev pub flag : ℕ → ℕ → Bool
flag w m = not (bit_and w m == 0)

-- `a - b` of two 64-bit words.
abbrev pub sub64 : ℕ → ℕ → ℕ
sub64 a b = (a + 2 ^ 64 - b) % 2 ^ 64

-- The kernel's `PAGE_SIZE`.
abbrev pub page_size : ℕ
page_size = 4096
