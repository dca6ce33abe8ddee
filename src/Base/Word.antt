-- ===== src/Base/Word.antt =====
-- 32-bit machine words as native numbers: a word is the bit pattern, and arithmetic wraps.
use Prim.Native.Nat.{ℕ, ◌+◌, ◌-◌, ◌/◌, ◌%◌, ◌^◌}
use mathlib.Core.Bool.{Bool}
use computer_architecture.Base.Tests.{ltb, if◌then◌else◌}

-- The value that a 32-bit variable keeps.
abbrev pub u32 : ℕ → ℕ
u32 n = n % 2 ^ 32

-- `-` on ℕ stops at 0, so the modulus is added first.
abbrev pub sub32 : ℕ → ℕ → ℕ
sub32 a b = (a + 2 ^ 32 - b) % 2 ^ 32

-- Bit `k` of a word, as 0 or 1.
abbrev pub bit : ℕ → ℕ → ℕ
bit w k = w / 2 ^ k % 2

-- `(int)(short)(w & 0xffff)`: the low half, sign-extended to 32 bits.
abbrev pub sign_extend : ℕ → ℕ
sign_extend w = if ltb (w % 2 ^ 16) (2 ^ 15) then w % 2 ^ 16 else w % 2 ^ 16 + (2 ^ 32 - 2 ^ 16)

-- `a < b` on `int`: the patterns compare after the sign bit is flipped.
abbrev pub slt : ℕ → ℕ → Bool
slt a b = ltb ((a + 2 ^ 31) % 2 ^ 32) ((b + 2 ^ 31) % 2 ^ 32)
