-- ===== src/Memory.antt =====
-- The simulated memory that the simulators stand on (simplesim-3.0/memory.h), as an interface:
-- a memory space, `MEM_READ_WORD` and `MEM_WRITE_WORD`, and what a client relies on, at aligned
-- 32-bit addresses only.
pub mod Table
use computer_architecture.Base.{ℕ, ◌%◌, ◌^◌, ◌<◌, ◌≡◌, ◌≢◌}

-- An address of a word: 32 bits, a multiple of four.
abbrev pub IsAligned : ℕ → Type 0
IsAligned a = (a < 2 ^ 32) × (a % 4 ≡ 0)

pub record Memory (Space : Type 0) : Type 0 where
  pub read_word : Space → ℕ → ℕ
  pub write_word : Space → ℕ → ℕ → Space
  pub read-lt : (s : Space) (a : ℕ) → read_word s a < 2 ^ 32
  pub read-write_self :
      (s : Space) (a v : ℕ) → IsAligned a → v < 2 ^ 32 → read_word (write_word s a v) a ≡ v
  pub read-write_ne :
      (s : Space) (a b v : ℕ)
      → IsAligned a
      → IsAligned b
      → a ≢ b
      → read_word (write_word s a v) b ≡ read_word s b
