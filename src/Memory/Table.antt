-- ===== src/Memory/Table.antt =====
-- A memory space that meets the interface: a table of words.
use computer_architecture.Base.{ℕ, ◌^◌, ◌<◌, ◌≡◌, ◌≢◌, arith, update}
use computer_architecture.Base.Word.{u32}
use computer_architecture.Memory.{Memory, IsAligned}

pub table_self : (s : ℕ → ℕ) (a v : ℕ) → IsAligned a → v < 2 ^ 32 → u32 (update s a v a) ≡ v
table_self s a v h small = ground arith

pub table_ne :
    (s : ℕ → ℕ) (a b v : ℕ) → IsAligned a → IsAligned b → a ≢ b → u32 (update s a v b) ≡ u32 (s b)
table_ne s a b v ha hb ne = ground arith

pub table_lt : (s : ℕ → ℕ) (a : ℕ) → u32 (s a) < 2 ^ 32
table_lt s a = omega arith

abbrev pub table : Memory (ℕ → ℕ)
table = record {
  read_word = λ s a. u32 (s a);
  write_word = update;
  read-lt = table_lt;
  read-write_self = table_self;
  read-write_ne = table_ne;
}
