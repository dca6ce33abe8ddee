-- ===== src/Loader/Predecode.antt =====
-- The predecoding of the text segment at the end of `ld_load_prog` of Project1/part2/loader.c.
use computer_architecture.Base.{ℕ, zero, suc, ◌+◌, ◌-◌, ◌%◌, ◌^◌, ◌++◌, true, false, ltb}
use computer_architecture.Base.Word.{u32}
use computer_architecture.Loader.Bytes.{ByteMemory, word_bytes, word_at}

module _ {Space : Type 0} (B : ByteMemory Space) (md_mask2op : ℕ → ℕ) where
  -- `(inst.a & ~0xff) | MD_OP_ENUM(MD_OPFIELD(inst))`; the table has numbers below 256.
  abbrev pub decoded_word : ℕ → ℕ
  decoded_word a = a - a % 2 ^ 8 + md_mask2op (a % 2 ^ 8) % 2 ^ 8

  -- The accesses are aligned, so that neither fails.
  unfoldable pub predecode_inst : ℕ → Space → Space
  predecode_inst addr s =
      B.write_bytes s addr
        (word_bytes (decoded_word (word_at B s addr)) ++ word_bytes (word_at B s (addr + 4)))

  -- The loop, for at most `fuel` rounds.
  unfoldable pub predecode : ℕ → ℕ → ℕ → Space → Space
  unfolding predecode_inst
  predecode zero addr end s = s
  predecode (suc fuel) addr end s = elim (ltb addr end) [
    | true ↦ predecode fuel (u32 (addr + 8)) end (predecode_inst addr s)
    | false ↦ s
  ]
