-- ===== src/Loader/Stack.antt =====
-- The arguments and the environment on the stack of the program, `ld_load_prog` of
-- Project1/part2/loader.c from `write [argc] to stack` on.
use computer_architecture.Base.{ℕ, ◌+◌, ◌*◌, List, [], ◌∷◌, ◌++◌, length}
use computer_architecture.Base.Word.{u32}
use computer_architecture.Loader.Bytes.{ByteMemory, word_bytes}

-- `strlen` and the characters of a string, without its end.
abbrev pub Text : Type 0
Text = List ℕ

module _ {Space : Type 0} (B : ByteMemory Space) where
  open B use {write_bytes}

  -- The loop over `argv`, and the one over `envp`, with the null pointer after it: the pointer array
  -- is at `table` and the text at `sp`. On this host `MD_SWAPW` changes nothing.
  unfoldable pub fill_texts : List Text → ℕ → ℕ → Space → ℕ × Space
  fill_texts [] table sp s = (sp, write_bytes s table (word_bytes 0))
  fill_texts (text ∷ texts) table sp s =
      fill_texts texts (u32 (table + 4)) (u32 (sp + (length text + 1)))
        (write_bytes (write_bytes s table (word_bytes sp)) sp (text ++ 0 ∷ []))

  -- `sp` behind the stack, and the memory.
  unfoldable pub build_stack : List Text → List Text → ℕ → Space → ℕ × Space
  unfolding fill_texts
  build_stack argv envp sp s =
      let s' = write_bytes s sp (word_bytes (u32 (length argv))) in
      let argv_addr = u32 (sp + 4) in
      let envp_addr = u32 (argv_addr + (length argv + 1) * 4) in
      let texts = u32 (u32 (envp_addr + length envp * 4) + 4) in
      let (sp', s'') = fill_texts argv argv_addr texts s' in fill_texts envp envp_addr sp' s''
