-- ===== src/Loader/Finish.antt =====
-- How a load ends: the checks of the segments, the registers, and the arguments in the final memory.
use computer_architecture.Base.{
  ℕ, ◌+◌, ◌*◌, ◌/◌, ◌%◌, ◌^◌, ◌≤◌, ◌<◌, ◌≡◌, ◌≢◌, refl, subst, ap, ◌∙◌, ◌||◌, not, List, length,
  All, true, false, leb, ◌==◌, update, arith,
}
use computer_architecture.Base.Word.{u32}
use computer_architecture.Loader.Bytes.{ByteMemory, word_at}
use computer_architecture.Loader.File.{
  ok, fatal, ◌>>◌, require, missing_text, no_entry, host_endian, environment_overflow,
}
use computer_architecture.Loader.Stack.{Text, build_stack}
use computer_architecture.Loader.Predecode.{predecode}
use computer_architecture.Loader.Args.{build_stack_lem}
use computer_architecture.Loader.Texts.{
  IsText, size_texts, TextsAt, Same, TextsAt-Same, word_at-Same,
}
use computer_architecture.Loader.Decoded.{predecode_lem}
use computer_architecture.Loader.Sections.{require-ok, ok-injective}
use computer_architecture.Loader.Program.{Program, Host, finish_load, round_up, page_size, reg_sp}

-- The bytes of the frame: the number of the arguments, both arrays and all texts.
abbrev pub size_frame : List Text → List Text → ℕ
size_frame argv envp = 12 + length argv * 4 + length envp * 4 + size_texts argv + size_texts envp

module _ {Space : Type 0} (B : ByteMemory Space) (md_mask2op : ℕ → ℕ) (host : Host)
    (argv envp : List Text) where
  -- The state that a load ends with when nothing is fatal.
  abbrev pub finished : Program Space → Program Space
  finished p =
      let g = p.segments in
      record {
        segments = record g {
          ld_brk_point = round_up (u32 (g.ld_data_base + g.ld_data_size)) page_size;
          ld_stack_min = p.regs reg_sp;
        };
        regs = update p.regs reg_sp g.ld_environ_base;
        pc = g.ld_prog_entry;
        mem =
            predecode B md_mask2op (g.ld_text_size / 8 + 1) g.ld_text_base
              (u32 (g.ld_text_base + g.ld_text_size))
              (build_stack B argv envp g.ld_environ_base p.mem).1;
      }

  pub finish_load-ok :
      (p q : Program Space)
      → finish_load B md_mask2op host argv envp p ≡ ok q
      → (p.segments.ld_text_size ≢ 0)
        × (p.segments.ld_prog_entry ≢ 0)
        × ((build_stack B argv envp p.segments.ld_environ_base p.mem).0 ≤ p.segments.ld_stack_base)
        × (finished p ≡ q)
  unfolding finish_load
  finish_load-ok p q done =
      let one =
        require-ok (not (p.segments.ld_text_base == 0 || p.segments.ld_text_size == 0)) missing_text
          _ q done in
      let two = require-ok (not (p.segments.ld_prog_entry == 0)) no_entry _ q one.1 in
      let three =
        require-ok (not (host.swap_bytes p.segments.ld_target_big_endian)) host_endian _ q two.1 in
      let four =
        require-ok (not (host.swap_words p.segments.ld_target_big_endian)) host_endian _ q
          three.1 in
      let five =
        require-ok
          (leb (build_stack B argv envp p.segments.ld_environ_base p.mem).0
            p.segments.ld_stack_base)
          environment_overflow _ q four.1 in
      (
        ground (arith, one.0),
        ground (arith, two.0),
        ground (arith, five.0),
        ok-injective p _ _ five.1,
      )

  -- A load that finishes, for a text segment whose predecoding stays below the stack and below
  -- 2 ^ 32: the program begins at the entry point of the file, which is not 0; the frame begins at
  -- the stack pointer, lies below the base of the stack and still holds the number of the arguments,
  -- the arguments and the environment after the text was predecoded; and the heap begins at a page.
  pub finish_load_lem :
      (p q : Program Space)
      → All IsText argv
      → All IsText envp
      → p.segments.ld_environ_base + size_frame argv envp < 2 ^ 32
      → p.segments.ld_text_base + p.segments.ld_text_size + 7 ≤ p.segments.ld_environ_base
      → finish_load B md_mask2op host argv envp p ≡ ok q
      → let sp = q.regs reg_sp in
        let envp_addr = sp + 8 + length argv * 4 in
        let texts = envp_addr + 4 + length envp * 4 in
        (q.pc ≡ q.segments.ld_prog_entry)
        × (q.pc ≢ 0)
        × (sp + size_frame argv envp ≤ q.segments.ld_stack_base)
        × (word_at B q.mem sp ≡ length argv)
        × TextsAt B q.mem (sp + 4) texts argv
        × TextsAt B q.mem envp_addr (texts + size_texts argv) envp
        × (q.segments.ld_brk_point % page_size ≡ 0)
  finish_load_lem p q ha he frame below done =
      let (no_text, entry, room, e) = finish_load-ok p q done in
      let g = p.segments in
      let sp = g.ld_environ_base in
      let stack = build_stack B argv envp sp p.mem in
      let (count, args, environ, end, before, behind) =
        build_stack_lem B argv envp sp p.mem ha he (omega arith) in
      let text_end = u32 (g.ld_text_base + g.ld_text_size) in
      let decoded =
        predecode_lem B md_mask2op (g.ld_text_size / 8 + 1) g.ld_text_base text_end stack.1
          (omega arith) (omega arith) in
      let kept : Same B stack.1 (finished p).mem sp (sp + size_frame argv envp) =
        λ b low high. decoded.1 b (omega arith) (λ h. omega arith) in
      subst
        (λ (q : Program Space).
          let sp = q.regs reg_sp in
          let envp_addr = sp + 8 + length argv * 4 in
          let texts = envp_addr + 4 + length envp * 4 in
          (q.pc ≡ q.segments.ld_prog_entry)
          × (q.pc ≢ 0)
          × (sp + size_frame argv envp ≤ q.segments.ld_stack_base)
          × (word_at B q.mem sp ≡ length argv)
          × TextsAt B q.mem (sp + 4) texts argv
          × TextsAt B q.mem envp_addr (texts + size_texts argv) envp
          × (q.segments.ld_brk_point % page_size ≡ 0))
        e
        (
          refl,
          entry,
          omega arith,
          word_at-Same B stack.1 (finished p).mem sp (λ b low high. kept b low (omega arith))
              ∙ count,
          TextsAt-Same B stack.1 (finished p).mem (sp + 4)
              (sp + 8 + length argv * 4 + 4 + length envp * 4) argv
              (λ b low high. kept b (omega arith) (omega arith))
              (λ b low high. kept b (omega arith) (omega arith)) args,
          TextsAt-Same B stack.1 (finished p).mem (sp + 8 + length argv * 4)
              (sp + 8 + length argv * 4 + 4 + length envp * 4 + size_texts argv) envp
              (λ b low high. kept b (omega arith) (omega arith))
              (λ b low high. kept b (omega arith) (omega arith)) environ,
          omega arith,
        )

  finish_load-checked :
      (p : Program Space)
      → p.segments.ld_text_base ≢ 0
      → p.segments.ld_text_size ≢ 0
      → p.segments.ld_prog_entry ≢ 0
      → host.swap_bytes p.segments.ld_target_big_endian ≡ false
      → host.swap_words p.segments.ld_target_big_endian ≡ false
      → finish_load B md_mask2op host argv envp p ≡ (
          require
            (leb
              (build_stack B argv envp p.segments.ld_environ_base p.mem).0
              p.segments.ld_stack_base)
            environment_overflow
          >> ok (finished p))
  unfolding finish_load
  finish_load-checked p base size entry bytes words =
      let has_text : (p.segments.ld_text_base == 0 || p.segments.ld_text_size == 0) ≡ false =
        ground arith in
      let has_entry : (p.segments.ld_prog_entry == 0) ≡ false = ground arith in
      rw (has_text, has_entry, bytes, words, finish_load) refl

  -- Once the other checks pass, the load of texts whose addresses stay below 2 ^ 32 succeeds if
  -- their frame ends at the base of the stack or below it, and is fatal with the overflow of the
  -- environment if it ends above.
  pub finish_load-overflow :
      (p : Program Space)
      → All IsText argv
      → All IsText envp
      → p.segments.ld_environ_base + size_frame argv envp < 2 ^ 32
      → p.segments.ld_text_base ≢ 0
      → p.segments.ld_text_size ≢ 0
      → p.segments.ld_prog_entry ≢ 0
      → host.swap_bytes p.segments.ld_target_big_endian ≡ false
      → host.swap_words p.segments.ld_target_big_endian ≡ false
      → (p.segments.ld_environ_base + size_frame argv envp ≤ p.segments.ld_stack_base
          → (q : Program Space) × (finish_load B md_mask2op host argv envp p ≡ ok q))
        × (p.segments.ld_stack_base < p.segments.ld_environ_base + size_frame argv envp
            → finish_load B md_mask2op host argv envp p ≡ fatal environment_overflow)
  finish_load-overflow p ha he frame base size entry bytes words =
      let (count, args, environ, end, before, behind) =
        build_stack_lem B argv envp p.segments.ld_environ_base p.mem ha he (omega arith) in
      let checked = finish_load-checked p base size entry bytes words in
      let sp = (build_stack B argv envp p.segments.ld_environ_base p.mem).0 in
      (
        λ room.
            let fits : leb sp p.segments.ld_stack_base ≡ true = ground arith in
            (
              finished p,
              checked ∙ ap (λ c. require c environment_overflow >> ok (finished p)) fits,
            ),
        λ over.
            let above : leb sp p.segments.ld_stack_base ≡ false = ground arith in
            checked ∙ ap (λ c. require c environment_overflow >> ok (finished p)) above,
      )
