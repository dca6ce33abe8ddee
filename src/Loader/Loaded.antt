-- ===== src/Loader/Loaded.antt =====
-- A whole load of an executable, from the file to the first instruction.
use computer_architecture.Base.{
  ℕ, ◌+◌, ◌*◌, ◌%◌, ◌^◌, ◌≤◌, ◌<◌, ◌≡◌, ◌≢◌, refl, sym, subst, ap, ◌∙◌, some, List, length, All,
  Bool, true, false, arith, if◌then◌else◌,
}
use computer_architecture.Loader.Bytes.{ByteMemory, word_at}
use computer_architecture.Loader.File.{
  AoutHeader, ObjectFile, Fatal, Load, ok, fatal, ◌>>=◌, cannot_open, no_file_header,
  no_aout_header, cannot_close, checkpoint_without_eio,
}
use computer_architecture.Loader.Stack.{Text}
use computer_architecture.Loader.Texts.{IsText, size_texts, TextsAt}
use computer_architecture.Loader.Sections.{require-ok, expect-ok, ok-injective}
use computer_architecture.Loader.Finish.{size_frame, finish_load-ok, finish_load_lem}
use computer_architecture.Loader.Program.{
  Segments, Program, Host, EioFile, load_sections, target_endian, load_eio, load_object,
  ld_load_prog, page_size, reg_sp, text_base, stack_base, max_environ,
}

>>=-ok :
    {A C : Type 0} (m : Load A) (k : A → Load C) (c : C)
    → (m >>= k) ≡ ok c
    → (a : A) × (m ≡ ok a) × (k a ≡ ok c)
>>=-ok (ok a) k c h = (a, refl, h)
>>=-ok (fatal e) k c h = cc

if-fatal :
    {A : Type 0} (c : Bool) (e : Fatal) (k : Load A) (a : A)
    → (if c then fatal e else k) ≡ ok a
    → k ≡ ok a
if-fatal true e k a h = cc
if-fatal false e k a h = h

if-false :
    {A : Type 0} (c : Bool) (m k : Load A) (a : A)
    → c ≡ false
    → (if c then m else k) ≡ ok a
    → k ≡ ok a
if-false true m k a e h = cc
if-false false m k a e h = h

module _ {Space : Type 0} (B : ByteMemory Space) where
  -- Where the segments of an executable begin.
  load_object-base :
      (f : ObjectFile) (g : Segments) (s : Space) (r : Segments × Space)
      → load_object B f g s ≡ ok r
      → (r.0.ld_text_base ≡ text_base)
        × (r.0.ld_stack_base ≡ stack_base)
        × (r.0.ld_environ_base + max_environ ≡ stack_base)
        × ((aout : AoutHeader) × (f.aout_header ≡ some aout) × (r.0.ld_prog_entry ≡ aout.entry))
  unfolding load_object
  load_object-base f g s r done =
      let opened = require-ok f.opens cannot_open _ r done in
      let (header, _, one) = expect-ok f.file_header no_file_header _ r opened.1 in
      let (big, _, two) = >>=-ok (target_endian header.magic) _ r one in
      let (aout, header_read, three) = expect-ok f.aout_header no_aout_header _ r two in
      let (sections, _, four) =
        >>=-ok (load_sections B f header.nscns (20 + header.opthdr) g.ld_text_size s) _ r three in
      let closed = require-ok f.closes cannot_close _ r four in
      subst
        (λ (r : Segments × Space).
          (r.0.ld_text_base ≡ text_base)
          × (r.0.ld_stack_base ≡ stack_base)
          × (r.0.ld_environ_base + max_environ ≡ stack_base)
          × ((aout : AoutHeader) × (f.aout_header ≡ some aout) × (r.0.ld_prog_entry ≡ aout.entry)))
        (ok-injective r _ _ closed.1) (refl, refl, omega arith, (aout, header_read, refl))

  -- A load of an executable, not of an EIO trace, that succeeds, with a frame of arguments and
  -- environment below 2 ^ 30 bytes and a text segment below 2 ^ 30 bytes: the program begins at
  -- the entry in the second header of the file, which is not 0, with its stack pointer 16384
  -- below the base of the stack; from there on the memory holds the number of the arguments, the
  -- arguments and the environment, in no more than these 16384 bytes, and the heap begins at a
  -- page.
  pub ld_load_prog_lem :
      (md_mask2op : ℕ → ℕ) (host : Host) (eio : EioFile Space) (f : ObjectFile)
      (argv envp : List Text) (p q : Program Space)
      → eio.valid ≡ false
      → All IsText argv
      → All IsText envp
      → size_frame argv envp < 2 ^ 30
      → q.segments.ld_text_size < 2 ^ 30
      → ld_load_prog B md_mask2op host eio f argv envp p ≡ ok q
      → let sp = q.regs reg_sp in
        let envp_addr = sp + 8 + length argv * 4 in
        let texts = envp_addr + 4 + length envp * 4 in
        ((aout : AoutHeader) × (f.aout_header ≡ some aout) × (q.pc ≡ aout.entry))
        × (q.pc ≡ q.segments.ld_prog_entry)
        × (q.pc ≢ 0)
        × (sp + max_environ ≡ stack_base)
        × (size_frame argv envp ≤ max_environ)
        × (word_at B q.mem sp ≡ length argv)
        × TextsAt B q.mem (sp + 4) texts argv
        × TextsAt B q.mem envp_addr (texts + size_texts argv) envp
        × (q.segments.ld_brk_point % page_size ≡ 0)
  unfolding ld_load_prog
  ld_load_prog_lem md_mask2op host eio f argv envp p q no_eio ha he small text_small done =
      let some_file =
        if-fatal eio.chkpt_named checkpoint_without_eio _ q
          (if-false eio.valid (load_eio B eio (length argv) p) _ q no_eio done) in
      let (r, loaded, finishes) = >>=-ok (load_object B f p.segments p.mem) _ q some_file in
      let (at_text, at_stack, at_environ, (aout, header_read, at_entry)) =
        load_object-base f p.segments p.mem r loaded in
      let p' : Program Space = record p { segments = r.0; mem = r.1 } in
      let (_, _, room, e) = finish_load-ok B md_mask2op host argv envp p' q finishes in
      let text_size : r.0.ld_text_size ≡ q.segments.ld_text_size =
        ap (λ q. q.segments.ld_text_size) e in
      let pointer : r.0.ld_environ_base ≡ q.regs reg_sp = ap (λ q. q.regs reg_sp) e in
      let bottom : r.0.ld_stack_base ≡ q.segments.ld_stack_base =
        ap (λ q. q.segments.ld_stack_base) e in
      let (starts, entry, below, count, args, environ, heap) =
        finish_load_lem B md_mask2op host argv envp p' q ha he (omega arith) (omega arith)
          finishes in
      let begins : r.0.ld_prog_entry ≡ q.pc = ap (λ q. q.pc) e in
      (
        (aout, header_read, sym begins ∙ at_entry),
        starts,
        entry,
        omega arith,
        omega arith,
        count,
        args,
        environ,
        heap,
      )
