-- ===== src/Loader/Args.antt =====
-- The stack that the loader builds, against the arguments and the environment that it is given.
use computer_architecture.Base.{
  ℕ, ◌+◌, ◌*◌, ◌^◌, ◌≤◌, ◌<◌, ◌≡◌, sym, subst, ap₂, ◌∙◌, List, [], ◌∷◌, ◌++◌, length, length-append,
  All, arith,
}
use computer_architecture.Base.Word.{u32}
use computer_architecture.Loader.Bytes.{
  ByteMemory, word_bytes, word_at, byte-apart, word_at-write_self,
}
use computer_architecture.Loader.Stack.{Text, fill_texts, build_stack}
use computer_architecture.Loader.Texts.{
  IsText, size_texts, TextsAt, Same, word_at-Same, TextsAt-Same, TextAt-write, TextAt-Same,
}

module _ {Space : Type 0} (B : ByteMemory Space) where
  -- What the loop leaves: `sp` behind the texts, the pointers and texts in place, and every byte
  -- apart from them as it was.
  pub record IsFilled (texts : List Text) (table sp : ℕ) (s : Space) (r : ℕ × Space) : Type 0 where
    pub end : r.0 ≡ sp + size_texts texts
    pub texts_at : TextsAt B r.1 table sp texts
    pub before : Same B s r.1 0 table
    pub between : Same B s r.1 (table + length texts * 4 + 4) sp
    pub behind : Same B s r.1 (sp + size_texts texts) (2 ^ 32)

  pub fill_texts-IsFilled :
      (texts : List Text) (table sp : ℕ) (s : Space)
      → All IsText texts
      → table + length texts * 4 + 4 ≤ sp
      → sp + size_texts texts < 2 ^ 32
      → IsFilled texts table sp s (fill_texts B texts table sp s)
  unfolding fill_texts
  fill_texts-IsFilled [] table sp s h room fits = record {
    end = omega arith;
    texts_at = word_at-write_self B s table 0 (omega arith) (omega arith);
    before = λ b p q.
        byte-apart B s table (word_bytes 0) b (omega arith) (omega arith)
          (λ r. absurd (omega arith));
    between = λ b p q.
        byte-apart B s table (word_bytes 0) b (omega arith) (omega arith) (λ r. omega arith);
    behind = λ b p q.
        byte-apart B s table (word_bytes 0) b (omega arith) (omega arith) (λ r. omega arith);
  }
  fill_texts-IsFilled (text ∷ texts) table sp s h room fits =
      let s1 = B.write_bytes s table (word_bytes sp) in
      let s2 = B.write_bytes s1 sp (text ++ 0 ∷ []) in
      let len = length-append text (0 ∷ []) in
      let rest =
        fill_texts-IsFilled texts (table + 4) (sp + (length text + 1)) s2 h.1 (omega arith)
          (omega arith) in
      let pointer : (b : ℕ)
          → b < 2 ^ 32
          → (table ≤ b → table + 4 ≤ b)
          → B.read_byte s1 b ≡ B.read_byte s b =
        λ b p q. byte-apart B s table (word_bytes sp) b (omega arith) p (λ r. q r) in
      let characters : (b : ℕ)
          → b < 2 ^ 32
          → (sp ≤ b → sp + (length text + 1) ≤ b)
          → B.read_byte s2 b ≡ B.read_byte s1 b =
        λ b p q.
          byte-apart B s1 sp (text ++ 0 ∷ []) b (omega (arith, len)) p
            (λ r. omega (arith, len, q r)) in
      let e : u32 (table + 4) ≡ table + 4 = omega arith in
      let e' : u32 (sp + (length text + 1)) ≡ sp + (length text + 1) = omega arith in
      subst (IsFilled (text ∷ texts) table sp s)
        (ap₂ (λ x y. fill_texts B texts x y s2) (sym e) (sym e'))
        (record {
          end = omega (arith, rest.end);
          texts_at = (
            word_at-Same B s1 (fill_texts B texts (table + 4) (sp + (length text + 1)) s2).1 table
                  (λ b p q.
                    rest.before b (omega arith) (omega arith)
                    ∙ characters b (omega arith) (λ r. absurd (omega arith)))
                ∙ word_at-write_self B s table sp (omega arith) (omega arith),
            TextAt-Same B s2 (fill_texts B texts (table + 4) (sp + (length text + 1)) s2).1 sp text
                (λ b p q. rest.between b (omega arith) (omega arith))
                (TextAt-write B s1 sp text h.0 (omega arith)),
            rest.texts_at,
          );
          before = λ b p q.
              rest.before b p (omega arith)
              ∙ characters b (omega arith) (λ r. absurd (omega arith))
              ∙ pointer b (omega arith) (λ r. absurd (omega arith));
          between = λ b p q.
              rest.between b (omega arith) (omega arith)
              ∙ characters b (omega arith) (λ r. absurd (omega arith))
              ∙ pointer b (omega arith) (λ r. omega arith);
          behind = λ b p q.
              rest.behind b (omega arith) q
              ∙ characters b q (λ r. omega arith)
              ∙ pointer b q (λ r. omega arith);
        })

  -- The same stack, with the addresses written out.
  stack : List Text → List Text → ℕ → Space → ℕ × Space
  stack argv envp sp s =
      let envp_addr = sp + 8 + length argv * 4 in
      let r =
        fill_texts B argv (sp + 4) (envp_addr + 4 + length envp * 4)
          (B.write_bytes s sp (word_bytes (length argv))) in
      fill_texts B envp envp_addr r.0 r.1

  build_stack-eq-stack :
      (argv envp : List Text) (sp : ℕ) (s : Space)
      → sp + 12 + length argv * 4 + length envp * 4 < 2 ^ 32
      → stack argv envp sp s ≡ build_stack B argv envp sp s
  unfolding build_stack stack
  build_stack-eq-stack argv envp sp s fits =
      let count : length argv ≡ u32 (length argv) = omega arith in
      let a : sp + 4 ≡ u32 (sp + 4) = omega arith in
      let e : sp + 8 + length argv * 4 ≡ u32 (u32 (sp + 4) + (length argv + 1) * 4) = omega arith in
      let t : sp + 8 + length argv * 4 + 4 + length envp * 4
          ≡ u32 (u32 (u32 (u32 (sp + 4) + (length argv + 1) * 4) + length envp * 4) + 4) =
        omega arith in
      λ i.
        let r = fill_texts B argv (a i) (t i) (B.write_bytes s sp (word_bytes (count i))) in
        fill_texts B envp (e i) r.0 r.1

  stack_lem :
      (argv envp : List Text) (sp : ℕ) (s : Space)
      → All IsText argv
      → All IsText envp
      → sp + 12 + length argv * 4 + length envp * 4 + size_texts argv + size_texts envp < 2 ^ 32
      → let r = stack argv envp sp s in
        let envp_addr = sp + 8 + length argv * 4 in
        let texts = envp_addr + 4 + length envp * 4 in
        (word_at B r.1 sp ≡ length argv)
        × TextsAt B r.1 (sp + 4) texts argv
        × TextsAt B r.1 envp_addr (texts + size_texts argv) envp
        × (r.0 ≡ texts + size_texts argv + size_texts envp)
        × Same B s r.1 0 sp
        × Same B s r.1 r.0 (2 ^ 32)
  unfolding stack
  stack_lem argv envp sp s ha he fits =
      let envp_addr = sp + 8 + length argv * 4 in
      let texts = envp_addr + 4 + length envp * 4 in
      let s1 = B.write_bytes s sp (word_bytes (length argv)) in
      let r = fill_texts B argv (sp + 4) texts s1 in
      let r' = fill_texts B envp envp_addr r.0 r.1 in
      let one = fill_texts-IsFilled argv (sp + 4) texts s1 ha (omega arith) (omega arith) in
      let two =
        fill_texts-IsFilled envp envp_addr r.0 r.1 he (omega (arith, one.end))
          (omega (arith, one.end)) in
      let count : (b : ℕ)
          → b < 2 ^ 32
          → (sp ≤ b → sp + 4 ≤ b)
          → B.read_byte s1 b ≡ B.read_byte s b =
        λ b p q. byte-apart B s sp (word_bytes (length argv)) b (omega arith) p (λ x. q x) in
      (
        word_at-Same B r.1 r'.1 sp (λ b p q. two.before b (omega arith) (omega arith))
            ∙ word_at-Same B s1 r.1 sp (λ b p q. one.before b (omega arith) (omega arith))
            ∙ word_at-write_self B s sp (length argv) (omega arith) (omega arith),
        TextsAt-Same B r.1 r'.1 (sp + 4) texts argv
            (λ b p q. two.before b (omega arith) (omega arith))
            (λ b p q. two.between b (omega arith) (omega (arith, one.end))) one.texts_at,
        subst (λ x. TextsAt B r'.1 envp_addr x envp) one.end two.texts_at,
        omega (arith, one.end, two.end),
        λ b p q.
            two.before b p (omega arith)
            ∙ one.before b p (omega arith)
            ∙ count b (omega arith) (λ x. absurd (omega arith)),
        λ b p q.
            two.behind b (omega (arith, two.end)) q
            ∙ one.behind b (omega (arith, one.end, two.end)) q
            ∙ count b q (λ x. omega (arith, one.end, two.end)),
      )

  -- For texts of bytes without an inner end whose addresses stay below 2 ^ 32: the number of the
  -- arguments stands at the stack pointer, behind it the pointers to the arguments and those to
  -- the environment, each array ended by a null pointer, and behind these the texts in order;
  -- `sp` ends behind the last text, and every byte below the stack pointer and from there on is
  -- as it was.
  pub build_stack_lem :
      (argv envp : List Text) (sp : ℕ) (s : Space)
      → All IsText argv
      → All IsText envp
      → sp + 12 + length argv * 4 + length envp * 4 + size_texts argv + size_texts envp < 2 ^ 32
      → let r = build_stack B argv envp sp s in
        let envp_addr = sp + 8 + length argv * 4 in
        let texts = envp_addr + 4 + length envp * 4 in
        (word_at B r.1 sp ≡ length argv)
        × TextsAt B r.1 (sp + 4) texts argv
        × TextsAt B r.1 envp_addr (texts + size_texts argv) envp
        × (r.0 ≡ texts + size_texts argv + size_texts envp)
        × Same B s r.1 0 sp
        × Same B s r.1 r.0 (2 ^ 32)
  unfolding build_stack
  build_stack_lem argv envp sp s ha he fits =
      subst
        (λ (r : ℕ × Space).
          (word_at B r.1 sp ≡ length argv)
          × TextsAt B r.1 (sp + 4) (sp + 8 + length argv * 4 + 4 + length envp * 4) argv
          × TextsAt B r.1 (sp + 8 + length argv * 4)
              (sp + 8 + length argv * 4 + 4 + length envp * 4 + size_texts argv) envp
          × (r.0
              ≡ sp + 8 + length argv * 4 + 4 + length envp * 4 + size_texts argv + size_texts envp)
          × Same B s r.1 0 sp
          × Same B s r.1 r.0 (2 ^ 32))
        (build_stack-eq-stack argv envp sp s (omega arith)) (stack_lem argv envp sp s ha he fits)
