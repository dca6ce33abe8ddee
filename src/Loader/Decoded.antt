-- ===== src/Loader/Decoded.antt =====
-- What predecoding leaves in the text segment.
use computer_architecture.Base.{
  ℕ, zero, suc, ◌+◌, ◌*◌, ◌^◌, ◌≤◌, ◌<◌, ◌≡◌, refl, sym, subst, ap, ◌∙◌, ◌++◌, ltb, lt→ltb, false,
  Bool-cases, inl, inr, arith, tests,
}
use computer_architecture.Loader.Bytes.{ByteMemory, word_bytes, word_at, byte-inside, byte-apart}
use computer_architecture.Loader.Predecode.{decoded_word, predecode_inst, predecode}

module _ {Space : Type 0} (B : ByteMemory Space) (md_mask2op : ℕ → ℕ) where
  word_at-lt : (s : Space) (a : ℕ) → word_at B s a < 2 ^ 32
  word_at-lt s a = omega (
    arith,
    B.read_byte-lt s a,
    B.read_byte-lt s (a + 1),
    B.read_byte-lt s (a + 2),
    B.read_byte-lt s (a + 3),
  )

  write_two :
      (s : Space) (a v w : ℕ)
      → a + 8 ≤ 2 ^ 32
      → v < 2 ^ 32
      → w < 2 ^ 32
      → let s' = B.write_bytes s a (word_bytes v ++ word_bytes w) in
        (word_at B s' a ≡ v) × (word_at B s' (a + 4) ≡ w)
  write_two s a v w fits hv hw =
      let bs = word_bytes v ++ word_bytes w in
      let s' = B.write_bytes s a bs in
      let at : (i j : ℕ) → i ≡ j → B.read_byte s' i ≡ B.read_byte s' j =
        λ i j e. ap (B.read_byte s') e in
      (
        omega (
          arith,
          at a (a + 0) (omega arith),
          byte-inside B s a bs 0 fits (omega arith),
          byte-inside B s a bs 1 fits (omega arith),
          byte-inside B s a bs 2 fits (omega arith),
          byte-inside B s a bs 3 fits (omega arith),
        ),
        omega (
          arith,
          at (a + 4 + 1) (a + 5) (omega arith),
          at (a + 4 + 2) (a + 6) (omega arith),
          at (a + 4 + 3) (a + 7) (omega arith),
          byte-inside B s a bs 4 fits (omega arith),
          byte-inside B s a bs 5 fits (omega arith),
          byte-inside B s a bs 6 fits (omega arith),
          byte-inside B s a bs 7 fits (omega arith),
        ),
      )

  inst-words :
      (s : Space) (a : ℕ)
      → a + 8 ≤ 2 ^ 32
      → let s' = predecode_inst B md_mask2op a s in
        (word_at B s' a ≡ decoded_word B md_mask2op (word_at B s a))
        × (word_at B s' (a + 4) ≡ word_at B s (a + 4))
  unfolding predecode_inst
  inst-words s a fits =
      write_two s a (decoded_word B md_mask2op (word_at B s a)) (word_at B s (a + 4)) fits
        (omega (arith, word_at-lt s a)) (word_at-lt s (a + 4))

  inst-apart :
      (s : Space) (a b : ℕ)
      → a + 8 ≤ 2 ^ 32
      → b < 2 ^ 32
      → (a ≤ b → a + 8 ≤ b)
      → B.read_byte (predecode_inst B md_mask2op a s) b ≡ B.read_byte s b
  unfolding predecode_inst
  inst-apart s a b fits small apart =
      byte-apart B s a
        (word_bytes (decoded_word B md_mask2op (word_at B s a)) ++ word_bytes (word_at B s (a + 4)))
        b fits small apart

  word-bytes :
      (s s' : Space) (a : ℕ)
      → ((b : ℕ) → a ≤ b → b < a + 4 → B.read_byte s' b ≡ B.read_byte s b)
      → word_at B s' a ≡ word_at B s a
  word-bytes s s' a same = omega (
    arith,
    same a (omega arith) (omega arith),
    same (a + 1) (omega arith) (omega arith),
    same (a + 2) (omega arith) (omega arith),
    same (a + 3) (omega arith) (omega arith),
  )

  predecode-go :
      (fuel addr end : ℕ) (s : Space)
      → addr < end
      → end + 8 ≤ 2 ^ 32
      → predecode B md_mask2op (suc fuel) addr end s
        ≡ predecode B md_mask2op fuel (addr + 8) end (predecode_inst B md_mask2op addr s)
  unfolding predecode
  predecode-go fuel addr end s go fits =
      rw (lt→ltb addr end go, predecode)
        (ap (λ x. predecode B md_mask2op fuel x end (predecode_inst B md_mask2op addr s))
          (omega arith))

  predecode-stop :
      (fuel addr end : ℕ) (s : Space) → end ≤ addr → predecode B md_mask2op fuel addr end s ≡ s
  unfolding predecode
  predecode-stop zero addr end s stop = refl
  predecode-stop (suc fuel) addr end s stop =
      let e : ltb addr end ≡ false = ground arith in rw (e, predecode) refl

  -- Bytes below the segment, and from 7 bytes behind its end on, stay.
  predecode-apart :
      (fuel addr end : ℕ) (s : Space) (b : ℕ)
      → end + 8 ≤ 2 ^ 32
      → b < 2 ^ 32
      → (addr ≤ b → end + 7 ≤ b)
      → B.read_byte (predecode B md_mask2op fuel addr end s) b ≡ B.read_byte s b
  predecode-apart zero addr end s b fits small apart = unfold predecode in refl
  predecode-apart (suc fuel) addr end s b fits small apart = elim (Bool-cases (ltb addr end)) [
    | inl go ↦
        let below : addr < end = omega tests in
        ap (λ x. B.read_byte x b) (predecode-go fuel addr end s below fits)
        ∙ predecode-apart fuel (addr + 8) end (predecode_inst B md_mask2op addr s) b fits small
            (λ h. apart (omega arith))
        ∙ inst-apart s addr b (omega arith) small (λ h. omega (arith, apart h))
    | inr stop ↦ ap (λ x. B.read_byte x b) (predecode-stop (suc fuel) addr end s (ground arith))
  ]

  -- The two words of the k-th instruction of the segment in `s'`, against those in `s`.
  Decoded : Space → Space → ℕ → Type 0
  Decoded s s' a =
      (word_at B s' a ≡ decoded_word B md_mask2op (word_at B s a))
      × (word_at B s' (a + 4) ≡ word_at B s (a + 4))

  predecode-words :
      (fuel addr end : ℕ) (s : Space)
      → end ≤ addr + fuel * 8
      → end + 8 ≤ 2 ^ 32
      → (k : ℕ) → addr + k * 8 < end
      → Decoded s (predecode B md_mask2op fuel addr end s) (addr + k * 8)
  unfolding Decoded
  predecode-words zero addr end s enough fits k inside = absurd (omega arith)
  predecode-words (suc fuel) addr end s enough fits zero inside =
      let s1 = predecode_inst B md_mask2op addr s in
      let s' = predecode B md_mask2op fuel (addr + 8) end s1 in
      let kept : (b : ℕ) → b < addr + 8 → B.read_byte s' b ≡ B.read_byte s1 b = λ b p.
        predecode-apart fuel (addr + 8) end s1 b fits (omega arith) (λ h. absurd (omega arith)) in
      let here : Decoded s s' addr = (
        word-bytes s1 s' addr (λ b p q. kept b (omega arith)) ∙ (inst-words s addr (omega arith)).0,
        word-bytes s1 s' (addr + 4) (λ b p q. kept b (omega arith))
            ∙ (inst-words s addr (omega arith)).1,
      ) in
      subst (Decoded s (predecode B md_mask2op (suc fuel) addr end s)) (omega arith)
        (subst (λ x. Decoded s x addr) (sym (predecode-go fuel addr end s (omega arith) fits)) here)
  predecode-words (suc fuel) addr end s enough fits (suc k) inside =
      let s1 = predecode_inst B md_mask2op addr s in
      let s' = predecode B md_mask2op fuel (addr + 8) end s1 in
      let rest = predecode-words fuel (addr + 8) end s1 (omega arith) fits k (omega arith) in
      let a = addr + 8 + k * 8 in
      let before : (b : ℕ) → a ≤ b → b < a + 8 → B.read_byte s1 b ≡ B.read_byte s b =
        λ b p q. inst-apart s addr b (omega arith) (omega arith) (λ h. omega arith) in
      let there : Decoded s s' a = (
        rest.0
            ∙ ap (decoded_word B md_mask2op)
                (word-bytes s s1 a (λ b p q. before b p (omega arith))),
        rest.1 ∙ word-bytes s s1 (a + 4) (λ b p q. before b (omega arith) (omega arith)),
      ) in
      subst (Decoded s (predecode B md_mask2op (suc fuel) addr end s)) (omega arith)
        (subst (λ x. Decoded s x a) (sym (predecode-go fuel addr end s (omega arith) fits)) there)

  -- With rounds for the whole segment, and its end at least 8 bytes below 2 ^ 32: the first word
  -- of every instruction that starts in the segment has its opcode decoded, once, the second
  -- word stays, and so does every byte below the segment and from 7 bytes behind its end on.
  pub predecode_lem :
      (fuel addr end : ℕ) (s : Space)
      → end ≤ addr + fuel * 8
      → end + 8 ≤ 2 ^ 32
      → let s' = predecode B md_mask2op fuel addr end s in
        ((k : ℕ)
          → addr + k * 8 < end
          → (word_at B s' (addr + k * 8) ≡ decoded_word B md_mask2op (word_at B s (addr + k * 8)))
            × (word_at B s' (addr + k * 8 + 4) ≡ word_at B s (addr + k * 8 + 4)))
        × ((b : ℕ) → b < 2 ^ 32 → (addr ≤ b → end + 7 ≤ b) → B.read_byte s' b ≡ B.read_byte s b)
  predecode_lem fuel addr end s enough fits = (
    unfold Decoded in predecode-words fuel addr end s enough fits,
    λ b small. predecode-apart fuel addr end s b fits small,
  )

  -- Once the rounds cover the segment, and its end is at least 8 bytes below 2 ^ 32, more rounds
  -- change nothing: the loop has ended by its test.
  pub predecode-add :
      (fuel more addr end : ℕ) (s : Space)
      → end ≤ addr + fuel * 8
      → end + 8 ≤ 2 ^ 32
      → predecode B md_mask2op (fuel + more) addr end s ≡ predecode B md_mask2op fuel addr end s
  predecode-add zero more addr end s enough fits =
      predecode-stop (0 + more) addr end s (omega arith)
      ∙ sym (predecode-stop 0 addr end s (omega arith))
  predecode-add (suc fuel) more addr end s enough fits = elim (Bool-cases (ltb addr end)) [
    | inl go ↦
        let shift : suc fuel + more ≡ suc (fuel + more) = omega arith in
        ap (λ n. predecode B md_mask2op n addr end s) shift
        ∙ predecode-go (fuel + more) addr end s (omega tests) fits
        ∙ predecode-add fuel more (addr + 8) end (predecode_inst B md_mask2op addr s) (omega arith)
            fits
        ∙ sym (predecode-go fuel addr end s (omega tests) fits)
    | inr stop ↦
        predecode-stop (suc fuel + more) addr end s (ground arith)
        ∙ sym (predecode-stop (suc fuel) addr end s (ground arith))
  ]
