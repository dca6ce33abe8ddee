-- ===== src/Loader/Texts.antt =====
-- Texts and arrays of pointers to texts in the memory, as the loader is to lay them out.
use computer_architecture.Base.{
  ℕ, zero, suc, ◌+◌, ◌*◌, ◌%◌, ◌^◌, ◌≤◌, ◌<◌, ◌≡◌, ap, ◌∙◌, List, [], ◌∷◌, ◌++◌, length,
  length-append, get_or, All, arith,
}
use computer_architecture.Loader.Bytes.{ByteMemory, word_at, byte-inside}
use computer_architecture.Loader.Stack.{Text}

-- The characters of a text: bytes, none of them the end of a text.
abbrev pub IsText : Text → Type 0
IsText = All (λ c. (0 < c) × (c < 2 ^ 8))

-- The bytes that texts take, each with its end.
abbrev pub size_texts : List Text → ℕ
size_texts [] = 0
size_texts (text ∷ texts) = length text + 1 + size_texts texts

text-byte :
    (text : Text) (i : ℕ)
    → IsText text
    → get_or (text ++ 0 ∷ []) i 0 % 2 ^ 8 ≡ get_or (text ++ 0 ∷ []) i 0
text-byte [] zero h = omega arith
text-byte [] (suc i) h = omega arith
text-byte (c ∷ cs) zero h = omega (arith, h.0.1)
text-byte (c ∷ cs) (suc i) h = text-byte cs i h.1

module _ {Space : Type 0} (B : ByteMemory Space) where
  -- A text stands at an address, with its end.
  abbrev pub TextAt : Space → ℕ → Text → Type 0
  TextAt s p [] = B.read_byte s p ≡ 0
  TextAt s p (c ∷ cs) = (B.read_byte s p ≡ c) × TextAt s (p + 1) cs

  -- An array of pointers at `table`, with its null pointer, to texts that follow one another from
  -- `sp` on.
  abbrev pub TextsAt : Space → ℕ → ℕ → List Text → Type 0
  TextsAt s table sp [] = word_at B s table ≡ 0
  TextsAt s table sp (text ∷ texts) =
      (word_at B s table ≡ sp)
      × TextAt s sp text
      × TextsAt s (table + 4) (sp + (length text + 1)) texts

  -- The bytes from `lo` up to `hi` are the same.
  abbrev pub Same : Space → Space → ℕ → ℕ → Type 0
  Same s s' lo hi = (b : ℕ) → lo ≤ b → b < hi → B.read_byte s' b ≡ B.read_byte s b

  TextAt-bytes :
      (s : Space) (p : ℕ) (text : Text)
      → ((i : ℕ) → i ≤ length text → B.read_byte s (p + i) ≡ get_or (text ++ 0 ∷ []) i 0)
      → TextAt s p text
  TextAt-bytes s p [] h = ap (B.read_byte s) (omega arith) ∙ h 0 (omega arith)
  TextAt-bytes s p (c ∷ cs) h = (
    ap (B.read_byte s) (omega arith) ∙ h 0 (omega arith),
    TextAt-bytes s (p + 1) cs (λ i q. ap (B.read_byte s) (omega arith) ∙ h (suc i) (omega arith)),
  )

  pub TextAt-Same :
      (s s' : Space) (p : ℕ) (text : Text)
      → Same s s' p (p + length text + 1)
      → TextAt s p text
      → TextAt s' p text
  TextAt-Same s s' p [] same h = same p (omega arith) (omega arith) ∙ h
  TextAt-Same s s' p (c ∷ cs) same h = (
    same p (omega arith) (omega arith) ∙ h.0,
    TextAt-Same s s' (p + 1) cs (λ b q r. same b (omega arith) (omega arith)) h.1,
  )

  pub word_at-Same : (s s' : Space) (p : ℕ) → Same s s' p (p + 4) → word_at B s' p ≡ word_at B s p
  word_at-Same s s' p same = omega (
    arith,
    same p (omega arith) (omega arith),
    same (p + 1) (omega arith) (omega arith),
    same (p + 2) (omega arith) (omega arith),
    same (p + 3) (omega arith) (omega arith),
  )

  pub TextsAt-Same :
      (s s' : Space) (table sp : ℕ) (texts : List Text)
      → Same s s' table (table + length texts * 4 + 4)
      → Same s s' sp (sp + size_texts texts)
      → TextsAt s table sp texts
      → TextsAt s' table sp texts
  TextsAt-Same s s' table sp [] pointers same h =
      word_at-Same s s' table (λ b p q. pointers b p (omega arith)) ∙ h
  TextsAt-Same s s' table sp (text ∷ texts) pointers same h = (
    word_at-Same s s' table (λ b p q. pointers b p (omega arith)) ∙ h.0,
    TextAt-Same s s' sp text (λ b p q. same b p (omega arith)) h.1,
    TextsAt-Same s s' (table + 4) (sp + (length text + 1)) texts
        (λ b p q. pointers b (omega arith) (omega arith))
        (λ b p q. same b (omega arith) (omega arith)) h.2,
  )

  pub TextAt-write :
      (s : Space) (p : ℕ) (text : Text)
      → IsText text
      → p + length text + 1 ≤ 2 ^ 32
      → TextAt (B.write_bytes s p (text ++ 0 ∷ [])) p text
  TextAt-write s p text h fits = TextAt-bytes (B.write_bytes s p (text ++ 0 ∷ [])) p text (λ i q.
      byte-inside B s p (text ++ 0 ∷ []) i (omega (arith, length-append text (0 ∷ [])))
        (omega (arith, length-append text (0 ∷ [])))
      ∙ text-byte text i h)
