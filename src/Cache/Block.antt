-- ===== src/Cache/Block.antt =====
-- `malloc_cache_line` and `cache_write_back` against the words of the memory.
use computer_architecture.Base.{
  ℕ, zero, suc, ◌+◌, ◌-◌, ◌*◌, ◌/◌, ◌%◌, ◌^◌, ◌≤◌, ◌<◌, ◌≡◌, ◌≢◌, refl, ◌∙◌, ap, sym, List, get_or,
  arith,
}
use native.Mathlib.Decide.{ℕ_discrete}
use computer_architecture.Base.Word.{u32}
use computer_architecture.Memory.{Memory, IsAligned}
use computer_architecture.Cache.Line.{
  Line, addr_tag, addr_index, addr_offset, load_words, malloc_cache_line, store_words,
  cache_write_back,
}
use computer_architecture.Cache.Coherent.{word_addr, LineIsOk}

pub word_addr-IsAligned :
    (tag index k : ℕ) → tag < 2 ^ 24 → index < 16 → k < 4 → IsAligned (word_addr tag index k)
word_addr-IsAligned tag index k p q r = omega arith

-- An aligned address is that of the word it names.
pub word_addr_parts :
    (b : ℕ) → IsAligned b → word_addr (addr_tag b) (addr_index b) (addr_offset b / 4) ≡ b
word_addr_parts b h = omega arith

module _ {Space : Type 0} (M : Memory Space) where
  open M use {read_word, write_word, read-write_self, read-write_ne, read-lt}

  -- The store loop changes no other word.
  store_words_ne :
      (words : List ℕ) (addr left i : ℕ) (s : Space) (b : ℕ)
      → IsAligned addr
      → addr + (i + left) * 4 ≤ 2 ^ 32
      → IsAligned b
      → ((k : ℕ) → i ≤ k → k < i + left → addr + k * 4 ≢ b)
      → read_word (store_words M words addr left i s) b ≡ read_word s b
  unfolding store_words
  store_words_ne words addr zero i s b ha top hb ne = refl
  store_words_ne words addr (suc left) i s b ha top hb ne =
      store_words_ne words addr left (i + 1) (write_word s (u32 (addr + i * 4)) (get_or words i 0))
        b ha (omega arith) hb (λ k p q. ne k (omega arith) (omega arith))
      ∙ read-write_ne s (u32 (addr + i * 4)) b (get_or words i 0) (omega arith) hb
          (λ e. ne i (omega arith) (omega arith) (omega arith))

  write_at :
      (s : Space) (a b v : ℕ)
      → IsAligned a
      → v < 2 ^ 32
      → a ≡ b
      → read_word (write_word s (u32 a) v) b ≡ v
  write_at s a b v ha hv e =
      ap (λ x. read_word (write_word s (u32 a) v) x) (omega arith)
      ∙ read-write_self s (u32 a) v (omega arith) hv

  -- It leaves each word where it belongs.
  store_words_eq :
      (words : List ℕ) (addr left i : ℕ) (s : Space) (k : ℕ)
      → IsAligned addr
      → addr + (i + left) * 4 ≤ 2 ^ 32
      → ((j : ℕ) → get_or words j 0 < 2 ^ 32)
      → i ≤ k
      → k < i + left
      → read_word (store_words M words addr left i s) (addr + k * 4) ≡ get_or words k 0
  unfolding store_words
  store_words_eq words addr zero i s k ha top fits p q = absurd (omega arith)
  store_words_eq words addr (suc left) i s k ha top fits p q = elim (ℕ_discrete i k) [
    | yes e ↦
        store_words_ne words addr left (i + 1)
          (write_word s (u32 (addr + i * 4)) (get_or words i 0)) (addr + k * 4) ha (omega arith)
          (omega arith) (λ j u v w. absurd (omega arith))
        ∙ write_at s (addr + i * 4) (addr + k * 4) (get_or words i 0) (omega arith) (fits i)
            (omega arith)
        ∙ ap (λ x. get_or words x 0) e
    | no ne ↦
        store_words_eq words addr left (i + 1)
          (write_word s (u32 (addr + i * 4)) (get_or words i 0)) k ha (omega arith) fits
          (omega arith) (omega arith)
  ]

  module _ (s : Space) (index : ℕ) (line : Line) (small : index < 16)
      (ok : LineIsOk M s index line) where
    -- A line that is written back fills its own block, and no other.
    pub read-cache_write_back_eq :
        (k : ℕ)
        → k < 4
        → read_word (cache_write_back M line index s).1 (word_addr line.tag index k)
          ≡ get_or line.words k 0
    unfolding cache_write_back
    read-cache_write_back_eq k p =
        ap
          (λ a.
            read_word (store_words M line.words (u32 (line.tag * 2 ^ 8) + index * 2 ^ 4) 4 0 s) a)
          (omega (arith, ok.tag_fits))
        ∙ store_words_eq line.words (u32 (line.tag * 2 ^ 8) + index * 2 ^ 4) 4 0 s k
            (omega (arith, ok.tag_fits)) (omega (arith, ok.tag_fits)) ok.fits (omega arith)
            (omega arith)

    pub read-cache_write_back_ne :
        (b : ℕ)
        → IsAligned b
        → (addr_tag b ≡ line.tag → addr_index b ≢ index)
        → read_word (cache_write_back M line index s).1 b ≡ read_word s b
    unfolding cache_write_back
    read-cache_write_back_ne b h other =
        store_words_ne line.words (u32 (line.tag * 2 ^ 8) + index * 2 ^ 4) 4 0 s b
          (omega (arith, ok.tag_fits)) (omega (arith, ok.tag_fits)) h
          (λ k p q e. other (omega (arith, ok.tag_fits)) (omega (arith, ok.tag_fits)))

  load_words_get :
      (s : Space) (addr left i k : ℕ)
      → k < left
      → get_or (load_words M s addr left i) k 0 ≡ read_word s (u32 (addr + (i + k) * 4))
  unfolding load_words
  load_words_get s addr zero i k h = absurd (omega arith)
  load_words_get s addr (suc left) i zero h =
      ap (λ x. read_word s (u32 (addr + x * 4))) (omega arith)
  load_words_get s addr (suc left) i (suc k) h =
      load_words_get s addr left (i + 1) k (omega arith)
      ∙ ap (λ x. read_word s (u32 (addr + x * 4))) (omega arith)

  module _ (s : Space) (a : ℕ) (h : IsAligned a) where
    -- A fresh line holds its block of the memory.
    pub malloc_cache_line_get :
        (k : ℕ)
        → k < 4
        → get_or (malloc_cache_line M s (a - a % 2 ^ 4)).words k 0
          ≡ read_word s (word_addr (addr_tag a) (addr_index a) k)
    unfolding malloc_cache_line
    malloc_cache_line_get k p =
        load_words_get s (a - a % 2 ^ 4) 4 0 k p ∙ ap (λ x. read_word s x) (omega arith)

    pub malloc_cache_line-tag : (malloc_cache_line M s (a - a % 2 ^ 4)).tag ≡ addr_tag a
    unfolding malloc_cache_line
    malloc_cache_line-tag = omega arith

  load_words_fits :
      (s : Space) (addr left i k : ℕ) → get_or (load_words M s addr left i) k 0 < 2 ^ 32
  unfolding load_words
  load_words_fits s addr zero i k = omega arith
  load_words_fits s addr (suc left) i zero = read-lt s _
  load_words_fits s addr (suc left) i (suc k) = load_words_fits s addr left (i + 1) k

  pub malloc_cache_line-LineIsOk :
      (s : Space) (a : ℕ)
      → IsAligned a
      → LineIsOk M s (addr_index a) (malloc_cache_line M s (a - a % 2 ^ 4))
  unfolding malloc_cache_line
  malloc_cache_line-LineIsOk s a h = record {
    in_use = refl;
    tag_fits = omega arith;
    four = unfold load_words in refl;
    fits = load_words_fits s (a - a % 2 ^ 4) 4 0;
    clean = λ _ k p.
        malloc_cache_line_get s a h k p
        ∙ ap (λ t. read_word s (word_addr t (addr_index a) k)) (sym (malloc_cache_line-tag s a h));
  }
