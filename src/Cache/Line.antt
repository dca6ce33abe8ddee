-- ===== src/Cache/Line.antt =====
-- Cache lines: the parts of an address, `cache_word_read`, `cache_word_write`,
-- `malloc_cache_line` and `cache_write_back` of Project2/sim-pipe.c.
use computer_architecture.Base.{
  ℕ, zero, suc, ◌+◌, ◌*◌, ◌/◌, ◌%◌, ◌^◌, Bool, true, false, List, [], ◌∷◌, get_or, set,
}
use computer_architecture.Base.Word.{u32}
use computer_architecture.Memory.{Memory}

-- The macros shift and mask; a shift is a division and a mask of low bits a remainder.
abbrev pub addr_tag : ℕ → ℕ
addr_tag addr = addr / 2 ^ 8

abbrev pub addr_index : ℕ → ℕ
addr_index addr = addr / 2 ^ 4 % 2 ^ 4

abbrev pub addr_offset : ℕ → ℕ
addr_offset addr = addr % 2 ^ 4

-- `data[4]` is the field `words`; `next` is the order in the list of the set.
pub record Line : Type 0 where
  pub words : List ℕ
  pub tag : ℕ
  pub dirty : Bool
  pub valid : Bool
  pub ref_count : ℕ

-- Both take the line, the word behind the pointer and the byte offset, and return the line and
-- the word as they leave them. All accesses are of whole words, so an offset counts words.
abbrev pub CacheWordFunc : Type 0
CacheWordFunc = Line → ℕ → ℕ → Line × ℕ

unfoldable pub cache_word_read : CacheWordFunc
cache_word_read line dst offset = (line, get_or line.words (offset / 4) 0)

unfoldable pub cache_word_write : CacheWordFunc
cache_word_write line src offset =
    (record line { words = set line.words (offset / 4) src; dirty = true }, src)

module _ {Space : Type 0} (M : Memory Space) where
  open M use {read_word, write_word}

  -- The loop of `malloc_cache_line` at `i`, with `left` rounds to go.
  unfoldable pub load_words : Space → ℕ → ℕ → ℕ → List ℕ
  load_words s addr zero i = []
  load_words s addr (suc left) i = read_word s (u32 (addr + i * 4)) ∷ load_words s addr left (i + 1)

  unfoldable pub malloc_cache_line : Space → ℕ → Line
  unfolding load_words
  malloc_cache_line s addr = record {
    words = load_words s addr 4 0;
    tag = addr_tag addr % 2 ^ 24;
    dirty = false;
    valid = true;
    ref_count = 0;
  }

  -- The loop of `cache_write_back`.
  unfoldable pub store_words : List ℕ → ℕ → ℕ → ℕ → Space → Space
  store_words words addr zero i s = s
  store_words words addr (suc left) i s =
      store_words words addr left (i + 1) (write_word s (u32 (addr + i * 4)) (get_or words i 0))

  -- The fields of the address are disjoint bits, so `|` is a sum.
  unfoldable pub cache_write_back : Line → ℕ → Space → Line × Space
  unfolding store_words
  cache_write_back line index s =
      let addr = u32 (line.tag * 2 ^ 8) + index * 2 ^ 4 in
      (record line { dirty = false }, store_words line.words addr 4 0 s)
