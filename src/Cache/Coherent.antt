-- ===== src/Cache/Coherent.antt =====
-- What a well-formed cache is, and the memory that a program sees through it.
use computer_architecture.Base.{
  ℕ, ◌+◌, ◌*◌, ◌/◌, ◌^◌, ◌≤◌, ◌<◌, ◌≡◌, ◌≢◌, true, false, Option, none, some, List, [], ◌∷◌, length,
  get_or, All, if◌then◌else◌, arith,
}
use computer_architecture.Memory.{Memory}
use computer_architecture.Cache.Line.{Line, addr_tag, addr_index, addr_offset}
use computer_architecture.Cache.Set.{CacheSet, Cache, set_num}
use computer_architecture.Cache.Access.{matches}

-- The line that answers for a tag.
unfoldable pub find : ℕ → List Line → Option Line
find tag [] = none
find tag (line ∷ lines) = if matches tag line then some line else find tag lines

-- The address of word `k` in the block that a tag and an index name.
abbrev pub word_addr : ℕ → ℕ → ℕ → ℕ
word_addr tag index k = tag * 2 ^ 8 + index * 2 ^ 4 + k * 4

-- No two lines have the same tag.
abbrev pub Distinct : List Line → Type 0
Distinct [] = Unit {0}
Distinct (line ∷ lines) = All (λ other. other.tag ≢ line.tag) lines × Distinct lines

module _ {Space : Type 0} (M : Memory Space) where
  open M use {read_word}

  -- A line of set `index`: a clean line holds what the memory holds.
  pub record LineIsOk (s : Space) (index : ℕ) (line : Line) : Type 0 where
    pub in_use : line.valid ≡ true
    pub tag_fits : line.tag < 2 ^ 24
    pub four : length line.words ≡ 4
    pub fits : (k : ℕ) → get_or line.words k 0 < 2 ^ 32
    pub clean :
        line.dirty ≡ false
        → (k : ℕ) → k < 4
        → get_or line.words k 0 ≡ read_word s (word_addr line.tag index k)

  pub record SetIsOk (s : Space) (index : ℕ) (set : CacheSet) : Type 0 where
    pub counted : set.n ≡ length set.lines
    pub bounded : set.n ≤ set_num
    pub each : All (LineIsOk s index) set.lines
    pub distinct : Distinct set.lines

  abbrev pub IsCoherent : Cache → Space → Type 0
  IsCoherent c s = (i : ℕ) → i < 16 → SetIsOk s i (c.sets i)

  -- What one set, or the memory behind it, holds at an address of that set.
  unfoldable pub view_set : List Line → Space → ℕ → ℕ
  unfolding find
  view_set lines s a = elim (find (addr_tag a) lines) [
    | none ↦ read_word s a
    | some line ↦ get_or line.words (addr_offset a / 4) 0
  ]

  pub view_set-some :
      (lines : List Line) (s : Space) (a : ℕ) (l : Line)
      → find (addr_tag a) lines ≡ some l
      → view_set lines s a ≡ get_or l.words (addr_offset a / 4) 0
  unfolding view_set
  view_set-some lines s a l h = ground arith

  pub view_set-none :
      (lines : List Line) (s : Space) (a : ℕ)
      → find (addr_tag a) lines ≡ none
      → view_set lines s a ≡ read_word s a
  unfolding view_set
  view_set-none lines s a h = ground arith

  -- The word that the program sees at an address.
  abbrev pub view : Cache → Space → ℕ → ℕ
  view c s a = view_set (c.sets (addr_index a)).lines s a
