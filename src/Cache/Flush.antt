-- ===== src/Cache/Flush.antt =====
-- `cache_flush`: the memory is brought up to date, set by set and line by line.
use computer_architecture.Base.{
  ℕ, ◌<◌, ◌≡◌, ◌≢◌, refl, sym, ap₂, ◌∙◌, false, List, [], ◌∷◌, get_or, All, All-map, All-both,
  arith, if◌then◌else◌, Bool-cases, inl, inr,
}
use computer_architecture.Memory.{Memory, IsAligned}
use computer_architecture.Cache.Line.{Line, addr_tag, addr_index, cache_write_back}
use computer_architecture.Cache.Access.{flush_lines}
use computer_architecture.Cache.Coherent.{word_addr, Distinct, LineIsOk}
use computer_architecture.Cache.Block.{
  word_addr-IsAligned, read-cache_write_back_eq, read-cache_write_back_ne,
}
use computer_architecture.Cache.Step.{LineIsOk-frame}

-- A line with the `dirty` bit cleared.
abbrev pub cleaned : Line → Line
cleaned line = record line { dirty = false }

abbrev pub clean_all : List Line → List Line
clean_all [] = []
clean_all (line ∷ lines) = cleaned line ∷ clean_all lines

module _ {Space : Type 0} (M : Memory Space) (index : ℕ) (small : index < 16) where
  open M use {read_word}

  -- Every block of a line of the set, and no other, reads as that line after the inner loop.
  pub record Flushed (lines : List Line) (s s' : Space) : Type 0 where
    pub written :
        All
          (λ l. (k : ℕ) → k < 4 → read_word s' (word_addr l.tag index k) ≡ get_or l.words k 0)
          lines
    pub rest :
        (b : ℕ)
        → IsAligned b
        → (addr_index b ≡ index → All (λ l. l.tag ≢ addr_tag b) lines)
        → read_word s' b ≡ read_word s b

  flush_one :
      (s : Space) (line : Line)
      → LineIsOk M s index line
      → Flushed (line ∷ []) s (if line.dirty then cache_write_back M line index s else (line, s)).1
  flush_one s line ok = elim (Bool-cases line.dirty) [
    | inl d ↦ simp d (record {
      written = (read-cache_write_back_eq M s index line small ok, tt);
      rest = λ b h other.
          read-cache_write_back_ne M s index line small ok b h (λ e e'. (other e').0 (sym e));
    })
    | inr d ↦
        simp d (record { written = ((λ k p. sym (ok.clean d k p)), tt); rest = λ b h other. refl })
  ]

  flush_line :
      (s : Space) (line : Line)
      → (if line.dirty then cache_write_back M line index s else (line, s)).0 ≡ cleaned line
  unfolding cache_write_back
  flush_line s line = ground arith

  keep_after :
      (lines : List Line) (s s' : Space)
      → Flushed lines s s'
      → (l : Line) → All (λ other. other.tag ≢ l.tag) lines
      → LineIsOk M s index l
      → LineIsOk M s' index l
  keep_after lines s s' fl l apart ok =
      LineIsOk-frame M s s' index l
        (λ k p.
          fl.rest (word_addr l.tag index k) (word_addr-IsAligned l.tag index k ok.tag_fits small p)
            (λ _. All-map lines (λ other ne e. ne (omega (arith, ok.tag_fits))) apart))
        ok

  -- The inner loop clears every dirty bit and saves every line.
  pub flush_lines-Flushed :
      (lines : List Line) (s : Space)
      → All (LineIsOk M s index) lines
      → Distinct lines
      → ((flush_lines M index lines s).0 ≡ clean_all lines)
        × Flushed lines s (flush_lines M index lines s).1
  unfolding flush_lines
  flush_lines-Flushed [] s ok d = (refl, record { written = tt; rest = λ b h other. refl })
  flush_lines-Flushed (line ∷ lines) s ok d =
      let s' = (if line.dirty then cache_write_back M line index s else (line, s)).1 in
      let one = flush_one s line ok.0 in
      let ok' =
        All-both (LineIsOk M s index) (λ l. l.tag ≢ line.tag) lines
          (λ l fine ne. keep_after (line ∷ []) s s' one l ((λ e. ne (sym e)), tt) fine) ok.1 d.0 in
      let (cleared, more) = flush_lines-Flushed lines s' ok' d.1 in
      (
        ap₂ (◌∷◌) (flush_line s line) cleared,
        record {
          written = (
            λ k p.
                more.rest (word_addr line.tag index k)
                  (word_addr-IsAligned line.tag index k ok.0.tag_fits small p)
                  (λ _. All-map lines (λ l ne e. ne (omega (arith, ok.0.tag_fits))) d.0)
                ∙ one.written.0 k p,
            more.written,
          );
          rest =
              λ b h other. more.rest b h (λ e. (other e).1) ∙ one.rest b h (λ e. ((other e).0, tt));
        },
      )
