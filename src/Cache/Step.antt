-- ===== src/Cache/Step.antt =====
-- What an access does to one set and the memory behind it, and what that means for the cache.
use computer_architecture.Base.{
  ℕ, ◌/◌, ◌^◌, ◌≤◌, ◌<◌, ◌≡◌, ◌≢◌, sym, subst, ◌∙◌, false, some, List, length, get_or, All, All-map,
  arith, ◌==◌, ◌&&◌, if◌then◌else◌,
}
use native.Mathlib.Decide.{ℕ_discrete}
use computer_architecture.Memory.{Memory, IsAligned}
use computer_architecture.Cache.Line.{Line, CacheWordFunc, addr_tag, addr_index, addr_offset}
use computer_architecture.Cache.Set.{CacheSet, Cache, set_num}
use computer_architecture.Cache.Access.{count_ref}
use computer_architecture.Cache.Coherent.{
  find, word_addr, Distinct, LineIsOk, SetIsOk, IsCoherent, view_set, view,
}
use computer_architecture.Cache.Block.{word_addr-IsAligned}

-- What `cache_access` relies on in the function that it is given, at an aligned offset.
pub record Behaves (func : CacheWordFunc) (word offset : ℕ) : Type 0 where
  pub keeps_tag : (l : Line) → (func l word offset).0.tag ≡ l.tag
  pub keeps_valid : (l : Line) → (func l word offset).0.valid ≡ l.valid
  pub keeps_length : (l : Line) → length (func l word offset).0.words ≡ length l.words
  pub keeps_fits :
      (l : Line)
      → length l.words ≡ 4
      → ((k : ℕ) → get_or l.words k 0 < 2 ^ 32)
      → (k : ℕ) → get_or (func l word offset).0.words k 0 < 2 ^ 32
  pub keeps_clean :
      (l : Line)
      → (func l word offset).0.dirty ≡ false
      → (l.dirty ≡ false) × ((func l word offset).0.words ≡ l.words)

module _ {Space : Type 0} (M : Memory Space) where
  open M use {read_word}

  pub count_ref-LineIsOk :
      (s : Space) (i : ℕ) (l : Line) → LineIsOk M s i l → LineIsOk M s i (count_ref l)
  count_ref-LineIsOk s i l ok = record {
    in_use = ok.in_use;
    tag_fits = ok.tag_fits;
    four = ok.four;
    fits = ok.fits;
    clean = ok.clean;
  }

  pub Behaves-LineIsOk :
      (func : CacheWordFunc) (word offset : ℕ)
      → Behaves func word offset
      → (s : Space) (i : ℕ) (l : Line) → LineIsOk M s i l
      → LineIsOk M s i (func l word offset).0
  Behaves-LineIsOk func word offset b s i l ok = record {
    in_use = b.keeps_valid l ∙ ok.in_use;
    tag_fits = rw (b.keeps_tag l) ok.tag_fits;
    four = b.keeps_length l ∙ ok.four;
    fits = b.keeps_fits l ok.four ok.fits;
    clean =
        λ d k p. let kept = b.keeps_clean l d in rw (kept.1, b.keeps_tag l) (ok.clean kept.0 k p);
  }

  -- A line stays well-formed while its block of the memory does not change.
  pub LineIsOk-frame :
      (s s' : Space) (i : ℕ) (l : Line)
      → ((k : ℕ) → k < 4 → read_word s' (word_addr l.tag i k) ≡ read_word s (word_addr l.tag i k))
      → LineIsOk M s i l
      → LineIsOk M s' i l
  LineIsOk-frame s s' i l same ok = record {
    in_use = ok.in_use;
    tag_fits = ok.tag_fits;
    four = ok.four;
    fits = ok.fits;
    clean = λ d k p. ok.clean d k p ∙ sym (same k p);
  }

  -- From set `lines` over `s` to set `lines'` over `s'`: the block of `tag` now reads as the line
  -- `new`, and all else as before.
  pub record SetStep (index tag : ℕ) (new : Line) (lines lines' : List Line) (s s' : Space)
      : Type 0 where
    pub each : All (LineIsOk M s' index) lines'
    pub distinct : Distinct lines'
    pub bounded : length lines' ≤ set_num
    pub found : find tag lines' ≡ some new
    pub elsewhere : (b : ℕ) → IsAligned b → addr_index b ≢ index → read_word s' b ≡ read_word s b
    pub reads :
        (b : ℕ)
        → IsAligned b
        → addr_index b ≡ index
        → view_set M lines' s' b ≡ (
            if addr_tag b == tag
            then get_or new.words (addr_offset b / 4) 0
            else view_set M lines s b)

  module _ (c c' : Cache) (s s' : Space) (index tag : ℕ) (new : Line) (set' : CacheSet)
      (step : SetStep index tag new (c.sets index).lines set'.lines s s')
      (moves : (i : ℕ) → c'.sets i ≡ (if i == index then set' else c.sets i)) where
    view_set-frame :
        (lines : List Line) (b : ℕ)
        → IsAligned b
        → addr_index b ≢ index
        → view_set M lines s' b ≡ view_set M lines s b
    unfolding view_set
    view_set-frame lines b h ne = ground (arith, step.elsewhere b h ne)

    pub view-SetStep :
        (b : ℕ)
        → IsAligned b
        → view M c' s' b ≡ (
            if addr_tag b == tag && addr_index b == index
            then get_or new.words (addr_offset b / 4) 0
            else view M c s b)
    view-SetStep b h = elim (ℕ_discrete (addr_index b) index) [
      | yes e ↦ ground (arith, moves (addr_index b), step.reads b h e)
      | no ne ↦
          ground (arith, moves (addr_index b), view_set-frame (c.sets (addr_index b)).lines b h ne)
    ]

    pub IsCoherent-SetStep : set'.n ≡ length set'.lines → IsCoherent M c s → IsCoherent M c' s'
    IsCoherent-SetStep counted ok i p = elim (ℕ_discrete i index) [
      | yes e ↦ subst (SetIsOk M s' i) (sym (moves i ∙ ground arith)) (record {
        counted = counted;
        bounded = omega (arith, counted, step.bounded);
        each = subst (λ x. All (LineIsOk M s' x) set'.lines) (sym e) step.each;
        distinct = step.distinct;
      })
      | no ne ↦
          let old = ok i p in
          subst (SetIsOk M s' i) (sym (moves i ∙ ground arith)) (record {
            counted = old.counted;
            bounded = old.bounded;
            each =
                All-map (c.sets i).lines
                  (λ l fine.
                    LineIsOk-frame s s' i l
                      (λ k q.
                        step.elsewhere (word_addr l.tag i k)
                          (word_addr-IsAligned l.tag i k fine.tag_fits p q)
                          (λ e. ne (omega (arith, fine.tag_fits))))
                      fine)
                  old.each;
            distinct = old.distinct;
          })
    ]
