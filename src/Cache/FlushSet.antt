-- ===== src/Cache/FlushSet.antt =====
-- One round of the outer loop of `cache_flush`: the lines of one set.
use computer_architecture.Base.{
  ℕ, suc, ◌/◌, ◌<◌, ◌≡◌, ◌≢◌, refl, sym, subst, ap, ap₂, ◌∙◌, false, none, some, List, [], ◌∷◌,
  length, get_or, All, All-map, All-both, arith, ◌==◌, if◌then◌else◌, update, update_self,
  Option-cases, inl, inr,
}
use native.Mathlib.Decide.{ℕ_discrete}
use computer_architecture.Memory.{Memory, IsAligned}
use computer_architecture.Cache.Line.{Line, addr_tag, addr_index, addr_offset}
use computer_architecture.Cache.Set.{Cache}
use computer_architecture.Cache.Access.{flush_lines}
use computer_architecture.Cache.Coherent.{
  find, word_addr, Distinct, LineIsOk, SetIsOk, IsCoherent, view_set, view_set-some, view_set-none,
  view,
}
use computer_architecture.Cache.Block.{word_addr-IsAligned, word_addr_parts}
use computer_architecture.Cache.Search.{find-tag, find-All, find-eq-none}
use computer_architecture.Cache.Step.{LineIsOk-frame}
use computer_architecture.Cache.Flush.{cleaned, clean_all, Flushed, flush_lines-Flushed}

find-clean_all :
    (q : ℕ) (lines : List Line) (l : Line)
    → find q lines ≡ some l
    → find q (clean_all lines) ≡ some (cleaned l)
unfolding find
find-clean_all q [] l h = cc
find-clean_all q (line ∷ lines) l h = ground (arith, find-clean_all q lines l)

find-clean_all-none :
    (q : ℕ) (lines : List Line) → find q lines ≡ none → find q (clean_all lines) ≡ none
unfolding find
find-clean_all-none q [] h = refl
find-clean_all-none q (line ∷ lines) h = ground (arith, find-clean_all-none q lines)

length-clean_all : (lines : List Line) → length (clean_all lines) ≡ length lines
length-clean_all [] = refl
length-clean_all (line ∷ lines) = ap suc (length-clean_all lines)

clean_all-All {ℓ} :
    (P : Line → Type ℓ) (Q : Line → Type ℓ) (lines : List Line)
    → ((l : Line) → P l → Q (cleaned l))
    → All P lines
    → All Q (clean_all lines)
clean_all-All P Q [] f h = tt
clean_all-All P Q (line ∷ lines) f h = (f line h.0, clean_all-All P Q lines f h.1)

clean_all-Distinct : (lines : List Line) → Distinct lines → Distinct (clean_all lines)
clean_all-Distinct [] d = tt
clean_all-Distinct (line ∷ lines) d = (
  clean_all-All (λ l. l.tag ≢ line.tag) (λ l. l.tag ≢ line.tag) lines (λ l p. p) d.0,
  clean_all-Distinct lines d.1,
)

-- No line of the set waits to be saved.
abbrev pub AllClean : List Line → Type 0
AllClean = All (λ l. l.dirty ≡ false)

pub clean_all-AllClean : (lines : List Line) → AllClean (clean_all lines)
clean_all-AllClean [] = tt
clean_all-AllClean (line ∷ lines) = (refl, clean_all-AllClean lines)

module _ {Space : Type 0} (M : Memory Space) where
  open M use {read_word}

  module _ (c : Cache) (s : Space) (i : ℕ) (small : i < 16) (ok : IsCoherent M c s) where
    abbrev lines : List Line
    lines = (c.sets i).lines

    abbrev after_lines : List Line
    after_lines = (flush_lines M i lines s).0

    abbrev pub after_space : Space
    after_space = (flush_lines M i lines s).1

    -- The cache after one round.
    abbrev pub after_set : Cache
    after_set = record c { sets = update c.sets i (record (c.sets i) { lines = after_lines }) }

    abbrev flushed : Flushed M i small lines s after_space
    flushed = (flush_lines-Flushed M i small lines s (ok i small).each (ok i small).distinct).1

    abbrev cleared : after_lines ≡ clean_all lines
    cleared = (flush_lines-Flushed M i small lines s (ok i small).each (ok i small).distinct).0

    pub elsewhere :
        (b : ℕ) → IsAligned b → addr_index b ≢ i → read_word after_space b ≡ read_word s b
    elsewhere b h ne = flushed.rest b h (λ e. absurd (ne e))

    -- The memory now holds what the set held.
    pub saved :
        (b : ℕ) → IsAligned b → addr_index b ≡ i → read_word after_space b ≡ view_set M lines s b
    saved b h e = elim (Option-cases (find (addr_tag b) lines)) [
      | inl f ↦
          flushed.rest b h (λ _.
            find-eq-none (addr_tag b) lines (All-map lines (λ l k. k.in_use) (ok i small).each) f)
          ∙ sym (view_set-none M lines s b f)
      | inr (l, f) ↦
          ap (λ x. read_word after_space x)
            (sym (word_addr_parts b h)
              ∙ ap₂ (λ t x. word_addr t x (addr_offset b / 4))
                  (sym (find-tag (addr_tag b) lines l f)) e)
          ∙ find-All
              (λ l.
                (k : ℕ) → k < 4 → read_word after_space (word_addr l.tag i k) ≡ get_or l.words k 0)
              (addr_tag b) lines l flushed.written f (addr_offset b / 4) (omega arith)
          ∙ sym (view_set-some M lines s b l f)
    ]

    same_view :
        (b : ℕ)
        → IsAligned b
        → addr_index b ≡ i
        → view_set M (clean_all lines) after_space b ≡ view_set M lines s b
    same_view b h e = elim (Option-cases (find (addr_tag b) lines)) [
      | inl f ↦
          view_set-none M (clean_all lines) after_space b (find-clean_all-none (addr_tag b) lines f)
          ∙ saved b h e
      | inr (l, f) ↦
          view_set-some M (clean_all lines) after_space b (cleaned l)
            (find-clean_all (addr_tag b) lines l f)
          ∙ sym (view_set-some M lines s b l f)
    ]

    frame :
        (lines' : List Line) (b : ℕ)
        → IsAligned b
        → addr_index b ≢ i
        → view_set M lines' after_space b ≡ view_set M lines' s b
    frame lines' b h ne = elim (Option-cases (find (addr_tag b) lines')) [
      | inl f ↦
          view_set-none M lines' after_space b f
          ∙ elsewhere b h ne
          ∙ sym (view_set-none M lines' s b f)
      | inr (l, f) ↦ view_set-some M lines' after_space b l f ∙ sym (view_set-some M lines' s b l f)
    ]

    pub after_set-lines :
        (j : ℕ) → (after_set.sets j).lines ≡ (if j == i then clean_all lines else (c.sets j).lines)
    after_set-lines j = ground (arith, cleared)

    pub after_set-view : (b : ℕ) → IsAligned b → view M after_set after_space b ≡ view M c s b
    after_set-view b h =
        ap (λ ls. view_set M ls after_space b) (after_set-lines (addr_index b))
        ∙ elim (ℕ_discrete (addr_index b) i) [
          | yes e ↦ ground (arith, same_view b h e)
          | no ne ↦ ground (arith, frame (c.sets (addr_index b)).lines b h ne)
        ]

    clean_ok :
        (l : Line)
        → LineIsOk M s i l
        → ((k : ℕ) → k < 4 → read_word after_space (word_addr l.tag i k) ≡ get_or l.words k 0)
        → LineIsOk M after_space i (cleaned l)
    clean_ok l fine held = record {
      in_use = fine.in_use;
      tag_fits = fine.tag_fits;
      four = fine.four;
      fits = fine.fits;
      clean = λ _ k p. sym (held k p);
    }

    clean_set-SetIsOk :
        SetIsOk M after_space i (record { lines = clean_all lines; n = (c.sets i).n })
    clean_set-SetIsOk =
        let old = ok i small in
        record {
          counted = old.counted ∙ sym (length-clean_all lines);
          bounded = old.bounded;
          each =
              clean_all-All (λ l. LineIsOk M after_space i (cleaned l)) (LineIsOk M after_space i)
                lines (λ l p. p)
                (All-both (LineIsOk M s i)
                  (λ l.
                    (k : ℕ)
                    → k < 4
                    → read_word after_space (word_addr l.tag i k) ≡ get_or l.words k 0)
                  lines clean_ok old.each flushed.written);
          distinct = clean_all-Distinct lines old.distinct;
        }

    pub after_set-IsCoherent : IsCoherent M after_set after_space
    after_set-IsCoherent j p = elim (ℕ_discrete j i) [
      | yes e ↦
          subst (λ x. SetIsOk M after_space x (after_set.sets x)) (sym e)
            (subst (SetIsOk M after_space i)
              (sym (
                update_self c.sets i (record (c.sets i) { lines = after_lines })
                ∙ ap (λ ls. record { lines = ls; n = (c.sets i).n }) cleared))
              clean_set-SetIsOk)
      | no ne ↦
          let old = ok j p in
          subst (SetIsOk M after_space j) (sym (ground arith)) (record {
            counted = old.counted;
            bounded = old.bounded;
            each =
                All-map (c.sets j).lines
                  (λ l fine.
                    LineIsOk-frame M s after_space j l
                      (λ k q.
                        elsewhere (word_addr l.tag j k)
                          (word_addr-IsAligned l.tag j k fine.tag_fits p q)
                          (λ e. ne (omega (arith, fine.tag_fits))))
                      fine)
                  old.each;
            distinct = old.distinct;
          })
    ]
