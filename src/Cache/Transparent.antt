-- ===== src/Cache/Transparent.antt =====
-- An access through the cache, on both branches: what it returns, and what the program sees
-- after it.
use computer_architecture.Base.{
  ℕ, suc, ◌+◌, ◌-◌, ◌/◌, ◌%◌, ◌^◌, ◌<◌, ◌≡◌, ◌≢◌, refl, sym, subst, tests, lt→ltb, List-cases, ◌∙◌,
  ap, ap₂, true, false, none, List, [], ◌∷◌, ◌++◌, length, length-append, get_or, All, All-map,
  arith, ◌==◌, ltb, if◌then◌else◌, update, Option-cases, Bool-cases, inl, inr,
}
use mathlib.Core.Bool.{false≢true}
use computer_architecture.Base.Word.{u32}
use computer_architecture.Memory.{Memory, IsAligned}
use computer_architecture.Cache.Line.{
  Line, CacheWordFunc, addr_tag, addr_index, addr_offset, malloc_cache_line,
}
use computer_architecture.Cache.Set.{CacheSet, Cache, set_num, save_head}
use computer_architecture.Cache.Access.{fill, cache_access}
use computer_architecture.Cache.Coherent.{
  find, word_addr, Distinct, LineIsOk, SetIsOk, IsCoherent, view_set-none, view,
}
use computer_architecture.Cache.Block.{
  word_addr_parts, malloc_cache_line_get, malloc_cache_line-tag, malloc_cache_line-LineIsOk,
}
use computer_architecture.Cache.Search.{find-eq-none}
use computer_architecture.Cache.Step.{
  Behaves, Behaves-LineIsOk, SetStep, view-SetStep, IsCoherent-SetStep,
}
use computer_architecture.Cache.Change.{evict-SetStep, queue-SetStep}
use computer_architecture.Cache.Branches.{cache_access_hit, searched, cache_access_miss}
use computer_architecture.Cache.Hit.{Answers, kept-update, Answers-hit}

module _ {Space : Type 0} (M : Memory Space) where
  open M use {read_word}

  module _ (c : Cache) (s : Space) (a word : ℕ) (func : CacheWordFunc) where
    abbrev here : CacheSet
    here = c.sets (addr_index a)

    abbrev looked : Cache
    looked = searched M c s a word func

    module _ (ok : IsCoherent M c s) (h : IsAligned a) (b : Behaves func word (addr_offset a)) where
      abbrev here_ok : SetIsOk M s (addr_index a) here
      here_ok = ok (addr_index a) (omega arith)

      abbrev fresh : Line
      fresh = malloc_cache_line M s (a - a % 2 ^ 4)

      absent-view :
          find (addr_tag a) here.lines ≡ none
          → (x : ℕ) → IsAligned x
          → addr_tag x ≡ addr_tag a
          → addr_index x ≡ addr_index a
          → get_or fresh.words (addr_offset x / 4) 0 ≡ view M c s x
      absent-view f x hx e e' =
          malloc_cache_line_get M s a h (addr_offset x / 4) (omega arith)
          ∙ ap (λ y. read_word s y)
              (ap₂ (λ t i. word_addr t i (addr_offset x / 4)) (sym e) (sym e')
                ∙ word_addr_parts x hx)
          ∙ sym (
              view_set-none M (c.sets (addr_index x)).lines s x
                (ap₂ (λ t i. find t (c.sets i).lines) e e' ∙ f))

      module _ (f : find (addr_tag a) here.lines ≡ none) where
        abbrev new : Line
        new = (func fresh word (addr_offset a)).0

        new-LineIsOk : LineIsOk M s (addr_index a) new
        new-LineIsOk =
            Behaves-LineIsOk M func word (addr_offset a) b s (addr_index a) fresh
              (malloc_cache_line-LineIsOk M s a h)

        new-tag : new.tag ≡ addr_tag a
        new-tag = b.keeps_tag fresh ∙ malloc_cache_line-tag M s a h

        absent : All (λ l. l.tag ≢ addr_tag a) here.lines
        absent =
            find-eq-none (addr_tag a) here.lines (All-map here.lines (λ l k. k.in_use) here_ok.each)
              f

        -- Once the step of the set is known, the rest follows.
        Answers-fill :
            (c' : Cache) (s' : Space) (lines' : List Line) (n' : ℕ)
            → SetStep M (addr_index a) (addr_tag a) new here.lines lines' s s'
            → n' ≡ length lines'
            → ((i : ℕ)
                → c'.sets i
                  ≡ (if i == addr_index a then record { lines = lines'; n = n' } else c.sets i))
            → Answers M c s a word func (record {
              cycles = 10;
              cache = c';
              space = s';
              word = (func fresh word (addr_offset a)).1;
            })
        Answers-fill c' s' lines' n' step counted moves = record {
          line = fresh;
          well_formed = malloc_cache_line-LineIsOk M s a h;
          holds = absent-view f;
          returns = refl;
          views =
              view-SetStep M c c' s s' (addr_index a) (addr_tag a) new
                (record { lines = lines'; n = n' }) step moves;
          kept =
              kept-update c.sets (addr_index a) (addr_tag a) (record { lines = lines'; n = n' })
                (c'.sets (addr_index a)) new (moves (addr_index a)) step.found;
          coherent =
              IsCoherent-SetStep M c c' s s' (addr_index a) (addr_tag a) new
                (record { lines = lines'; n = n' }) step moves counted ok;
        }

        -- The cache after the miss, with `set'` in the place of the set.
        abbrev filled : CacheSet → ℕ → ℕ → Cache
        filled set' replace' wb' = record looked {
          miss = u32 (c.miss + 1);
          sets = update looked.sets (addr_index a) set';
          replace = replace';
          wb = wb';
        }

        filled-sets :
            (set' : CacheSet) (replace' wb' i : ℕ)
            → (filled set' replace' wb').sets i ≡ (if i == addr_index a then set' else c.sets i)
        filled-sets set' replace' wb' i = ground arith

        Answers-room :
            ltb here.n set_num ≡ true → Answers M c s a word func (fill M looked s a word func)
        Answers-room room =
            let set' : CacheSet = record { lines = here.lines ++ new ∷ []; n = here.n + 1 } in
            let few : length here.lines < set_num = omega (tests, here_ok.counted) in
            subst (Answers M c s a word func) (sym eq) (
              Answers-fill (filled set' c.replace c.wb) s set'.lines set'.n
                (queue-SetStep M s (addr_index a) (addr_tag a) new new-tag here.lines new-LineIsOk
                  here_ok.each here_ok.distinct absent few)
                (omega (arith, here_ok.counted, length-append here.lines (new ∷ [])))
                (filled-sets set' c.replace c.wb))
          where
            eq : fill M looked s a word func ≡ record {
              cycles = 10;
              cache =
                  filled (record { lines = here.lines ++ new ∷ []; n = here.n + 1 }) c.replace c.wb;
              space = s;
              word = (func fresh word (addr_offset a)).1;
            }
            eq = unfold fill in ground arith

        Answers-full :
            (head : Line) (rest : List Line)
            → here.lines ≡ head ∷ rest
            → ltb here.n set_num ≡ false
            → Answers M c s a word func (fill M looked s a word func)
        Answers-full head rest e full =
            let each = subst (All (LineIsOk M s (addr_index a))) e here_ok.each in
            let set' : CacheSet = record { lines = rest ++ new ∷ []; n = here.n - 1 + 1 } in
            let counted : here.n ≡ suc (length rest) = here_ok.counted ∙ ap length e in
            let step =
              evict-SetStep M s (addr_index a) (addr_tag a) new new-tag head rest c.wb (omega arith)
                each.0 new-LineIsOk each.1 (subst Distinct e here_ok.distinct)
                (subst (All (λ l. l.tag ≢ addr_tag a)) e absent) (omega (arith, here_ok.bounded)) in
            subst (Answers M c s a word func) (sym eq) (
              Answers-fill
                (filled set' (u32 (c.replace + 1))
                  (save_head M (head ∷ rest) (addr_index a) c.wb s).0)
                (save_head M (head ∷ rest) (addr_index a) c.wb s).1 set'.lines set'.n
                (subst
                  (λ ls.
                    SetStep M (addr_index a) (addr_tag a) new ls (rest ++ new ∷ []) s
                      (save_head M (head ∷ rest) (addr_index a) c.wb s).1)
                  (sym e) step)
                (omega (arith, counted, length-append rest (new ∷ [])))
                (filled-sets set' (u32 (c.replace + 1))
                  (save_head M (head ∷ rest) (addr_index a) c.wb s).0))
          where
            eq : fill M looked s a word func ≡ record {
              cycles = 10;
              cache =
                  filled
                    (record { lines = rest ++ new ∷ []; n = here.n - 1 + 1 })
                    (u32 (c.replace + 1))
                    (save_head M (head ∷ rest) (addr_index a) c.wb s).0;
              space = (save_head M (head ∷ rest) (addr_index a) c.wb s).1;
              word = (func fresh word (addr_offset a)).1;
            }
            eq = unfold fill in ground arith

        no_head : here.lines ≡ [] → ltb here.n set_num ≡ true
        no_head e = lt→ltb _ _ (omega (arith, here_ok.counted, ap length e))

        Answers-absent : Answers M c s a word func (fill M looked s a word func)
        Answers-absent = elim (Bool-cases (ltb here.n set_num)) [
          | inl room ↦ Answers-room room
          | inr full ↦ elim (List-cases here.lines) [
            | inl e ↦ absurd (false≢true (sym full ∙ no_head e))
            | inr (head, rest, e) ↦ Answers-full head rest e full
          ]
        ]

      pub cache_access-Answers : Answers M c s a word func (cache_access M c s a word func)
      cache_access-Answers = elim (Option-cases (find (addr_tag a) here.lines)) [
        | inl f ↦
            subst (Answers M c s a word func) (sym (cache_access_miss M c s a word func f))
              (Answers-absent f)
        | inr (l, f) ↦
            subst (Answers M c s a word func)
              (sym (cache_access_hit M c s a word func l here_ok.distinct f))
              (Answers-hit M c s a word func ok h b l f)
      ]
