-- ===== src/Cache/Hit.antt =====
-- What an access through the cache promises, and that a hit keeps it.
use computer_architecture.Base.{
  ℕ, ◌/◌, ◌≡◌, refl, sym, ◌∙◌, ap, ap₂, some, get_or, arith, ◌==◌, ◌&&◌, if◌then◌else◌, update,
  update_self,
}
use computer_architecture.Memory.{Memory, IsAligned}
use computer_architecture.Cache.Line.{Line, CacheWordFunc, addr_tag, addr_index, addr_offset}
use computer_architecture.Cache.Set.{CacheSet, Cache}
use computer_architecture.Cache.Access.{Outcome, count_ref}
use computer_architecture.Cache.Coherent.{find, LineIsOk, SetIsOk, IsCoherent, view_set-some, view}
use computer_architecture.Cache.Block.{}
use computer_architecture.Cache.Search.{replace, length-replace, find-All, find-tag}
use computer_architecture.Cache.Step.{
  Behaves, Behaves-LineIsOk, count_ref-LineIsOk, view-SetStep, IsCoherent-SetStep,
}
use computer_architecture.Cache.Change.{hit-SetStep}
use computer_architecture.Cache.Branches.{hit_outcome}

pub kept-update :
    (sets : ℕ → CacheSet) (i tag : ℕ) (set' set : CacheSet) (new : Line)
    → set ≡ update sets i set' i
    → find tag set'.lines ≡ some new
    → find tag set.lines ≡ some new
kept-update sets i tag set' set new e f =
    ap (λ (x : CacheSet). find tag x.lines) (e ∙ update_self sets i set') ∙ f

module _ {Space : Type 0} (M : Memory Space) where
  -- What an access at `a` promises: it works on a line that holds the block of `a`, returns
  -- what the function makes of the word, and the program sees that block changed and no other.
  pub record Answers (c : Cache) (s : Space) (a word : ℕ) (func : CacheWordFunc) (r : Outcome Space)
      : Type 0 where
    pub line : Line
    pub well_formed : LineIsOk M s (addr_index a) line
    pub holds :
        (b : ℕ)
        → IsAligned b
        → addr_tag b ≡ addr_tag a
        → addr_index b ≡ addr_index a
        → get_or line.words (addr_offset b / 4) 0 ≡ view M c s b
    pub returns : r.word ≡ (func line word (addr_offset a)).1
    pub views :
        (b : ℕ)
        → IsAligned b
        → view M r.cache r.space b ≡ (
            if addr_tag b == addr_tag a && addr_index b == addr_index a
            then get_or (func line word (addr_offset a)).0.words (addr_offset b / 4) 0
            else view M c s b)
    pub kept :
        find (addr_tag a) (r.cache.sets (addr_index a)).lines
        ≡ some (func line word (addr_offset a)).0
    pub coherent : IsCoherent M r.cache r.space

  module _ (c : Cache) (s : Space) (a word : ℕ) (func : CacheWordFunc) where
    abbrev here : CacheSet
    here = c.sets (addr_index a)

    abbrev outcome : Line → Outcome Space
    outcome = hit_outcome M c s a word func

    module _ (ok : IsCoherent M c s) (h : IsAligned a) (b : Behaves func word (addr_offset a)) where
      abbrev here_ok : SetIsOk M s (addr_index a) here
      here_ok = ok (addr_index a) (omega arith)

      found-view :
          (l : Line)
          → find (addr_tag a) here.lines ≡ some l
          → (x : ℕ) → addr_tag x ≡ addr_tag a
          → addr_index x ≡ addr_index a
          → get_or l.words (addr_offset x / 4) 0 ≡ view M c s x
      found-view l f x e e' = sym (
          view_set-some M (c.sets (addr_index x)).lines s x l
            (ap₂ (λ t i. find t (c.sets i).lines) e e' ∙ f))

      pub Answers-hit :
          (l : Line) → find (addr_tag a) here.lines ≡ some l → Answers c s a word func (outcome l)
      Answers-hit l f =
          let l_ok =
            count_ref-LineIsOk M s (addr_index a) l
              (find-All (LineIsOk M s (addr_index a)) (addr_tag a) here.lines l here_ok.each f) in
          let new = (func (count_ref l) word (addr_offset a)).0 in
          let same : new.tag ≡ addr_tag a =
            b.keeps_tag (count_ref l) ∙ find-tag (addr_tag a) here.lines l f in
          let step =
            hit-SetStep M s (addr_index a) (addr_tag a) new same here.lines l
              (Behaves-LineIsOk M func word (addr_offset a) b s (addr_index a) (count_ref l) l_ok)
              here_ok.each here_ok.distinct (omega (arith, here_ok.counted, here_ok.bounded)) f in
          let set' : CacheSet = record here { lines = replace (addr_tag a) new here.lines } in
          record {
            line = count_ref l;
            well_formed = l_ok;
            holds = λ x _ e e'. found-view l f x e e';
            returns = refl;
            views =
                view-SetStep M c (outcome l).cache s s (addr_index a) (addr_tag a) new set' step
                  (λ i. refl);
            kept =
                kept-update c.sets (addr_index a) (addr_tag a) set'
                  ((outcome l).cache.sets (addr_index a)) new refl step.found;
            coherent =
                IsCoherent-SetStep M c (outcome l).cache s s (addr_index a) (addr_tag a) new set'
                  step (λ i. refl)
                  (here_ok.counted ∙ sym (length-replace (addr_tag a) new same here.lines)) ok;
          }
