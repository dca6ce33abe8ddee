-- ===== src/Cache/Fifo.antt =====
-- The replacement order of a set, against the queue of tags that the cache design describes
-- (Project2/cache_architecture.md): a hit moves nothing, a miss queues the new tag, and the tag
-- that came first leaves a full set.
use computer_architecture.Base.{
  ℕ, suc, ◌-◌, ◌%◌, ◌^◌, ◌≡◌, ◌≢◌, refl, sym, subst, ap, ◌∙◌, Bool, true, false, none, some, List,
  [], ◌∷◌, ◌++◌, length, All, All-map, update_self, arith, ◌==◌, ltb, if◌then◌else◌, Option-cases,
  inl, inr,
}
use computer_architecture.Memory.{Memory, IsAligned}
use computer_architecture.Cache.Line.{
  Line, CacheWordFunc, addr_tag, addr_index, addr_offset, malloc_cache_line,
}
use computer_architecture.Cache.Set.{Cache, CacheSet, set_num, drop_head}
use computer_architecture.Cache.Access.{Outcome, cache_access, fill, count_ref}
use computer_architecture.Cache.Block.{malloc_cache_line-tag}
use computer_architecture.Cache.Coherent.{find, IsCoherent}
use computer_architecture.Cache.Search.{replace, find-tag}
use computer_architecture.Cache.Step.{Behaves}
use computer_architecture.Cache.Branches.{
  cache_access_hit, cache_access_miss, hit_outcome, searched,
}

abbrev pub tags : List Line → List ℕ
tags [] = []
tags (line ∷ lines) = line.tag ∷ tags lines

abbrev pub contains : ℕ → List ℕ → Bool
contains t [] = false
contains t (u ∷ us) = if t == u then true else contains t us

abbrev pub tail : List ℕ → List ℕ
tail [] = []
tail (t ∷ ts) = ts

-- The queue after a request for a tag.
unfoldable pub fifo : ℕ → List ℕ → List ℕ
fifo t ts =
    if contains t ts then ts else (if ltb (length ts) set_num then ts else tail ts) ++ t ∷ []

tags-replace :
    (tag : ℕ) (new : Line) (lines : List Line)
    → new.tag ≡ tag
    → tags (replace tag new lines) ≡ tags lines
unfolding replace
tags-replace tag new [] e = refl
tags-replace tag new (line ∷ lines) e = ground (arith, tags-replace tag new lines)

tags-append :
    (lines : List Line) (new : Line) → tags (lines ++ new ∷ []) ≡ tags lines ++ new.tag ∷ []
tags-append [] new = refl
tags-append (line ∷ lines) new = ap (◌∷◌ line.tag) (tags-append lines new)

length-tags : (lines : List Line) → length (tags lines) ≡ length lines
length-tags [] = refl
length-tags (line ∷ lines) = ap suc (length-tags lines)

tags-drop_head : (lines : List Line) → tags (drop_head lines) ≡ tail (tags lines)
unfolding drop_head
tags-drop_head [] = refl
tags-drop_head (line ∷ lines) = refl

contains-find :
    (t : ℕ) (lines : List Line) (l : Line) → find t lines ≡ some l → contains t (tags lines) ≡ true
unfolding find
contains-find t [] l h = cc
contains-find t (line ∷ lines) l h = ground (arith, contains-find t lines l)

contains_absent :
    (t : ℕ) (lines : List Line)
    → All (λ l. l.valid ≡ true) lines
    → find t lines ≡ none
    → contains t (tags lines) ≡ false
unfolding find
contains_absent t [] v h = refl
contains_absent t (line ∷ lines) v h = ground (arith, contains_absent t lines)

module _ {Space : Type 0} (M : Memory Space) (c : Cache) (s : Space) (a word : ℕ)
    (func : CacheWordFunc) where
  abbrev old : List Line
  old = (c.sets (addr_index a)).lines

  abbrev hit_new : Line → Line
  hit_new l = (func (count_ref l) word (addr_offset a)).0

  abbrev miss_new : Line
  miss_new = (func (malloc_cache_line M s (a - a % 2 ^ 4)) word (addr_offset a)).0

  fill-lines :
      (length old ≡ (c.sets (addr_index a)).n)
      → ((fill M (searched M c s a word func) s a word func).cache.sets (addr_index a)).lines
        ≡ (if ltb (length old) set_num then old else drop_head old) ++ miss_new ∷ []
  unfolding fill
  fill-lines counted = ground arith

  fill-others :
      (i : ℕ)
      → i ≢ addr_index a
      → (fill M (searched M c s a word func) s a word func).cache.sets i ≡ c.sets i
  unfolding fill
  fill-others i ne = ground arith

  module _ (ok : IsCoherent M c s) (h : IsAligned a) (b : Behaves func word (addr_offset a)) where
    fifo_hit :
        (l : Line)
        → find (addr_tag a) old ≡ some l
        → tags ((hit_outcome M c s a word func l).cache.sets (addr_index a)).lines
          ≡ fifo (addr_tag a) (tags old)
    unfolding fifo
    fifo_hit l f =
        ap (λ (x : CacheSet). tags x.lines)
          (update_self c.sets (addr_index a)
            (record (c.sets (addr_index a)) { lines = replace (addr_tag a) (hit_new l) old }))
        ∙ tags-replace (addr_tag a) (hit_new l) old
            (b.keeps_tag (count_ref l) ∙ find-tag (addr_tag a) old l f)
        ∙ ground (arith, contains-find (addr_tag a) old l f)

    fifo_miss :
        find (addr_tag a) old ≡ none
        → tags ((fill M (searched M c s a word func) s a word func).cache.sets (addr_index a)).lines
          ≡ fifo (addr_tag a) (tags old)
    unfolding fifo
    fifo_miss f =
        let here = ok (addr_index a) (omega arith) in
        ap tags (fill-lines (sym here.counted))
        ∙ tags-append (if ltb (length old) set_num then old else drop_head old) miss_new
        ∙ ground (
          arith,
          contains_absent (addr_tag a) old (All-map old (λ l k. k.in_use) here.each) f,
          length-tags old,
          tags-drop_head old,
          b.keeps_tag (malloc_cache_line M s (a - a % 2 ^ 4)),
          malloc_cache_line-tag M s a h,
        )

    -- On a coherent cache and at an aligned address, for a function that keeps the tags: the set
    -- of the address changes as the first-in first-out queue of tags does, and no other set
    -- changes.
    pub cache_access-fifo :
        (tags ((cache_access M c s a word func).cache.sets (addr_index a)).lines
          ≡ fifo (addr_tag a) (tags old))
        × ((i : ℕ) → i ≢ addr_index a → (cache_access M c s a word func).cache.sets i ≡ c.sets i)
    cache_access-fifo = elim (Option-cases (find (addr_tag a) old)) [
      | inl f ↦
          subst
            (λ (r : Outcome Space).
              (tags (r.cache.sets (addr_index a)).lines ≡ fifo (addr_tag a) (tags old))
              × ((i : ℕ) → i ≢ addr_index a → r.cache.sets i ≡ c.sets i))
            (sym (cache_access_miss M c s a word func f)) (fifo_miss f, fill-others)
      | inr (l, f) ↦
          subst
            (λ (r : Outcome Space).
              (tags (r.cache.sets (addr_index a)).lines ≡ fifo (addr_tag a) (tags old))
              × ((i : ℕ) → i ≢ addr_index a → r.cache.sets i ≡ c.sets i))
            (sym
              (cache_access_hit M c s a word func l (ok (addr_index a) (omega arith)).distinct f))
            (fifo_hit l f, λ i ne. ground arith)
    ]
