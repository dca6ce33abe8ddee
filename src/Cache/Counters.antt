-- ===== src/Cache/Counters.antt =====
-- What `cache_access` counts, and the cycles that it returns.
use computer_architecture.Base.{
  ℕ, ◌+◌, ◌≡◌, refl, sym, subst, inl, inr, Bool, true, false, none, some, arith, Option-cases,
}
use computer_architecture.Base.Word.{u32}
use computer_architecture.Memory.{Memory}
use computer_architecture.Cache.Line.{Line, CacheWordFunc, addr_tag, addr_index}
use computer_architecture.Cache.Set.{Cache}
use computer_architecture.Cache.Access.{Outcome, cache_access, fill}
use computer_architecture.Cache.Coherent.{find, Distinct}
use computer_architecture.Cache.Branches.{
  cache_access_hit, cache_access_miss, hit_outcome, searched,
}

-- The counters agree: every access is a hit or a miss, up to the wrap of the counters.
abbrev pub IsCounted : Cache → Type 0
IsCounted c = c.access ≡ u32 (c.hit + c.miss)

-- The cost of an access and the counters after it, by whether the block is in the cache.
abbrev pub Counts : Cache → ℕ → Cache → Bool → Type 0
Counts c cycles c' true =
    (cycles ≡ 1)
    × (c'.access ≡ u32 (c.access + 1))
    × (c'.hit ≡ u32 (c.hit + 1))
    × (c'.miss ≡ c.miss)
    × (c'.replace ≡ c.replace)
    × (c'.wb ≡ c.wb)
Counts c cycles c' false =
    (cycles ≡ 10)
    × (c'.access ≡ u32 (c.access + 1))
    × (c'.hit ≡ c.hit)
    × (c'.miss ≡ u32 (c.miss + 1))

module _ {Space : Type 0} (M : Memory Space) (c : Cache) (s : Space) (a word : ℕ)
    (func : CacheWordFunc) where
  abbrev pub present : Bool
  present = elim (find (addr_tag a) (c.sets (addr_index a)).lines) [ none ↦ false | some l ↦ true ]

  present-none : find (addr_tag a) (c.sets (addr_index a)).lines ≡ none → present ≡ false
  present-none f = ground arith

  present-some :
      (l : Line) → find (addr_tag a) (c.sets (addr_index a)).lines ≡ some l → present ≡ true
  present-some l f = ground arith

  fill-Counts :
      Counts c
        (fill M (searched M c s a word func) s a word func).cycles
        (fill M (searched M c s a word func) s a word func).cache
        false
  unfolding fill
  fill-Counts = ground arith

  -- With no tag twice in the set: an access costs one cycle and counts a hit if the block is in
  -- the cache, and ten cycles and a miss if it is not.
  pub cache_access-Counts :
      Distinct (c.sets (addr_index a)).lines
      → Counts c
          (cache_access M c s a word func).cycles
          (cache_access M c s a word func).cache
          present
  cache_access-Counts d = elim (Option-cases (find (addr_tag a) (c.sets (addr_index a)).lines)) [
    | inl f ↦
        subst (λ (r : Outcome Space). Counts c r.cycles r.cache present)
          (sym (cache_access_miss M c s a word func f))
          (subst
            (Counts c (fill M (searched M c s a word func) s a word func).cycles
              (fill M (searched M c s a word func) s a word func).cache)
            (sym (present-none f)) fill-Counts)
    | inr (l, f) ↦
        subst (λ (r : Outcome Space). Counts c r.cycles r.cache present)
          (sym (cache_access_hit M c s a word func l d f))
          (subst (Counts c 1 (hit_outcome M c s a word func l).cache) (sym (present-some l f))
            (refl, refl, refl, refl, refl, refl))
  ]

  -- With no tag twice in the set, an access keeps the counters in agreement: if the accesses are
  -- the hits and the misses together, modulo 2 ^ 32, they are so after it.
  pub cache_access-IsCounted :
      Distinct (c.sets (addr_index a)).lines
      → IsCounted c
      → IsCounted (cache_access M c s a word func).cache
  cache_access-IsCounted d h =
      counted (cache_access M c s a word func).cycles (cache_access M c s a word func).cache present
        (cache_access-Counts d)
    where
      counted : (k : ℕ) (c' : Cache) (b : Bool) → Counts c k c' b → IsCounted c'
      counted k c' true n = omega arith
      counted k c' false n = omega arith
