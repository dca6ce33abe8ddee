-- ===== src/Cache/FlushAll.antt =====
-- The outer loop of `cache_flush` over the sixteen sets.
use computer_architecture.Base.{ℕ, zero, suc, ◌+◌, ◌≤◌, ◌<◌, ◌≡◌, refl, sym, subst, ap, ◌∙◌, arith}
use native.Mathlib.Decide.{ℕ_discrete}
use computer_architecture.Memory.{Memory, IsAligned}
use computer_architecture.Cache.Line.{addr_index}
use computer_architecture.Cache.Set.{CacheSet, Cache}
use computer_architecture.Cache.Access.{flush_sets, cache_flush}
use computer_architecture.Cache.Coherent.{IsCoherent, view_set, view}
use computer_architecture.Cache.FlushSet.{
  AllClean, clean_all-AllClean, after_set, after_space, after_set-IsCoherent, after_set-view, saved,
  elsewhere, after_set-lines,
}

module _ {Space : Type 0} (M : Memory Space) where
  open M use {read_word}

  -- What the outer loop has done after the rounds for the sets from `i` on.
  record IsFlushed (c : Cache) (s : Space) (left i : ℕ) (r : Cache × Space) : Type 0 where
    same : (b : ℕ) → IsAligned b → view M r.0 r.1 b ≡ view M c s b
    coherent : IsCoherent M r.0 r.1
    written :
        (b : ℕ)
        → IsAligned b
        → i ≤ addr_index b
        → addr_index b < i + left
        → read_word r.1 b ≡ view M c s b
    others : (b : ℕ) → IsAligned b → addr_index b < i → read_word r.1 b ≡ read_word s b
    untouched : (j : ℕ) → j < i → r.0.sets j ≡ c.sets j
    clean : (j : ℕ) → i ≤ j → j < i + left → AllClean (r.0.sets j).lines

  flush_sets-IsFlushed :
      (left i : ℕ) (c : Cache) (s : Space)
      → i + left ≤ 16
      → IsCoherent M c s
      → IsFlushed c s left i (flush_sets M left i c s)
  unfolding flush_sets
  flush_sets-IsFlushed zero i c s top ok = record {
    same = λ b h. refl;
    coherent = ok;
    written = λ b h p q. absurd (omega arith);
    others = λ b h p. refl;
    untouched = λ j p. refl;
    clean = λ j p q. absurd (omega arith);
  }
  flush_sets-IsFlushed (suc left) i c s top ok =
      let small : i < 16 = omega arith in
      let c1 = after_set M c s i small ok in
      let s1 = after_space M c s i small ok in
      let rest =
        flush_sets-IsFlushed left (i + 1) c1 s1 (omega arith)
          (after_set-IsCoherent M c s i small ok) in
      record {
        same = λ b h. rest.same b h ∙ after_set-view M c s i small ok b h;
        coherent = rest.coherent;
        written = λ b h p q. elim (ℕ_discrete (addr_index b) i) [
          | yes e ↦
              rest.others b h (omega arith)
              ∙ saved M c s i small ok b h e
              ∙ ap (λ j. view_set M (c.sets j).lines s b) (sym e)
          | no ne ↦
              rest.written b h (omega arith) (omega arith) ∙ after_set-view M c s i small ok b h
        ];
        others =
            λ b h p. rest.others b h (omega arith) ∙ elsewhere M c s i small ok b h (omega arith);
        untouched = λ j p. rest.untouched j (omega arith) ∙ ground arith;
        clean = λ j p q. elim (ℕ_discrete j i) [
          | yes e ↦
              subst AllClean
                (sym (
                  ap (λ (x : CacheSet). x.lines) (rest.untouched j (omega arith))
                  ∙ after_set-lines M c s i small ok j
                  ∙ ground arith))
                (clean_all-AllClean (c.sets i).lines)
          | no ne ↦ rest.clean j (omega arith) (omega arith)
        ];
      }

  -- On a coherent cache `cache_flush` writes what the program sees to the memory, at every
  -- aligned address; what the program sees stays, the cache stays coherent, and no line of any
  -- set is dirty.
  pub cache_flush_lem :
      (c : Cache) (s : Space)
      → IsCoherent M c s
      → ((b : ℕ) → IsAligned b → read_word (cache_flush M c s).1 b ≡ view M c s b)
        × ((b : ℕ)
            → IsAligned b
            → view M (cache_flush M c s).0 (cache_flush M c s).1 b ≡ view M c s b)
        × IsCoherent M (cache_flush M c s).0 (cache_flush M c s).1
        × ((j : ℕ) → j < 16 → AllClean ((cache_flush M c s).0.sets j).lines)
  unfolding cache_flush
  cache_flush_lem c s ok =
      let done = flush_sets-IsFlushed 16 0 c s (omega arith) ok in
      (
        λ b h. done.written b h (omega arith) (omega arith),
        done.same,
        done.coherent,
        λ j p. done.clean j (omega arith) (omega arith),
      )
