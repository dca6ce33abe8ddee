-- ===== src/Cache/Statistics.antt =====
-- The counters over a whole run of requests.
use computer_architecture.Base.{
  ℕ, ◌+◌, ◌≡◌, ◌<◌, ◌^◌, Bool, true, false, List, [], ◌∷◌, All, length, arith,
}
use computer_architecture.Base.Word.{u32}
use computer_architecture.Memory.{Memory}
use computer_architecture.Cache.Line.{CacheWordFunc, cache_word_read, cache_word_write, addr_index}
use computer_architecture.Cache.Set.{Cache, init_cache}
use computer_architecture.Cache.Access.{cache_access, cache_read, cache_write}
use computer_architecture.Cache.Coherent.{IsCoherent}
use computer_architecture.Cache.ReadWrite.{cache_read_lem, cache_write_lem}
use computer_architecture.Cache.Counters.{
  IsCounted, Counts, present, cache_access-Counts, cache_access-IsCounted,
}
use computer_architecture.Cache.Trace.{
  Request, load, store, IsRequest, cached_run, init_cache-IsCoherent,
}

module _ {Space : Type 0} (M : Memory Space) where
  -- The counter of accesses goes up by one for each request.
  Counts-access :
      (c c' : Cache) (k : ℕ) (b : Bool) → Counts c k c' b → c'.access ≡ u32 (c.access + 1)
  Counts-access c c' k true n = n.1
  Counts-access c c' k false n = n.1

  access-IsCounted :
      (c : Cache) (s : Space) (a w : ℕ) (func : CacheWordFunc)
      → IsCoherent M c s
      → IsCounted c
      → IsCounted (cache_access M c s a w func).cache
        × ((cache_access M c s a w func).cache.access ≡ u32 (c.access + 1))
  access-IsCounted c s a w func ok h =
      let d = (ok (addr_index a) (omega arith)).distinct in
      let r = cache_access M c s a w func in
      (
        cache_access-IsCounted M c s a w func d h,
        Counts-access c r.cache r.cycles (present M c s a w func)
            (cache_access-Counts M c s a w func d),
      )

  run-IsCounted :
      (rs : List Request) (c : Cache) (s : Space)
      → All IsRequest rs
      → IsCoherent M c s
      → IsCounted c
      → c.access < 2 ^ 32
      → IsCounted (cached_run M rs c s).1
        × ((cached_run M rs c s).1.access ≡ u32 (c.access + length rs))
  unfolding cached_run cache_read cache_write
  run-IsCounted [] c s h ok k small = (k, omega (arith, small))
  run-IsCounted (load a ∷ rs) c s h ok k small =
      let r = cache_read M c s a 0 in
      let (k', one) = access-IsCounted c s a 0 cache_word_read ok k in
      let (k'', all) =
        run-IsCounted rs r.cache r.space h.1 (cache_read_lem M c s a 0 ok h.0).2 k'
          (omega (arith, one)) in
      (k'', omega (arith, all, one))
  run-IsCounted (store a v ∷ rs) c s h ok k small =
      let r = cache_write M c s a v in
      let (k', one) = access-IsCounted c s a v cache_word_write ok k in
      let (k'', all) =
        run-IsCounted rs r.cache r.space h.1 (cache_write_lem M c s a v ok h.0.0 h.0.1).1 k'
          (omega (arith, one)) in
      (k'', omega (arith, all, one))

  -- From the initial cache, after any sequence of loads and stores of aligned words the counter
  -- of accesses is the number of requests, and the hits and the misses add up to it, modulo 2 ^
  -- 32.
  pub cached_run-IsCounted :
      (rs : List Request) (s : Space)
      → All IsRequest rs
      → IsCounted (cached_run M rs init_cache s).1
        × ((cached_run M rs init_cache s).1.access ≡ u32 (length rs))
  unfolding init_cache
  cached_run-IsCounted rs s h =
      let (agree, total) =
        run-IsCounted rs init_cache s h (init_cache-IsCoherent M s) (omega arith) (omega arith) in
      (agree, omega (arith, total))
