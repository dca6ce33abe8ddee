-- ===== src/Cache/Tests.antt =====
-- Runs of the cache, and its theorems at concrete inputs, over a table of words.
use computer_architecture.Base.{
  length, ℕ, ◌/◌, ◌<◌, ◌≡◌, ◌≢◌, refl, List, [], ◌∷◌, arith, ◌==◌, if◌then◌else◌,
}
use computer_architecture.Memory.{IsAligned}
use computer_architecture.Memory.Table.{table}
use computer_architecture.Cache.Line.{cache_word_read, malloc_cache_line, cache_write_back}
use computer_architecture.Cache.Set.{init_cache}
use computer_architecture.Cache.Access.{Outcome, cache_access, cache_read, cache_write, cache_flush}
use computer_architecture.Cache.Coherent.{IsCoherent, view}
use computer_architecture.Cache.Trace.{
  Request, load, store, flat_run, cached_run, cached_run-flat_run, init_cache-IsCoherent,
}
use computer_architecture.Cache.ReadWrite.{
  cache_read_lem, cache_write_lem, cache_read_again, cache_word_read-Behaves,
}
use computer_architecture.Cache.FlushSet.{AllClean}
use computer_architecture.Cache.FlushAll.{cache_flush_lem}
use computer_architecture.Cache.Counters.{IsCounted, Counts, present, cache_access-Counts}
use computer_architecture.Cache.Statistics.{cached_run-IsCounted}
use computer_architecture.Base.Word.{u32}
use computer_architecture.Cache.Fifo.{tags, fifo, cache_access-fifo}

-- Every word holds a quarter of its address.
abbrev words : ℕ → ℕ
words a = a / 4

abbrev empty_ok : IsCoherent table init_cache words
empty_ok = init_cache-IsCoherent table words

abbrev stored : Outcome (ℕ → ℕ)
stored = cache_write table init_cache words 0x1008 7

abbrev stored_ok : IsCoherent table stored.cache stored.space
stored_ok = (cache_write_lem table init_cache words 0x1008 7 empty_ok (omega arith) (omega arith)).1

-- Five blocks of one set: the first is replaced, and its word comes back from the memory.
abbrev requests : List Request
requests =
    store 0x1008 7
    ∷ load 0x1008
    ∷ load 0x1108
    ∷ load 0x1208
    ∷ load 0x1308
    ∷ load 0x1408
    ∷ load 0x1008
    ∷ []

run_requests :
    (cached_run table requests init_cache words).0 ≡ 7 ∷ 0x442 ∷ 0x482 ∷ 0x4c2 ∷ 0x502 ∷ 7 ∷ []
unfolding cached_run init_cache cache_read cache_write malloc_cache_line cache_write_back
run_requests = refl

counters_after :
    let c = (cached_run table requests init_cache words).1 in
    (c.access ≡ 7) × (c.hit ≡ 1) × (c.miss ≡ 6) × (c.replace ≡ 2) × (c.wb ≡ 1)
unfolding cached_run init_cache cache_read cache_write malloc_cache_line cache_write_back
counters_after = (refl, refl, refl, refl, refl)

cached_run-flat_run_example :
    ((cached_run table requests init_cache words).0 ≡ (flat_run requests (table.read_word words)).0)
    × ((b : ℕ)
        → IsAligned b
        → table.read_word
            (cache_flush table
              (cached_run table requests init_cache words).1
              (cached_run table requests init_cache words).2).1
            b
          ≡ (flat_run requests (table.read_word words)).1 b)
cached_run-flat_run_example = cached_run-flat_run table requests words (omega arith)

cache_read_lem_example :
    ((cache_read table stored.cache stored.space 0x1008 0).word
      ≡ view table stored.cache stored.space 0x1008)
    × ((b : ℕ)
        → IsAligned b
        → view table
            (cache_read table stored.cache stored.space 0x1008 0).cache
            (cache_read table stored.cache stored.space 0x1008 0).space
            b
          ≡ view table stored.cache stored.space b)
    × IsCoherent table
        (cache_read table stored.cache stored.space 0x1008 0).cache
        (cache_read table stored.cache stored.space 0x1008 0).space
cache_read_lem_example =
    cache_read_lem table stored.cache stored.space 0x1008 0 stored_ok (omega arith)

cache_write_lem_example :
    ((b : ℕ)
      → IsAligned b
      → view table
          (cache_write table stored.cache stored.space 0x100c 9).cache
          (cache_write table stored.cache stored.space 0x100c 9).space
          b
        ≡ (if b == 0x100c then 9 else view table stored.cache stored.space b))
    × IsCoherent table
        (cache_write table stored.cache stored.space 0x100c 9).cache
        (cache_write table stored.cache stored.space 0x100c 9).space
cache_write_lem_example =
    cache_write_lem table stored.cache stored.space 0x100c 9 stored_ok (omega arith) (omega arith)

cache_read_again_example :
    (cache_read table
      (cache_read table stored.cache stored.space 0x2000 0).cache
      (cache_read table stored.cache stored.space 0x2000 0).space
      0x2004
      0).cycles
    ≡ 1
cache_read_again_example =
    cache_read_again table stored.cache stored.space 0x2000 0 stored_ok (omega arith) 0x2004 0
      (omega arith) (omega arith) (omega arith)

cache_flush_lem_example :
    ((b : ℕ)
      → IsAligned b
      → table.read_word (cache_flush table stored.cache stored.space).1 b
        ≡ view table stored.cache stored.space b)
    × ((b : ℕ)
        → IsAligned b
        → view table
            (cache_flush table stored.cache stored.space).0
            (cache_flush table stored.cache stored.space).1
            b
          ≡ view table stored.cache stored.space b)
    × IsCoherent table
        (cache_flush table stored.cache stored.space).0
        (cache_flush table stored.cache stored.space).1
    × ((j : ℕ) → j < 16 → AllClean ((cache_flush table stored.cache stored.space).0.sets j).lines)
cache_flush_lem_example = cache_flush_lem table stored.cache stored.space stored_ok

cache_access-Counts_example :
    Counts stored.cache
      (cache_access table stored.cache stored.space 0x1008 0 cache_word_read).cycles
      (cache_access table stored.cache stored.space 0x1008 0 cache_word_read).cache
      (present table stored.cache stored.space 0x1008 0 cache_word_read)
cache_access-Counts_example =
    cache_access-Counts table stored.cache stored.space 0x1008 0 cache_word_read
      (stored_ok 0 (omega arith)).distinct

cache_access-fifo_example :
    (tags
        ((cache_access table stored.cache stored.space 0x1108 0 cache_word_read).cache.sets 0).lines
      ≡ fifo 0x11 (tags (stored.cache.sets 0).lines))
    × ((i : ℕ)
        → i ≢ 0
        → (cache_access table stored.cache stored.space 0x1108 0 cache_word_read).cache.sets i
          ≡ stored.cache.sets i)
cache_access-fifo_example =
    cache_access-fifo table stored.cache stored.space 0x1108 0 cache_word_read stored_ok
      (omega arith) (cache_word_read-Behaves 0 8)

cached_run-IsCounted_example :
    IsCounted (cached_run table requests init_cache words).1
    × ((cached_run table requests init_cache words).1.access ≡ u32 (length requests))
cached_run-IsCounted_example = cached_run-IsCounted table requests words (omega arith)
