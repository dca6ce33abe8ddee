-- ===== src/Cache/Set.antt =====
-- Cache sets and the cache: `en_cache_set`, `de_cache_set` and `add_into_cache_set` of
-- Project2/sim-pipe.c. The queue from `head` to `tail` is a list, and `n` is the counter beside it.
use computer_architecture.Base.{
  ℕ, ◌+◌, ◌-◌, Bool, true, List, [], ◌∷◌, ◌++◌, ltb, ◌==◌, if◌then◌else◌, update,
}
use computer_architecture.Base.Word.{u32}
use computer_architecture.Memory.{Memory}
use computer_architecture.Cache.Line.{Line, cache_write_back}

pub record CacheSet : Type 0 where
  pub lines : List Line
  pub n : ℕ

-- `sets[16]` as a function of the index.
pub record Cache : Type 0 where
  pub sets : ℕ → CacheSet
  pub enable : Bool
  pub access : ℕ
  pub hit : ℕ
  pub miss : ℕ
  pub replace : ℕ
  pub wb : ℕ

-- The cache before the first access: the sets of a static variable are zero, and `sim_init` sets
-- the rest.
unfoldable pub init_cache : Cache
init_cache = record {
  sets = λ i. record { lines = []; n = 0 };
  enable = true;
  access = 0;
  hit = 0;
  miss = 0;
  replace = 0;
  wb = 0;
}

abbrev pub set_num : ℕ
set_num = 4

-- The line's `next` is null and the old tail points to it.
unfoldable pub en_cache_set : CacheSet → Line → CacheSet
en_cache_set set line = record { lines = set.lines ++ line ∷ []; n = set.n + 1 }

unfoldable pub drop_head : List Line → List Line
drop_head [] = []
drop_head (line ∷ lines) = lines

unfoldable pub de_cache_set : CacheSet → CacheSet
unfolding drop_head
de_cache_set set = if set.n == 0 then set else record { lines = drop_head set.lines; n = set.n - 1 }

module _ {Space : Type 0} (M : Memory Space) where
  -- The inner test of `add_into_cache_set`: the counter `wb` and the memory after it. The code
  -- calls it on a full set only, so that the head is not null.
  unfoldable pub save_head : List Line → ℕ → ℕ → Space → ℕ × Space
  save_head [] index wb s = (wb, s)
  save_head (line ∷ lines) index wb s =
      if line.dirty then (u32 (wb + 1), (cache_write_back M line index s).1) else (wb, s)

  -- `set` is `&cache.sets[index]`, and the counters are those of the same cache.
  unfoldable pub add_into_cache_set : Cache → ℕ → Line → Space → Cache × Space
  unfolding save_head en_cache_set de_cache_set
  add_into_cache_set c index line s =
      let set = c.sets index in
      if ltb set.n set_num
      then (record c { sets = update c.sets index (en_cache_set set line) }, s)
      else (
        record c {
          sets = update c.sets index (en_cache_set (de_cache_set set) line);
          replace = u32 (c.replace + 1);
          wb = (save_head set.lines index c.wb s).0;
        },
        (save_head set.lines index c.wb s).1,
      )
