-- ===== src/Cache/Branches.antt =====
-- The two branches of `cache_access`: what the search leaves on a hit and on a miss.
use computer_architecture.Base.{ℕ, ◌+◌, ◌≡◌, true, none, some, arith, update}
use computer_architecture.Base.Word.{u32}
use computer_architecture.Memory.{Memory}
use computer_architecture.Cache.Line.{Line, CacheWordFunc, addr_tag, addr_index, addr_offset}
use computer_architecture.Cache.Set.{CacheSet, Cache}
use computer_architecture.Cache.Access.{Outcome, count_ref, fill, cache_access}
use computer_architecture.Cache.Coherent.{find, Distinct}
use computer_architecture.Cache.Block.{}
use computer_architecture.Cache.Search.{replace, scan_hit, scan_miss}
use computer_architecture.Cache.Step.{}

module _ {Space : Type 0} (M : Memory Space) (c : Cache) (s : Space) (a word : ℕ)
    (func : CacheWordFunc) where
  abbrev pub here : CacheSet
  here = c.sets (addr_index a)

  -- The outcome of an access that finds its line.
  abbrev pub hit_outcome : Line → Outcome Space
  hit_outcome l = record {
    cycles = 1;
    cache = record c {
      access = u32 (c.access + 1);
      hit = u32 (c.hit + 1);
      sets = update c.sets (addr_index a) (record here {
        lines = replace (addr_tag a) (func (count_ref l) word (addr_offset a)).0 here.lines;
      });
    };
    space = s;
    word = (func (count_ref l) word (addr_offset a)).1;
  }

  pub cache_access_hit :
      (l : Line)
      → Distinct here.lines
      → find (addr_tag a) here.lines ≡ some l
      → cache_access M c s a word func ≡ hit_outcome l
  unfolding cache_access
  cache_access_hit l d h = ground (
    arith,
    scan_hit func (addr_tag a) (addr_offset a) here.lines
        (record { missed = true; hits = c.hit; word = word }) l d h,
  )

  -- The cache as the search leaves it after a miss.
  abbrev pub searched : Cache
  searched = record c { access = u32 (c.access + 1); sets = update c.sets (addr_index a) here }

  pub cache_access_miss :
      find (addr_tag a) here.lines ≡ none
      → cache_access M c s a word func ≡ fill M searched s a word func
  unfolding cache_access
  cache_access_miss h = ground (
    arith,
    scan_miss func (addr_tag a) (addr_offset a) here.lines
        (record { missed = true; hits = c.hit; word = word }) h,
  )
