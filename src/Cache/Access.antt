-- ===== src/Cache/Access.antt =====
-- `cache_access` with its callers `cache_read` and `cache_write`, and `cache_flush`, of
-- Project2/sim-pipe.c.
use computer_architecture.Base.{
  ℕ, zero, suc, ◌+◌, ◌-◌, ◌%◌, ◌^◌, Bool, true, false, List, [], ◌∷◌, ◌==◌, ◌&&◌, if◌then◌else◌,
  update,
}
use computer_architecture.Base.Word.{u32}
use computer_architecture.Memory.{Memory}
use computer_architecture.Cache.Line.{
  Line, CacheWordFunc, addr_tag, addr_index, addr_offset, cache_word_read, cache_word_write,
  malloc_cache_line, cache_write_back,
}
use computer_architecture.Cache.Set.{Cache, add_into_cache_set}

-- What the search loop changes beside the lines: `miss`, `cache->hit` and `*word`.
pub record Search : Type 0 where
  pub missed : Bool
  pub hits : ℕ
  pub word : ℕ

abbrev pub matches : ℕ → Line → Bool
matches tag line = line.valid && tag == line.tag

abbrev pub count_ref : Line → Line
count_ref line = record line { ref_count = u32 (line.ref_count + 1) }

-- The body of the loop, for one line.
unfoldable pub visit : CacheWordFunc → ℕ → ℕ → Line → Search → Line × Search
visit func tag offset line st =
    if matches tag line
    then (
      (func (count_ref line) st.word offset).0,
      record {
        missed = false;
        hits = u32 (st.hits + 1);
        word = (func (count_ref line) st.word offset).1;
      },
    )
    else (line, st)

-- The loop runs to the end of the queue, after a match too.
unfoldable pub scan : CacheWordFunc → ℕ → ℕ → List Line → Search → List Line × Search
unfolding visit
scan func tag offset [] st = ([], st)
scan func tag offset (line ∷ lines) st =
    let (line', st') = visit func tag offset line st in
    let (lines', st'') = scan func tag offset lines st' in (line' ∷ lines', st'')

-- The value returned is `cycles`; the memory and `*word` are as the call leaves them.
pub record Outcome (Space : Type 0) : Type 0 where
  pub cycles : ℕ
  pub cache : Cache
  pub space : Space
  pub word : ℕ

module _ {Space : Type 0} (M : Memory Space) where
  -- After a miss. The new line is changed through its pointer once it is queued, and nothing in
  -- between reads it: the changed line is queued.
  unfoldable pub fill : Cache → Space → ℕ → ℕ → CacheWordFunc → Outcome Space
  unfolding add_into_cache_set
  fill c s addr word func =
      let line = malloc_cache_line M s (addr - addr % 2 ^ 4) in
      let (line', word') = func line word (addr_offset addr) in
      let (c', s') =
        add_into_cache_set M (record c { miss = u32 (c.miss + 1) }) (addr_index addr) line' s in
      record { cycles = 10; cache = c'; space = s'; word = word' }

  unfoldable pub cache_access : Cache → Space → ℕ → ℕ → CacheWordFunc → Outcome Space
  unfolding scan fill
  cache_access c s addr word func =
      let index = addr_index addr in
      let set = c.sets index in
      let (lines', st) =
        scan func (addr_tag addr) (addr_offset addr) set.lines
          (record { missed = true; hits = c.hit; word = word }) in
      let c' = record c {
        access = u32 (c.access + 1);
        hit = st.hits;
        sets = update c.sets index (record set { lines = lines' });
      } in
      if st.missed
      then fill c' s addr st.word func
      else record { cycles = 1; cache = c'; space = s; word = st.word }

  unfoldable pub cache_read : Cache → Space → ℕ → ℕ → Outcome Space
  unfolding cache_access cache_word_read
  cache_read c s addr word = cache_access c s addr word cache_word_read

  unfoldable pub cache_write : Cache → Space → ℕ → ℕ → Outcome Space
  unfolding cache_access cache_word_write
  cache_write c s addr word = cache_access c s addr word cache_word_write

  -- The inner loop of `cache_flush`, over the lines of one set.
  unfoldable pub flush_lines : ℕ → List Line → Space → List Line × Space
  flush_lines index [] s = ([], s)
  flush_lines index (line ∷ lines) s =
      let (line', s') = if line.dirty then cache_write_back M line index s else (line, s) in
      let (lines', s'') = flush_lines index lines s' in (line' ∷ lines', s'')

  -- The outer loop at `i`, with `left` sets to go.
  unfoldable pub flush_sets : ℕ → ℕ → Cache → Space → Cache × Space
  unfolding flush_lines
  flush_sets zero i c s = (c, s)
  flush_sets (suc left) i c s =
      let (lines', s') = flush_lines i (c.sets i).lines s in
      flush_sets left (i + 1)
        (record c { sets = update c.sets i (record (c.sets i) { lines = lines' }) }) s'

  unfoldable pub cache_flush : Cache → Space → Cache × Space
  unfolding flush_sets
  cache_flush c s = flush_sets 16 0 c s
