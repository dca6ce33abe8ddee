-- ===== src/Pipe/Straight/View.antt =====
-- The memory that a program sees through the cache of Project2/sim-pipe.c, as a table of words, and
-- what the accesses of the stages do to it.
use computer_architecture.Base.{
  ℕ, ◌/◌, ◌%◌, ◌^◌, ◌<◌, ◌≡◌, sym, ap, ◌∙◌, Bool, true, false, Option-cases, Bool-cases, inl, inr,
  if_true, if_false, ==→eq, ==→ne, ◌&&◌, ltb, ◌==◌, if◌then◌else◌, update, arith,
}
use computer_architecture.Memory.{Memory, IsAligned}
use computer_architecture.Cache.Line.{
  CacheWordFunc, addr_tag, addr_index, addr_offset, cache_word_read, cache_word_write,
}
use computer_architecture.Cache.Set.{Cache, add_into_cache_set}
use computer_architecture.Cache.Access.{cache_access, cache_read, cache_write, fill}
use computer_architecture.Cache.Coherent.{
  LineIsOk, IsCoherent, find, view, view_set-some, view_set-none,
}
use computer_architecture.Cache.Search.{find-All}
use computer_architecture.Cache.ReadWrite.{cache_read_lem, cache_write_lem}
use computer_architecture.Pipe.State.{Sim}

abbrev pub is_aligned : ℕ → Bool
is_aligned a = ltb a (2 ^ 32) && a % 4 == 0

module _ {Space : Type 0} (M : Memory Space) where
  -- The words at aligned addresses; at the others, which no access of a program without a fault
  -- reaches, zero.
  abbrev pub seen : Cache → Space → ℕ → ℕ
  seen c s a = if is_aligned a then (if c.enable then view M c s a else M.read_word s a) else 0

  abbrev pub flat : Sim Space → ℕ → ℕ
  flat s = seen s.cache s.mem

  -- A cache that is in use is coherent.
  abbrev pub IsKept : Cache → Space → Type 0
  IsKept c s = c.enable ≡ true → IsCoherent M c s

  view-lt : (c : Cache) (s : Space) (a : ℕ) → IsCoherent M c s → view M c s a < 2 ^ 32
  view-lt c s a ok =
      let lines = (c.sets (addr_index a)).lines in
      elim (Option-cases (find (addr_tag a) lines)) [
        | inl away ↦ omega (arith, view_set-none M lines s a away, M.read-lt s a)
        | inr (l, here) ↦
            let each = (ok (addr_index a) (omega arith)).each in
            let line = find-All (LineIsOk M s (addr_index a)) (addr_tag a) lines l each here in
            omega (arith, view_set-some M lines s a l here, line.fits (addr_offset a / 4))
      ]

  pub seen-lt : (c : Cache) (s : Space) (a : ℕ) → IsKept c s → seen c s a < 2 ^ 32
  seen-lt c s a ok = elim (Bool-cases c.enable) [
    | inl on ↦ ground (arith, view-lt c s a (ok on))
    | inr off ↦ ground (arith, off, M.read-lt s a)
  ]

  access-enable :
      (c : Cache) (s : Space) (a word : ℕ) (func : CacheWordFunc)
      → (cache_access M c s a word func).cache.enable ≡ c.enable
  unfolding cache_access fill add_into_cache_set
  access-enable c s a word func = ground arith

  unaligned :
      (f : ℕ → ℕ) (a b word : ℕ)
      → IsAligned a
      → is_aligned b ≡ false
      → f b ≡ 0
      → 0 ≡ update f a word b
  unaligned f a b word h out zero = ground (arith, h, out, zero)

  -- In use, the table is what the cache shows.
  seen-on :
      (c : Cache) (s : Space) (b : ℕ) → c.enable ≡ true → IsAligned b → seen c s b ≡ view M c s b
  seen-on c s b on h = ground (arith, on, h)

  seen-off : (c : Cache) (s : Space) (b : ℕ) → is_aligned b ≡ false → seen c s b ≡ 0
  seen-off c s b h = ground (arith, h)

  read-enable :
      (c : Cache) (s : Space) (a word : ℕ) → (cache_read M c s a word).cache.enable ≡ c.enable
  unfolding cache_read
  read-enable c s a word = access-enable c s a word cache_word_read

  write-enable :
      (c : Cache) (s : Space) (a word : ℕ) → (cache_write M c s a word).cache.enable ≡ c.enable
  unfolding cache_write
  write-enable c s a word = access-enable c s a word cache_word_write

  -- A read through a cache that is in use.
  pub read-seen :
      (c : Cache) (s : Space) (a word : ℕ)
      → c.enable ≡ true
      → IsCoherent M c s
      → IsAligned a
      → let r = cache_read M c s a word in
        (r.word ≡ seen c s a)
        × ((b : ℕ) → seen r.cache r.space b ≡ seen c s b)
        × IsCoherent M r.cache r.space
        × (r.cache.enable ≡ true)
  read-seen c s a word on ok h =
      let r = cache_read M c s a word in
      let (got, same, ok') = cache_read_lem M c s a word ok h in
      let on' = read-enable c s a word ∙ on in
      (
        got ∙ sym (seen-on c s a on h),
        λ b. elim (Bool-cases (is_aligned b)) [
          | inl in_place ↦
              let hb : IsAligned b = ground (arith, in_place) in
              seen-on r.cache r.space b on' hb ∙ same b hb ∙ sym (seen-on c s b on hb)
          | inr out ↦ seen-off r.cache r.space b out ∙ sym (seen-off c s b out)
        ],
        ok',
        on',
      )

  pub write-seen :
      (c : Cache) (s : Space) (a word : ℕ)
      → c.enable ≡ true
      → IsCoherent M c s
      → IsAligned a
      → word < 2 ^ 32
      → let r = cache_write M c s a word in
        ((b : ℕ) → seen r.cache r.space b ≡ update (seen c s) a word b)
        × IsCoherent M r.cache r.space
        × (r.cache.enable ≡ true)
  write-seen c s a word on ok h small =
      let r = cache_write M c s a word in
      let (set, ok') = cache_write_lem M c s a word ok h small in
      let on' = write-enable c s a word ∙ on in
      (
        λ b. elim (Bool-cases (is_aligned b)) [
          | inl in_place ↦
              let hb : IsAligned b = ground (arith, in_place) in
              seen-on r.cache r.space b on' hb
              ∙ set b hb
              ∙ ap (λ x. if b == a then word else x) (sym (seen-on c s b on hb))
          | inr out ↦
              seen-off r.cache r.space b out
              ∙ unaligned (seen c s) a b word h out (seen-off c s b out)
        ],
        ok',
        on',
      )

  bare-word :
      (s : Space) (a b word : ℕ)
      → IsAligned a
      → IsAligned b
      → word < 2 ^ 32
      → M.read_word (M.write_word s a word) b ≡ (if b == a then word else M.read_word s b)
  bare-word s a b word h hb small = elim (Bool-cases (b == a)) [
    | inl same ↦
        ap (λ x. M.read_word (M.write_word s a word) x) (==→eq b a same)
        ∙ M.read-write_self s a word h small
        ∙ sym (if_true _ same)
    | inr other ↦
        M.read-write_ne s a b word h hb (λ e. ==→ne b a other (sym e)) ∙ sym (if_false _ other)
  ]

  -- Without the cache the table is the memory.
  pub seen-bare :
      (c : Cache) (s : Space) (b : ℕ)
      → c.enable ≡ false
      → IsAligned b
      → seen c s b ≡ M.read_word s b
  seen-bare c s b off h = ground (arith, off, h)

  pub bare-write :
      (c : Cache) (s : Space) (a word : ℕ)
      → c.enable ≡ false
      → IsAligned a
      → word < 2 ^ 32
      → (b : ℕ) → seen c (M.write_word s a word) b ≡ update (seen c s) a word b
  bare-write c s a word off h small b = elim (Bool-cases (is_aligned b)) [
    | inl in_place ↦
        let hb : IsAligned b = ground (arith, in_place) in
        seen-bare c (M.write_word s a word) b off hb
        ∙ bare-word s a b word h hb small
        ∙ ap (λ x. if b == a then word else x) (sym (seen-bare c s b off hb))
    | inr out ↦
        seen-off c (M.write_word s a word) b out
        ∙ unaligned (seen c s) a b word h out (seen-off c s b out)
  ]
