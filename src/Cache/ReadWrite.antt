-- ===== src/Cache/ReadWrite.antt =====
-- `cache_read` and `cache_write` against the memory that the program sees.
use computer_architecture.Base.{
  ℕ, ◌/◌, ◌^◌, ◌<◌, ◌≡◌, refl, ap, ap₂, ◌∙◌, some, length, length-set, get_or, get_or-set, arith,
  ◌==◌, ◌&&◌, if◌then◌else◌,
}
use computer_architecture.Memory.{Memory, IsAligned}
use computer_architecture.Cache.Line.{
  Line, addr_tag, addr_index, addr_offset, cache_word_read, cache_word_write,
}
use computer_architecture.Cache.Set.{Cache}
use computer_architecture.Cache.Access.{Outcome, cache_read, cache_write, cache_access}
use computer_architecture.Cache.Coherent.{find, IsCoherent, view}
use computer_architecture.Cache.Step.{Behaves}
use computer_architecture.Cache.Branches.{cache_access_hit}
use computer_architecture.Cache.Hit.{Answers}
use computer_architecture.Cache.Transparent.{cache_access-Answers}

pub cache_word_read-Behaves : (word offset : ℕ) → Behaves cache_word_read word offset
unfolding cache_word_read
cache_word_read-Behaves word offset = record {
  keeps_tag = λ l. refl;
  keeps_valid = λ l. refl;
  keeps_length = λ l. refl;
  keeps_fits = λ l four fits. fits;
  keeps_clean = λ l d. (d, refl);
}

pub cache_word_write-Behaves :
    (word offset : ℕ) → word < 2 ^ 32 → offset < 16 → Behaves cache_word_write word offset
unfolding cache_word_write
cache_word_write-Behaves word offset h small = record {
  keeps_tag = λ l. refl;
  keeps_valid = λ l. refl;
  keeps_length = λ l. length-set l.words (offset / 4) word;
  keeps_fits = λ l four fits k.
      ground (arith, get_or-set l.words (offset / 4) k word 0 (omega arith), fits k);
  keeps_clean = λ l d. cc;
}

-- The two ways in which an access leaves what the program sees at another address.
if_same :
    (t t' i i' : ℕ) {x y : ℕ}
    → (t ≡ t' → i ≡ i' → x ≡ y)
    → (if t == t' && i == i' then x else y) ≡ y
if_same t t' i i' h = ground arith

if_block :
    (a b v x y : ℕ)
    → IsAligned a
    → IsAligned b
    → (addr_tag b ≡ addr_tag a → addr_index b ≡ addr_index a → x ≡ y)
    → (if addr_tag b == addr_tag a && addr_index b == addr_index a
        then (if addr_offset b / 4 == addr_offset a / 4 then v else x)
        else y)
      ≡ (if b == a then v else y)
if_block a b v x y ha hb h = ground arith

module _ {Space : Type 0} (M : Memory Space) (c : Cache) (s : Space) (a word : ℕ)
    (ok : IsCoherent M c s) (h : IsAligned a) where
  abbrev read_answers :
      Answers M c s a word cache_word_read (cache_access M c s a word cache_word_read)
  read_answers =
      cache_access-Answers M c s a word cache_word_read ok h
        (cache_word_read-Behaves word (addr_offset a))

  -- On a coherent cache and at an aligned address `cache_read` delivers the word that the
  -- program sees there, on a hit and on a miss; it changes nothing that the program sees, and
  -- leaves the cache coherent.
  pub cache_read_lem :
      ((cache_read M c s a word).word ≡ view M c s a)
      × ((b : ℕ)
          → IsAligned b
          → view M (cache_read M c s a word).cache (cache_read M c s a word).space b ≡ view M c s b)
      × IsCoherent M (cache_read M c s a word).cache (cache_read M c s a word).space
  unfolding cache_read
  cache_read_lem =
      let ans = read_answers in
      (
        ans.returns ∙ ans.holds a h refl refl,
        λ b hb.
            ans.views b hb
            ∙ if_same (addr_tag b) (addr_tag a) (addr_index b) (addr_index a) (ans.holds b hb),
        ans.coherent,
      )

  abbrev write_answers :
      word < 2 ^ 32
      → Answers M c s a word cache_word_write (cache_access M c s a word cache_word_write)
  write_answers small =
      cache_access-Answers M c s a word cache_word_write ok h
        (cache_word_write-Behaves word (addr_offset a) small (omega arith))

  written_word :
      (l : Line) (b : ℕ)
      → length l.words ≡ 4
      → get_or (cache_word_write l word (addr_offset a)).0.words (addr_offset b / 4) 0 ≡ (
          if addr_offset b / 4 == addr_offset a / 4
          then word
          else get_or l.words (addr_offset b / 4) 0)
  unfolding cache_word_write
  written_word l b four =
      get_or-set l.words (addr_offset a / 4) (addr_offset b / 4) word 0 (omega arith)

  -- On a coherent cache and at an aligned address `cache_write` of a 32-bit word changes what
  -- the program sees at that address to the word, and at no other; the cache stays coherent.
  pub cache_write_lem :
      word < 2 ^ 32
      → ((b : ℕ)
          → IsAligned b
          → view M (cache_write M c s a word).cache (cache_write M c s a word).space b
            ≡ (if b == a then word else view M c s b))
        × IsCoherent M (cache_write M c s a word).cache (cache_write M c s a word).space
  unfolding cache_write
  cache_write_lem small =
      let ans = write_answers small in
      (
        λ b hb.
            ans.views b hb
            ∙ ap
                (λ x.
                  if addr_tag b == addr_tag a && addr_index b == addr_index a
                  then x
                  else view M c s b)
                (written_word ans.line b ans.well_formed.four)
            ∙ if_block a b word (get_or ans.line.words (addr_offset b / 4) 0) (view M c s b) h hb
                (ans.holds b hb),
        ans.coherent,
      )

  hit-cycles :
      (c' : Cache) (s' : Space) (b w : ℕ) (l : Line)
      → IsCoherent M c' s'
      → IsAligned b
      → find (addr_tag b) (c'.sets (addr_index b)).lines ≡ some l
      → (cache_read M c' s' b w).cycles ≡ 1
  unfolding cache_read
  hit-cycles c' s' b w l ok' hb f =
      ap (λ (r : Outcome Space). r.cycles)
        (cache_access_hit M c' s' b w cache_word_read l (ok' (addr_index b) (omega arith)).distinct
          f)

  -- After a read at an aligned address in a coherent cache, a read anywhere in the same block is
  -- a hit, of one cycle.
  pub cache_read_again :
      (b w : ℕ)
      → IsAligned b
      → addr_tag b ≡ addr_tag a
      → addr_index b ≡ addr_index a
      → (cache_read M (cache_read M c s a word).cache (cache_read M c s a word).space b w).cycles
        ≡ 1
  cache_read_again b w hb e e' =
      let after = cache_read M c s a word in
      hit-cycles after.cache after.space b w
        (cache_word_read read_answers.line word (addr_offset a)).0 cache_read_lem.2 hb
        (ap₂ (λ t i. find t (after.cache.sets i).lines) e e'
          ∙ unfold cache_read in read_answers.kept)
