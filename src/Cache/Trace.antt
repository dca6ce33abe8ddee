-- ===== src/Cache/Trace.antt =====
-- Sequences of reads and writes through the cache, against a memory that answers at once.
use computer_architecture.Base.{
  ℕ, ◌^◌, ◌<◌, ◌≡◌, refl, ap, ap₂, ◌∙◌, List, [], ◌∷◌, All, arith, ◌==◌, if◌then◌else◌, update,
}
use computer_architecture.Memory.{Memory, IsAligned}
use computer_architecture.Cache.Set.{Cache, init_cache}
use computer_architecture.Cache.Access.{cache_read, cache_write, cache_flush}
use computer_architecture.Cache.Coherent.{find, IsCoherent, view, view_set-none}
use computer_architecture.Cache.ReadWrite.{cache_read_lem, cache_write_lem}
use computer_architecture.Cache.FlushAll.{cache_flush_lem}

pub data Request : Type 0 where
  load : ℕ → Request
  store : ℕ → ℕ → Request

-- Requests for whole words.
abbrev pub IsRequest : Request → Type 0
IsRequest (load a) = IsAligned a
IsRequest (store a v) = IsAligned a × (v < 2 ^ 32)

-- The specification: the words that the loads deliver, and the memory in the end.
unfoldable pub flat_run : List Request → (ℕ → ℕ) → List ℕ × (ℕ → ℕ)
flat_run [] f = ([], f)
flat_run (load a ∷ rs) f = let (out, f') = flat_run rs f in (f a ∷ out, f')
flat_run (store a v ∷ rs) f = flat_run rs (update f a v)

module _ {Space : Type 0} (M : Memory Space) where
  open M use {read_word}

  unfoldable pub cached_run : List Request → Cache → Space → List ℕ × Cache × Space
  cached_run [] c s = ([], c, s)
  cached_run (load a ∷ rs) c s =
      let r = cache_read M c s a 0 in
      let (out, c', s') = cached_run rs r.cache r.space in (r.word ∷ out, c', s')
  cached_run (store a v ∷ rs) c s = let r = cache_write M c s a v in cached_run rs r.cache r.space

  -- The program sees a given table of words.
  abbrev pub Sees : Cache → Space → (ℕ → ℕ) → Type 0
  Sees c s f = (b : ℕ) → IsAligned b → view M c s b ≡ f b

  cached_run-Sees :
      (rs : List Request) (c : Cache) (s : Space) (f : ℕ → ℕ)
      → All IsRequest rs
      → IsCoherent M c s
      → Sees c s f
      → ((cached_run rs c s).0 ≡ (flat_run rs f).0)
        × Sees (cached_run rs c s).1 (cached_run rs c s).2 (flat_run rs f).1
        × IsCoherent M (cached_run rs c s).1 (cached_run rs c s).2
  unfolding cached_run flat_run
  cached_run-Sees [] c s f h ok sees = (refl, sees, ok)
  cached_run-Sees (load a ∷ rs) c s f h ok sees =
      let r = cache_read M c s a 0 in
      let (word, same, ok') = cache_read_lem M c s a 0 ok h.0 in
      let (out, sees', ok'') =
        cached_run-Sees rs r.cache r.space f h.1 ok' (λ b hb. same b hb ∙ sees b hb) in
      (ap₂ (◌∷◌) (word ∙ sees a h.0) out, sees', ok'')
  cached_run-Sees (store a v ∷ rs) c s f h ok sees =
      let r = cache_write M c s a v in
      let (changed, ok') = cache_write_lem M c s a v ok h.0.0 h.0.1 in
      cached_run-Sees rs r.cache r.space (update f a v) h.1 ok'
        (λ b hb. changed b hb ∙ ap (λ x. if b == a then v else x) (sees b hb))

  pub init_cache-IsCoherent : (s : Space) → IsCoherent M init_cache s
  unfolding init_cache
  init_cache-IsCoherent s i p = record {
    counted = refl;
    bounded = omega arith;
    each = tt;
    distinct = tt;
  }

  init_cache-Sees : (s : Space) → Sees init_cache s (read_word s)
  unfolding init_cache
  init_cache-Sees s b h = view_set-none M [] s b (unfold find in refl)

  -- From the initial cache, any sequence of loads and stores of aligned words delivers the words
  -- that the plain memory would deliver, and a flush at the end leaves every aligned word of the
  -- memory as the plain memory would have it.
  pub cached_run-flat_run :
      (rs : List Request) (s : Space)
      → All IsRequest rs
      → ((cached_run rs init_cache s).0 ≡ (flat_run rs (read_word s)).0)
        × ((b : ℕ)
            → IsAligned b
            → read_word
                (cache_flush M (cached_run rs init_cache s).1 (cached_run rs init_cache s).2).1
                b
              ≡ (flat_run rs (read_word s)).1 b)
  cached_run-flat_run rs s h =
      let (out, sees, ok) =
        cached_run-Sees rs init_cache s (read_word s) h (init_cache-IsCoherent s)
          (init_cache-Sees s) in
      (out, λ b hb. (cache_flush_lem M _ _ ok).0 b hb ∙ sees b hb)
