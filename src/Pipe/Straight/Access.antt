-- ===== src/Pipe/Straight/Access.antt =====
-- The accesses of the stages of Project2/sim-pipe.c, on the table of words that the program sees.
use computer_architecture.Base.{
  ℕ, ◌+◌, ◌^◌, ◌<◌, ◌≡◌, refl, sym, ap₂, ◌∙◌, Bool-cases, inl, inr, if_true, if_false, subst,
  update, arith,
}
use computer_architecture.Base.Word.{u32}
use computer_architecture.Memory.{Memory, IsAligned}
use computer_architecture.Cache.Line.{}
use computer_architecture.Cache.Access.{cache_read}
use computer_architecture.Cache.Coherent.{}
use computer_architecture.Pipe.State.{Sim}
use computer_architecture.Pipe.Stages.{fetch, mem_load, mem_store}
use computer_architecture.Pipe.Straight.View.{
  flat, IsKept, read-seen, write-seen, seen-bare, bare-write,
}

module _ {Space : Type 0} (M : Memory Space) where
  -- A fetch delivers two words of the table and changes none.
  abbrev pub IsFetched : Sim Space → ℕ → Sim Space → Type 0
  IsFetched s pc f =
      (f.fd.inst ≡ record { a = flat M s pc; b = flat M s (u32 (pc + 4)) })
      × ((b : ℕ) → flat M f b ≡ flat M s b)
      × IsKept M f.cache f.mem

  pub fetch-IsFetched :
      (s : Sim Space) (pc : ℕ)
      → IsKept M s.cache s.mem
      → IsAligned pc
      → IsFetched s pc (fetch M s pc)
  unfolding fetch
  fetch-IsFetched s pc ok h = elim (Bool-cases s.cache.enable) [
    | inl on ↦
        let first = cache_read M s.cache s.mem pc 0 in
        let (one, same, ok1, on1) = read-seen M s.cache s.mem pc 0 on (ok on) h in
        let (two, same2, ok2, on2) =
          read-seen M first.cache first.space (u32 (pc + 4)) 0 on1 ok1 (omega arith) in
        subst (IsFetched s pc) (sym (if_true _ on)) (
          ap₂ (λ x y. record { a = x; b = y }) one (two ∙ same (u32 (pc + 4))),
          λ b. same2 b ∙ same b,
          λ on'. ok2,
        )
    | inr off ↦ subst (IsFetched s pc) (sym (if_false _ off)) (
      ap₂ (λ x y. record { a = x; b = y }) (sym (seen-bare M s.cache s.mem pc off h))
          (sym (seen-bare M s.cache s.mem (u32 (pc + 4)) off (omega arith))),
      λ b. refl,
      ok,
    )
  ]

  -- A load brings a word of the table and changes none.
  abbrev pub IsLoaded : Sim Space → Sim Space → Type 0
  IsLoaded s t =
      (t.mw.val_m ≡ flat M s s.mw.val_e)
      × ((b : ℕ) → flat M t b ≡ flat M s b)
      × IsKept M t.cache t.mem

  pub mem_load-IsLoaded :
      (s : Sim Space) → IsKept M s.cache s.mem → IsAligned s.mw.val_e → IsLoaded s (mem_load M s)
  unfolding mem_load
  mem_load-IsLoaded s ok h = elim (Bool-cases s.cache.enable) [
    | inl on ↦
        let (got, same, ok', on') = read-seen M s.cache s.mem s.mw.val_e s.mw.val_m on (ok on) h in
        subst (IsLoaded s) (sym (if_true _ on)) (got, same, λ e. ok')
    | inr off ↦
        subst (IsLoaded s) (sym (if_false _ off))
          (sym (seen-bare M s.cache s.mem s.mw.val_e off h), λ b. refl, ok)
  ]

  -- A store changes one word of the table.
  abbrev pub IsStored : Sim Space → Sim Space → Type 0
  IsStored s t =
      ((b : ℕ) → flat M t b ≡ update (flat M s) s.mw.val_e s.em.val_a b) × IsKept M t.cache t.mem

  pub mem_store-IsStored :
      (s : Sim Space)
      → IsKept M s.cache s.mem
      → IsAligned s.mw.val_e
      → s.em.val_a < 2 ^ 32
      → IsStored s (mem_store M s)
  unfolding mem_store
  mem_store-IsStored s ok h small = elim (Bool-cases s.cache.enable) [
    | inl on ↦
        let (set, ok', on') = write-seen M s.cache s.mem s.mw.val_e s.em.val_a on (ok on) h small in
        subst (IsStored s) (sym (if_true _ on)) (set, λ e. ok')
    | inr off ↦ subst (IsStored s) (sym (if_false _ off)) (
      bare-write M s.cache s.mem s.mw.val_e s.em.val_a off h small,
      λ on. absurd (ground (arith, on, off)),
    )
  ]
