-- ===== src/Pipe/Straight/Drain.antt =====
-- A round of Project2/sim-pipe.c and what is in flight: the stages one after the other.
use computer_architecture.Base.{
  ℕ, ◌≡◌, ◌≢◌, ◌⊎◌, refl, sym, ap₂, subst, ◌∙◌, inl, inr, Bool-cases, ◌==◌, arith,
}
use mathlib.Core.Path.{subst₂}
use computer_architecture.Memory.{Memory}
use computer_architecture.Memory.Table.{table}
use computer_architecture.Isa.{InstDef, nop, multu as multu_op}
use computer_architecture.Pipe.State.{Regs, AluFunc, MemwbBuf, Sim}
use computer_architecture.Cache.Set.{Cache}
use computer_architecture.Pipe.Decode.{do_id, route}
use computer_architecture.Pipe.Stages.{
  pipeline_control, do_mem, do_ex, do_forward, do_if, write_back,
}
use computer_architecture.Pipe.Straight.View.{seen, flat, IsKept}
use computer_architecture.Pipe.Straight.Round.{written_back, wrote, before_id, Waits, Issues}
use computer_architecture.Pipe.Straight.Retire.{
  unless_nop, settled, complete, drained, do_mem-Completes, do_ex-drained,
}
use computer_architecture.Forward.Retire.{Retired, IsAccess, finish}

module _ {Space : Type 0} (M : Memory Space) where
  -- The registers and the memory once every instruction that has left decode is finished: what the
  -- program sees. An instruction that waits in decode has not left it.
  abbrev pub retired : Sim Space → Retired (ℕ → ℕ)
  retired s =
      let de = (pipeline_control s).de in
      unless_nop de.inst (drained M s) (finish table de (drained M s))

  -- What decode, forwarding and fetch leave alone.
  pub record IsSameFlight (x d : Sim Space) : Type 0 where
    pub same_em : d.em ≡ x.em
    pub same_mw : d.mw ≡ x.mw
    pub same_wb : d.wb ≡ x.wb
    pub same_regs : d.regs ≡ x.regs

  pub record IsSameFront (x d : Sim Space) : Type 0 where
    pub same_fd : d.fd ≡ x.fd
    pub same_cache : d.cache ≡ x.cache
    pub same_mem : d.mem ≡ x.mem
    pub same_cond : d.ctl.cond ≡ x.ctl.cond
    pub same_flag : d.ctl.flag ≡ x.ctl.flag

  pub do_id-IsSame :
      (x : Sim Space) (line : InstDef) (func : AluFunc)
      → Waits M x line ⊎ Issues M x line func
      → IsSameFlight x (do_id x) × IsSameFront x (do_id x)
  unfolding route
  do_id-IsSame x line func (inl (held, _)) =
      subst (λ d. IsSameFlight x d × IsSameFront x d) (sym held)
        (
          record { same_em = refl; same_mw = refl; same_wb = refl; same_regs = refl },
          record {
            same_fd = refl;
            same_cache = refl;
            same_mem = refl;
            same_cond = refl;
            same_flag = refl;
          },
        )
  do_id-IsSame x line func (inr (issued, _, _)) =
      subst (λ d. IsSameFlight x d × IsSameFront x d) (sym issued)
        (
          record { same_em = refl; same_mw = refl; same_wb = refl; same_regs = refl },
          record {
            same_fd = refl;
            same_cache = refl;
            same_mem = refl;
            same_cond = refl;
            same_flag = refl;
          },
        )

  pub do_if-IsSame : (d : Sim Space) → IsSameFlight d (do_if M (do_forward d))
  unfolding do_if do_forward
  do_if-IsSame d = record {
    same_em = ground arith;
    same_mw = ground arith;
    same_wb = ground arith;
    same_regs = ground arith;
  }

  pub same-drained :
      (x d : Sim Space)
      → IsSameFlight x d
      → ((b : ℕ) → flat M d b ≡ flat M x b)
      → drained M d ≡ drained M x
  same-drained x d h f = λ i. complete M (h.same_em i) (record {
    regs = unless_nop (h.same_mw i).inst (h.same_regs i) (write_back (h.same_mw i) (h.same_regs i));
    mem = λ b. f b i;
    val_m = (h.same_mw i).val_m;
  })

  -- `settled`, of its parts.
  abbrev settled_of : MemwbBuf → Regs → Cache → Space → Retired (ℕ → ℕ)
  settled_of mw regs cache mem = record {
    regs = unless_nop mw.inst regs (write_back mw regs);
    mem = seen M cache mem;
    val_m = mw.val_m;
  }

  pub control-IsSame :
      (s : Sim Space)
      → IsSameFlight s (pipeline_control s)
        × ((pipeline_control s).cache ≡ s.cache)
        × ((pipeline_control s).mem ≡ s.mem)
  unfolding pipeline_control
  control-IsSame s = (
    record {
      same_em = ground arith;
      same_mw = ground arith;
      same_wb = ground arith;
      same_regs = ground arith;
    },
    ground arith,
    ground arith,
  )

  wrote-settled :
      (c : Sim Space)
      → record {
        regs = (written_back M c).regs;
        mem = flat M (written_back M c);
        val_m = (written_back M c).mw.val_m;
      }
        ≡ settled M c
  wrote-settled c = elim (Bool-cases (c.mw.inst.a == nop)) [
    | inl bubble ↦ rw bubble refl
    | inr live ↦ rw live refl
  ]

  pub wrote-keeps :
      (c : Sim Space)
      → let w = written_back M c in
        (w.fd ≡ c.fd)
        × (w.de ≡ c.de)
        × (w.em ≡ c.em)
        × (w.mw ≡ c.mw)
        × (w.cache ≡ c.cache)
        × (w.mem ≡ c.mem)
        × (w.ctl ≡ c.ctl)
  wrote-keeps c = elim (Bool-cases (c.mw.inst.a == nop)) [
    | inl bubble ↦ rw bubble (refl, refl, refl, refl, refl, refl, refl)
    | inr live ↦ rw live (refl, refl, refl, refl, refl, refl, refl)
  ]

  pub do_mem-keeps :
      (w : Sim Space)
      → let m = do_mem M w in (m.fd ≡ w.fd) × (m.de ≡ w.de) × (m.wb ≡ w.wb) × (m.regs ≡ w.regs)
  unfolding do_mem
  do_mem-keeps w = ground arith

  pub do_ex-keeps :
      (m : Sim Space)
      → let x = do_ex m in
        (x.fd ≡ m.fd)
        × (x.de ≡ m.de)
        × (x.mw ≡ m.mw)
        × (x.wb ≡ m.wb)
        × (x.cache ≡ m.cache)
        × (x.mem ≡ m.mem)
        × (x.ctl.regs ≡ m.ctl.regs)
  unfolding do_ex
  do_ex-keeps m = ground arith

  -- In front of decode, the instructions that have left it before are finished but for two.
  pub before_id-drained :
      (Code : ℕ → Type 0) (s : Sim Space)
      → IsKept M s.cache s.mem
      → (s.em.inst.a ≢ nop → IsAccess Code s.em.rw s.em.val_e s.em.val_a)
      → ((pipeline_control s).de.inst.a ≢ nop → (pipeline_control s).de.opcode ≢ multu_op)
      → (drained M (before_id M s) ≡ retired s) × IsKept M (before_id M s).cache (before_id M s).mem
  before_id-drained Code s ok legal plain =
      let c = pipeline_control s in
      let w = wrote M s in
      let m = do_mem M w in
      let (flight, cache, mem) = control-IsSame s in
      let (fd', de', em', mw', cache', mem', ctl') = wrote-keeps c in
      let em : s.em ≡ w.em = sym (em' ∙ flight.same_em) in
      let ok' : IsKept M w.cache w.mem =
        subst₂ (IsKept M) (sym (cache' ∙ cache)) (sym (mem' ∙ mem)) ok in
      let legal' = subst (λ e. e.inst.a ≢ nop → IsAccess Code e.rw e.val_e e.val_a) em legal in
      let (done, kept) = do_mem-Completes M Code w ok' legal' in
      let seen : settled M c ≡ settled M s =
        λ i. settled_of (flight.same_mw i) (flight.same_regs i) (cache i) (mem i) in
      let all : settled M m ≡ drained M s =
        done ∙ ap₂ (complete M) (sym em) (wrote-settled c ∙ seen) in
      let de : m.de ≡ c.de = (do_mem-keeps w).1 ∙ de' in
      let (_, _, _, _, cache2, mem2, _) = do_ex-keeps m in
      (
        do_ex-drained M m (subst (λ d. d.inst.a ≢ nop → d.opcode ≢ multu_op) (sym de) plain)
            ∙ ap₂ (λ d r. unless_nop d.inst r (finish table d r)) de all,
        subst₂ (IsKept M) (sym cache2) (sym mem2) kept,
      )
