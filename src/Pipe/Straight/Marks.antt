-- ===== src/Pipe/Straight/Marks.antt =====
-- What the marks in `ctl.regs` of Project2/sim-pipe.c tell of the loads in flight, and how a round
-- moves the instruction words.
use computer_architecture.Pipe.Straight.Calm.{IsCalm, control-calm, before_id-moves}
use computer_architecture.Base.{ℕ, ◌≡◌, ◌≢◌, ◌⊎◌, sym, ap, subst, ◌∙◌, true, inl, inr, arith}
use native.Mathlib.Decide.{ℕ_discrete}
use computer_architecture.Memory.{Memory}
use computer_architecture.Isa.{Inst, InstDef, Dep, nop}
use computer_architecture.Pipe.State.{
  AluFunc, IdexBuf, ExmemBuf, MemwbBuf, ControlBuf, Sim, mask_bit,
}
use computer_architecture.Pipe.Decode.{route}
use computer_architecture.Pipe.Stages.{pipeline_control, do_mem, mem_load, mem_store}
use computer_architecture.Pipe.Straight.Round.{wrote, before_id}
use computer_architecture.Pipe.Straight.Retire.{executed_em}
use computer_architecture.Pipe.Straight.Drain.{control-IsSame, wrote-keeps, do_ex-keeps}
use computer_architecture.Pipe.Straight.Behind.{do_mem-mw, do_ex-em}
use computer_architecture.Pipe.Straight.Ready.{IsEnding}
use computer_architecture.Pipe.Straight.Refine.{issued_state}
use computer_architecture.Forward.Retire.{loads}

-- A load that is to fill a register with mark `k`.
abbrev pub IsLoading : Inst → ℕ → Dep → ℕ → Type 0
IsLoading i rw dst k = (i.a ≢ nop) × (loads rw ≡ true) × (mask_bit dst ≡ k)

module _ {Space : Type 0} where
  -- The marks are those of the loads in `de` and `em`.
  abbrev pub IsMarkedSim : Sim Space → Type 0
  IsMarkedSim s =
      let de = (pipeline_control s).de in
      (k : ℕ)
      → s.ctl.regs k ≡ true
      → IsLoading de.inst de.rw de.dst_m k ⊎ IsLoading s.em.inst s.em.rw s.em.dst_m k

module _ {Space : Type 0} (M : Memory Space) (Code : ℕ → Type 0) where
  do_mem-clears :
      (w : Sim Space) (k : ℕ)
      → (do_mem M w).ctl.regs k ≡ true
      → (w.ctl.regs k ≡ true) × ¬ IsLoading w.em.inst w.em.rw w.em.dst_m k
  unfolding do_mem mem_load mem_store
  do_mem-clears w k mark = (ground (arith, mark), λ h. ground (arith, mark, h))

  -- The instruction in `de` moves to `em`.
  pub before_id-em :
      (s : Sim Space)
      → ((before_id M s).em.inst ≡ (pipeline_control s).de.inst)
        × ((pipeline_control s).de.inst.a ≢ nop
            → (before_id M s).em ≡ executed_em (pipeline_control s).de)
  before_id-em s =
      let m = do_mem M (wrote M s) in
      let de : m.de ≡ (pipeline_control s).de = (before_id-moves M Code s).1 in
      let (idle, runs) = do_ex-em m in
      (
        elim (ℕ_discrete m.de.inst.a nop) [
          | yes idles ↦ ap (λ (e : ExmemBuf). e.inst) (idle idles) ∙ ap (λ (b : IdexBuf). b.inst) de
          | no live ↦ ap (λ (e : ExmemBuf). e.inst) (runs live) ∙ ap (λ (b : IdexBuf). b.inst) de
        ],
        λ live. runs (subst (λ (b : IdexBuf). b.inst.a ≢ nop) (sym de) live) ∙ ap executed_em de,
      )

  pub before_id-mw : (s : Sim Space) → (before_id M s).mw.inst ≡ s.em.inst
  before_id-mw s =
      let (_, _, em, _, _, _, _) = wrote-keeps M (pipeline_control s) in
      let (_, _, mw, _, _, _, _) = do_ex-keeps M (do_mem M (wrote M s)) in
      ap (λ (b : MemwbBuf). b.inst) mw
      ∙ (do_mem-mw M (wrote M s)).0
      ∙ ap (λ (e : ExmemBuf). e.inst) (em ∙ (control-IsSame M s).0.same_em)

  -- In front of decode only a load that has just left it is marked.
  pub before_id-marks :
      (s : Sim Space)
      → IsCalm s.ctl
      → IsMarkedSim s
      → (k : ℕ) → (before_id M s).ctl.regs k ≡ true
      → let de = (pipeline_control s).de in IsLoading de.inst de.rw de.dst_m k
  before_id-marks s calm h k mark =
      let w = wrote M s in
      let (_, _, em, _, _, _, ctl) = wrote-keeps M (pipeline_control s) in
      let em' : w.em ≡ s.em = em ∙ (control-IsSame M s).0.same_em in
      let (_, _, _, _, _, _, same) = do_ex-keeps M (do_mem M w) in
      let (was, other) = do_mem-clears w k (sym (ap (λ f. f k) same) ∙ mark) in
      let was' : s.ctl.regs k ≡ true =
        sym (ap (λ (z : ControlBuf). z.regs k) (ctl ∙ (control-calm M Code s calm).0)) ∙ was in
      elim (h k was') [
        | inl here ↦ here
        | inr gone ↦
            absurd
              (other (subst (λ (e : ExmemBuf). IsLoading e.inst e.rw e.dst_m k) (sym em') gone))
      ]

  -- Such a load is in `em` behind the round.
  pub moved-IsLoading :
      (s s' : Sim Space) (k : ℕ)
      → IsEnding M Code s s'
      → (let de = (pipeline_control s).de in IsLoading de.inst de.rw de.dst_m k)
      → IsLoading s'.em.inst s'.em.rw s'.em.dst_m k
  moved-IsLoading s s' k r (live, load, at) =
      subst (λ (e : ExmemBuf). IsLoading e.inst e.rw e.dst_m k)
        (sym (r.flight.same_em ∙ (before_id-em s).1 live)) (live, load, at)

  -- A mark behind decode was there before, or is that of the load that it issues.
  pub issued-mark :
      (x : Sim Space) (line : InstDef) (func : AluFunc) (k : ℕ)
      → let d = issued_state M x line func in
        d.ctl.regs k ≡ true
        → (x.ctl.regs k ≡ true) ⊎ ((loads d.de.rw ≡ true) × (mask_bit d.de.dst_m ≡ k))
  unfolding route
  issued-mark x line func k mark = ground (arith, mark)
