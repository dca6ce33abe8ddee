-- ===== src/Pipe/Straight/Calm.antt =====
-- A round of Project2/sim-pipe.c without a branch or a jump, up to decode.
use computer_architecture.Base.{ℕ, ◌≡◌, ◌≢◌, sym, ap, subst, ◌∙◌, true, false, none, arith}
use mathlib.Core.Path.{subst₂}
use native.Mathlib.Decide.{ℕ_discrete}
use computer_architecture.Memory.{Memory}
use computer_architecture.Isa.{nop}
use computer_architecture.Pipe.State.{IdexBuf, ExmemBuf, MemwbBuf, ControlBuf, Sim}
use computer_architecture.Pipe.Alu.{alu}
use computer_architecture.Pipe.Stages.{
  alu_b_of, pipeline_control, squash, replay, do_mem, do_ex, mem_load, mem_store, resolve,
}
use computer_architecture.Pipe.Straight.Round.{wrote, before_id}
use computer_architecture.Pipe.Straight.Drain.{IsSameFlight, wrote-keeps, do_mem-keeps, do_ex-keeps}
use computer_architecture.Pipe.Straight.Ordered.{IsBehind}
use computer_architecture.Pipe.Straight.Behind.{WrittenOf, AgainOf, do_ex-em}
use computer_architecture.Forward.Retire.{IsAccess, loads}

-- No branch or jump is pending.
abbrev pub IsCalm : ControlBuf → Type 0
IsCalm ctl = (ctl.cond ≡ 0) × (ctl.flag ≡ false)

-- The access of the instruction in `em`, and the one that the instruction in `de` will make.
abbrev pub EmAccess : (ℕ → Type 0) → ExmemBuf → Type 0
EmAccess Code em = em.inst.a ≢ nop → IsAccess Code em.rw em.val_e em.val_a

abbrev pub DeAccess : (ℕ → Type 0) → IdexBuf → Type 0
DeAccess Code de =
    de.inst.a ≢ nop → IsAccess Code de.rw (alu de.func de.alu_a (alu_b_of de)) de.val_a

module _ {Space : Type 0} (M : Memory Space) (Code : ℕ → Type 0) where
  pub control-calm :
      (s : Sim Space)
      → IsCalm s.ctl
      → ((pipeline_control s).ctl ≡ s.ctl)
        × (s.ctl.stall ≡ true
            → ((pipeline_control s).fd.pc ≡ s.de.pc)
              × ((pipeline_control s).fd.inst ≡ s.de.inst)
              × ((pipeline_control s).de.inst.a ≡ nop))
        × (s.ctl.stall ≡ false
            → ((pipeline_control s).fd ≡ s.fd) × ((pipeline_control s).de ≡ s.de))
  unfolding pipeline_control squash replay
  control-calm s h =
      (ground (arith, h), λ waits. ground (arith, h, waits), λ free. ground (arith, h, free))

  do_mem-IsCalm : (w : Sim Space) → IsCalm w.ctl → IsCalm (do_mem M w).ctl
  unfolding do_mem mem_load mem_store
  do_mem-IsCalm w h = ground (arith, h)

  do_ex-IsCalm : (m : Sim Space) → IsCalm m.ctl → IsCalm (do_ex m).ctl
  unfolding do_ex resolve
  do_ex-IsCalm m h = ground (arith, h)

  pub before_id-IsCalm : (s : Sim Space) → IsCalm s.ctl → IsCalm (before_id M s).ctl
  before_id-IsCalm s h =
      let (_, _, _, _, _, _, ctl) = wrote-keeps M (pipeline_control s) in
      do_ex-IsCalm (do_mem M (wrote M s))
        (do_mem-IsCalm (wrote M s) (subst IsCalm (sym (ctl ∙ (control-calm s h).0)) h))

  pub before_id-moves :
      (s : Sim Space)
      → ((before_id M s).fd ≡ (pipeline_control s).fd)
        × ((do_mem M (wrote M s)).de ≡ (pipeline_control s).de)
  before_id-moves s =
      let (fd, de, _, _, _, _, _) = wrote-keeps M (pipeline_control s) in
      let (m_fd, m_de, _, _) = do_mem-keeps M (wrote M s) in
      ((do_ex-keeps M (do_mem M (wrote M s))).0 ∙ m_fd ∙ fd, m_de ∙ de)

  pub same-IsBehind : (x d : Sim Space) → IsSameFlight M x d → IsBehind x → IsBehind d
  same-IsBehind x d k h = record {
    wb_written = subst₂ WrittenOf (sym k.same_wb) (sym k.same_regs) h.wb_written;
    mw_written = subst₂ AgainOf (sym k.same_mw) (sym k.same_regs) h.mw_written;
    em_repeats =
        subst₂
          (λ (e : ExmemBuf) (w : MemwbBuf).
            e.inst.a ≡ nop → (e.dst_e ≡ w.dst_e) × (e.val_e ≡ w.val_e))
          (sym k.same_em) (sym k.same_mw) h.em_repeats;
    em_plain =
        subst (λ (e : ExmemBuf). e.inst.a ≢ nop → loads e.rw ≡ false → e.dst_m ≡ none)
          (sym k.same_em) h.em_plain;
  }

  -- The instruction in `de` takes its access along.
  pub before_id-access :
      (s : Sim Space) → DeAccess Code (pipeline_control s).de → EmAccess Code (before_id M s).em
  before_id-access s h real =
      let m = do_mem M (wrote M s) in
      let de : m.de ≡ (pipeline_control s).de = (before_id-moves s).1 in
      let (idle, runs) = do_ex-em m in
      elim (ℕ_discrete m.de.inst.a nop) [
        | yes idles ↦ absurd (real (ap (λ (e : ExmemBuf). e.inst.a) (idle idles) ∙ idles))
        | no live ↦
            subst (λ (e : ExmemBuf). IsAccess Code e.rw e.val_e e.val_a) (sym (runs live))
              (subst (DeAccess Code) (sym de) h live)
      ]
