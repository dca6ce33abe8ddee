-- ===== src/Forward/Order.antt =====
-- The operands that the pipeline of Project1/part2/sim-pipe.c hands to the execute stage, against
-- the registers once the instructions ahead have written their results in program order.
use computer_architecture.Base.{
  ℕ, ◌≡◌, ◌≢◌, refl, subst, sym, ap, ◌∙◌, none, some, inl, inr, Option-cases, arith,
}
use computer_architecture.Memory.{Memory}
use computer_architecture.Isa.{Dep, syscall}
use computer_architecture.Pipe.State.{MemwbBuf, Regs, gpr, set_gpr}
use computer_architecture.Pipe.Forwarding.{set_gpr_lem, set_twice}
use computer_architecture.Pipe.Stages.{SysSyscall}
use computer_architecture.Basic.State.{Sim}
use computer_architecture.Basic.Decode.{dispatch}
use computer_architecture.Forward.Stages.{
  forward, pipeline_control, route, do_id, do_ex, do_wb, do_forward, do_if, do_mem,
}
use computer_architecture.Forward.Main.{after_wb, round}

module _ {Space : Type 0} where
  -- The registers after the write-back of `mw`, and then of the result in `em`.
  abbrev pub ordered : Sim Space → Regs
  ordered s =
      set_gpr (set_gpr (set_gpr s.regs s.mw.dst_m s.mw.val_m) s.mw.dst_e s.mw.val_e) s.em.dst_e
        s.em.val_e

  -- The instruction in `wb` has written its results: writing them again changes nothing.
  abbrev pub IsWritten : Sim Space → Type 0
  IsWritten s =
      (n : ℕ) → set_gpr (set_gpr s.regs s.wb.dst_m s.wb.val_m) s.wb.dst_e s.wb.val_e n ≡ s.regs n

  forward-some : (s : Sim Space) (n : ℕ) → IsWritten s → forward s (some n) ≡ ordered s n
  unfolding forward
  forward-some s n written =
      let mem_regs = set_gpr s.regs s.mw.dst_m s.mw.val_m in
      ground (
        arith,
        written n,
        set_gpr_lem (set_gpr mem_regs s.mw.dst_e s.mw.val_e) s.em.dst_e s.em.val_e n,
        set_gpr_lem mem_regs s.mw.dst_e s.mw.val_e n,
        set_gpr_lem s.regs s.mw.dst_m s.mw.val_m n,
        set_gpr_lem (set_gpr s.regs s.wb.dst_m s.wb.val_m) s.wb.dst_e s.wb.val_e n,
        set_gpr_lem s.regs s.wb.dst_m s.wb.val_m n,
      )

  forward-ordered : (s : Sim Space) (d : Dep) → IsWritten s → forward s d ≡ gpr (ordered s) d
  forward-ordered s none written = unfold forward in refl
  forward-ordered s (some n) written = forward-some s n written

  do_wb-IsWritten :
      (sys_syscall : SysSyscall Space) (s s' : Sim Space)
      → s.mw.inst.a ≢ syscall
      → do_wb sys_syscall s ≡ some s'
      → IsWritten s'
  unfolding do_wb
  do_wb-IsWritten sys_syscall s s' plain e n =
      ground (arith, set_twice s.regs s.mw.dst_m s.mw.dst_e s.mw.val_m s.mw.val_e n)

  control-mw : (s : Sim Space) → (pipeline_control s).mw ≡ s.mw
  unfolding pipeline_control
  control-mw s = ground arith

  do_mem-keeps :
      (M : Memory Space) (s : Sim Space) → ((do_mem M s).regs ≡ s.regs) × ((do_mem M s).wb ≡ s.wb)
  unfolding do_mem
  do_mem-keeps M s = ground arith

  do_ex-keeps : (s : Sim Space) → ((do_ex s).regs ≡ s.regs) × ((do_ex s).wb ≡ s.wb)
  unfolding do_ex
  do_ex-keeps s = ground arith

  do_id-keeps : (s : Sim Space) → ((do_id s).regs ≡ s.regs) × ((do_id s).wb ≡ s.wb)
  unfolding do_id dispatch route
  do_id-keeps s = ground arith

  forwarded :
      (M : Memory Space) (s : Sim Space)
      → IsWritten s
      → let s' = do_if M (do_forward s) in
        (s'.de.alu_a ≡ gpr (ordered s') s'.de.src_a)
        × (s'.de.alu_b ≡ gpr (ordered s') s'.de.src_b)
        × (s'.de.val_a ≡ gpr (ordered s') s'.de.oprand.in1)
        × IsWritten s'
  unfolding do_if do_forward
  forwarded M s h = (
    forward-ordered s s.de.src_a h,
    forward-ordered s s.de.src_b h,
    forward-ordered s s.de.oprand.in1 h,
    h,
  )

  after_wb-ordered :
      (M : Memory Space) (sys_syscall : SysSyscall Space) (s : Sim Space)
      → IsWritten s
      → let s' = after_wb M sys_syscall s in
        (s'.de.alu_a ≡ gpr (ordered s') s'.de.src_a)
        × (s'.de.alu_b ≡ gpr (ordered s') s'.de.src_b)
        × (s'.de.val_a ≡ gpr (ordered s') s'.de.oprand.in1)
        × IsWritten s'
  unfolding after_wb
  after_wb-ordered M sys_syscall s h =
      let s1 = do_mem M s in
      let s2 = do_ex s1 in
      forwarded M (do_id s2)
        (λ n. ground (arith, h n, do_mem-keeps M s, do_ex-keeps s1, do_id-keeps s2))

-- After a round that writes back no system call, the operands in `de` are what their registers
-- hold once the older instructions in `mw` and `em` have written their results in order (a load
-- in `em` has none yet), and `wb` has written its results.
pub round-ordered :
    {Space : Type 0} (M : Memory Space) (sys_syscall : SysSyscall Space) (s s' : Sim Space)
    → s.mw.inst.a ≢ syscall
    → round M sys_syscall s ≡ some s'
    → (s'.de.alu_a ≡ gpr (ordered s') s'.de.src_a)
      × (s'.de.alu_b ≡ gpr (ordered s') s'.de.src_b)
      × (s'.de.val_a ≡ gpr (ordered s') s'.de.oprand.in1)
      × IsWritten s'
unfolding round
round-ordered {Space = Space} M sys_syscall s s' plain e =
    elim (Option-cases (do_wb sys_syscall (pipeline_control s))) [
      | inl stop ↦ ground (arith, stop)
      | inr (w, wrote) ↦
          let ends : after_wb M sys_syscall w ≡ s' = ground (arith, wrote) in
          let written : IsWritten w =
            do_wb-IsWritten sys_syscall (pipeline_control s) w
              (λ h. plain (ap (λ (x : MemwbBuf). x.inst.a) (sym (control-mw s)) ∙ h)) wrote in
          subst
            (λ (x : Sim Space).
              (x.de.alu_a ≡ gpr (ordered x) x.de.src_a)
              × (x.de.alu_b ≡ gpr (ordered x) x.de.src_b)
              × (x.de.val_a ≡ gpr (ordered x) x.de.oprand.in1)
              × IsWritten x)
            ends (after_wb-ordered M sys_syscall w written)
    ]
