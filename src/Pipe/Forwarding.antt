-- ===== src/Pipe/Forwarding.antt =====
-- Forwarding: what `forward` delivers, against the registers once the instructions ahead have
-- written their results in program order.
use computer_architecture.Base.{ℕ, ◌≡◌, ◌≢◌, refl, sym, ap, ◌∙◌, none, some, arith, if◌then◌else◌}
use computer_architecture.Memory.{Memory}
use computer_architecture.Isa.{Dep, Inst, nop, syscall, multu as multu_op}
use computer_architecture.Pipe.State.{ExmemBuf, Regs, Sim, set_gpr, same_dep}
use computer_architecture.Pipe.Stages.{
  SysSyscall, forward, do_wb, do_mem, mem_load, mem_store, do_ex, write_back,
}

-- The registers after the write-back of `mw`, and then of the result in `em`.
abbrev pub in_order : {Space : Type 0} → Sim Space → Regs
in_order s = set_gpr (write_back s.mw s.regs) s.em.dst_e s.em.val_e

-- The instruction in `wb` has written its results: writing them again changes nothing.
abbrev pub WbWritten : {Space : Type 0} → Sim Space → Type 0
WbWritten s =
    (n : ℕ) → set_gpr (set_gpr s.regs s.wb.dst_m s.wb.val_m) s.wb.dst_e s.wb.val_e n ≡ s.regs n

pub set_gpr_lem :
    (regs : Regs) (d : Dep) (v n : ℕ)
    → set_gpr regs d v n ≡ (if same_dep (some n) d then v else regs n)
set_gpr_lem regs none v n = refl
set_gpr_lem regs (some m) v n = refl

-- The value forwarded for a register, and the results that `mw` and `em` hold: what a load in `em`
-- brings is not among them.
pub forward-in_order :
    {Space : Type 0} (s : Sim Space) (n : ℕ) → WbWritten s → forward s (some n) ≡ in_order s n
unfolding forward
forward-in_order s n written = ground (
  arith,
  written n,
  set_gpr_lem (write_back s.mw s.regs) s.em.dst_e s.em.val_e n,
  set_gpr_lem (set_gpr s.regs s.mw.dst_m s.mw.val_m) s.mw.dst_e s.mw.val_e n,
  set_gpr_lem s.regs s.mw.dst_m s.mw.val_m n,
  set_gpr_lem (set_gpr s.regs s.wb.dst_m s.wb.val_m) s.wb.dst_e s.wb.val_e n,
  set_gpr_lem s.regs s.wb.dst_m s.wb.val_m n,
)

untouched : (regs : Regs) (d : Dep) (v n : ℕ) → d ≢ some n → set_gpr regs d v n ≡ regs n
untouched regs none v n away = refl
untouched regs (some m) v n away = ground (arith, away)

pub set_twice :
    (regs : Regs) (d e : Dep) (v w n : ℕ)
    → set_gpr (set_gpr (set_gpr (set_gpr regs d v) e w) d v) e w n
      ≡ set_gpr (set_gpr regs d v) e w n
set_twice regs none none v w n = refl
set_twice regs none (some e) v w n = ground arith
set_twice regs (some d) none v w n = ground arith
set_twice regs (some d) (some e) v w n = ground arith

module _ {Space : Type 0} (M : Memory Space) where
  -- If the instruction in `wb` has written its results, so has the one in `wb` after write-back,
  -- for a bubble and for every instruction but a system call.
  pub do_wb-WbWritten :
      (sys_syscall : SysSyscall Space) (s s' : Sim Space)
      → WbWritten s
      → s.mw.inst.a ≢ syscall
      → do_wb M sys_syscall s ≡ some s'
      → WbWritten s'
  unfolding do_wb
  do_wb-WbWritten sys_syscall s s' written plain e n =
      ground (arith, written n, set_twice s.regs s.mw.dst_m s.mw.dst_e s.mw.val_m s.mw.val_e n)

  do_mem-regs : (s : Sim Space) → ((do_mem M s).regs ≡ s.regs) × ((do_mem M s).wb ≡ s.wb)
  unfolding do_mem
  do_mem-regs s = ground arith

  do_mem-de : (s : Sim Space) → (do_mem M s).de ≡ s.de
  unfolding do_mem
  do_mem-de s = ground arith

pub do_ex-regs :
    {Space : Type 0} (s : Sim Space)
    → (s.de.inst.a ≢ nop → s.de.opcode ≢ multu_op)
    → ((do_ex s).regs ≡ s.regs) × ((do_ex s).wb ≡ s.wb)
unfolding do_ex
do_ex-regs s plain = ground arith

module _ {Space : Type 0} (M : Memory Space) (sys_syscall : SysSyscall Space) where
  do_wb-writes :
      (s s' : Sim Space)
      → s.mw.inst.a ≢ nop
      → s.mw.inst.a ≢ syscall
      → do_wb M sys_syscall s ≡ some s'
      → (s'.regs ≡ write_back s.mw s.regs) × (s'.em ≡ s.em)
  unfolding do_wb
  do_wb-writes s s' real plain e = ground (arith, e)

  do_mem-mw :
      (s : Sim Space)
      → s.em.inst.a ≢ nop
      → let mw = (do_mem M s).mw in
        (mw.inst ≡ s.em.inst)
        × (mw.dst_e ≡ s.em.dst_e)
        × (mw.dst_m ≡ s.em.dst_m)
        × (mw.val_e ≡ s.em.val_e)
  unfolding do_mem mem_load mem_store
  do_mem-mw s real = ground arith

  -- With no bubble and no system call in `mw` and in `em`, and the results of `wb` in the
  -- registers: the value forwarded for a register that `em` does not load is the one in the
  -- register file after write-back of `mw`, the memory stage of `em` and its write-back.
  pub forward-retired :
      (s s' s'' : Sim Space) (n : ℕ)
      → WbWritten s
      → s.mw.inst.a ≢ nop
      → s.mw.inst.a ≢ syscall
      → s.em.inst.a ≢ nop
      → s.em.inst.a ≢ syscall
      → s.em.dst_m ≢ some n
      → do_wb M sys_syscall s ≡ some s'
      → do_wb M sys_syscall (do_mem M s') ≡ some s''
      → forward s (some n) ≡ s''.regs n
  forward-retired s s' s'' n written real plain real_em plain_em away one two =
      let first = do_wb-writes s s' real plain one in
      let m = do_mem-mw s' (λ e. real_em (ap (λ (em : ExmemBuf). em.inst.a) (sym first.1) ∙ e)) in
      let mw = (do_mem M s').mw in
      let same : mw.inst.a ≡ s.em.inst.a =
        ap (λ (i : Inst). i.a) m.0 ∙ ap (λ (em : ExmemBuf). em.inst.a) first.1 in
      let second =
        do_wb-writes (do_mem M s') s'' (λ e. real_em (sym same ∙ e)) (λ e. plain_em (sym same ∙ e))
          two in
      let behind : (do_mem M s').regs n ≡ write_back s.mw s.regs n =
        ap (λ (f : Regs). f n) ((do_mem-regs M s').0 ∙ first.0) in
      let to_e : mw.dst_e ≡ s.em.dst_e = m.1 ∙ ap (λ (em : ExmemBuf). em.dst_e) first.1 in
      let to_m : mw.dst_m ≡ s.em.dst_m = m.2 ∙ ap (λ (em : ExmemBuf). em.dst_m) first.1 in
      let value : mw.val_e ≡ s.em.val_e = m.3 ∙ ap (λ (em : ExmemBuf). em.val_e) first.1 in
      forward-in_order s n written
      ∙ set_gpr_lem (write_back s.mw s.regs) s.em.dst_e s.em.val_e n
      ∙ ap (λ v. if same_dep (some n) s.em.dst_e then s.em.val_e else v)
          (sym (untouched (do_mem M s').regs s.em.dst_m mw.val_m n away ∙ behind))
      ∙ sym (set_gpr_lem (set_gpr (do_mem M s').regs s.em.dst_m mw.val_m) s.em.dst_e s.em.val_e n)
      ∙ sym (λ i. set_gpr (set_gpr (do_mem M s').regs (to_m i) mw.val_m) (to_e i) (value i) n)
      ∙ sym (ap (λ (f : Regs). f n) second.0)
