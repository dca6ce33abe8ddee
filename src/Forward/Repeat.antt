-- ===== src/Forward/Repeat.antt =====
-- A `nop` in decode of Project1/part2/sim-pipe.c, behind an addition.
use computer_architecture.Base.{
  ℕ, ◌+◌, ◌≡◌, ◌≢◌, refl, sym, ap, ap₂, subst, ◌∙◌, false, none, some, update, arith, eq→==,
}
use computer_architecture.Base.Word.{u32}
use computer_architecture.Memory.{Memory}
use computer_architecture.Isa.{Dep, nop, syscall, has_flag, f_imm, f_disp}
use computer_architecture.Pipe.State.{alu_add, IdexBuf, IfidBuf, ExmemBuf, gpr}
use computer_architecture.Pipe.Alu.{alu}
use computer_architecture.Pipe.Stages.{SysSyscall}
use computer_architecture.Basic.State.{Sim}
use computer_architecture.Forward.Stages.{
  pipeline_control, latch_id, do_id, do_ex, do_mem, do_forward, do_if,
}
use computer_architecture.Forward.Main.{after_wb, round}
use computer_architecture.Forward.Order.{ordered, round-ordered}
use computer_architecture.Forward.Retire.{
  Retired, drained, retired, finish, wrote, round-plain, round-drained, do_id-flight, loads,
}
use computer_architecture.Forward.Settled.{IsSettled, round-IsSettled}
use computer_architecture.Forward.Latch.{before_id, before_id-moves, do_ex-moves, do_mem-moves}
use computer_architecture.Forward.Wait.{after_wb-ends}
use computer_architecture.Forward.Operands.{before_id-fd, ordered-drained}

-- A latch that adds two registers into a third.
pub record IsAddition (a b d : ℕ) (de : IdexBuf) : Type 0 where
  pub is_add : de.func ≡ alu_add
  pub no_imm : has_flag de.inst_flags f_imm ≡ false
  pub no_disp : has_flag de.inst_flags f_disp ≡ false
  pub at_a : de.src_a ≡ some a
  pub at_b : de.src_b ≡ some b
  pub into : de.dst_e ≡ some d
  pub no_load : de.dst_m ≡ none
  pub no_access : de.rw ≡ 0

module _ {Space : Type 0} (M : Memory Space) where
  finish-addition :
      (a b d : ℕ) (de : IdexBuf) (r : Retired Space)
      → IsAddition a b d de
      → finish M de r ≡ record r { regs = update r.regs d (u32 (de.alu_a + de.alu_b)) }
  unfolding alu
  finish-addition a b d de r h =
      rw (h.no_imm, h.no_disp, h.is_add, h.into, h.no_load, h.no_access) refl

  control-IsAddition :
      (a b d : ℕ) (s : Sim Space) → IsAddition a b d s.de → IsAddition a b d (pipeline_control s).de
  unfolding pipeline_control
  control-IsAddition a b d s h = ground (arith, h)

  do_id-nop : (x : Sim Space) → x.fd.inst.a ≡ nop → do_id x ≡ record x { de = latch_id x }
  unfolding do_id
  do_id-nop x e = rw (eq→== x.fd.inst.a nop e, do_id) refl

  after_wb-de :
      (sys_syscall : SysSyscall Space) (w : Sim Space) (a b d : ℕ)
      → IsAddition a b d (do_id (do_ex (do_mem M w))).de
      → IsAddition a b d (after_wb M sys_syscall w).de
  unfolding after_wb do_if do_forward
  after_wb-de sys_syscall w a b d h = record {
    is_add = h.is_add;
    no_imm = h.no_imm;
    no_disp = h.no_disp;
    at_a = h.at_a;
    at_b = h.at_b;
    into = h.into;
    no_load = h.no_load;
    no_access = h.no_access;
  }

-- A `nop` is not skipped: in settled latches and without a system call in `mw`, a round that
-- decodes a `nop` behind an addition of two registers adds them into the third once more, with
-- the sum of the first addition where it is an operand.
pub nop-repeats :
    {Space : Type 0} (M : Memory Space) (sys_syscall : SysSyscall Space) (s s' : Sim Space)
    (a b d : ℕ)
    → IsSettled s
    → s.mw.inst.a ≢ syscall
    → (pipeline_control s).fd.inst.a ≡ nop
    → IsAddition a b d s.de
    → round M sys_syscall s ≡ some s'
    → let r = retired M s in
      retired M s' ≡ record r { regs = update r.regs d (u32 (r.regs a + r.regs b)) }
nop-repeats {Space = Space} M sys_syscall s s' a b d h plain bubble adds one =
    let x = before_id M s in
    let r = drained M s' in
    let fd = before_id-fd M s in
    let done = round-drained M sys_syscall s s' plain one in
    let ends = round-plain M sys_syscall s s' plain one in
    let moves = before_id-moves M s in
    let was : x.de ≡ (pipeline_control s).de =
      (do_ex-moves (do_mem M (wrote s))).4 ∙ (do_mem-moves M (wrote s)).0 in
    let latched : IsAddition a b d x.de =
      subst (IsAddition a b d) (sym was) (control-IsAddition M a b d s adds) in
    let decoded : do_id x ≡ record x { de = latch_id x } =
      do_id-nop M x (ap (λ (z : IfidBuf). z.inst.a) fd ∙ bubble) in
    let behind : IsAddition a b d (latch_id x) = record {
      is_add = latched.is_add;
      no_imm = latched.no_imm;
      no_disp = latched.no_disp;
      at_a = latched.at_a;
      at_b = latched.at_b;
      into = latched.into;
      no_load = latched.no_load;
      no_access = refl;
    } in
    let left : IsAddition a b d s'.de =
      subst (λ (z : Sim Space). IsAddition a b d z.de) ends
        (after_wb-de M sys_syscall (wrote s) a b d
          (subst (λ (z : Sim Space). IsAddition a b d z.de) (sym decoded) behind)) in
    let no_load : loads s'.em.rw ≡ false =
      ap (λ (z : Sim Space). loads z.em.rw) (sym ends)
      ∙ ap (λ (z : ExmemBuf). loads z.rw)
          ((after_wb-ends M sys_syscall (wrote s)).5 ∙ (do_id-flight M x).0)
      ∙ ap loads (moves.4 ∙ adds.no_access) in
    let h' = round-IsSettled M sys_syscall s s' h plain one in
    let (value_a, value_b, _, _) = round-ordered M sys_syscall s s' plain one in
    let final : (p : Dep) → gpr (ordered s') p ≡ gpr r.regs p =
      λ p. ordered-drained M s' p h'.em_repeats (λ load. absurd (ground (arith, load, no_load))) in
    let sum_a : s'.de.alu_a ≡ r.regs a = value_a ∙ final s'.de.src_a ∙ ap (gpr r.regs) left.at_a in
    let sum_b : s'.de.alu_b ≡ r.regs b = value_b ∙ final s'.de.src_b ∙ ap (gpr r.regs) left.at_b in
    finish-addition M a b d s'.de r left
    ∙ ap₂ (λ v w. record r { regs = update r.regs d (u32 (v + w)) }) sum_a sum_b
    ∙ ap (λ (r : Retired Space). record r { regs = update r.regs d (u32 (r.regs a + r.regs b)) })
        done
