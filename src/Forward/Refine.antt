-- ===== src/Forward/Refine.antt =====
-- The pipeline of Project1/part2/sim-pipe.c against the functional simulator, instruction by
-- instruction.
use computer_architecture.Base.{
  ℕ, ◌≡◌, ◌≢◌, sym, ap, subst, ◌∙◌, true, false, some, inl, inr, arith,
}
use computer_architecture.Memory.{Memory}
use computer_architecture.Isa.{Dep, opfield, syscall, nop}
use computer_architecture.Pipe.State.{
  Regs, Oprand, IfidBuf, IdexBuf, ExmemBuf, gpr, same_dep, mask_bit,
}
use computer_architecture.Pipe.Stages.{SysSyscall}
use computer_architecture.Basic.State.{ControlBuf, Sim}
use computer_architecture.Basic.Decode.{is_marked}
use computer_architecture.Fast.Insts.{execute}
use computer_architecture.Forward.Stages.{pipeline_control, do_id}
use computer_architecture.Forward.Main.{round}
use computer_architecture.Forward.Order.{ordered, round-ordered}
use computer_architecture.Forward.Retire.{
  Retired, loads, drained, retired, finish, wrote, round-plain, round-drained, do_id-flight,
}
use computer_architecture.Forward.Settled.{IsSettled, round-IsSettled}
use computer_architecture.Forward.Latch.{before_id, before_id-moves}
use computer_architecture.Forward.Issue.{CanRun, with_operands, issued, issued-de, fast}
use computer_architecture.Forward.Runs.{IsRun, all-IsRun}
use computer_architecture.Forward.Operands.{
  ordered-drained, before_id-mark, before_id-fd, unmarked-away, issued-marks, after_wb-latches,
}

-- No load in `em` is into the register of a load in `de`.
abbrev pub IsFresh : {Space : Type 0} → Sim Space → Type 0
IsFresh s = loads s.em.rw ≡ true → loads s.de.rw ≡ true → mask_bit s.em.dst_m ≢ mask_bit s.de.dst_m

pub CanRun-real : (op : ℕ) (regs : Regs) (b : ℕ) → CanRun op regs b → op ≢ nop
CanRun-real op regs b (inl (c, _)) = ground (arith, c)
CanRun-real op regs b (inr (inl e)) = omega arith
CanRun-real op regs b (inr (inr e)) = omega arith

-- The latch that a round without a stall leaves in `de`, with its operands.
round-latch :
    {Space : Type 0} (M : Memory Space) (sys_syscall : SysSyscall Space) (s s' : Sim Space) (op : ℕ)
    (run : IsRun M sys_syscall op)
    → IsSettled s
    → s.mw.inst.a ≢ syscall
    → IsFresh s
    → round M sys_syscall s ≡ some s'
    → s'.ctl.stall ≡ false
    → opfield (pipeline_control s).fd.inst ≡ op
    → op ≢ nop
    → s'.de ≡ with_operands (drained M s').regs (issued (before_id M s) run.line run.func)
round-latch {Space = Space} M sys_syscall s s' op run settled plain fresh one free is real =
    let x = before_id M s in
    let R = (drained M s').regs in
    let ends = round-plain M sys_syscall s s' plain one in
    let (same, src_a, src_b, oprand, ctl, em) = after_wb-latches M sys_syscall (wrote s) in
    let moves = before_id-moves M s in
    let em' : s'.em ≡ x.em = ap (λ (z : Sim Space). z.em) (sym ends) ∙ em ∙ (do_id-flight M x).0 in
    let rw' : s'.em.rw ≡ s.de.rw = ap (λ (z : ExmemBuf). z.rw) em' ∙ moves.4 in
    let dst' : s'.em.dst_m ≡ s.de.dst_m = ap (λ (z : ExmemBuf). z.dst_m) em' ∙ moves.2 in
    let stays : (do_id x).ctl.stall ≡ false =
      ap (λ (z : ControlBuf). z.stall) (sym ctl)
      ∙ ap (λ (z : Sim Space). z.ctl.stall) ends
      ∙ free in
    let (decoded, clear1, clear2) =
      issued-de x op run.line run.func
        (ap (λ (z : IfidBuf). opfield z.inst) (before_id-fd M s) ∙ is) real run.defined run.picked
        stays in
    let (clear_a, clear_b, clear_v) = issued-marks M x run.line run.func clear1 clear2 in
    let away : (d : Dep)
        → is_marked x.ctl d ≡ false
        → loads s'.em.rw ≡ true
        → (n : ℕ) → d ≡ some n
        → same_dep (some n) s'.em.dst_m ≡ false =
      λ d clear load n e.
        let was : loads s.de.rw ≡ true = ap loads (sym rw') ∙ load in
        ap (same_dep (some n)) dst'
        ∙ unmarked-away M x.ctl s.de.dst_m d
            (before_id-mark M s (mask_bit s.de.dst_m) (settled.marked was) (λ l. fresh l was)) clear
            n e in
    let settled' = round-IsSettled M sys_syscall s s' settled plain one in
    let final : (d : Dep) → is_marked x.ctl d ≡ false → gpr (ordered s') d ≡ gpr R d =
      λ d clear. ordered-drained M s' d settled'.em_repeats (away d clear) in
    let (a, b, v, _) = round-ordered M sys_syscall s s' plain one in
    let at_a : s'.de.src_a ≡ (issued x run.line run.func).src_a =
      ap (λ (z : Sim Space). z.de.src_a) (sym ends)
      ∙ src_a
      ∙ ap (λ (z : IdexBuf). z.src_a) decoded in
    let at_b : s'.de.src_b ≡ (issued x run.line run.func).src_b =
      ap (λ (z : Sim Space). z.de.src_b) (sym ends)
      ∙ src_b
      ∙ ap (λ (z : IdexBuf). z.src_b) decoded in
    let at_v : s'.de.oprand.in1 ≡ (issued x run.line run.func).oprand.in1 =
      ap (λ (z : Sim Space). z.de.oprand.in1) (sym ends)
      ∙ ap (λ (z : Oprand). z.in1) oprand
      ∙ ap (λ (z : IdexBuf). z.oprand.in1) decoded in
    let value_a = a ∙ final s'.de.src_a (ap (is_marked x.ctl) at_a ∙ clear_a) in
    let value_b = b ∙ final s'.de.src_b (ap (is_marked x.ctl) at_b ∙ clear_b) in
    let value_v = v ∙ final s'.de.oprand.in1 (ap (is_marked x.ctl) at_v ∙ clear_v) in
    (λ i. record (s'.de) { alu_a = value_a i; alu_b = value_b i; val_a = value_v i })
    ∙ ap (λ (z : Sim Space). with_operands R z.de) (sym ends)
    ∙ same R
    ∙ ap (with_operands R) decoded

-- In settled latches, without a system call in `mw`, and without a load in `em` into the register of
-- a load in `de`: an addition, a shift or a comparison that does not fault, or a load or store of a
-- word, that a round decodes without a stall, has the effect of machine.def on the registers and
-- the memory that the program sees.
pub round-refines :
    {Space : Type 0} (M : Memory Space) (sys_syscall : SysSyscall Space) (s s' : Sim Space)
    (op pc npc n : ℕ)
    → IsSettled s
    → s.mw.inst.a ≢ syscall
    → IsFresh s
    → round M sys_syscall s ≡ some s'
    → s'.ctl.stall ≡ false
    → opfield (pipeline_control s).fd.inst ≡ op
    → CanRun op (retired M s).regs (pipeline_control s).fd.inst.b
    → execute M sys_syscall op (pipeline_control s).fd.inst (fast pc npc n (retired M s))
      ≡ some (fast pc npc n (retired M s'))
round-refines {Space = Space} M sys_syscall s s' op pc npc n settled plain fresh one free is can =
    let x = before_id M s in
    let r = retired M s in
    let i = (pipeline_control s).fd.inst in
    let fd = before_id-fd M s in
    let done = round-drained M sys_syscall s s' plain one in
    let run = all-IsRun M sys_syscall op r.regs i.b can in
    let latch =
      round-latch M sys_syscall s s' op run settled plain fresh one free is
        (CanRun-real op r.regs i.b can) in
    ap (λ (z : IfidBuf). execute M sys_syscall op z.inst (fast pc npc n r)) (sym fd)
    ∙ run.runs x r pc npc n (subst (λ (z : IfidBuf). CanRun op r.regs z.inst.b) (sym fd) can)
    ∙ ap
        (λ (r : Retired Space).
          some (fast pc npc n (finish M (with_operands r.regs (issued x run.line run.func)) r)))
        (sym done)
    ∙ ap (λ de. some (fast pc npc n (finish M de (drained M s')))) (sym latch)
