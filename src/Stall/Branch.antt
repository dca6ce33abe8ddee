-- ===== src/Stall/Branch.antt =====
-- How Project1/part2/sim-pipe-withstall.c resolves a `bne`: the round that decodes it, and the next one.
use computer_architecture.Base.{
  ◌+◌, ◌^◌, ◌<◌, ◌≡◌, ◌≢◌, sym, ap, ◌∙◌, some, inl, inr, Option-cases, subst, false, ◌==◌,
  if◌then◌else◌, arith,
}
use mathlib.Core.Option
use mathlib.Core.Option.{some-injective}
use computer_architecture.Base.Word.{u32}
use computer_architecture.Memory.{Memory}
use computer_architecture.Isa.{field, rs, rt, opfield, nop, bne, operand}
use computer_architecture.Isa.Table.{def_inst}
use computer_architecture.Pipe.State.{alu_sub}
use computer_architecture.Pipe.Decode.{branch_target, fill_operands}
use computer_architecture.Pipe.Alu.{alu}
use computer_architecture.Pipe.Stages.{SysSyscall}
use computer_architecture.Basic.State.{Sim}
use computer_architecture.Basic.Decode.{dispatch, fetch_inst}
use computer_architecture.Stall.Stages.{
  pipeline_control, read_operands, do_id, do_ex, resolve, do_mem, do_wb, do_if,
}
use computer_architecture.Stall.Bubbles.{waits, do_id-issues}
use computer_architecture.Stall.Main.{round}

module _ {Space : Type 0} where
  -- The `bne` has been decoded, with the operands `x` and `y`.
  record IsBranching (t s : Sim Space) : Type 0 where
    func : s.de.func ≡ alu_sub
    target : s.de.target ≡ branch_target t.fd.pc t.fd.inst.b
    pc : s.de.pc ≡ t.fd.pc
    first : s.de.alu_a ≡ t.regs (field rs t.fd.inst.b)
    second : s.de.alu_b ≡ t.regs (field rt t.fd.inst.b)
    flag : s.ctl.flag ≡ 1
    cond : s.ctl.cond ≡ 0
    stall : s.ctl.stall ≡ false

  decode-IsBranching :
      (t : Sim Space)
      → opfield t.fd.inst ≡ bne
      → t.fd.inst.a ≢ nop
      → waits t ≡ false
      → t.ctl.cond ≡ 0
      → IsBranching t (do_id t)
  unfolding dispatch read_operands fill_operands operand def_inst
  decode-IsBranching t op real free calm =
      let issued = do_id-issues t real free in
      record {
        func = ground (arith, issued, op);
        target = ground (arith, issued, op);
        pc = ground (arith, issued, op);
        first = ground (arith, issued, op);
        second = ground (arith, issued, op);
        flag = ground (arith, issued, op);
        cond = ground (arith, issued, op, calm);
        stall = ground (arith, issued, op);
      }

  -- From `pipeline_control` to the execute stage: a bubble behind the branch, with its address.
  record IsHeld (t s : Sim Space) : Type 0 where
    branch : IsBranching t s
    bubble : s.fd.inst.a ≡ nop
    back : s.fd.pc ≡ t.fd.pc

  control-IsHeld : (t s : Sim Space) → IsBranching t s → IsHeld t (pipeline_control s)
  unfolding pipeline_control
  control-IsHeld t s h =
      let same : (pipeline_control s).de ≡ s.de = ground (arith, h.stall) in
      let ctl : (pipeline_control s).ctl ≡ s.ctl = ground (arith, h.stall) in
      record {
        branch = record {
          func = ground (arith, same, h.func);
          target = ground (arith, same, h.target);
          pc = ground (arith, same, h.pc);
          first = ground (arith, same, h.first);
          second = ground (arith, same, h.second);
          flag = ground (arith, ctl, h.flag);
          cond = ground (arith, ctl, h.cond);
          stall = ground (arith, ctl, h.stall);
        };
        bubble = ground (arith, h.stall, h.flag);
        back = ground (arith, h.stall, h.flag, h.pc);
      }

  -- The same latches hold the same branch.
  IsHeld-kept :
      (t s s' : Sim Space)
      → IsHeld t s
      → s'.fd ≡ s.fd
      → s'.de ≡ s.de
      → s'.ctl.flag ≡ s.ctl.flag
      → s'.ctl.cond ≡ s.ctl.cond
      → s'.ctl.stall ≡ s.ctl.stall
      → IsHeld t s'
  IsHeld-kept t s s' h fd de flag cond stall =
      let b = h.branch in
      record {
        branch = record {
          func = ground (arith, de, b.func);
          target = ground (arith, de, b.target);
          pc = ground (arith, de, b.pc);
          first = ground (arith, de, b.first);
          second = ground (arith, de, b.second);
          flag = flag ∙ b.flag;
          cond = cond ∙ b.cond;
          stall = stall ∙ b.stall;
        };
        bubble = ground (arith, fd, h.bubble);
        back = ground (arith, fd, h.back);
      }

  do_wb-IsHeld :
      (sys_syscall : SysSyscall Space) (t s s' : Sim Space)
      → do_wb sys_syscall s ≡ some s'
      → IsHeld t s
      → IsHeld t s'
  unfolding do_wb
  do_wb-IsHeld sys_syscall t s s' e h =
      IsHeld-kept t s s' h (ground (arith, e)) (ground (arith, e)) (ground (arith, e))
        (ground (arith, e)) (ground (arith, e))

  -- The execute stage has decided: `flag` is left for a taken branch alone.
  abbrev IsDecided : Sim Space → Sim Space → Type 0
  IsDecided t s =
      (s.fd.inst.a ≡ nop)
      × (s.fd.pc ≡ t.fd.pc)
      × (s.em.target ≡ branch_target t.fd.pc t.fd.inst.b)
      × (if t.regs (field rs t.fd.inst.b) == t.regs (field rt t.fd.inst.b)
          then (s.ctl.flag ≡ 0) × (s.ctl.cond ≡ 0)
          else s.ctl.cond ≡ 2)

  do_ex-IsDecided :
      (t s : Sim Space)
      → t.regs (field rs t.fd.inst.b) < 2 ^ 32
      → t.regs (field rt t.fd.inst.b) < 2 ^ 32
      → IsHeld t s
      → IsDecided t (do_ex s)
  unfolding do_ex resolve alu
  do_ex-IsDecided t s small small' h =
      let b = h.branch in
      ground (
        arith, small, small', h.bubble, h.back, b.func, b.target, b.first, b.second, b.flag, b.cond,
      )

  do_id-IsDecided : (t s : Sim Space) → IsDecided t s → IsDecided t (do_id s)
  unfolding do_id
  do_id-IsDecided t s h = ground (arith, h)

  do_id-bubble : (s : Sim Space) → s.fd.inst.a ≡ nop → (do_id s).de.inst.a ≡ nop
  unfolding do_id
  do_id-bubble s h = ground (arith, h)

module _ {Space : Type 0} (M : Memory Space) where
  do_mem-IsHeld : (t s : Sim Space) → IsHeld t s → IsHeld t (do_mem M s)
  unfolding do_mem
  do_mem-IsHeld t s h =
      IsHeld-kept t s (do_mem M s) h (ground arith) (ground arith) (ground arith) (ground arith)
        (ground arith)

  fetch-IsBranching :
      (t s : Sim Space) → s.ctl.cond ≡ 0 → IsBranching t s → IsBranching t (do_if M s)
  unfolding do_if
  fetch-IsBranching t s calm h =
      let ctl : (do_if M s).ctl ≡ s.ctl = ground (arith, calm) in
      record {
        func = h.func;
        target = h.target;
        pc = h.pc;
        first = h.first;
        second = h.second;
        flag = ground (arith, ctl, h.flag);
        cond = ground (arith, ctl, h.cond);
        stall = ground (arith, ctl, h.stall);
      }

  -- The branch is resolved.
  abbrev pub IsResolved : Sim Space → Sim Space → Type 0
  IsResolved t u =
      (u.fd.pc ≡ (
        if t.regs (field rs t.fd.inst.b) == t.regs (field rt t.fd.inst.b)
        then u32 (t.fd.pc + 8)
        else branch_target t.fd.pc t.fd.inst.b))
      × (u.fd.inst ≡ fetch_inst M u.mem u.fd.pc)
      × (u.de.inst.a ≡ nop)
      × (u.ctl.flag ≡ 0)
      × (u.ctl.cond ≡ 0)

  do_if-IsResolved :
      (t s : Sim Space) → s.de.inst.a ≡ nop → IsDecided t s → IsResolved t (do_if M s)
  unfolding do_if
  do_if-IsResolved t s bubble h = ground (arith, bubble, h)

  -- A `bne` that is decoded, does not wait and has operands of 32 bits, while no branch or jump
  -- is pending: after the fetch behind it and the next round, if no system call ends that, a
  -- bubble stands in `de` in the place of the instruction behind the branch, the instruction
  -- fetched is the one that the memory holds at the target of the branch if the operands differ
  -- and behind the branch if they do not, and no branch is pending.
  pub round-IsResolved :
      (sys_syscall : SysSyscall Space) (t u : Sim Space)
      → opfield t.fd.inst ≡ bne
      → waits t ≡ false
      → t.ctl.cond ≡ 0
      → t.regs (field rs t.fd.inst.b) < 2 ^ 32
      → t.regs (field rt t.fd.inst.b) < 2 ^ 32
      → round M sys_syscall (do_if M (do_id t)) ≡ some u
      → IsResolved t u
  unfolding round
  round-IsResolved sys_syscall t u op free calm small small' e =
      let b = decode-IsBranching t op (λ h. absurd (ground (arith, op, h))) free calm in
      let k = fetch-IsBranching t (do_id t) b.cond b in
      let f = do_if M (do_id t) in
      let s = record f { num_insn = f.num_insn + 1 } in
      let c = pipeline_control s in
      let counted : IsBranching t s = record {
        func = k.func;
        target = k.target;
        pc = k.pc;
        first = k.first;
        second = k.second;
        flag = k.flag;
        cond = k.cond;
        stall = k.stall;
      } in
      elim (Option-cases (do_wb sys_syscall c)) [
        | inl ends ↦ absurd (ground (arith, ends, e))
        | inr (w, wrote) ↦
            let x = do_ex (do_mem M w) in
            let decided = do_ex-IsDecided t (do_mem M w) small small' (
              do_mem-IsHeld t w
                (do_wb-IsHeld sys_syscall t c w wrote (control-IsHeld t s counted))) in
            let same : do_if M (do_id x) ≡ u =
              some-injective _ _
                (sym (ap (Option.map (λ z. do_if M (do_id (do_ex (do_mem M z))))) wrote) ∙ e) in
            subst (IsResolved t) same (
              do_if-IsResolved t (do_id x) (do_id-bubble x decided.0) (do_id-IsDecided t x decided))
      ]
