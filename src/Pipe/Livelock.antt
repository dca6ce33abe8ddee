-- ===== src/Pipe/Livelock.antt =====
-- A stall with no load in flight: the pipeline turns for ever on one instruction.
use computer_architecture.Base.{
  ℕ, zero, suc, ◌+◌, ◌≡◌, ◌≢◌, refl, sym, ◌∙◌, ap, ap₂, true, ◌||◌, some, arith,
}
use mathlib.Core.Option
use computer_architecture.Memory.{Memory}
use computer_architecture.Isa.{Inst, nop, opfield, operand, InstDef}
use computer_architecture.Isa.Table.{def_inst}
use computer_architecture.Pipe.State.{IdexBuf, ExmemBuf, MemwbBuf, ControlBuf, Sim, make_nop}
use computer_architecture.Pipe.Decode.{do_id, fill_operands, is_busy, latch_id}
use computer_architecture.Pipe.Stages.{
  SysSyscall, do_wb, do_ex, do_forward, do_if, pipeline_control,
}
use computer_architecture.Pipe.Main.{after_wb, round, sim_main}
use computer_architecture.Pipe.Bubble.{do_wb_bubble, do_mem_bubble, do_ex_bubble}
use computer_architecture.Pipe.Hazards.{decoded, do_id_stall, do_if-keeps, fill-inst}

-- At the start of a round: the instruction in `de` waits for a marked register, no branch is
-- pending, and bubbles are all that is ahead.
pub record Stuck {Space : Type 0} (d : InstDef) (s : Sim Space) : Type 0 where
  pub real : s.de.inst.a ≢ nop
  pub stalled : s.ctl.stall ≡ true
  pub calm : s.ctl.cond ≡ 0
  pub line : def_inst (opfield s.de.inst) ≡ some d
  pub busy :
      (is_busy s.ctl (operand d.in1 s.de.inst.b) || is_busy s.ctl (operand d.in2 s.de.inst.b))
      ≡ true
  pub no_ex : s.em.inst.a ≡ nop
  pub no_mem : s.mw.inst.a ≡ nop

fill_line :
    (d : InstDef) (de : IdexBuf)
    → def_inst de.opcode ≡ some d
    → ((fill_operands de).oprand.in1 ≡ operand d.in1 de.inst.b)
      × ((fill_operands de).oprand.in2 ≡ operand d.in2 de.inst.b)
unfolding fill_operands
fill_line d de h = ground arith

module _ {Space : Type 0} (M : Memory Space) (sys_syscall : SysSyscall Space) (d : InstDef) where
  -- The state behind the stages before decode, in a round that starts stuck.
  abbrev before_decode : Sim Space → Sim Space
  before_decode s = record s {
    fd = record (s.fd) { pc = s.de.pc; inst = s.de.inst };
    de = record (s.de) { inst = make_nop s.de.inst };
    em = record (s.em) { inst = make_nop s.de.inst };
    mw = record (s.mw) { inst = s.em.inst };
    wb = record (s.wb) { inst = s.mw.inst };
  }

  control-Stuck :
      (s : Sim Space)
      → Stuck d s
      → pipeline_control s ≡ record s {
        fd = record (s.fd) { pc = s.de.pc; inst = s.de.inst };
        de = record (s.de) { inst = make_nop s.de.inst };
      }
  unfolding pipeline_control
  control-Stuck s h = ground (arith, h.stalled, h.calm)

  stages-Stuck :
      (s : Sim Space)
      → Stuck d s
      → round M sys_syscall s
        ≡ some (
            let s' = do_if M (do_forward (do_id (before_decode s))) in
            record s' { num_insn = s'.num_insn + 1; num_clk = s'.num_clk + 1 })
  unfolding round
  stages-Stuck s h =
      let s1 = record s {
        fd = record (s.fd) { pc = s.de.pc; inst = s.de.inst };
        de = record (s.de) { inst = make_nop s.de.inst };
      } in
      let s2 = record s1 { wb = record (s.wb) { inst = s.mw.inst } } in
      let s3 = record s2 { mw = record (s.mw) { inst = s.em.inst } } in
      ap (λ x. Option.map (after_wb M sys_syscall) (do_wb M sys_syscall x)) (control-Stuck s h)
      ∙ ap (Option.map (after_wb M sys_syscall)) (do_wb_bubble M sys_syscall s1 h.no_mem)
      ∙ ap
          (λ x. some (
            let s' = do_if M (do_forward (do_id x)) in
            record s' { num_insn = s'.num_insn + 1; num_clk = s'.num_clk + 1 }))
          (ap do_ex (do_mem_bubble M sys_syscall s2 h.no_ex) ∙ do_ex_bubble M sys_syscall s3 refl)

  abbrev latched : Sim Space → IdexBuf
  latched s = record (latch_id (before_decode s)) { opcode = opfield s.de.inst }

  filled :
      (s : Sim Space)
      → Stuck d s
      → ((fill_operands (latched s)).oprand.in1 ≡ operand d.in1 s.de.inst.b)
        × ((fill_operands (latched s)).oprand.in2 ≡ operand d.in2 s.de.inst.b)
  filled s h = fill_line d (latched s) h.line

  decode-Stuck :
      (s : Sim Space)
      → Stuck d s
      → do_id (before_decode s) ≡ record (before_decode s) {
        de = decoded (before_decode s);
        ctl = record (s.ctl) { stall = true };
      }
  decode-Stuck s h =
      do_id_stall (before_decode s) h.real
        (ap₂ (λ x y. is_busy s.ctl x || is_busy s.ctl y) (filled s h).0 (filled s h).1 ∙ h.busy)

  -- The whole round: the same instruction waits again.
  round-Stuck :
      (s : Sim Space)
      → Stuck d s
      → (s' : Sim Space) × (round M sys_syscall s ≡ some s')
        × Stuck d s'
        × (s'.de.pc ≡ s.de.pc)
        × (s'.de.inst ≡ s.de.inst)
        × (s'.regs ≡ s.regs)
  unfolding do_forward fill_operands
  round-Stuck s h =
      let s1 = record (before_decode s) {
        de = decoded (before_decode s);
        ctl = record (s.ctl) { stall = true };
      } in
      let s' = do_if M (do_forward s1) in
      let s'' = record s' { num_insn = s'.num_insn + 1; num_clk = s'.num_clk + 1 } in
      let kept = do_if-keeps M (do_forward s1) in
      let (inst, pc) = fill-inst s (latched s) in
      let inst' : s''.de.inst ≡ s.de.inst = ap (λ (x : IdexBuf). x.inst) kept.0 ∙ inst in
      let ctl' : s''.ctl ≡ record (s.ctl) { stall = true } = kept.1 in
      let run : round M sys_syscall s ≡ some s'' =
        stages-Stuck s h
        ∙ ap
            (λ x. some (
              let y = do_if M (do_forward x) in
              record y { num_insn = y.num_insn + 1; num_clk = y.num_clk + 1 }))
            (decode-Stuck s h) in
      (
        s'',
        run,
        record {
          real = λ e. h.real (ap (λ (x : Inst). x.a) (sym inst') ∙ e);
          stalled = ap (λ (x : ControlBuf). x.stall) ctl';
          calm = ap (λ (x : ControlBuf). x.cond) ctl' ∙ h.calm;
          line = ap (λ x. def_inst (opfield x)) inst' ∙ h.line;
          busy =
              ap₂
                (λ (x : ControlBuf) (y : Inst).
                  is_busy x (operand d.in1 y.b) || is_busy x (operand d.in2 y.b))
                ctl' inst'
              ∙ ground (arith, h.busy);
          no_ex = ap (λ (x : ExmemBuf). x.inst.a) kept.2;
          no_mem = ap (λ (x : MemwbBuf). x.inst.a) kept.5 ∙ h.no_ex;
        },
        ap (λ (x : IdexBuf). x.pc) kept.0 ∙ pc,
        inst',
        kept.4,
      )

  -- A stuck pipeline runs for ever: after any number of rounds it is still stuck on the same
  -- instruction at the same address, and no register has changed.
  pub sim_main-Stuck :
      (n : ℕ) (s : Sim Space)
      → Stuck d s
      → (s' : Sim Space) × (sim_main M sys_syscall n s ≡ some s')
        × Stuck d s'
        × (s'.de.pc ≡ s.de.pc)
        × (s'.de.inst ≡ s.de.inst)
        × (s'.regs ≡ s.regs)
  unfolding sim_main
  sim_main-Stuck zero s h = (s, refl, h, refl, refl, refl)
  sim_main-Stuck (suc n) s h =
      let (s1, run, h1, pc1, inst1, regs1) = round-Stuck s h in
      let (s2, run2, h2, pc2, inst2, regs2) = sim_main-Stuck n s1 h1 in
      (s2, rw (run, sim_main) run2, h2, pc2 ∙ pc1, inst2 ∙ inst1, regs2 ∙ regs1)
