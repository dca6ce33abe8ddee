-- ===== src/Stall/Stages.antt =====
-- `sim_init` and the stages of Project1/part2/sim-pipe-withstall.c.
use computer_architecture.Base.{
  ℕ, ◌+◌, ◌*◌, ◌/◌, ◌%◌, Bool, true, false, not, ◌||◌, Option, none, some, ◌==◌, if◌then◌else◌,
  update,
}
use computer_architecture.Base.Word.{u32, sign_extend}
use computer_architecture.Memory.{Memory}
use computer_architecture.Isa.{
  Dep, opfield, has_flag, f_load, f_store, f_disp, f_imm, shamt, nop, syscall,
}
use computer_architecture.Pipe.State.{
  is_shtl, IdexBuf, MemwbBuf, Regs, gpr, set_gpr, mask_bit, cond_branch, set_branch, make_nop,
}
use computer_architecture.Pipe.Decode.{fill_operands}
use computer_architecture.Pipe.Alu.{alu}
use computer_architecture.Pipe.Stages.{SysSyscall}
use computer_architecture.Basic.State.{Sim, zero_control}
use computer_architecture.Basic.Decode.{dispatch, is_marked, fetch_inst}

-- `ctl.regs ^= 1 << dst`, where there is a destination.
abbrev pub toggle : (ℕ → Bool) → Dep → ℕ → Bool
toggle regs none = regs
toggle regs (some n) = update regs (mask_bit (some n)) (not (regs (mask_bit (some n))))

-- The bits 2 and 4 of `rw` are set or cleared, and the others kept.
abbrev pub set_rw : ℕ → Bool → Bool → ℕ
set_rw rw store load = rw / 8 * 8 + rw % 2 + (if store then 2 else 0) + (if load then 4 else 0)

module _ {Space : Type 0} where
  -- The destinations stay those of the static variables.
  unfoldable pub sim_init : Regs → Space → Sim Space → Sim Space
  sim_init regs mem s = record s {
    fd = record (s.fd) { inst = make_nop s.fd.inst; pc = 0 };
    de = record (s.de) { inst = make_nop s.de.inst; pc = 0 };
    em = record (s.em) { inst = make_nop s.em.inst; pc = 0 };
    mw = record (s.mw) { inst = make_nop s.mw.inst; pc = 0 };
    wb = record (s.wb) { inst = make_nop s.wb.inst; pc = 0 };
    ctl = zero_control;
    regs = regs;
    mem = mem;
    num_insn = 0;
  }

  -- The instruction behind a branch is not decoded before the branch is resolved.
  unfoldable pub hold : Sim Space → Sim Space
  hold s =
      if s.ctl.flag == 0
      then s
      else record s { fd = record (s.fd) { pc = s.de.pc; inst = make_nop s.fd.inst } }

  unfoldable pub replay : Sim Space → Sim Space
  replay s =
      if s.ctl.stall
      then record s {
        fd = record (s.fd) { pc = s.de.pc; inst = s.de.inst };
        de = record (s.de) { inst = make_nop s.de.inst };
      }
      else s

  unfoldable pub pipeline_control : Sim Space → Sim Space
  unfolding hold replay
  pipeline_control s = replay (hold s)

  abbrev pub next_pc : Sim Space → ℕ
  next_pc s =
      if s.ctl.cond == 0
      then u32 (s.fd.pc + 8)
      else if cond_branch s.ctl.cond
      then s.em.target
      else s.de.target

  -- The operands, read from the registers in this stage. `GPR(de.oprand.in1)` of a store without
  -- that operand lies outside the registers; the value here is 0.
  unfoldable pub read_operands : Sim Space → Sim Space
  read_operands s =
      let de = s.de in
      let disp = has_flag de.inst_flags f_disp in
      let load = has_flag de.inst_flags f_load in
      let store = has_flag de.inst_flags f_store in
      record s {
        de = record de {
          alu_a = gpr s.regs (if disp then de.oprand.in2 else de.oprand.in1);
          alu_b =
              if has_flag de.inst_flags f_imm || disp
              then sign_extend de.inst.b
              else if is_shtl de.func
              then shamt de.inst.b
              else gpr s.regs de.oprand.in2;
          val_a = if store then gpr s.regs de.oprand.in1 else de.val_a;
          rw = set_rw de.rw store load;
          dst_m = if load then de.oprand.out1 else none;
          dst_e = if load then none else de.oprand.out1;
        };
        ctl = record (s.ctl) { regs = toggle s.ctl.regs de.oprand.out1 };
      }

  -- From the label `READ_OPRAND_VALUE` on.
  unfoldable pub issue : Sim Space → Sim Space
  unfolding dispatch read_operands
  issue s =
      if is_marked s.ctl s.de.oprand.in1 || is_marked s.ctl s.de.oprand.in2
      then record s { ctl = record (s.ctl) { stall = true } }
      else read_operands (dispatch (record s { ctl = record (s.ctl) { stall = false } }))

  abbrev pub latch_id : Sim Space → IdexBuf
  latch_id s = record (s.de) { inst = s.fd.inst; pc = s.fd.pc; target = 0 }

  unfoldable pub do_id : Sim Space → Sim Space
  unfolding fill_operands issue
  do_id s =
      if s.fd.inst.a == nop
      then record s { de = latch_id s }
      else issue
          (record s { de = fill_operands (record (latch_id s) { opcode = opfield s.fd.inst }) })

  -- The test on `ctl.flag` at the end of `do_ex`.
  unfoldable pub resolve : Sim Space → Sim Space
  resolve s =
      if s.ctl.flag == 0
      then s
      else if s.em.val_e == 0
      then record s { ctl = record (s.ctl) { flag = 0 } }
      else record s { ctl = record (s.ctl) { cond = set_branch s.ctl.cond } }

  unfoldable pub do_ex : Sim Space → Sim Space
  unfolding resolve
  do_ex s =
      let de = s.de in
      resolve (record s {
        em = record {
          inst = de.inst;
          pc = de.pc;
          dst_e = de.dst_e;
          dst_m = de.dst_m;
          val_a = de.val_a;
          rw = de.rw;
          target = de.target;
          val_e = alu de.func de.alu_a de.alu_b;
        };
      })

  abbrev pub latch_mem : Sim Space → MemwbBuf
  latch_mem s = record (s.mw) {
    inst = s.em.inst;
    dst_e = s.em.dst_e;
    dst_m = s.em.dst_m;
    val_e = s.em.val_e;
    pc = s.em.pc;
    rw = s.em.rw;
  }

  -- The state before the test for a system call.
  abbrev pub written : Sim Space → Sim Space
  written s = record s {
    wb = record (s.wb) { inst = s.mw.inst; pc = s.mw.pc };
    ctl = record (s.ctl) { regs = toggle (toggle s.ctl.regs s.mw.dst_m) s.mw.dst_e };
    regs = set_gpr (set_gpr s.regs s.mw.dst_m s.mw.val_m) s.mw.dst_e s.mw.val_e;
  }

  unfoldable pub do_wb : SysSyscall Space → Sim Space → Option (Sim Space)
  do_wb sys_syscall s =
      let s' = written s in
      if s.mw.inst.a == syscall
      then elim (sys_syscall s'.regs s'.mem s.mw.inst) [
        | none ↦ none
        | some (regs', mem') ↦ some (record s' { regs = regs'; mem = mem' })
      ]
      else some s'

module _ {Space : Type 0} (M : Memory Space) where
  open M use {read_word, write_word}

  unfoldable pub do_if : Sim Space → Sim Space
  do_if s = record s {
    fd = record { inst = fetch_inst M s.mem (next_pc s); pc = next_pc s; npc = next_pc s };
    ctl = if s.ctl.cond == 0 then s.ctl else record (s.ctl) { flag = 0; cond = 0 };
  }

  unfoldable pub do_mem : Sim Space → Sim Space
  do_mem s =
      let mw = latch_mem s in
      if mw.rw / 4 % 2 == 1
      then record s { mw = record mw { val_m = read_word s.mem mw.val_e } }
      else if mw.rw / 2 % 2 == 1
      then record s { mw = mw; mem = write_word s.mem mw.val_e s.em.val_a }
      else record s { mw = mw }
