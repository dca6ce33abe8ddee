-- ===== src/Pipe/Decode.antt =====
-- `do_id`, the decode stage of Project2/sim-pipe.c.
use computer_architecture.Base.{
  ℕ, ◌+◌, ◌-◌, ◌*◌, ◌%◌, ◌^◌, Bool, true, false, ◌||◌, ◌&&◌, none, some, ◌==◌, if◌then◌else◌,
  update,
}
use computer_architecture.Base.Word.{u32}
use computer_architecture.Isa.{
  Dep, opfield, operand, has_flag, f_load, f_store, f_disp, f_imm, nop, jump, beq, bne, lw, sw, add,
  addi, addu, addiu, mflo, andi, sll, slti, lui,
}
use computer_architecture.Isa.Table.{def_inst}
use computer_architecture.Pipe.State.{
  AluFunc, alu_nop, alu_add, alu_sub, alu_and, alu_slt, alu_shtl, IdexBuf, ControlBuf, Sim, lo,
  set_gpr, mask_bit, set_jump,
}

-- The `DEFINST` expansion: the first line with the opcode fills the flags and operands, and
-- with no such line they stay as they were.
unfoldable pub fill_operands : IdexBuf → IdexBuf
fill_operands de = elim (def_inst de.opcode) [
  | none ↦ de
  | some d ↦ record de {
    inst_flags = d.flags;
    oprand = record {
      in1 = operand d.in1 de.inst.b;
      in2 = operand d.in2 de.inst.b;
      in3 = operand d.in3 de.inst.b;
      out1 = operand d.out1 de.inst.b;
      out2 = operand d.out2 de.inst.b;
    };
  }
]

-- `reg >= 0 && (ctl.regs & 1 << reg)`.
abbrev pub is_busy : ControlBuf → Dep → Bool
is_busy ctl none = false
is_busy ctl (some n) = ctl.regs (mask_bit (some n))

-- The opcodes whose case is `ALU_ADD`; that of `LUI` falls through to it.
abbrev pub is_add : ℕ → Bool
is_add op =
    op == lui || op == lw || op == sw || op == add || op == addi || op == addu || op == addiu

-- The target of a branch and of a jump, from the instruction at `pc`.
abbrev pub branch_target : ℕ → ℕ → ℕ
branch_target pc b = u32 (pc + 8 + b % 2 ^ 16 * 2 ^ 2)

abbrev pub jump_target : ℕ → ℕ → ℕ
jump_target pc b = pc - pc % 2 ^ 28 + b % 2 ^ 26 * 2 ^ 2

module _ {Space : Type 0} where
  abbrev pub set_func : Sim Space → AluFunc → Sim Space
  set_func s func = record s { de = record (s.de) { func = func } }

  -- The cases `BNE` and `BEQ`.
  abbrev pub start_branch : Sim Space → Bool → Sim Space
  start_branch s cmp = record s {
    ctl = record (s.ctl) { flag = true; cmp = cmp };
    de = record (s.de) { target = branch_target s.fd.pc s.de.inst.b; func = alu_sub };
  }

  -- The case `JUMP`.
  abbrev pub start_jump : Sim Space → Sim Space
  start_jump s = record s {
    ctl = record (s.ctl) { flag = true; cond = set_jump s.ctl.cond };
    de = record (s.de) { target = jump_target s.fd.pc s.de.inst.b; func = alu_nop };
  }

  -- The `switch` on the opcode.
  unfoldable pub select : Sim Space → Sim Space
  select s =
      let op = s.de.opcode in
      if is_add op
      then (record s {
        de = record (s.de) {
          func = alu_add;
          inst_flags =
              if op == lui && (if has_flag s.de.inst_flags f_imm then false else true)
              then s.de.inst_flags + f_imm
              else s.de.inst_flags;
        };
      })
      else if op == bne
      then start_branch s true
      else if op == beq
      then start_branch s false
      else if op == andi
      then set_func s alu_and
      else if op == sll
      then set_func s alu_shtl
      else if op == slti
      then set_func s alu_slt
      else if op == jump
      then start_jump s
      else if op == mflo
      then set_func (record s { regs = set_gpr s.regs s.de.oprand.out1 (s.regs lo) }) alu_nop
      else set_func s alu_nop

  -- The sources and destinations, after the switch.
  unfoldable pub route : Sim Space → Sim Space
  route s =
      let de = s.de in
      let load = has_flag de.inst_flags f_load in
      let store = has_flag de.inst_flags f_store in
      record s {
        de = record de {
          src_a = if has_flag de.inst_flags f_disp then de.oprand.in2 else de.oprand.in1;
          src_b = de.oprand.in2;
          rw = de.rw + (if store then 2 else 0) + (if load then 4 else 0);
          dst_m = if load then de.oprand.out1 else none;
          dst_e = if load then none else de.oprand.out1;
        };
        ctl = record (s.ctl) {
          regs = if load then update s.ctl.regs (mask_bit de.oprand.out1) true else s.ctl.regs;
        };
      }

  -- From the label `READ_OPRAND_VALUE` on.
  unfoldable pub issue : Sim Space → Sim Space
  unfolding select route
  issue s =
      if is_busy s.ctl s.de.oprand.in1 || is_busy s.ctl s.de.oprand.in2
      then record s { ctl = record (s.ctl) { stall = true } }
      else route (select (record s { ctl = record (s.ctl) { stall = false } }))

  -- The start of the stage: `rw` is zero from here, so that `|=` adds to it.
  abbrev pub latch_id : Sim Space → IdexBuf
  latch_id s = record (s.de) { inst = s.fd.inst; pc = s.fd.pc; rw = 0 }

  unfoldable pub do_id : Sim Space → Sim Space
  unfolding fill_operands issue
  do_id s =
      if s.fd.inst.a == nop
      then record s { de = latch_id s }
      else issue
          (record s { de = fill_operands (record (latch_id s) { opcode = opfield s.fd.inst }) })
