-- ===== src/Basic/Decode.antt =====
-- The `switch` on the opcode in `do_id`, which is the same in both pipelines of Project1/part2.
use computer_architecture.Base.{ℕ, ◌+◌, ◌%◌, Bool, false, ◌||◌, none, some, ◌==◌, if◌then◌else◌}
use computer_architecture.Base.Word.{u32}
use computer_architecture.Memory.{Memory}
use computer_architecture.Isa.{
  Inst, Dep, jump, bne, lw, sw, add, addi, addu, addiu, andi, sll, slti, lui,
}
use computer_architecture.Pipe.State.{
  AluFunc, alu_nop, alu_add, alu_sub, alu_and, alu_slt, alu_shtl, set_jump,
}
use computer_architecture.Pipe.Decode.{branch_target, jump_target}
use computer_architecture.Basic.State.{ControlBuf, Sim}

abbrev pub adds : ℕ → Bool
adds op = op == lw || op == sw || op == add || op == addi || op == addu || op == addiu || op == lui

-- `reg >= 0 && (ctl.regs & 1 << reg)`; the host takes the count modulo 32.
abbrev pub is_marked : ControlBuf → Dep → Bool
is_marked ctl none = false
is_marked ctl (some n) = ctl.regs (n % 32)

-- `MD_FETCH_INSTI`.
abbrev pub fetch_inst : {Space : Type 0} → Memory Space → Space → ℕ → Inst
fetch_inst M mem pc = record { a = M.read_word mem pc; b = M.read_word mem (u32 (pc + 4)) }

module _ {Space : Type 0} where
  abbrev pub with_func : Sim Space → AluFunc → Sim Space
  with_func s func = record s { de = record (s.de) { func = func } }

  -- The case `BNE`.
  abbrev pub take_branch : Sim Space → Sim Space
  take_branch s = record s {
    ctl = record (s.ctl) { flag = 1 };
    de = record (s.de) { target = branch_target s.fd.pc s.de.inst.b; func = alu_sub };
  }

  -- The case `JUMP`, which falls through to the default.
  abbrev pub take_jump : Sim Space → Sim Space
  take_jump s = record s {
    ctl = record (s.ctl) { flag = 1; cond = set_jump s.ctl.cond };
    de = record (s.de) { target = jump_target s.fd.pc s.de.inst.b; func = alu_nop };
  }

  unfoldable pub dispatch : Sim Space → Sim Space
  dispatch s =
      let op = s.de.opcode in
      if adds op
      then with_func s alu_add
      else if op == bne
      then take_branch s
      else if op == andi
      then with_func s alu_and
      else if op == sll
      then with_func s alu_shtl
      else if op == slti
      then with_func s alu_slt
      else if op == jump
      then take_jump s
      else with_func s alu_nop
