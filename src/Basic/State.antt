-- ===== src/Basic/State.antt =====
-- The control latch and the state of the pipelines of Project1/part2. The other latches are those of
-- Project2, whose declarations are the same.
use computer_architecture.Base.{ℕ, Bool, false, some}
use computer_architecture.Pipe.State.{
  alu_nop, IfidBuf, IdexBuf, ExmemBuf, MemwbBuf, WbBuf, Regs, zero_inst, zero_oprand,
}

-- `flag` is an `int` here, which the code sets to 0 and 1 and tests with `& 2`.
pub record ControlBuf : Type 0 where
  pub flag : ℕ
  pub cond : ℕ
  pub regs : ℕ → Bool
  pub stall : Bool

pub record Sim (Space : Type 0) : Type 0 where
  pub fd : IfidBuf
  pub de : IdexBuf
  pub em : ExmemBuf
  pub mw : MemwbBuf
  pub wb : WbBuf
  pub ctl : ControlBuf
  pub regs : Regs
  pub mem : Space
  pub num_insn : ℕ

abbrev pub zero_control : ControlBuf
zero_control = record { flag = 0; cond = 0; regs = λ n. false; stall = false }

-- The static variables before `sim_init`: all zero.
abbrev pub static_sim : {Space : Type 0} → Regs → Space → Sim Space
static_sim regs mem = record {
  fd = record { inst = zero_inst; pc = 0; npc = 0 };
  de = record {
    inst = zero_inst;
    pc = 0;
    opcode = 0;
    oprand = zero_oprand;
    inst_flags = 0;
    func = alu_nop;
    src_a = some 0;
    src_b = some 0;
    alu_a = 0;
    alu_b = 0;
    val_a = 0;
    dst_e = some 0;
    dst_m = some 0;
    rw = 0;
    target = 0;
  };
  em = record {
    inst = zero_inst;
    pc = 0;
    val_e = 0;
    val_a = 0;
    dst_e = some 0;
    dst_m = some 0;
    rw = 0;
    target = 0;
  };
  mw = record {
    inst = zero_inst;
    pc = 0;
    val_e = 0;
    val_m = 0;
    dst_e = some 0;
    dst_m = some 0;
    rw = 0;
  };
  wb = record { inst = zero_inst; pc = 0; val_e = 0; val_m = 0; dst_e = some 0; dst_m = some 0 };
  ctl = zero_control;
  regs = regs;
  mem = mem;
  num_insn = 0;
}
