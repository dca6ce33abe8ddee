-- ===== src/Forward/State.antt =====
-- `sim_init` and the `init_` functions of Project1/part2/sim-pipe.c.
use computer_architecture.Base.{none, some}
use computer_architecture.Pipe.State.{IfidBuf, IdexBuf, ExmemBuf, MemwbBuf, WbBuf, Regs, make_nop}
use computer_architecture.Basic.State.{Sim, zero_control}

unfoldable pub init_fd : IfidBuf → IfidBuf
init_fd fd = record fd { inst = make_nop fd.inst; pc = 0 }

unfoldable pub init_de : IdexBuf → IdexBuf
init_de de = record de {
  inst = make_nop de.inst;
  pc = 0;
  src_a = some 0;
  src_b = some 0;
  alu_a = 0;
  alu_b = 0;
  val_a = 0;
  dst_e = none;
  dst_m = none;
  rw = 0;
}

unfoldable pub init_em : ExmemBuf → ExmemBuf
init_em em = record em {
  inst = make_nop em.inst;
  pc = 0;
  val_e = 0;
  val_a = 0;
  dst_e = none;
  dst_m = none;
  rw = 0;
}

unfoldable pub init_mw : MemwbBuf → MemwbBuf
init_mw mw = record mw {
  inst = make_nop mw.inst;
  pc = 0;
  val_e = 0;
  val_m = 0;
  dst_e = none;
  dst_m = none;
  rw = 0;
}

unfoldable pub init_wb : WbBuf → WbBuf
init_wb wb = record wb {
  inst = make_nop wb.inst;
  pc = 0;
  val_e = 0;
  val_m = 0;
  dst_e = none;
  dst_m = none;
}

-- `sim_init`, with the register file and the memory that it creates.
unfoldable pub sim_init : {Space : Type 0} → Regs → Space → Sim Space → Sim Space
unfolding init_fd init_de init_em init_mw init_wb
sim_init regs mem s = record {
  fd = init_fd s.fd;
  de = init_de s.de;
  em = init_em s.em;
  mw = init_mw s.mw;
  wb = init_wb s.wb;
  ctl = zero_control;
  regs = regs;
  mem = mem;
  num_insn = 0;
}
