-- ===== src/Pipe/Init.antt =====
-- `sim_init` and the `init_` functions of Project2/sim-pipe.c, and the static variables before them.
use computer_architecture.Base.{true, false, none, some}
use computer_architecture.Cache.Set.{Cache, init_cache}
use computer_architecture.Pipe.State.{
  alu_nop, IfidBuf, IdexBuf, ExmemBuf, MemwbBuf, WbBuf, Regs, Sim, make_nop, zero_inst, zero_oprand,
}

unfoldable pub init_fd : IfidBuf → IfidBuf
init_fd fd = record fd { inst = make_nop fd.inst; pc = 0 }

unfoldable pub init_de : IdexBuf → IdexBuf
init_de de = record de {
  inst = make_nop de.inst;
  pc = 0;
  src_a = some 0;
  src_b = some 0;
  alu_a = 0;
  alu_b = 0;
  val_a = 0;
  dst_e = none;
  dst_m = none;
  rw = 0;
}

unfoldable pub init_em : ExmemBuf → ExmemBuf
init_em em = record em {
  inst = make_nop em.inst;
  pc = 0;
  val_e = 0;
  val_a = 0;
  dst_e = none;
  dst_m = none;
  rw = 0;
}

unfoldable pub init_mw : MemwbBuf → MemwbBuf
init_mw mw = record mw {
  inst = make_nop mw.inst;
  pc = 0;
  val_e = 0;
  val_m = 0;
  dst_e = none;
  dst_m = none;
  rw = 0;
}

unfoldable pub init_wb : WbBuf → WbBuf
init_wb wb = record wb {
  inst = make_nop wb.inst;
  pc = 0;
  val_e = 0;
  val_m = 0;
  dst_e = none;
  dst_m = none;
}

-- What `sim_init` does to the counters of the cache.
unfoldable pub reset_cache : Cache → Cache
reset_cache c = record c { enable = true; access = 0; hit = 0; miss = 0; replace = 0; wb = 0 }

-- `sim_init`, with the register file and the memory that it creates.
unfoldable pub sim_init : {Space : Type 0} → Regs → Space → Sim Space → Sim Space
unfolding init_fd init_de init_em init_mw init_wb reset_cache
sim_init regs mem s = record {
  fd = init_fd s.fd;
  de = init_de s.de;
  em = init_em s.em;
  mw = init_mw s.mw;
  wb = init_wb s.wb;
  ctl = record { flag = false; cmp = false; cond = 0; regs = λ n. false; stall = false };
  cache = reset_cache s.cache;
  regs = regs;
  mem = mem;
  num_insn = 0;
  num_clk = s.num_clk;
}

-- The static variables before `sim_init`: all zero.
abbrev pub static_sim : {Space : Type 0} → Regs → Space → Sim Space
static_sim regs mem = record {
  fd = record { inst = zero_inst; pc = 0; npc = 0 };
  de = record {
    inst = zero_inst;
    pc = 0;
    opcode = 0;
    oprand = zero_oprand;
    inst_flags = 0;
    func = alu_nop;
    src_a = some 0;
    src_b = some 0;
    alu_a = 0;
    alu_b = 0;
    val_a = 0;
    dst_e = some 0;
    dst_m = some 0;
    rw = 0;
    target = 0;
  };
  em = record {
    inst = zero_inst;
    pc = 0;
    val_e = 0;
    val_a = 0;
    dst_e = some 0;
    dst_m = some 0;
    rw = 0;
    target = 0;
  };
  mw = record {
    inst = zero_inst;
    pc = 0;
    val_e = 0;
    val_m = 0;
    dst_e = some 0;
    dst_m = some 0;
    rw = 0;
  };
  wb = record { inst = zero_inst; pc = 0; val_e = 0; val_m = 0; dst_e = some 0; dst_m = some 0 };
  ctl = record { flag = false; cmp = false; cond = 0; regs = λ n. false; stall = false };
  cache = init_cache;
  regs = regs;
  mem = mem;
  num_insn = 0;
  num_clk = 0;
}
