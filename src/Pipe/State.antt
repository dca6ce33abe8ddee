-- ===== src/Pipe/State.antt =====
-- The latches between the stages, the control latch and the whole state (Project2/sim-pipe.h, and
-- the variables of Project2/sim-pipe.c).
use computer_architecture.Base.{
  ℕ, ◌+◌, ◌/◌, ◌%◌, Bool, true, false, none, some, ◌==◌, if◌then◌else◌, update,
}
use computer_architecture.Isa.{Inst, Dep, nop}
use computer_architecture.Cache.Set.{Cache}

-- `oprand_t`.
pub record Oprand : Type 0 where
  pub in1 : Dep
  pub in2 : Dep
  pub in3 : Dep
  pub out1 : Dep
  pub out2 : Dep

-- `alu_func_t`.
pub data AluFunc : Type 0 where
  alu_nop alu_add alu_sub alu_and alu_or alu_slt alu_shtl : AluFunc

pub record IfidBuf : Type 0 where
  pub inst : Inst
  pub pc : ℕ
  pub npc : ℕ

-- The test on the function of the execute stage.
abbrev pub is_shtl : AluFunc → Bool
is_shtl alu_shtl = true
is_shtl alu_nop = false
is_shtl alu_add = false
is_shtl alu_sub = false
is_shtl alu_and = false
is_shtl alu_or = false
is_shtl alu_slt = false

-- Values of `int` variables are their 32-bit patterns, registers are `Dep`.
pub record IdexBuf : Type 0 where
  pub inst : Inst
  pub pc : ℕ
  pub opcode : ℕ
  pub oprand : Oprand
  pub inst_flags : ℕ
  pub func : AluFunc
  pub src_a : Dep
  pub src_b : Dep
  pub alu_a : ℕ
  pub alu_b : ℕ
  pub val_a : ℕ
  pub dst_e : Dep
  pub dst_m : Dep
  pub rw : ℕ
  pub target : ℕ

pub record ExmemBuf : Type 0 where
  pub inst : Inst
  pub pc : ℕ
  pub val_e : ℕ
  pub val_a : ℕ
  pub dst_e : Dep
  pub dst_m : Dep
  pub rw : ℕ
  pub target : ℕ

pub record MemwbBuf : Type 0 where
  pub inst : Inst
  pub pc : ℕ
  pub val_e : ℕ
  pub val_m : ℕ
  pub dst_e : Dep
  pub dst_m : Dep
  pub rw : ℕ

pub record WbBuf : Type 0 where
  pub inst : Inst
  pub pc : ℕ
  pub val_e : ℕ
  pub val_m : ℕ
  pub dst_e : Dep
  pub dst_m : Dep

-- `flag` and `cmp` are bits, `cond` is an `int`, in which bit 0 stands for a jump and bit 1 for a
-- branch, and `regs` a mask of 32 bits.
pub record ControlBuf : Type 0 where
  pub flag : Bool
  pub cmp : Bool
  pub cond : ℕ
  pub regs : ℕ → Bool
  pub stall : Bool

-- The register file as `struct regs_t` lays it out: `regs_R`, `regs_F`, `hi`, `lo`, `fcc`.
abbrev pub Regs : Type 0
Regs = ℕ → ℕ

abbrev pub hi : ℕ
hi = 64

abbrev pub lo : ℕ
lo = 65

pub record Sim (Space : Type 0) : Type 0 where
  pub fd : IfidBuf
  pub de : IdexBuf
  pub em : ExmemBuf
  pub mw : MemwbBuf
  pub wb : WbBuf
  pub ctl : ControlBuf
  pub cache : Cache
  pub regs : Regs
  pub mem : Space
  pub num_insn : ℕ
  pub num_clk : ℕ

-- `GPR(N)` and `SET_GPR(N, EXPR)`, at a number that is not `DNA`.
abbrev pub gpr : Regs → Dep → ℕ
gpr regs none = 0
gpr regs (some n) = regs n

abbrev pub set_gpr : Regs → Dep → ℕ → Regs
set_gpr regs none v = regs
set_gpr regs (some n) v = update regs n v

-- `*src == em.dstE` on two registers.
abbrev pub same_dep : Dep → Dep → Bool
same_dep none none = true
same_dep none (some m) = false
same_dep (some n) none = false
same_dep (some n) (some m) = n == m

-- The bit that `1 << n` names. The host takes the count modulo 32, of -1 too.
abbrev pub mask_bit : Dep → ℕ
mask_bit none = 31
mask_bit (some n) = n % 32

-- `cond & 1`, `cond & 2`, `cond |= 1` and `cond |= 2`.
abbrev pub cond_jump : ℕ → Bool
cond_jump cond = cond % 2 == 1

abbrev pub cond_branch : ℕ → Bool
cond_branch cond = cond / 2 % 2 == 1

abbrev pub set_jump : ℕ → ℕ
set_jump cond = if cond_jump cond then cond else cond + 1

abbrev pub set_branch : ℕ → ℕ
set_branch cond = if cond_branch cond then cond else cond + 2

abbrev pub zero_inst : Inst
zero_inst = record { a = 0; b = 0 }

-- `inst.a = NOP`, which leaves `b`.
abbrev pub make_nop : Inst → Inst
make_nop i = record i { a = nop }

-- The variables of the file are static: zero, and register 0 where a register is meant.
abbrev pub zero_oprand : Oprand
zero_oprand = record { in1 = some 0; in2 = some 0; in3 = some 0; out1 = some 0; out2 = some 0 }
