-- ===== src/Isa.antt =====
-- Instructions and their description: the fields of an instruction word, the flags and operands of
-- a `DEFINST` line, and the numbers of the opcodes (simplesim-3.0/target-pisa/pisa.h, which
-- numbers the lines of Project1/part1/machine.def from 1).
pub mod Table
use computer_architecture.Base.{ℕ, ◌+◌, ◌-◌, ◌/◌, ◌%◌, ◌^◌, Bool, Option, none, some, ◌==◌}

-- `md_inst_t`: two words. The loader has put the opcode's number in the low byte of `a`.
pub record Inst : Type 0 where
  pub a : ℕ
  pub b : ℕ

abbrev pub opfield : Inst → ℕ
opfield inst = inst.a % 2 ^ 8

-- A register field of `b`.
pub data Field : Type 0 where
  rs rt rd : Field

abbrev pub field : Field → ℕ → ℕ
field rs b = b / 2 ^ 24
field rt b = b / 2 ^ 16 % 2 ^ 8
field rd b = b / 2 ^ 8 % 2 ^ 8

abbrev pub shamt : ℕ → ℕ
shamt b = b % 2 ^ 8

-- A register dependence: `none` is `DNA` (-1), and `some n` the number n. The numbers go on
-- through the register file as it is laid out: 0 to 31 `regs_R`, 32 to 63 `regs_F`, then `hi`,
-- `lo` and `fcc`.
abbrev pub Dep : Type 0
Dep = Option ℕ

-- The decoders of a `DEFINST` line; `link` is `DGPR(31)`.
pub data Operand : Type 0 where
  dna link dhi dlo dfcc : Operand
  dgpr dgpr_d dfpr : Field → Operand

unfoldable pub operand : Operand → ℕ → Dep
operand dna b = none
operand link b = some 31
operand dhi b = some 64
operand dlo b = some 65
operand dfcc b = some 66
operand (dgpr f) b = some (field f b)
operand (dgpr_d f) b = some (field f b - field f b % 2)
operand (dfpr f) b = some (field f b + 32 - field f b % 2)

abbrev pub f_icomp : ℕ
f_icomp = 2 ^ 0

abbrev pub f_fcomp : ℕ
f_fcomp = 2 ^ 1

abbrev pub f_ctrl : ℕ
f_ctrl = 2 ^ 2

abbrev pub f_uncond : ℕ
f_uncond = 2 ^ 3

abbrev pub f_cond : ℕ
f_cond = 2 ^ 4

abbrev pub f_mem : ℕ
f_mem = 2 ^ 5

abbrev pub f_load : ℕ
f_load = 2 ^ 6

abbrev pub f_store : ℕ
f_store = 2 ^ 7

abbrev pub f_disp : ℕ
f_disp = 2 ^ 8

abbrev pub f_rr : ℕ
f_rr = 2 ^ 9

abbrev pub f_trap : ℕ
f_trap = 2 ^ 11

abbrev pub f_longlat : ℕ
f_longlat = 2 ^ 12

abbrev pub f_dirjmp : ℕ
f_dirjmp = 2 ^ 13

abbrev pub f_indirjmp : ℕ
f_indirjmp = 2 ^ 14

abbrev pub f_call : ℕ
f_call = 2 ^ 15

abbrev pub f_fpcond : ℕ
f_fpcond = 2 ^ 16

abbrev pub f_imm : ℕ
f_imm = 2 ^ 17

-- `flags & flag`, for one flag.
abbrev pub has_flag : ℕ → ℕ → Bool
has_flag flags flag = flags / flag % 2 == 1

pub record InstDef : Type 0 where
  pub flags : ℕ
  pub out1 : Operand
  pub out2 : Operand
  pub in1 : Operand
  pub in2 : Operand
  pub in3 : Operand

abbrev pub inst : ℕ → Operand → Operand → Operand → Operand → Operand → InstDef
inst flags out1 out2 in1 in2 in3 = record {
  flags = flags;
  out1 = out1;
  out2 = out2;
  in1 = in1;
  in2 = in2;
  in3 = in3;
}

abbrev pub nop : ℕ
nop = 1

abbrev pub jump : ℕ
jump = 2

abbrev pub beq : ℕ
beq = 6

abbrev pub bne : ℕ
bne = 7

abbrev pub lw : ℕ
lw = 18

abbrev pub sw : ℕ
sw = 26

abbrev pub add : ℕ
add = 52

abbrev pub addi : ℕ
addi = 53

abbrev pub addu : ℕ
addu = 54

abbrev pub addiu : ℕ
addiu = 55

abbrev pub multu : ℕ
multu = 59

abbrev pub mflo : ℕ
mflo = 64

abbrev pub andi : ℕ
andi = 67

abbrev pub sll : ℕ
sll = 73

abbrev pub slti : ℕ
slti = 80

abbrev pub addok : ℕ
addok = 83

abbrev pub bitcount : ℕ
bitcount = 84

abbrev pub syscall : ℕ
syscall = 113

abbrev pub lui : ℕ
lui = 115
