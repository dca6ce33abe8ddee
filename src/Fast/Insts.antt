-- ===== src/Fast/Insts.antt =====
-- What the instructions do: the `_IMPL` macros of Project1/part1/machine.def for the integer
-- instructions that the pipelines know, and for the custom ones.
use Prim.Native.Nat.{bit_and}
use computer_architecture.Base.{
  ℕ, zero, suc, ◌+◌, ◌-◌, ◌*◌, ◌%◌, ◌^◌, Bool, ◌&&◌, ◌||◌, Option, none, some, ◌==◌, if◌then◌else◌,
  update,
}
use computer_architecture.Base.Word.{u32, sub32, bit, sign_extend, slt}
use computer_architecture.Memory.{Memory}
use computer_architecture.Isa.{
  Inst, rs, rt, rd, field, shamt, nop, jump, beq, bne, lw, sw, add, addi, addu, addiu,
  multu as multu_op, mflo, andi, sll, slti, addok, bitcount, syscall, lui,
}
use computer_architecture.Pipe.State.{Regs, lo}
use computer_architecture.Pipe.Decode.{jump_target}
use computer_architecture.Pipe.Alu.{multu}
use computer_architecture.Pipe.Stages.{SysSyscall, set_hi_lo}

pub record Fast (Space : Type 0) : Type 0 where
  pub regs : Regs
  pub mem : Space
  pub pc : ℕ
  pub npc : ℕ
  pub num_insn : ℕ

-- `OVER(X, Y)`; neither subtraction leaves the range of an `int` where it is reached.
unfoldable pub over : ℕ → ℕ → Bool
over x y =
    slt 0 x && (slt 0 y && slt (sub32 (2 ^ 31 - 1) x) y)
    || slt x 0 && (slt y 0 && slt y (sub32 (2 ^ 31 + 1) x))

-- The loop of `BITCOUNT` over the bits `left - 1` to 0, which adds up like the one from 0.
unfoldable pub bit_loop : ℕ → ℕ → ℕ → ℕ
bit_loop n u zero = 0
bit_loop n u (suc left) = bit_loop n u left + (if bit n left == u then 1 else 0)

-- The target of a branch.
abbrev pub relative : ℕ → ℕ → ℕ
relative pc b = u32 (pc + 8 + sign_extend b * 4)

-- What an instruction computes for its register from the operands of its `_IMPL` macro: `s` and
-- `t` are those of `RS` and `RT`, and `b` is the second word. `none` is a fault.
abbrev pub add_impl : ℕ → ℕ → Option ℕ
add_impl s t = if over s t then none else some (u32 (s + t))

abbrev pub addi_impl : ℕ → ℕ → Option ℕ
addi_impl s b = if over s (sign_extend b) then none else some (u32 (s + sign_extend b))

abbrev pub addu_impl : ℕ → ℕ → Option ℕ
addu_impl s t = some (u32 (s + t))

abbrev pub addiu_impl : ℕ → ℕ → Option ℕ
addiu_impl s b = some (u32 (s + sign_extend b))

abbrev pub mflo_impl : Regs → Option ℕ
mflo_impl regs = some (regs lo)

abbrev pub andi_impl : ℕ → ℕ → Option ℕ
andi_impl s b = some (bit_and s (b % 2 ^ 16))

abbrev pub sll_impl : ℕ → ℕ → Option ℕ
sll_impl t b = some (u32 (t * 2 ^ (shamt b % 32)))

abbrev pub slti_impl : ℕ → ℕ → Option ℕ
slti_impl s b = some (if slt s (sign_extend b) then 1 else 0)

abbrev pub addok_impl : ℕ → ℕ → Option ℕ
addok_impl s t = some (if over s t then 0 else 1)

abbrev pub bitcount_impl : ℕ → ℕ → Option ℕ
bitcount_impl s b = some (bit_loop s (b % 2 ^ 16) 32)

abbrev pub lui_impl : ℕ → Option ℕ
lui_impl b = some (u32 (b % 2 ^ 16 * 2 ^ 16))

-- The `switch` on the opcode, for the instructions that compute a register.
unfoldable pub result : ℕ → Regs → ℕ → Option ℕ
unfolding over bit_loop
result op regs b =
    let s = regs (field rs b) in
    let t = regs (field rt b) in
    if op == add
    then add_impl s t
    else if op == addi
    then addi_impl s b
    else if op == addu
    then addu_impl s t
    else if op == addiu
    then addiu_impl s b
    else if op == mflo
    then mflo_impl regs
    else if op == andi
    then andi_impl s b
    else if op == sll
    then sll_impl t b
    else if op == slti
    then slti_impl s b
    else if op == addok
    then addok_impl s t
    else if op == bitcount
    then bitcount_impl s b
    else if op == lui
    then lui_impl b
    else none

-- The register of that value.
abbrev pub target_field : ℕ → ℕ → ℕ
target_field op b =
    if op == add || op == addu || op == mflo || op == sll || op == addok
    then field rd b
    else field rt b

module _ {Space : Type 0} where
  -- `SET_GPR`, unless a fault left the instruction.
  abbrev pub write_result : Fast Space → ℕ → Option ℕ → Fast Space
  write_result m d none = m
  write_result m d (some v) = record m { regs = update m.regs d v }

module _ {Space : Type 0} (M : Memory Space) (sys_syscall : SysSyscall Space) where
  -- The `switch` of the loop. `none` is the end of the run by a system call or `panic`; of the other
  -- opcodes, which the model leaves out, nothing is said but that.
  unfoldable pub execute : ℕ → Inst → Fast Space → Option (Fast Space)
  unfolding result
  execute op i m =
      let b = i.b in
      let s = m.regs (field rs b) in
      let t = m.regs (field rt b) in
      let addr = u32 (s + sign_extend b) in
      if op == nop
      then some m
      else if op == jump
      then some (record m { npc = jump_target m.pc b })
      else if op == beq
      then some (if s == t then record m { npc = relative m.pc b } else m)
      else if op == bne
      then some (if s == t then m else record m { npc = relative m.pc b })
      else if op == lw
      then some (record m { regs = update m.regs (field rt b) (M.read_word m.mem addr) })
      else if op == sw
      then some (record m { mem = M.write_word m.mem addr t })
      else if op == multu_op
      then some (record m { regs = set_hi_lo m.regs (multu t s) })
      else if op == syscall
      then elim (sys_syscall m.regs m.mem i) [
        | none ↦ none
        | some (regs', mem') ↦ some (record m { regs = regs'; mem = mem' })
      ]
      else if op == add
          || op == addi
          || op == addu
          || op == addiu
          || op == mflo
          || op == andi
          || op == sll
          || op == slti
          || op == addok
          || op == bitcount
          || op == lui
      then some (write_result m (target_field op b) (result op m.regs b))
      else none
