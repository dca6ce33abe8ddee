-- ===== src/Fast/Tests.antt =====
-- Runs of the functional simulator, and its theorems at concrete inputs, over a table of words.
use computer_architecture.Base.{
  ℕ, ◌+◌, ◌*◌, ◌^◌, ◌≡◌, refl, not, ◌==◌, inr, false, some, [], ◌∷◌, arith, update,
}
use mathlib.Core.Option
use computer_architecture.Base.Word.{u32}
use computer_architecture.Memory.Table.{table}
use computer_architecture.Isa.{slti, addok, bitcount}
use computer_architecture.Pipe.State.{Sim}
use computer_architecture.Pipe.Init.{static_sim}
use computer_architecture.Pipe.Decode.{branch_target}
use computer_architecture.Pipe.Stages.{SysSyscall}
use computer_architecture.Fast.Insts.{Fast, over, relative, result}
use computer_architecture.Fast.Main.{run_fast}
use computer_architecture.Fast.Custom.{biased, over_lem}
use computer_architecture.Fast.Agree.{decoded, executed, executed-result, branch_target-relative}

-- A system call that changes nothing.
abbrev sys_nothing : SysSyscall (ℕ → ℕ)
sys_nothing regs mem i = some (regs, mem)

-- `addok $4,$2,$3` and `bitCount $5,$2,1`, at address 0.
abbrev program : ℕ → ℕ
program =
    update
      (update (update (update (λ a. 0) 0 addok) 4 (2 * 2 ^ 24 + 3 * 2 ^ 16 + 4 * 2 ^ 8)) 8 bitcount)
      12 (2 * 2 ^ 24 + 5 * 2 ^ 16 + 1)

abbrev machine_start : Fast (ℕ → ℕ)
machine_start = record {
  regs = update (update (λ n. 0) 2 0x7fffffff) 3 1;
  mem = program;
  pc = 0;
  npc = 8;
  num_insn = 0;
}

-- The sum overflows, and 31 bits are set.
run_program :
    Option.map
      (λ (m : Fast (ℕ → ℕ)). m.regs 4 ∷ m.regs 5 ∷ m.pc ∷ [])
      (run_fast table sys_nothing 2 machine_start)
    ≡ some (0 ∷ 31 ∷ 16 ∷ [])
unfolding run_fast
run_program = refl

over_lem_example :
    over 0x7fffffff 2 ≡ not (biased (u32 (0x7fffffff + 2)) + 2 ^ 31 == biased 0x7fffffff + biased 2)
over_lem_example = over_lem 0x7fffffff 2 (omega arith) (omega arith) (omega arith)

-- `slti $3,$2,-1` is fetched, with -2 in register 2.
abbrev comparing : Sim (ℕ → ℕ)
comparing =
    let s = static_sim (update (λ n. n) 2 0xfffffffe) (λ a. 0) in
    record s {
      fd = record (s.fd) { inst = record { a = slti; b = 2 * 2 ^ 24 + 3 * 2 ^ 16 + 0xffff } };
    }

slti_one : result slti comparing.regs comparing.fd.inst.b ≡ some 1
unfolding result
slti_one = refl

executed-result_example :
    (executed (decoded comparing) ≡ 1) × ((decoded comparing).de.dst_e ≡ some 3)
executed-result_example = executed-result comparing 1 (inr (inr (inr (inr (inr refl))))) slti_one

branch_target-relative_example : (branch_target 0x400100 0xfffc == relative 0x400100 0xfffc) ≡ false
branch_target-relative_example = branch_target-relative 0x400100 0xfffc (omega arith)
