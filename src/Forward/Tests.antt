-- ===== src/Forward/Tests.antt =====
-- The theorems of the pipeline with forwarding at concrete states, over a table of words.
use computer_architecture.Base.{ℕ, ◌+◌, ◌*◌, ◌^◌, ◌≡◌, refl, none, some, arith}
use computer_architecture.Memory.Table.{table}
use computer_architecture.Isa.{Inst, add}
use computer_architecture.Pipe.State.{gpr}
use computer_architecture.Pipe.Stages.{SysSyscall}
use computer_architecture.Basic.State.{Sim, static_sim}
use computer_architecture.Forward.Main.{after_wb, round}
use computer_architecture.Forward.Stages.{pipeline_control, do_wb}
use computer_architecture.Forward.Squash.{FlagIsBit, round-executes}
use computer_architecture.Forward.Order.{ordered, IsWritten, round-ordered}

-- A system call that changes nothing.
abbrev sys_nothing : SysSyscall (ℕ → ℕ)
sys_nothing regs mem i = some (regs, mem)

-- `add $3,$2,$1`.
abbrev add_321 : Inst
add_321 = record { a = add; b = 2 * 2 ^ 24 + 1 * 2 ^ 16 + 3 * 2 ^ 8 }

abbrev initial : Sim (ℕ → ℕ)
initial = static_sim (λ n. n) (λ a. a)

-- A taken branch is in `em`, an addition behind it in `de`, and another in `fd`.
abbrev taken : Sim (ℕ → ℕ)
taken = record initial {
  fd = record (initial.fd) { inst = add_321; pc = 0x400110 };
  de = record (initial.de) {
    inst = add_321;
    pc = 0x400108;
    dst_e = some 3;
    dst_m = none;
    alu_a = 5;
  };
  em = record (initial.em) { target = 0x400200; dst_e = none; dst_m = none; val_e = 1 };
  mw = record (initial.mw) { dst_e = some 2; dst_m = none; val_e = 8 };
  ctl = record (initial.ctl) { flag = 1; cond = 2 };
}

abbrev next : Sim (ℕ → ℕ)
next = elim (do_wb sys_nothing (pipeline_control taken)) [
  | none ↦ taken
  | some s ↦ after_wb table sys_nothing s
]

run_round : round table sys_nothing taken ≡ some next
unfolding round do_wb pipeline_control
run_round = refl

round-executes_example : (next.em.inst ≡ add_321) × FlagIsBit next
round-executes_example = round-executes table sys_nothing taken next (omega arith) refl run_round

round-ordered_example :
    (next.de.alu_a ≡ gpr (ordered next) next.de.src_a)
    × (next.de.alu_b ≡ gpr (ordered next) next.de.src_b)
    × (next.de.val_a ≡ gpr (ordered next) next.de.oprand.in1)
    × IsWritten next
round-ordered_example = round-ordered table sys_nothing taken next (omega arith) run_round
