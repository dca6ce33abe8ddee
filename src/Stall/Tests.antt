-- ===== src/Stall/Tests.antt =====
-- The theorems of the pipeline that stalls at concrete states, over a table of words.
use computer_architecture.Base.{ℕ, ◌+◌, ◌*◌, ◌^◌, ◌≡◌, refl, true, false, some, none, arith, update}
use computer_architecture.Memory.Table.{table}
use computer_architecture.Isa.{Inst, nop, add, bne, operand}
use computer_architecture.Isa.Table.{def_inst}
use computer_architecture.Pipe.State.{alu_add, mask_bit}
use computer_architecture.Pipe.Decode.{fill_operands}
use computer_architecture.Pipe.Alu.{alu}
use computer_architecture.Basic.State.{Sim, static_sim}
use computer_architecture.Stall.Stages.{pipeline_control, do_wb, do_mem, do_id, do_ex, do_if}
use computer_architecture.Pipe.Stages.{SysSyscall}
use computer_architecture.Basic.Decode.{dispatch}
use computer_architecture.Stall.Main.{round}
use computer_architecture.Stall.Branch.{IsResolved, round-IsResolved}
use computer_architecture.Stall.Bubbles.{do_ex-repeats, do_id-clears}

-- A system call that changes nothing.
abbrev sys_nothing : SysSyscall (ℕ → ℕ)
sys_nothing regs mem i = some (regs, mem)

-- `add $3,$2,$1`.
abbrev add_321 : Inst
add_321 = record { a = add; b = 2 * 2 ^ 24 + 1 * 2 ^ 16 + 3 * 2 ^ 8 }

abbrev initial : Sim (ℕ → ℕ)
initial = static_sim (λ n. n) (λ a. a)

-- The addition is fetched, behind one that writes register `r`, which is marked.
abbrev marked : ℕ → Sim (ℕ → ℕ)
marked r = record initial {
  fd = record (initial.fd) { inst = add_321; pc = 0x400108 };
  de = record (initial.de) {
    inst = add_321;
    pc = 0x400100;
    func = alu_add;
    alu_a = 5;
    alu_b = 6;
    val_a = 7;
    dst_e = some r;
    dst_m = none;
  };
  ctl = record (initial.ctl) { regs = update (λ n. false) r true };
}

do_ex-repeats_example :
    let em = (do_ex (pipeline_control (do_if table (do_id (marked 2))))).em in
    (em.inst.a ≡ nop)
    × (em.val_e ≡ alu alu_add 5 6)
    × (em.dst_e ≡ some 2)
    × (em.dst_m ≡ none)
    × (em.rw ≡ 0)
    × (em.val_a ≡ 7)
unfolding fill_operands def_inst operand
do_ex-repeats_example = do_ex-repeats table (marked 2) (omega arith) refl

do_id-clears_example : (do_id (marked 3)).ctl.regs (mask_bit (some 3)) ≡ false
unfolding fill_operands def_inst operand
do_id-clears_example = do_id-clears (marked 3) 3 (omega arith) refl refl refl

-- `bne $2,$3,4` is fetched; register 2 is not register 3.
abbrev branching : Sim (ℕ → ℕ)
branching = record initial {
  fd = record (initial.fd) {
    inst = record { a = bne; b = 2 * 2 ^ 24 + 3 * 2 ^ 16 + 4 };
    pc = 0x400100;
  };
}

abbrev resolved : Sim (ℕ → ℕ)
resolved = elim (round table sys_nothing (do_if table (do_id branching))) [
  | none ↦ branching
  | some s ↦ s
]

run_branching : round table sys_nothing (do_if table (do_id branching)) ≡ some resolved
unfolding round do_wb pipeline_control do_if do_id do_ex do_mem fill_operands def_inst operand
    dispatch alu
run_branching = refl

round-IsResolved_example : IsResolved table branching resolved
unfolding fill_operands def_inst operand
round-IsResolved_example =
    round-IsResolved table sys_nothing branching resolved refl refl refl (omega arith) (omega arith)
      run_branching
