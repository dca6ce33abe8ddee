-- ===== src/Pipe/Straight/Runs.antt =====
-- A program of a load, an addition and a store, on the pipeline of Project2/sim-pipe.c and on the
-- functional simulator, over a table of words.
use computer_architecture.Base.{
  ℕ, ◌+◌, ◌*◌, ◌^◌, ◌≤◌, ◌<◌, ◌≡◌, refl, none, some, inl, inr, false, update, arith,
}
use computer_architecture.Memory.Table.{table}
use computer_architecture.Isa.{lw, sw, addu, operand}
use computer_architecture.Pipe.State.{Regs, Sim}
use computer_architecture.Pipe.Init.{sim_init, static_sim}
use computer_architecture.Pipe.Stages.{
  SysSyscall, do_if, pipeline_control, do_wb, do_mem, do_ex, do_forward,
}
use computer_architecture.Pipe.Main.{Loader, sim_load_prog, sim_start, round, sim_main}
use computer_architecture.Pipe.Routed.{IsRouted, run-IsRouted}
use computer_architecture.Pipe.Decode.{do_id}
use computer_architecture.Pipe.Alu.{alu}
use computer_architecture.Cache.Access.{cache_read}
use computer_architecture.Cache.Set.{init_cache}
use computer_architecture.Cache.Line.{malloc_cache_line}
use computer_architecture.Isa.Table.{def_inst}
use computer_architecture.Pipe.Straight.Program.{IsStraight}
use computer_architecture.Pipe.Straight.Going.{as_fast}
use computer_architecture.Pipe.Straight.Boot.{fast_start, program-refines}
use computer_architecture.Fast.Insts.{execute, result}
use computer_architecture.Fast.Main.{step, run_fast}

-- A system call ends the run.
abbrev sys_none : SysSyscall (ℕ → ℕ)
sys_none regs mem i = none

-- `lw $3,8($1)`, `addu $4,$3,$3` and `sw $4,12($1)`, with 21 at the address of the load.
abbrev memory : ℕ → ℕ
memory =
    update
      (update
        (update
          (update
            (update (update (update (λ a. 0) 0x10000008 21) 0x400100 lw) 0x400104
              (1 * 2 ^ 24 + 3 * 2 ^ 16 + 8))
            0x400108 addu)
          0x40010c (3 * 2 ^ 24 + 3 * 2 ^ 16 + 4 * 2 ^ 8))
        0x400110 sw)
      0x400114 (1 * 2 ^ 24 + 4 * 2 ^ 16 + 12)

abbrev loaded_regs : Regs
loaded_regs = update (λ n. 0) 1 0x10000000

abbrev loader : Loader (ℕ → ℕ)
loader regs mem = (0x400100, loaded_regs, memory)

abbrev InProgram : ℕ → Type 0
InProgram a = (0x400100 ≤ a) × (a < 0x400118)

abbrev zero_regs : Regs
zero_regs n = 0

-- The pipeline in front of its loop.
abbrev booted : Sim (ℕ → ℕ)
booted =
    let (pc, s) =
      sim_load_prog loader (sim_init zero_regs zero_regs (static_sim zero_regs zero_regs)) in
    elim (sim_start false false pc s) [ none ↦ s | some t ↦ t ]

starts :
    let (pc, s) =
      sim_load_prog loader (sim_init zero_regs zero_regs (static_sim zero_regs zero_regs)) in
    sim_start false false pc s ≡ some booted
unfolding sim_load_prog sim_start
starts = refl

fits : (n : ℕ) → loaded_regs n < 2 ^ 32
fits n = ground arith

straight : IsStraight InProgram sys_none 3 none (fast_start table 0x400100 loaded_regs memory)
unfolding IsStraight step execute result
straight = (
  record {
    first_word = omega arith;
    second_word = omega arith;
    can = inr (inl refl);
    reach = (λ _. refl, λ e. absurd (omega (arith, e)));
    target = inr (omega arith);
    apart = λ l e _ _. absurd (ground (arith, e));
  },
  (
    record {
      first_word = omega arith;
      second_word = omega arith;
      can = inl (inr (inr (inl refl)), (_, refl));
      reach = (λ k. absurd (ground (arith, k)), λ e. absurd (omega (arith, e)));
      target = inr (omega arith);
      apart = λ l e h _. absurd (omega (arith, h));
    },
    (
      record {
        first_word = omega arith;
        second_word = omega arith;
        can = inr (inr refl);
        reach = (λ _. refl, λ e h. omega (arith, h));
        target = inl refl;
        apart = λ l e h _. absurd (omega (arith, h));
      },
      tt,
    ),
  ),
)

program-refines_example :
    (rounds : ℕ) × (t : Sim (ℕ → ℕ)) × (3 < rounds)
    × (rounds ≤ 7)
    × (sim_main table sys_none rounds booted ≡ some t)
    × (run_fast table sys_none 3 (fast_start table 0x400100 loaded_regs memory)
        ≡ some (as_fast table t 3))
program-refines_example =
    program-refines table InProgram sys_none sys_none loader zero_regs zero_regs booted 3 starts
      (omega arith, refl) fits straight

-- After five rounds, with the load in the pipeline.
abbrev ran : Sim (ℕ → ℕ)
ran = elim (sim_main table sys_none 5 booted) [ none ↦ booted | some s ↦ s ]

runs : sim_main table sys_none 5 booted ≡ some ran
unfolding sim_load_prog sim_start sim_main round sim_init do_wb pipeline_control do_if do_forward
    do_id do_ex do_mem cache_read init_cache malloc_cache_line def_inst operand alu
runs = refl

run-IsRouted_example : IsRouted ran
run-IsRouted_example =
    run-IsRouted table sys_none false false loader zero_regs zero_regs 5 booted ran starts runs
